-- ===== src/Session/Waiting.antt =====
-- A server that a client has joined waits, or throws: the rounds of its second loop never come to an
-- end or to undefined behaviour.
pub mod Rounds
use multisync.Base.{
  ℕ, ◌≡◌, ◌≢◌, refl, sym, ap, subst, ◌∙◌, Bool, true, false, ◌&&◌, List, [], ◌∷◌, Bytes, length,
  ltb, ◌==◌, arith, Result, Error, ok, throw, ◌>>=◌, >>=-eq-ok, ok-injective, ◌++◌, le→leb,
  ltb-false→le, eq→==, ◌⊎◌, inl, inr, if◌then◌else◌, Bool-cases,
}
use multisync.Platform.{Platform}
use multisync.HostInfo
use multisync.OrderedMap
use multisync.Message.{
  get_packet_length, Message, for_input, get_metadata, get_type, type_chello, type_cgoodbye,
}
use multisync.Message.Wire.{get_type-packet, get_metadata-packet}
use multisync.Socket.{BlockSocket, SocketAddress, ReceiveReply, SendReply, send}
use multisync.Socket.Transport.{receive_ok, length-for_input}
use multisync.BlockServer.{
  BlockServer, Event, waiting, Progress, find_handler, handle_chello, dispatch, process_message,
  send_front, select, is_busy, serve_requests, has_messages,
}
use multisync.BlockServer.Hosts.{handle_cgoodbye-throws}
use multisync.BlockServer.Rounds.{Counts, select_lem}
use multisync.Session.Packets.{Fits}
use multisync.Session.Draining.{AllFit}
use multisync.Session.Rounds.{queue_cases, send_front_first}
use multisync.Session.Staying.{
  Request, hello, goodbye, request_bytes, FromClients, host_object, host_size, hello-packet,
  goodbye-packet, request-Fits, find_chello, find_cgoodbye, round_stays, busy,
}

-- In each of these rounds `::select` counts the members that it left in the sets it was handed.
abbrev pub Counted : Platform → List Event → BlockServer → Type 0
Counted p [] s = Unit {0}
Counted p (e ∷ events) s =
    Counts s.message_queue e × ((s' : BlockServer) → select p e s ≡ ok s' → Counted p events s')

-- A goodbye of a client is read in the round.
abbrev pub ReadsGoodbye : Platform → Event → Type 0
ReadsGoodbye q e =
    (e.readable ≡ true)
    × ((a : SocketAddress) × (sender : ℕ) × (e.received
          ≡ ReceiveReply.datagram a (request_bytes q (goodbye sender))))

-- The first of the queue is to be sent in the round, and is not sent as a whole.
abbrev pub FailsSend : Event → List Message → Type 0
FailsSend e queue =
    (m : Message) × (rest : List Message) × (queue ≡ m ∷ rest)
    × (e.writable ≡ true)
    × (e.sent ≢ SendReply.sent_bytes (length m.buffer))

-- Some round, of those that are reached, gives a cause to throw.
abbrev pub Cause : Platform → Platform → List Event → BlockServer → Type 0
Cause p q [] s = ⊥
Cause p q (e ∷ events) s =
    (ReadsGoodbye q e ⊎ FailsSend e s.message_queue)
    ⊎ ((s' : BlockServer) × (select p e s ≡ ok s') × Cause p q events s')

-- It returns, with this queue, or throws, for this cause.
abbrev pub Goes : Type 0 → List Message → Result BlockServer → Type 0
Goes cause queue result =
    ((s : BlockServer) × (result ≡ ok s) × (s.message_queue ≡ queue))
    ⊎ (cause × (message : Error) × (result ≡ throw message))

abbrev sent_number : SendReply → ℕ
sent_number SendReply.send_failed = 0
sent_number (SendReply.sent_bytes n) = n

send_goes :
    (p : Platform) (r : SendReply) (m : Message) (s : BlockSocket)
    → Fits m.buffer
    → ((s' : BlockSocket) × (send p r m s ≡ ok s'))
      ⊎ ((r ≢ SendReply.sent_bytes (length m.buffer))
          × (message : Error) × (send p r m s ≡ throw message))
unfolding send
send_goes p SendReply.send_failed m s f = inr (λ e. cc e, Error.system_error, refl)
send_goes p (SendReply.sent_bytes n) m s f =
    let big = le→leb 16 (length m.buffer) f.at_least in
    elim (Bool-cases (ltb 0 n)) [
      | inr none_sent ↦ inr (
        λ e. omega (arith, ap sent_number e, f.at_least, ltb-false→le 0 n none_sent),
        Error.zero_bytes,
        rw none_sent refl,
      )
      | inl some_sent ↦ elim (Bool-cases (get_packet_length p m.buffer == n)) [
        | inl same ↦
            inl (record s { sent = (s.to, m.buffer) ∷ s.sent }, rw (some_sent, big, same) refl)
        | inr other ↦ inr (
          λ e.
              cc
                (other, eq→== (get_packet_length p m.buffer) n (f.told p ∙ sym (ap sent_number e))),
          Error.invalid_packet_length,
          rw (some_sent, big, other) refl,
        )
      ]
    ]

pub send_front-Goes :
    (p : Platform) (r : SendReply) (s : BlockServer) (m : Message) (rest : List Message)
    → s.message_queue ≡ m ∷ rest
    → Fits m.buffer
    → Goes (r ≢ SendReply.sent_bytes (length m.buffer)) rest (send_front p r s)
send_front-Goes p r s m rest there f = elim (send_goes p r m s.socket f) [
  | inl (k, sent) ↦ inl (
    record s { socket = k; message_queue = rest },
    send_front_first p r s m rest there
        ∙ ap (λ z. z >>= λ k. ok (record s { socket = k; message_queue = rest })) sent,
    refl,
  )
  | inr (cause, message, thrown) ↦ inr (
    cause,
    message,
    send_front_first p r s m rest there
        ∙ ap (λ z. z >>= λ k. ok (record s { socket = k; message_queue = rest })) thrown,
  )
]

-- A hello is handled, and the queue left alone.
chello_goes :
    (p q : Platform) (sender pid : ℕ) (m : Message) (s : BlockServer)
    → m.buffer ≡ request_bytes q (hello sender pid)
    → (s' : BlockServer) × (handle_chello p m s ≡ ok s') × (s'.message_queue ≡ s.message_queue)
unfolding handle_chello
chello_goes p q sender pid m s b =
    let object = (HostInfo.pod q).object (HostInfo.construct q pid) in
    let read =
      get_metadata-packet q p sender type_chello object [] m (b ∙ hello-packet q sender pid)
        (HostInfo.pod p) (host_object q pid ∙ sym (host_size p))
        (omega (arith, host_object q pid)) in
    let host = (HostInfo.pod p).value (object ++ []) in
    (
      record s { host_info = OrderedMap.insert HostInfo.order host tt s.host_info },
      ap
          (λ r. r >>= λ i.
            ok (record s { host_info = OrderedMap.insert HostInfo.order i tt s.host_info }))
          read,
      refl,
    )

dispatch-Goes :
    (p q : Platform) (r : Request) (m : Message) (s : BlockServer)
    → m.buffer ≡ request_bytes q r
    → Goes
        ((sender : ℕ) × (r ≡ goodbye sender))
        s.message_queue
        (dispatch p (find_handler (get_type p m)) m s)
unfolding dispatch
dispatch-Goes p q (hello sender pid) m s b =
    let told =
      get_type-packet q p sender type_chello _ [] m (b ∙ hello-packet q sender pid) (omega arith) in
    let (s', ends, same) = chello_goes p q sender pid m s b in
    inl (
      s',
      ap (λ t. dispatch p (find_handler t) m s) told
          ∙ ap (λ h. dispatch p h m s) find_chello
          ∙ ends,
      same,
    )
dispatch-Goes p q (goodbye sender) m s b =
    let told =
      get_type-packet q p sender type_cgoodbye [] [] m (b ∙ goodbye-packet q sender)
        (omega arith) in
    inr (
      (sender, refl),
      Error.header_size_mismatch,
      ap (λ t. dispatch p (find_handler t) m s) told
          ∙ ap (λ h. dispatch p h m s) find_cgoodbye
          ∙ handle_cgoodbye-throws p q sender m s b,
    )

pub request-Goes :
    (p q : Platform) (a : SocketAddress) (r : Request) (s : BlockServer)
    → Goes
        ((sender : ℕ) × (r ≡ goodbye sender))
        s.message_queue
        (process_message p (ReceiveReply.datagram a (request_bytes q r)) s)
unfolding process_message
request-Goes p q a r s =
    let f = request-Fits q r in
    let got =
      receive_ok p a (request_bytes q r) (for_input p 4096) s.socket
        (omega (arith, f.at_most, length-for_input p 4096)) f.at_least (f.told p) in
    subst (Goes ((sender : ℕ) × (r ≡ goodbye sender)) s.message_queue)
      (ap
        (λ z. z >>= λ x. dispatch p (find_handler (get_type p x.0)) x.0 (record s { socket = x.1 }))
        (sym got))
      (dispatch-Goes p q r (record (for_input p 4096) { buffer = request_bytes q r })
        (record s { socket = record s.socket { from = a } }) refl)
