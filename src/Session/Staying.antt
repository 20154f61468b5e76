-- ===== src/Session/Staying.antt =====
-- A server that a client has joined, and the messages that the clients of this program send.
use multisync.Base.{
  ℕ, ◌^◌, ◌<◌, ◌≡◌, ◌≢◌, refl, sym, ap, subst, ◌∙◌, Bool, true, false, some, List, [], ◌∷◌, Bytes,
  length, arith, ok, ◌>>=◌, >>=-eq-ok, ok-injective, ◌⊎◌, inl, inr, if◌then◌else◌,
}
use multisync.Platform.{Platform}
use multisync.OrderedMap.{OrderedMap, insert}
use multisync.HostInfo
use multisync.HostInfo.{HostInfo}
use multisync.Message.{
  Message, for_input, empty, of_metadata, get_metadata, get_type, type_chello, type_cgoodbye,
}
use multisync.Message.Packet.{packet, of_metadata-packet, empty-packet}
use multisync.Message.Wire.{get_type-packet}
use multisync.Socket.{SocketAddress, ReceiveReply, SendReply, select_status}
use multisync.Socket.Polling.{can_read, can_write}
use multisync.Socket.Transport.{receive_ok, length-for_input}
use multisync.BlockServer.{
  BlockServer, Event, Handler, finished, find_handler, handle_chello, handle_cgoodbye, dispatch,
  process_message, send_front, select, is_busy, serve_requests, has_messages,
}
use multisync.BlockServer.Hosts.{handle_cgoodbye-throws}
use multisync.BlockServer.Rounds.{quiet_status}
use multisync.Session.Packets.{Fits, packet-Fits}

-- What the clients of this program send: the hello of a process, and a goodbye.
pub data Request : Type 0 where
  hello : ℕ → ℕ → Request
  goodbye : ℕ → Request

abbrev pub request_bytes : Platform → Request → Bytes
request_bytes q (hello sender pid) =
    (of_metadata q (HostInfo.pod q) sender type_chello (HostInfo.construct q pid)).buffer
request_bytes q (goodbye sender) = (empty q sender type_cgoodbye).buffer

-- In these rounds nothing is received but requests of clients on hosts like `q`.
abbrev pub FromClients : Platform → List Event → Type 0
FromClients q [] = Unit {0}
FromClients q (e ∷ events) =
    ((e.readable ≡ false)
      ⊎ ((a : SocketAddress) × (r : Request) × (e.received
            ≡ ReceiveReply.datagram a (request_bytes q r))))
    × FromClients q events

insert_some :
    (k : HostInfo) (m : OrderedMap HostInfo (Unit {0})) → insert HostInfo.order k tt m ≢ []
unfolding insert
insert_some k [] e = cc e
insert_some k ((j, w) ∷ m) e = ground arith

pub host_object :
    (q : Platform) (pid : ℕ) → length ((HostInfo.pod q).object (HostInfo.construct q pid)) ≡ 4
unfolding HostInfo.pod
host_object q pid = HostInfo.length-store32 q (HostInfo.construct q pid) (host_value q pid)
  where
    host_value : (q : Platform) (pid : ℕ) → (HostInfo.construct q pid).id < 2 ^ 32
    host_value q pid = HostInfo.construct-IsValue q pid

pub host_size : (q : Platform) → (HostInfo.pod q).sizeof ≡ 4
unfolding HostInfo.pod
host_size q = refl

pub hello-packet :
    (q : Platform) (sender pid : ℕ)
    → request_bytes q (hello sender pid)
      ≡ packet q sender type_chello ((HostInfo.pod q).object (HostInfo.construct q pid)) []
hello-packet q sender pid =
    of_metadata-packet q (HostInfo.pod q) sender type_chello (HostInfo.construct q pid)
      (HostInfo.construct-IsValue q pid) (omega (arith, host_size q))

pub goodbye-packet :
    (q : Platform) (sender : ℕ)
    → request_bytes q (goodbye sender) ≡ packet q sender type_cgoodbye [] []
goodbye-packet q sender = empty-packet q sender type_cgoodbye

pub request-Fits : (q : Platform) (r : Request) → Fits (request_bytes q r)
request-Fits q (hello sender pid) = subst Fits (sym (hello-packet q sender pid)) (
    packet-Fits q sender type_chello ((HostInfo.pod q).object (HostInfo.construct q pid)) []
      (omega (arith, host_object q pid)))
request-Fits q (goodbye sender) =
    subst Fits (sym (goodbye-packet q sender))
      (packet-Fits q sender type_cgoodbye [] [] (omega arith))

chello_joins :
    (p : Platform) (m : Message) (s s' : BlockServer)
    → handle_chello p m s ≡ ok s'
    → s'.host_info ≢ []
unfolding handle_chello
chello_joins p m s s' e none_left =
    let (host, e₁, e₂) = >>=-eq-ok (get_metadata p (HostInfo.pod p) m) _ e in
    insert_some host s.host_info (ap (λ z. z.host_info) (ok-injective e₂) ∙ none_left)

pub find_chello : find_handler type_chello ≡ some Handler.chello
unfolding find_handler
find_chello = refl

pub find_cgoodbye : find_handler type_cgoodbye ≡ some Handler.cgoodbye
unfolding find_handler
find_cgoodbye = refl

-- A message of a client is handled, and leaves the set with a host in it.
dispatched :
    (p q : Platform) (r : Request) (m : Message) (s s' : BlockServer)
    → m.buffer ≡ request_bytes q r
    → dispatch p (find_handler (get_type p m)) m s ≡ ok s'
    → s'.host_info ≢ []
unfolding dispatch
dispatched p q (hello sender pid) m s s' b e =
    let told =
      get_type-packet q p sender type_chello _ [] m (b ∙ hello-packet q sender pid) (omega arith) in
    chello_joins p m s s' (
      ap (λ h. dispatch p h m s) (sym find_chello)
      ∙ ap (λ t. dispatch p (find_handler t) m s) (sym told)
      ∙ e)
dispatched p q (goodbye sender) m s s' b e =
    let told =
      get_type-packet q p sender type_cgoodbye [] [] m (b ∙ goodbye-packet q sender)
        (omega arith) in
    let thrown : handle_cgoodbye p m s ≡ ok s' =
      ap (λ h. dispatch p h m s) (sym find_cgoodbye)
      ∙ ap (λ t. dispatch p (find_handler t) m s) (sym told)
      ∙ e in
    absurd (cc (handle_cgoodbye-throws p q sender m s b, thrown))

processed :
    (p q : Platform) (a : SocketAddress) (r : Request) (s s' : BlockServer)
    → process_message p (ReceiveReply.datagram a (request_bytes q r)) s ≡ ok s'
    → s'.host_info ≢ []
unfolding process_message
processed p q a r s s' e =
    let f = request-Fits q r in
    let got =
      receive_ok p a (request_bytes q r) (for_input p 4096) s.socket
        (omega (arith, f.at_most, length-for_input p 4096)) f.at_least (f.told p) in
    dispatched p q r _ _ s' refl (
      ap
        (λ z. z >>= λ x. dispatch p (find_handler (get_type p x.0)) x.0 (record s { socket = x.1 }))
        (sym got)
      ∙ e)

send_front_hosts :
    (p : Platform) (r : SendReply) (s s' : BlockServer)
    → send_front p r s ≡ ok s'
    → s'.host_info ≡ s.host_info
unfolding send_front
send_front_hosts p r s s' e = ground arith

read_or_not :
    (p : Platform) (b : Bool) (e : Event) (s s' : BlockServer)
    → s.host_info ≢ []
    → (b ≡ false)
      ⊎ ((s₁ : BlockServer) → process_message p e.received s ≡ ok s₁ → s₁.host_info ≢ [])
    → (if b then process_message p e.received s else ok s) ≡ ok s'
    → s'.host_info ≢ []
read_or_not p true e s s' some_left (inl deaf) r = absurd (cc deaf)
read_or_not p true e s s' some_left (inr reads) r = reads s' r
read_or_not p false e s s' some_left reads r =
    λ n. some_left (ap (λ z. z.host_info) (ok-injective r) ∙ n)

write_or_not :
    (p : Platform) (b : Bool) (r : SendReply) (s s' : BlockServer)
    → s.host_info ≢ []
    → (if b then send_front p r s else ok s) ≡ ok s'
    → s'.host_info ≢ []
write_or_not p true r s s' some_left e = λ n. some_left (sym (send_front_hosts p r s s' e) ∙ n)
write_or_not p false r s s' some_left e =
    λ n. some_left (ap (λ z. z.host_info) (ok-injective e) ∙ n)

pub round_stays :
    (p q : Platform) (e : Event) (events : List Event) (s s' : BlockServer)
    → FromClients q (e ∷ events)
    → s.host_info ≢ []
    → select p e s ≡ ok s'
    → s'.host_info ≢ []
unfolding select
round_stays p q e events s s' (from, later) some_left r =
    let (st, e₁, r₁) =
      >>=-eq-ok (select_status (has_messages s.message_queue) e.selected e.readable e.writable) _
        r in
    let (s₁, e₂, r₂) =
      >>=-eq-ok (if can_read st then process_message p e.received s else ok s) _ r₁ in
    write_or_not p (can_write st) e.sent s₁ s'
      (read_or_not p (can_read st) e s s₁ some_left
        (elim from [
          | inl deaf ↦ inl (
              quiet_status (has_messages s.message_queue) e.writable e.selected st (
                subst
                  (λ b.
                    select_status (has_messages s.message_queue) e.selected b e.writable ≡ ok st)
                  deaf e₁))
          | inr (a, request, hears) ↦ inr (λ s₂ done.
              processed p q a request s s₂ (ap (λ z. process_message p z s) (sym hears) ∙ done))
        ])
        e₂)
      r₂

pub busy : (s : BlockServer) → s.host_info ≢ [] → is_busy s ≡ true
busy s some_left = elim (hosts_cases s.host_info) [
  | inl none_left ↦ absurd (some_left none_left)
  | inr (h, hs, e) ↦ simp e
]
  where
    hosts_cases :
        (m : OrderedMap HostInfo (Unit {0}))
        → (m ≡ [])
          ⊎ ((h : HostInfo × Unit {0}) × (hs : OrderedMap HostInfo (Unit {0})) × (m ≡ h ∷ hs))
    hosts_cases [] = inl refl
    hosts_cases (h ∷ hs) = inr (h, hs, refl)

-- In its second loop a server that a client has joined does not come to the end of the loop, whatever
-- the clients of this program send it, on hosts of any byte order, and however often its socket can
-- be written.
pub serve_requests_stays :
    (p q : Platform) (events rest : List Event) (s r : BlockServer)
    → FromClients q events
    → s.host_info ≢ []
    → serve_requests p events s ≢ ok (finished r rest)
unfolding serve_requests
serve_requests_stays p q [] rest s r from some_left e = cc (rw (busy s some_left) at e)
serve_requests_stays p q (ev ∷ events) rest s r from some_left e =
    let (s', e₁, e₂) = >>=-eq-ok (select p ev s) _ (rw (busy s some_left) at e) in
    serve_requests_stays p q events rest s' r from.1
      (round_stays p q ev events s s' from some_left e₁) e₂
