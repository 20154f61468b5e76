-- ===== src/Session/Replies/Runs.antt =====
-- What a client has sent after its rounds.
use multisync.Base.{
  zero, ℕ, suc, ◌+◌, ◌≡◌, refl, sym, ap, subst, ◌∙◌, List, [], ◌∷◌, ◌++◌, Bytes, replicate,
  replicate-append, ok, >>=-eq-ok, ok-injective, inl, inr, if◌then◌else◌, Bool-cases,
}
use multisync.Platform.{Platform}
use multisync.Stream.{Disk}
use multisync.Message.{Message, for_input, get_type, empty, type_cgoodbye}
use multisync.Socket.{
  BlockSocket, SocketAddress, Inet, OpenReply, SendReply, receive, send, select_status, get_address,
  open_socket,
}
use multisync.Socket
use multisync.Socket.Polling.{can_read, can_write}
use multisync.BlockClient.{
  BlockClient, Event, find_handler, process_message, send_front, select, run, construct, start,
}
use multisync.Session.Serving.{sent_after}
use multisync.Session.Starting.{group_address, open_sent, open_to}
use multisync.Session.Server.{receive_sent, receive_to}
use multisync.Session.Rounds.{send_inv, queue_cases}
use multisync.Session.Draining.{buffers}
use multisync.Session.Account.{sent_after-append, buffers-append}
use multisync.Session.Staying.{hello, goodbye, request_bytes}
use multisync.Session.Replies.{Replies, dispatch-Replies}

-- The hello of the process, and after it goodbyes.
abbrev pub replies : Platform → ℕ → ℕ → ℕ → List Bytes
replies q id pid n = request_bytes q (hello id pid) ∷ replicate n (request_bytes q (goodbye id))

-- What the client has sent, and has in its queue.
record Said (q : Platform) (to : SocketAddress) (id pid : ℕ) (c : BlockClient) : Type 0 where
  named : c.id ≡ id
  address : c.socket.to ≡ to
  goodbyes : ℕ
  account :
      sent_after to (buffers c.message_queue) c.socket.sent
      ≡ sent_after to (replies q id pid goodbyes) []

buffers-replicate : (n : ℕ) (m : Message) → buffers (replicate n m) ≡ replicate n m.buffer
buffers-replicate zero m = refl
buffers-replicate (suc n) m = ap (λ x. m.buffer ∷ x) (buffers-replicate n m)

module _ (q : Platform) (to : SocketAddress) (id pid : ℕ) where
  Replies-Said :
      (c c' : BlockClient) (k : BlockSocket)
      → k.sent ≡ c.socket.sent
      → k.to ≡ c.socket.to
      → Said q to id pid c
      → Replies q (record c { socket = k }) c'
      → Said q to id pid c'
  Replies-Said c c' k sent address s r =
      let bye = request_bytes q (goodbye id) in
      let more = replicate r.count bye in
      record {
        named = r.id ∙ s.named;
        address = ap (λ (n : BlockSocket). n.to) r.socket ∙ address ∙ s.address;
        goodbyes = s.goodbyes + r.count;
        account =
            ap (λ (n : BlockSocket). sent_after to (buffers c'.message_queue) n.sent) r.socket
            ∙ ap (λ n. sent_after to (buffers c'.message_queue) n) sent
            ∙ ap (λ n. sent_after to (buffers n) c.socket.sent)
                (r.queue
                  ∙ ap (λ n. c.message_queue ++ replicate r.count (empty q n type_cgoodbye))
                      s.named)
            ∙ ap (λ n. sent_after to n c.socket.sent)
                (buffers-append c.message_queue (replicate r.count (empty q id type_cgoodbye))
                  ∙ ap (λ n. buffers c.message_queue ++ n)
                      (buffers-replicate r.count (empty q id type_cgoodbye)))
            ∙ sent_after-append to (buffers c.message_queue) more c.socket.sent
            ∙ ap (λ n. sent_after to more n) s.account
            ∙ sym (sent_after-append to (replies q id pid s.goodbyes) more [])
            ∙ ap (λ n. sent_after to (request_bytes q (hello id pid) ∷ n) [])
                (replicate-append s.goodbyes r.count bye);
      }

  process_message-Said :
      (inet : Inet) (e : Event) (c c' : BlockClient)
      → Said q to id pid c
      → process_message q inet e c ≡ ok c'
      → Said q to id pid c'
  unfolding process_message
  process_message-Said inet e c c' s done =
      let (got, e₁, e₂) = >>=-eq-ok (receive q e.received (for_input q 4096) c.socket) _ done in
      Replies-Said c c' got.1 (receive_sent q e.received (for_input q 4096) got.0 c.socket got.1 e₁)
        (receive_to q e.received (for_input q 4096) got.0 c.socket got.1 e₁) s
        (dispatch-Replies q e.fresh got.0 (get_address q inet got.1) (record c { socket = got.1 })
          c' (find_handler (get_type q got.0)) e₂)

  send_front-Said :
      (inet : Inet) (r : SendReply) (c c' : BlockClient)
      → Said q to id pid c
      → send_front q inet r c ≡ ok c'
      → Said q to id pid c'
  unfolding send_front
  send_front-Said inet r c c' s done = elim (queue_cases c.message_queue) [
    | inl none_there ↦ absurd (cc (rw none_there at done))
    | inr (m, rest, there) ↦
        let (k, e₁, e₂) = >>=-eq-ok (send q r m c.socket) _ (rw there at done) in
        let socket = send_inv q r m c.socket k e₁ in
        subst (Said q to id pid) (ok-injective e₂) (record {
          named = s.named;
          address = ap (λ (n : BlockSocket). n.to) socket ∙ s.address;
          goodbyes = s.goodbyes;
          account =
              ap (λ (n : BlockSocket). sent_after to (buffers rest) n.sent) socket
              ∙ ap (λ n. sent_after to (buffers rest) ((n, m.buffer) ∷ c.socket.sent)) s.address
              ∙ ap (λ n. sent_after to (buffers n) c.socket.sent) (sym there)
              ∙ s.account;
        })
  ]

  select-Said :
      (inet : Inet) (e : Event) (c c' : BlockClient)
      → Said q to id pid c
      → select q inet e c ≡ ok c'
      → Said q to id pid c'
  unfolding select
  select-Said inet e c c' s done =
      let (st, e₁, r₁) = >>=-eq-ok (select_status _ e.selected e.readable e.writable) _ done in
      let (c₁, e₂, r₂) =
        >>=-eq-ok (if can_read st then process_message q inet e c else ok c) _ r₁ in
      let read : Said q to id pid c₁ = elim (Bool-cases (can_read st)) [
        | inl reads ↦ process_message-Said inet e c c₁ s (cc (e₂, reads))
        | inr deaf ↦ subst (Said q to id pid) (ok-injective (cc (e₂, deaf))) s
      ] in
      elim (Bool-cases (can_write st)) [
        | inl writes ↦ send_front-Said inet e.sent c₁ c' read (cc (r₂, writes))
        | inr mute ↦ subst (Said q to id pid) (ok-injective (cc (r₂, mute))) read
      ]

  run-Said :
      (inet : Inet) (events : List Event) (c c' : BlockClient)
      → Said q to id pid c
      → run q inet events c ≡ ok c'
      → Said q to id pid c'
  unfolding run
  run-Said inet [] c c' s e = subst (Said q to id pid) (ok-injective e) s
  run-Said inet (ev ∷ events) c c' s e =
      let (c₁, e₁, e₂) = >>=-eq-ok (select q inet ev c) _ e in
      run-Said inet events c₁ c' (select-Said inet ev c c₁ s e₁) e₂

-- What a client sends, whatever reaches it. After its start, and any rounds that return, in which
-- any bytes may arrive, what the client has sent to the group, and after it what is in its queue,
-- is the hello of its process and then goodbyes without metadata, in that order and nothing else:
-- it never asks for an announcement or a block.
pub start-replies :
    (q : Platform) (inet : Inet) (group : Bytes) (port pid junk : ℕ) (unset : SocketAddress)
    (disk : Disk) (opened : OpenReply) (events : List Event) (c : BlockClient)
    → start q inet opened events (construct q inet group port pid junk unset disk) ≡ ok c
    → let to = group_address q inet group port in
      (n : ℕ) × (sent_after to (buffers c.message_queue) c.socket.sent
        ≡ sent_after to (replies q junk pid n) [])
unfolding start construct Socket.construct
start-replies q inet group port pid junk unset disk opened events c e =
    let socket = Socket.construct q inet group port unset in
    let to = group_address q inet group port in
    let (opens, e₁, e₂) = >>=-eq-ok (open_socket opened socket).0 _ e in
    let said =
      run-Said q to junk pid inet events _ c
        (record {
          named = refl;
          address = open_to opened socket;
          goodbyes = 0;
          account = ap (λ n. (to, request_bytes q (hello junk pid)) ∷ n) (open_sent opened socket);
        })
        e₂ in
    (said.goodbyes, said.account)
