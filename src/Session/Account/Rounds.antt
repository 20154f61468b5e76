-- ===== src/Session/Account/Rounds.antt =====
-- The account of a server's queue in its rounds.
use multisync.Base.{
  ℕ, ◌+◌, ◌<◌, ◌≡◌, refl, sym, ap, subst, ◌∙◌, [], ◌∷◌, Bytes, length, ltb, arith, ok, >>=-eq-ok,
  ok-injective, inl, inr, if◌then◌else◌, Bool-cases, ltb→lt,
}
use multisync.Platform.{Platform}
use multisync.BlockInfo.{increment, to_unsigned, get_block-increment}
use multisync.BlockInfo
use multisync.Socket.{SocketAddress, Inet, OpenReply, open_socket, set_address, select_status}
use multisync.Socket
use multisync.Socket.Polling.{can_read, can_write}
use multisync.BlockServer.{BlockServer, Event, offer_block, send_front, select, process_message}
use multisync.BlockServer.Blocks.{file_of}
use multisync.Session.{Offer, IsOffer, count}
use multisync.Session.Serving.{sent_after, block, offer_ok}
use multisync.Session.Starting.{announcement, announcement_packet}
use multisync.Session.Server.{Keeps, process_message-Answers}
use multisync.Session.Rounds.{skipped, send_front_cases}
use multisync.Session.Draining.{buffers}
use multisync.Session.Account.{queues, answers, Book, Book-append, Book-same, Book-skip}

module _ (p : Platform) (o : Offer) (to : SocketAddress) {name : Bytes} (v : IsOffer o name) where
  send_front-Book :
      (i : ℕ) (e : Event) (s s' : BlockServer)
      → Book p o to i s
      → send_front p e.sent s ≡ ok s'
      → Book p o to i s'
  send_front-Book i e s s' b done =
      let (m, rest, q, same) = send_front_cases p e.sent s s' done in
      subst (Book p o to i) (sym same) (record {
        turns = b.turns;
        at = b.at;
        address = b.address;
        account =
            ap (λ n. sent_after to (buffers rest) ((n, m.buffer) ∷ s.socket.sent)) b.address
            ∙ ap (λ n. sent_after to (buffers n) s.socket.sent) (sym q)
            ∙ b.account;
      })

  process_message-Book :
      (i : ℕ) (e : Event) (s s' : BlockServer)
      → Keeps p o i s
      → Book p o to i s
      → process_message p e.received s ≡ ok s'
      → Book p o to i s'
  process_message-Book i e s s' k b done =
      let (socket', sent, to', a) = process_message-Answers p e.received s s' done in
      let sent' = ap (λ (n : Socket.BlockSocket). n.sent) a.socket ∙ sent in
      let address = ap (λ (n : Socket.BlockSocket). n.to) a.socket ∙ to' in
      elim a.queue [
        | inl same ↦ Book-same p o to i s s' b sent' address same
        | inr more ↦
            Book-append p o to i i answers (announcement p s) s s' b sent' address more
              (ap (λ n. n ∷ []) (sym (announcement_packet p o s v k.serves k.path))) (omega arith)
      ]

  pub select-Book :
      (i : ℕ) (e : Event) (s s' : BlockServer)
      → Keeps p o i s
      → Book p o to i s
      → select p e s ≡ ok s'
      → Book p o to i s'
  unfolding select
  select-Book i e s s' k b done =
      let (st, e₁, r₁) = >>=-eq-ok (select_status _ e.selected e.readable e.writable) _ done in
      let (s₁, e₂, r₂) =
        >>=-eq-ok (if can_read st then process_message p e.received s else ok s) _ r₁ in
      let read : Book p o to i s₁ = elim (Bool-cases (can_read st)) [
        | inl reads ↦ process_message-Book i e s s₁ k b (cc (e₂, reads))
        | inr deaf ↦ subst (Book p o to i) (ok-injective (cc (e₂, deaf))) b
      ] in
      elim (Bool-cases (can_write st)) [
        | inl writes ↦ send_front-Book i e s₁ s' read (cc (r₂, writes))
        | inr mute ↦ subst (Book p o to i) (ok-injective (cc (r₂, mute))) read
      ]

  pub offer_block-Book :
      (i : ℕ) (s s' : BlockServer)
      → i < count o
      → Keeps p o i s
      → Book p o to i s
      → offer_block p (BlockInfo.construct p (file_of p o.digest (count o)) i) s ≡ ok s'
      → Book p o to (i + 1) s'
  offer_block-Book i s s' h k b e = elim (Bool-cases (ltb (length s.message_queue) 5)) [
    | inl room ↦
        subst (Book p o to (i + 1))
          (ok-injective (sym (offer_ok p o v i s k.serves h (ltb→lt _ 5 room)) ∙ e))
          (Book-append p o to i (i + 1) queues (block p o v i) s _ b refl refl refl refl
            (omega arith))
    | inr full ↦
        subst (Book p o to (i + 1)) (ok-injective (sym (skipped p o i s full) ∙ e))
          (Book-skip p o to i s b)
  ]
