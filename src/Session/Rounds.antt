-- ===== src/Session/Rounds.antt =====
-- The rounds of the server keep what it queues and sends to its announcement and its blocks.
use multisync.Base.{
  ℕ, ◌+◌, ◌<◌, ◌≡◌, refl, sym, ap, subst, ◌∙◌, Bool, true, false, List, [], ◌∷◌, Bytes, length, ltb,
  arith, ok, undefined, ◌>>=◌, >>=-eq-ok, ok-injective, ◌⊎◌, inl, inr, if◌then◌else◌, Bool-cases,
  ltb→lt,
}
use multisync.Platform.{Platform}
use multisync.BlockInfo
use multisync.Message.{Message}
use multisync.Socket.{BlockSocket, SendReply, send, select_status}
use multisync.Socket.Polling.{can_read, can_write}
use multisync.BlockServer.{BlockServer, Event, offer_block, send_front, select, process_message}
use multisync.BlockServer.Blocks.{file_of}
use multisync.Session.{Offer, IsOffer, count}
use multisync.Session.Serving.{block, after_block-Serves, offer_ok}
use multisync.Session.Receiving.{Datagram}
use multisync.Session.Server.{AllQueued, AllQueued-append, Keeps, process_message-Keeps}

pub send_inv :
    (p : Platform) (r : SendReply) (m : Message) (s s' : BlockSocket)
    → send p r m s ≡ ok s'
    → s' ≡ record s { sent = (s.to, m.buffer) ∷ s.sent }
unfolding send
send_inv p SendReply.send_failed m s s' e = cc e
send_inv p (SendReply.sent_bytes n) m s s' e = ground arith

pub skipped :
    (p : Platform) (o : Offer) (i : ℕ) (s : BlockServer)
    → ltb (length s.message_queue) 5 ≡ false
    → offer_block p (BlockInfo.construct p (file_of p o.digest (count o)) i) s ≡ ok s
unfolding offer_block
skipped p o i s full = rw full refl

pub queue_cases :
    (ms : List Message) → (ms ≡ []) ⊎ ((m : Message) × (rest : List Message) × (ms ≡ m ∷ rest))
queue_cases [] = inl refl
queue_cases (m ∷ rest) = inr (m, rest, refl)

send_front_empty :
    (p : Platform) (r : SendReply) (s : BlockServer)
    → s.message_queue ≡ []
    → send_front p r s ≡ undefined
unfolding send_front
send_front_empty p r s q = rw (q, send_front)

pub send_front_first :
    (p : Platform) (r : SendReply) (s : BlockServer) (m : Message) (rest : List Message)
    → s.message_queue ≡ m ∷ rest
    → send_front p r s
      ≡ (send p r m s.socket >>= λ k. ok (record s { socket = k; message_queue = rest }))
unfolding send_front
send_front_first p r s m rest q = simp (q, send_front)

pub send_front_cases :
    (p : Platform) (r : SendReply) (s s' : BlockServer)
    → send_front p r s ≡ ok s'
    → (m : Message) × (rest : List Message) × (s.message_queue ≡ m ∷ rest)
      × (s' ≡ record s {
        socket = record s.socket { sent = (s.socket.to, m.buffer) ∷ s.socket.sent };
        message_queue = rest;
      })
send_front_cases p r s s' e = elim (queue_cases s.message_queue) [
  | inl q ↦ absurd (cc (send_front_empty p r s q, e))
  | inr (m, rest, q) ↦
      let (k, e₁, e₂) =
        >>=-eq-ok (send p r m s.socket) _ (sym (send_front_first p r s m rest q) ∙ e) in
      (
        m,
        rest,
        q,
        sym (ok-injective e₂)
            ∙ ap (λ z. record s { socket = z; message_queue = rest })
                (send_inv p r m s.socket k e₁),
      )
]

module _ (p : Platform) (o : Offer) {name : Bytes} (v : IsOffer o name) where
  send_front-Keeps :
      (i : ℕ) (r : SendReply) (s s' : BlockServer)
      → Keeps p o i s
      → send_front p r s ≡ ok s'
      → Keeps p o i s'
  send_front-Keeps i r s s' k e =
      let (m, rest, q, same) = send_front_cases p r s s' e in
      let (head, tail) = subst (AllQueued p o) q k.queued in
      subst (Keeps p o i) (sym same) (record {
        serves = record {
          info = k.serves.info;
          contents = k.serves.contents;
          bad = k.serves.bad;
          good = k.serves.good;
          named = k.serves.named;
        };
        path = k.path;
        queued = tail;
        sent = (head, k.sent);
      })

  read_or_not :
      (i : ℕ) (b : Bool) (e : Event) (s s' : BlockServer)
      → Keeps p o i s
      → (if b then process_message p e.received s else ok s) ≡ ok s'
      → Keeps p o i s'
  read_or_not i true e s s' k done = process_message-Keeps p o v i e.received s s' k done
  read_or_not i false e s s' k done = subst (Keeps p o i) (ok-injective done) k

  write_or_not :
      (i : ℕ) (b : Bool) (e : Event) (s s' : BlockServer)
      → Keeps p o i s
      → (if b then send_front p e.sent s else ok s) ≡ ok s'
      → Keeps p o i s'
  write_or_not i true e s s' k done = send_front-Keeps i e.sent s s' k done
  write_or_not i false e s s' k done = subst (Keeps p o i) (ok-injective done) k

  pub select-Keeps :
      (i : ℕ) (e : Event) (s s' : BlockServer)
      → Keeps p o i s
      → select p e s ≡ ok s'
      → Keeps p o i s'
  unfolding select
  select-Keeps i e s s' k done =
      let (st, e₁, r₁) = >>=-eq-ok (select_status _ e.selected e.readable e.writable) _ done in
      let (s₁, e₂, r₂) =
        >>=-eq-ok (if can_read st then process_message p e.received s else ok s) _ r₁ in
      write_or_not i (can_write st) e s₁ s' (read_or_not i (can_read st) e s s₁ k e₂) r₂

  -- The loop's offer of block `i`, whether or not the queue has room for it.
  pub offer_block-Keeps :
      (i : ℕ) (s s' : BlockServer)
      → i < count o
      → Keeps p o i s
      → offer_block p (BlockInfo.construct p (file_of p o.digest (count o)) i) s ≡ ok s'
      → Keeps p o (i + 1) s'
  offer_block-Keeps i s s' h k e = elim (Bool-cases (ltb (length s.message_queue) 5)) [
    | inl room ↦
        subst (Keeps p o (i + 1))
          (ok-injective (sym (offer_ok p o v i s k.serves h (ltb→lt _ 5 room)) ∙ e))
          (record {
            serves = after_block-Serves p o v i s k.serves h;
            path = k.path;
            queued =
                AllQueued-append p o s.message_queue (block p o v i) k.queued
                  (Datagram.block i, h, refl);
            sent = k.sent;
          })
    | inr full ↦ subst (Keeps p o (i + 1)) (ok-injective (sym (skipped p o i s full) ∙ e)) (record {
      serves = record {
        info = k.serves.info;
        contents = k.serves.contents;
        bad = k.serves.bad;
        good = λ l. k.serves.good h;
        named = k.serves.named;
      };
      path = k.path;
      queued = k.queued;
      sent = k.sent;
    })
  ]
