-- ===== src/BlockServer/Rounds.antt =====
-- The loops of the server: its queue and its end.
use multisync.Base.{
  ℕ, ◌+◌, ◌^◌, ◌<◌, ◌≤◌, ◌≡◌, refl, subst, ◌∙◌, Bool, false, ◌&&◌, List, [], ◌∷◌, length, ok, ◌>>=◌,
  >>=-eq-ok, ok-injective, arith, Bool-cases, le→ltb-false, ltb→lt, inl, inr, ltb, if◌then◌else◌,
  length-append,
}
use multisync.Platform.{Platform}
use multisync.Platform.Words.{ntohl-htonl}
use multisync.FileInfo.{FileInfo, get_block_count}
use multisync.BlockInfo.{BlockInfo, to_unsigned, increment, construct, get_block-increment}
use multisync.Message.{Message, read_from}
use multisync.Socket.{positive, negative, Signed, Status, SendReply, select_status}
use multisync.Socket.Polling.{bit, can_read, can_write, select_status-exact}
use multisync.BlockServer.{
  BlockServer, Event, enqueue_block, offer_block, process_message, send_front, select, serve_blocks,
  Progress, finished, waiting, has_messages,
}

-- The number that `::select` returns is that of the members it left in the sets it was handed.
abbrev pub Counts : List Message → Event → Type 0
Counts queue e = e.selected ≡ positive (bit e.readable + bit (has_messages queue && e.writable))

-- Where `::select` counts its members, a round reads a message exactly if the socket can be read, and
-- then sends the first of the queue exactly if the queue was not empty before and the socket can be
-- written.
pub select_lem :
    (p : Platform) (e : Event) (s : BlockServer)
    → Counts s.message_queue e
    → select p e s ≡ (
        (if e.readable then process_message p e.received s else ok s) >>= λ s'.
        if has_messages s.message_queue && e.writable then send_front p e.sent s' else ok s')
unfolding select
select_lem p e s c =
    let (st, ends, reads, writes) =
      select_status-exact (has_messages s.message_queue) e.readable e.writable in
    rw (c, ends, reads, writes)

enqueue_block-queue :
    (p : Platform) (i : BlockInfo) (s s' : BlockServer)
    → enqueue_block p i s ≡ ok s'
    → (length s'.message_queue ≡ length s.message_queue + 1) × (s'.file_info ≡ s.file_info)
unfolding enqueue_block
enqueue_block-queue p i s s' e =
    let (filled, e₁, e₂) = >>=-eq-ok (read_from p _ _) _ e in
    ground (arith, length-append s.message_queue (filled.0 ∷ []))

offer_block-queue :
    (p : Platform) (i : BlockInfo) (s s' : BlockServer)
    → offer_block p i s ≡ ok s'
    → length s.message_queue ≤ 5
    → (length s'.message_queue ≤ 5) × (s'.file_info ≡ s.file_info)
unfolding offer_block
offer_block-queue p i s s' e h = ground (arith, enqueue_block-queue p i s s')

pub quiet_status :
    (polled writable : Bool) (n : Signed) (st : Status)
    → select_status polled n false writable ≡ ok st
    → can_read st ≡ false
unfolding select_status
quiet_status polled writable (positive n) st e = ground arith
quiet_status polled writable (negative n) st e = cc

send_front-queue :
    (p : Platform) (r : SendReply) (s s' : BlockServer)
    → send_front p r s ≡ ok s'
    → (length s'.message_queue ≤ length s.message_queue) × (s'.file_info ≡ s.file_info)
unfolding send_front
send_front-queue p r s s' e = ground arith

-- A round in which nothing can be read.
quiet_round :
    (p : Platform) (e : Event) (s s' : BlockServer)
    → e.readable ≡ false
    → select p e s ≡ ok s'
    → (length s'.message_queue ≤ length s.message_queue) × (s'.file_info ≡ s.file_info)
unfolding select
quiet_round p e s s' q r =
    let (st, e₁, r₁) = >>=-eq-ok (select_status _ e.selected e.readable e.writable) _ r in
    let deaf : can_read st ≡ false =
      quiet_status (has_messages s.message_queue) e.writable e.selected st (
        subst (λ b. select_status (has_messages s.message_queue) e.selected b e.writable ≡ ok st) q
          e₁) in
    let spoken : (if can_write st then send_front p e.sent s else ok s) ≡ ok s' = rw deaf at r₁ in
    ground (arith, send_front-queue p e.sent s s')

abbrev pub state : Progress → BlockServer
state (finished s events) = s
state (waiting s) = s

abbrev pub Quiet : List Event → Type 0
Quiet [] = Unit {0}
Quiet (e ∷ events) = (e.readable ≡ false) × Quiet events

-- Where the loop over the blocks starts with at most five messages in the queue, nothing is
-- received and nothing throws, the queue holds at most five messages wherever the events leave the
-- loop, whichever blocks are sent and however long the socket cannot be written; and the server
-- goes on with the same file.
pub serve_blocks-queue :
    (p : Platform) (events : List Event) (i : BlockInfo) (s : BlockServer) (r : Progress)
    → Quiet events
    → length s.message_queue ≤ 5
    → serve_blocks p i events s ≡ ok r
    → (length (state r).message_queue ≤ 5) × ((state r).file_info ≡ s.file_info)
unfolding serve_blocks
serve_blocks-queue p [] i s r q h e =
    elim (Bool-cases (ltb (to_unsigned p i) (get_block_count p s.file_info))) [
      | inl more ↦
          let (s', e₁, e₂) = >>=-eq-ok (offer_block p i s) _ (rw more at e) in
          let same = ok-injective e₂ in
          subst (λ r. (length (state r).message_queue ≤ 5) × ((state r).file_info ≡ s.file_info))
            same (offer_block-queue p i s s' e₁ h)
      | inr over ↦
          subst (λ r. (length (state r).message_queue ≤ 5) × ((state r).file_info ≡ s.file_info))
            (ok-injective (rw over at e)) (h, refl)
    ]
serve_blocks-queue p (ev ∷ events) i s r (q, qs) h e =
    elim (Bool-cases (ltb (to_unsigned p i) (get_block_count p s.file_info))) [
      | inl more ↦
          let (s₁, e₁, f₁) = >>=-eq-ok (offer_block p i s) _ (rw more at e) in
          let (s₂, e₂, f₂) = >>=-eq-ok (select p ev s₁) _ f₁ in
          let offered = offer_block-queue p i s s₁ e₁ h in
          let round = quiet_round p ev s₁ s₂ q e₂ in
          let rest =
            serve_blocks-queue p events (increment p i) s₂ r qs (omega (arith, round.0, offered.0))
              f₂ in
          (rest.0, rest.1 ∙ round.1 ∙ offered.1)
      | inr over ↦
          subst (λ r. (length (state r).message_queue ≤ 5) × ((state r).file_info ≡ s.file_info))
            (ok-injective (rw over at e)) (h, refl)
    ]

abbrev pub IsFinished : Progress → Type 0
IsFinished (finished s events) = Unit {0}
IsFinished (waiting s) = ⊥

to_unsigned-construct :
    (p : Platform) (info : FileInfo) (b : ℕ) → b < 2 ^ 32 → to_unsigned p (construct p info b) ≡ b
unfolding to_unsigned construct
to_unsigned-construct p info b h = ntohl-htonl p b h

-- From block `i` on the loop takes one `select` for each block that is left and no more: with that
-- many rounds in which nothing is received, it does not stop before its end.
pub serve_blocks-ends :
    (p : Platform) (events : List Event) (info : FileInfo) (i : ℕ) (s : BlockServer) (r : Progress)
    → s.file_info ≡ info
    → i < 2 ^ 32
    → get_block_count p info < 2 ^ 32
    → get_block_count p info ≤ i + length events
    → Quiet events
    → length s.message_queue ≤ 5
    → serve_blocks p (construct p info i) events s ≡ ok r
    → IsFinished r
unfolding serve_blocks
serve_blocks-ends p [] info i s r same hi hc enough q h e =
    let at : ltb (to_unsigned p (construct p info i)) (get_block_count p s.file_info) ≡ false =
      rw (same, to_unsigned-construct p info i hi) (le→ltb-false i _ (omega arith)) in
    subst IsFinished (ok-injective (rw at at e)) tt
serve_blocks-ends p (ev ∷ events) info i s r same hi hc enough (q, qs) h e =
    elim (Bool-cases (ltb (to_unsigned p (construct p info i)) (get_block_count p s.file_info))) [
      | inl more ↦
          let (s₁, e₁, f₁) = >>=-eq-ok (offer_block p (construct p info i) s) _ (rw more at e) in
          let (s₂, e₂, f₂) = >>=-eq-ok (select p ev s₁) _ f₁ in
          let offered = offer_block-queue p (construct p info i) s s₁ e₁ h in
          let round = quiet_round p ev s₁ s₂ q e₂ in
          let below : i < get_block_count p info =
            ltb→lt i _ (rw (same, to_unsigned-construct p info i hi) at more) in
          serve_blocks-ends p events info (i + 1) s₂ r (round.1 ∙ offered.1 ∙ same) (omega arith) hc
            (omega arith) qs (omega (arith, round.0, offered.0))
            (subst (λ j. serve_blocks p j events s₂ ≡ ok r)
              (get_block-increment p info i (omega arith)) f₂)
      | inr over ↦ subst IsFinished (ok-injective (rw over at e)) tt
    ]
