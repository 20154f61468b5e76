-- ===== src/Session/Account/Runs.antt =====
-- The account of a server's queue in its two loops and in `start`.
use multisync.Base.{
  ℕ, ◌+◌, ◌<◌, ◌≤◌, ◌≡◌, refl, sym, ap, subst, ◌∙◌, true, false, some, List, [], ◌∷◌, Bytes, length,
  ltb, ◌⊎◌, arith, ok, >>=-eq-ok, ok-injective, inl, inr, Bool-cases, ltb→lt, ltb-false→le,
}
use multisync.Platform.{Platform}
use multisync.BlockInfo.{increment, to_unsigned, get_block-increment}
use multisync.BlockInfo
use multisync.Message.{Message}
use multisync.Socket.{SocketAddress, Inet, OpenReply, open_socket, set_address, select_status}
use multisync.Socket
use multisync.BlockServer.{
  BlockServer, Event, Progress, finished, waiting, offer_block, send_front, select, process_message,
  serve_blocks, serve_requests, is_busy, continue, start,
}
use multisync.BlockServer
use multisync.BlockServer.Blocks.{file_of}
use multisync.Session.{Offer, IsOffer, count, info_packet}
use multisync.Session.Packets.{count_bounds}
use multisync.Session.Serving.{sent_after}
use multisync.Session.Starting.{
  announcement, announcement_packet, started, offer, group_address, open_sent, open_to,
  construct-Serves,
}
use multisync.Session.Server.{Keeps}
use multisync.Session.Rounds.{select-Keeps, offer_block-Keeps}
use multisync.Session.Station.{is_serving, serving_at, started-Keeps}
use multisync.Session.Draining.{buffers}
use multisync.Session.Account.{Turn, queued_by, passed, booked, Book}
use multisync.Session.Account.Rounds.{select-Book, offer_block-Book}

-- What `start` has come to: the end, where all that was queued is sent and each block has had its
-- turn, or a `select`, before which messages may be in the queue.
abbrev pub Account : Platform → Offer → SocketAddress → Progress → Type 0
Account p o to (finished s rest) =
    (turns : List Turn) × (passed turns ≡ count o)
    × (s.message_queue ≡ [])
    × (s.socket.sent ≡ sent_after to (info_packet p o ∷ queued_by p o 0 turns) [])
Account p o to (waiting s) =
    (turns : List Turn) × (passed turns ≤ count o)
    × (booked to s ≡ sent_after to (info_packet p o ∷ queued_by p o 0 turns) [])

-- Where the first loop stands.
abbrev Booked : Platform → Offer → SocketAddress → Progress → Type 0
Booked p o to (finished s rest) = Keeps p o (count o) s × Book p o to (count o) s
Booked p o to (waiting s) = (i : ℕ) × (i ≤ count o) × Book p o to i s

idle_queue : (s : BlockServer) → is_busy s ≡ false → s.message_queue ≡ []
idle_queue s e = empty s.message_queue (ltb-false→le 0 (length s.message_queue) (ground (arith, e)))
  where
    empty : (ms : List Message) → length ms ≤ 0 → ms ≡ []
    empty [] h = refl
    empty (m ∷ ms) h = absurd (omega (arith, h))

module _ (p : Platform) (o : Offer) (to : SocketAddress) {name : Bytes} (v : IsOffer o name) where
  -- The condition of the loop over the blocks.
  more_or_not :
      (i : ℕ) (s : BlockServer)
      → i ≤ count o
      → Keeps p o i s
      → let next = BlockInfo.construct p (file_of p o.digest (count o)) i in
        ((i < count o) × (is_serving p s next ≡ true))
        ⊎ ((i ≡ count o) × (is_serving p s next ≡ false))
  more_or_not i s h k =
      let next = BlockInfo.construct p (file_of p o.digest (count o)) i in
      let test =
        serving_at p o v s next (record { at = i; stands = refl; within = h; keeps = k }) in
      elim (Bool-cases (ltb i (count o))) [
        | inl below ↦ inl (ltb→lt i (count o) below, test ∙ below)
        | inr above ↦ inr (omega (arith, h, ltb-false→le i (count o) above), test ∙ above)
      ]

  closed :
      (s : BlockServer) (rest : List Event)
      → Book p o to (count o) s
      → is_busy s ≡ false
      → Account p o to (finished s rest)
  closed s rest b idle =
      let empty = idle_queue s idle in
      (
        b.turns,
        b.at,
        empty,
        ap (λ ms. sent_after to (buffers ms) s.socket.sent) (sym empty) ∙ b.account,
      )

  blocks-Booked :
      (events : List Event) (i : ℕ) (s : BlockServer) (r : Progress)
      → i ≤ count o
      → Keeps p o i s
      → Book p o to i s
      → serve_blocks p (BlockInfo.construct p (file_of p o.digest (count o)) i) events s ≡ ok r
      → Booked p o to r
  unfolding serve_blocks
  blocks-Booked [] i s r h k b e = elim (more_or_not i s h k) [
    | inl (below, more) ↦
        let (s', e₁, e₂) = >>=-eq-ok (offer_block p _ s) _ (rw more at e) in
        subst (Booked p o to) (ok-injective e₂)
          (i + 1, omega arith, offer_block-Book p o to v i s s' below k b e₁)
    | inr (last, over) ↦
        subst (Booked p o to) (ok-injective (rw over at e))
          (subst (λ n. Keeps p o n s × Book p o to n s) last (k, b))
  ]
  blocks-Booked (ev ∷ events) i s r h k b e = elim (more_or_not i s h k) [
    | inl (below, more) ↦
        let (s₁, e₁, e₂) = >>=-eq-ok (offer_block p _ s) _ (rw more at e) in
        let (s₂, e₃, e₄) = >>=-eq-ok (select p ev s₁) _ e₂ in
        let k₁ = offer_block-Keeps p o v i s s₁ below k e₁ in
        blocks-Booked events (i + 1) s₂ r (omega arith) (select-Keeps p o v (i + 1) ev s₁ s₂ k₁ e₃)
          (select-Book p o to v (i + 1) ev s₁ s₂ k₁ (offer_block-Book p o to v i s s₁ below k b e₁)
            e₃)
          (ap (λ n. serve_blocks p n events s₂)
              (sym (
                get_block-increment p (file_of p o.digest (count o)) i
                  (omega (arith, count_bounds o v))))
            ∙ e₄)
    | inr (last, over) ↦
        subst (Booked p o to) (ok-injective (rw over at e))
          (subst (λ n. Keeps p o n s × Book p o to n s) last (k, b))
  ]

  requests-Account :
      (events : List Event) (s : BlockServer) (r : Progress)
      → Keeps p o (count o) s
      → Book p o to (count o) s
      → serve_requests p events s ≡ ok r
      → Account p o to r
  unfolding serve_requests
  requests-Account [] s r k b e = elim (Bool-cases (is_busy s)) [
    | inl busy ↦
        subst (Account p o to) (ok-injective (rw busy at e))
          (b.turns, omega (arith, b.at), b.account)
    | inr idle ↦ subst (Account p o to) (ok-injective (rw idle at e)) (closed s [] b idle)
  ]
  requests-Account (ev ∷ events) s r k b e = elim (Bool-cases (is_busy s)) [
    | inl busy ↦
        let (s', e₁, e₂) = >>=-eq-ok (select p ev s) _ (rw busy at e) in
        requests-Account events s' r (select-Keeps p o v (count o) ev s s' k e₁)
          (select-Book p o to v (count o) ev s s' k b e₁) e₂
    | inr idle ↦
        subst (Account p o to) (ok-injective (rw idle at e)) (closed s (ev ∷ events) b idle)
  ]

  pub ended :
      (progress r : Progress)
      → Booked p o to progress
      → continue p progress ≡ ok r
      → Account p o to r
  unfolding continue
  ended (finished s rest) r (k, b) e = requests-Account rest s r k b e
  ended (waiting s) r (i, h, b) e =
      subst (Account p o to) (ok-injective e) (b.turns, omega (arith, h, b.at), b.account)

-- What a server sends, whatever reaches it. A server is constructed for a file and started; any
-- bytes arrive in any of its rounds, and its socket can be written in any of them. Where `start` has
-- returned, there are turns, one for each block in the order of the blocks and between them the
-- answers to requests for the announcement, such that exactly the announcement and what these turns
-- put into the queue have been sent to the group, in that order and each once, and the queue is
-- empty. Where it still waits in a `select`, the same holds of what is sent and what is queued
-- together, with no more turns than blocks. Throughout `IsOffer` holds: the path is not empty and
-- fits an announcement, the digest is a text of 33 bytes with its NUL, and the file has at most
-- 4 GiB.
pub start_accounts :
    (p : Platform) (inet : Inet) (hex_digest : Bytes → Bytes) (file path group name : Bytes)
    (port random : ℕ) (unset : SocketAddress) (opened : OpenReply) (events : List Event)
    (r : Progress)
    → IsOffer (offer hex_digest file path random) name
    → start p opened events
        (BlockServer.construct p inet hex_digest (some file) path group port random unset)
      ≡ ok r
    → Account p (offer hex_digest file path random) (group_address p inet group port) r
unfolding start continue BlockServer.construct set_address Socket.construct
start_accounts p inet hex_digest file path group name port random unset opened events r v e =
    let o = offer hex_digest file path random in
    let to = group_address p inet group port in
    let s = BlockServer.construct p inet hex_digest (some file) path group port random unset in
    let serving = construct-Serves p inet hex_digest file path group port random unset in
    let keeps = started-Keeps p inet hex_digest file path group port random unset opened v in
    let book : Book p o to 0 (started p opened s) = record {
      turns = [];
      at = refl;
      address = open_to opened s.socket;
      account =
          ap (λ n. (to, (announcement p s).buffer) ∷ n) (open_sent opened s.socket)
          ∙ ap (λ n. (to, n) ∷ []) (announcement_packet p o s v serving refl);
    } in
    let (opens, e₁, e₂) = >>=-eq-ok (open_socket opened s.socket).0 _ e in
    let (progress, e₃, e₄) =
      >>=-eq-ok (serve_blocks p (BlockInfo.construct p s.file_info 0) events (started p opened s)) _
        e₂ in
    ended p o to v progress r
      (blocks-Booked p o to v events 0 (started p opened s) progress (omega arith) keeps book (
        ap (λ f. serve_blocks p (BlockInfo.construct p f 0) events (started p opened s))
          (sym serving.info)
        ∙ e₃))
      e₄
