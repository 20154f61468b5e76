-- ===== src/Session/Sending.antt =====
-- A server whose socket can always be written sends its whole file, and ends.
use multisync.Base.{
  ℕ, zero, suc, ◌+◌, ◌^◌, ◌≤◌, ◌<◌, ◌≡◌, refl, ap, ap₂, ◌∙◌, List, [], ◌∷◌, ◌++◌, Bytes, length,
  ltb, arith, Result, ok, ◌>>=◌, lt→ltb, le→ltb-false,
}
use multisync.Platform.{Platform}
use multisync.Platform.Words.{ntohl-htonl}
use multisync.FileInfo.{get_block_count}
use multisync.BlockInfo.{increment, to_unsigned, get_block-increment}
use multisync.BlockInfo
use multisync.Message.{Message}
use multisync.BlockServer.{BlockServer, Progress, finished, serve_blocks, serve_requests, continue}
use multisync.BlockServer.Blocks.{file_of, to_unsigned-construct}
use multisync.Session.{Offer, IsOffer, count, packets_from}
use multisync.Session.Packets.{Fits, count_bounds, packet_of-Fits}
use multisync.Session.Serving.{
  clear_round, clear_rounds, sent_after, Serves, clear_select, block, after_block,
  after_block-Serves, offer_ok,
}

pub file_of-count :
    (p : Platform) (digest : Bytes) (n : ℕ)
    → n < 2 ^ 32
    → get_block_count p (file_of p digest n) ≡ n
unfolding get_block_count
file_of-count p digest n h = ntohl-htonl p n h

-- What the loops come to: they end with no event left, an empty queue, and these packets sent.
abbrev Sends : Platform → Result Progress → BlockServer → List Bytes → Type 0
Sends p result s packets =
    (r : BlockServer) × ((result >>= continue p) ≡ ok (finished r []))
    × (r.socket.sent ≡ sent_after s.socket.to packets s.socket.sent)
    × (r.message_queue ≡ [])

last_round :
    (p : Platform) (m : Message) (s : BlockServer)
    → Fits m.buffer
    → s.message_queue ≡ m ∷ []
    → s.host_info ≡ []
    → Sends p (ok (finished s (clear_round m.buffer ∷ []))) s (m.buffer ∷ [])
unfolding serve_requests continue
last_round p m s f e none_joined =
    let s' : BlockServer = record s {
      socket = record s.socket { sent = (s.socket.to, m.buffer) ∷ s.socket.sent };
      message_queue = [];
    } in
    (s', simp (e, none_joined, clear_select p m [] s f e), refl, refl)

module _ (p : Platform) (o : Offer) {name : Bytes} (v : IsOffer o name) where
  pub at_block :
      (i : ℕ) (s : BlockServer)
      → Serves p o i s
      → i ≤ count o
      → ltb
          (to_unsigned p (BlockInfo.construct p (file_of p o.digest (count o)) i))
          (get_block_count p s.file_info)
        ≡ ltb i (count o)
  at_block i s w h =
      ap₂ ltb
        (to_unsigned-construct p (file_of p o.digest (count o)) i (omega (arith, count_bounds o v)))
        (ap (get_block_count p) w.info
          ∙ file_of-count p o.digest (count o) (omega (arith, count_bounds o v)))

  pub blocks_sent :
      (n i : ℕ) (m : Message) (s : BlockServer)
      → i + n ≡ count o
      → Serves p o i s
      → Fits m.buffer
      → s.message_queue ≡ m ∷ []
      → s.host_info ≡ []
      → Sends p
          (serve_blocks p
            (BlockInfo.construct p (file_of p o.digest (count o)) i)
            (clear_rounds (m.buffer ∷ packets_from p o i n))
            s)
          s
          (m.buffer ∷ packets_from p o i n)
  unfolding serve_blocks
  blocks_sent zero i m s e w f q none_joined =
      rw (at_block i s w (omega arith), le→ltb-false i (count o) (omega arith))
        (last_round p m s f q none_joined)
  blocks_sent (suc n) i m s e w f q none_joined =
      let s₁ = after_block p o v i s in
      let two : s₁.message_queue ≡ m ∷ block p o v i ∷ [] =
        ap (λ ms. ms ++ (block p o v i ∷ [])) q in
      let s₂ : BlockServer = record s₁ {
        socket = record s.socket { sent = (s.socket.to, m.buffer) ∷ s.socket.sent };
        message_queue = block p o v i ∷ [];
      } in
      let w₁ = after_block-Serves p o v i s w (omega arith) in
      let w₂ : Serves p o (i + 1) s₂ = record {
        info = w₁.info;
        contents = w₁.contents;
        bad = w₁.bad;
        good = w₁.good;
        named = w₁.named;
      } in
      let (r, ends, sent, empty) =
        blocks_sent n (i + 1) (block p o v i) s₂ (omega arith) w₂ (packet_of-Fits p o v i) refl
          none_joined in
      (
        r,
        simp
            (
              at_block i s w (omega arith),
              lt→ltb i (count o) (omega arith),
              offer_ok p o v i s w (omega arith) (omega (arith, ap length q)),
              clear_select p m (block p o v i ∷ []) s₁ f two,
              get_block-increment p (file_of p o.digest (count o)) i
                  (omega (arith, count_bounds o v)),
            )
            ends,
        sent,
        empty,
      )
