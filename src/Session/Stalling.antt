-- ===== src/Session/Stalling.antt =====
-- A server whose socket cannot be written while it goes through its blocks.
use mathlib.Core.List.{append_assoc, append-nil}
use multisync.Base.{
  ℕ, zero, suc, ◌+◌, ◌≤◌, ◌≡◌, refl, sym, ap, ◌∙◌, Bool, true, false, ◌&&◌, none, List, [], ◌∷◌,
  ◌++◌, Bytes, length, ltb, arith, Result, ok, ◌>>=◌, lt→ltb, le→ltb-false, length-append,
}
use multisync.Platform.{Platform}
use multisync.FileInfo.{get_block_count}
use multisync.BlockServer.Blocks.{file_of}
use multisync.BlockInfo.{BlockInfo, increment, to_unsigned, get_block-increment}
use multisync.BlockInfo
use multisync.Message.{Message, for_input, get_type}
use multisync.Socket.{SocketAddress, ReceiveReply, SendReply, positive}
use multisync.Socket.Transport.{receive_ok, length-for_input}
use multisync.BlockServer.{
  BlockServer, Event, Progress, finished, find_handler, dispatch, process_message, select,
  offer_block, serve_blocks, has_messages,
}
use multisync.BlockServer.Rounds.{select_lem}
use multisync.Session.{Offer, IsOffer, count}
use multisync.Session.Packets.{Fits, count_bounds}
use multisync.Session.Serving.{Serves, block, after_block, after_block-Serves, offer_ok}
use multisync.Session.Sending.{at_block}

-- A datagram that a server receives and has no handler for, such as those of a server.
pub record Ignored (p : Platform) (bytes : Bytes) : Type 0 where
  pub fits : Fits bytes
  pub unhandled : (m : Message) → m.buffer ≡ bytes → find_handler (get_type p m) ≡ none

abbrev pub AllIgnored : Platform → List Bytes → Type 0
AllIgnored p [] = Unit {0}
AllIgnored p (bytes ∷ noise) = Ignored p bytes × AllIgnored p noise

-- A round in which the socket can be read and not written.
abbrev pub busy_round : SocketAddress → Bytes → Event
busy_round a bytes = record {
  selected = positive 1;
  readable = true;
  writable = false;
  received = ReceiveReply.datagram a bytes;
  sent = SendReply.sent_bytes 0;
}

-- Such rounds, and then those of `later`.
abbrev pub busy_rounds : SocketAddress → List Bytes → List Event → List Event
busy_rounds a [] later = later
busy_rounds a (bytes ∷ noise) later = busy_round a bytes ∷ busy_rounds a noise later

ignored :
    (p : Platform) (a : SocketAddress) (bytes : Bytes) (s : BlockServer)
    → Ignored p bytes
    → process_message p (ReceiveReply.datagram a bytes) s
      ≡ ok (record s { socket = record s.socket { from = a } })
unfolding process_message dispatch
ignored p a bytes s g =
    let s' : BlockServer = record s { socket = record s.socket { from = a } } in
    let m : Message = record (for_input p 4096) { buffer = bytes } in
    ap (λ z. z >>= λ x. dispatch p (find_handler (get_type p x.0)) x.0 (record s { socket = x.1 }))
      (receive_ok p a bytes (for_input p 4096) s.socket
        (omega (arith, g.fits.at_most, length-for_input p 4096)) g.fits.at_least (g.fits.told p))
    ∙ ap (λ h. dispatch p h m s') (g.unhandled m refl)

busy_select :
    (p : Platform) (a : SocketAddress) (bytes : Bytes) (s : BlockServer)
    → Ignored p bytes
    → select p (busy_round a bytes) s ≡ ok (record s { socket = record s.socket { from = a } })
busy_select p a bytes s g =
    let off : (b : Bool) → (b && false) ≡ false =
      λ b. elim b as (λ k. (k && false) ≡ false) [ true ↦ refl | false ↦ refl ] in
    let shut = off (has_messages s.message_queue) in
    select_lem p (busy_round a bytes) s (rw shut refl) ∙ rw (shut, ignored p a bytes s g)

over :
    (p : Platform) (i : BlockInfo) (s : BlockServer) (later : List Event)
    → ltb (to_unsigned p i) (get_block_count p s.file_info) ≡ false
    → serve_blocks p i later s ≡ ok (finished s later)
unfolding serve_blocks
over p i s [] e = rw e refl
over p i s (ev ∷ later) e = rw e refl

module _ (p : Platform) (o : Offer) {name : Bytes} (v : IsOffer o name) where
  -- The messages of the blocks from `i` on, `n` of them.
  abbrev pub blocks_from : ℕ → ℕ → List Message
  blocks_from i zero = []
  blocks_from i (suc n) = block p o v i ∷ blocks_from (i + 1) n

  -- What the loop comes to: it ends before the events `later`, with `n` blocks more in the queue.
  abbrev pub Stalls : Result Progress → BlockServer → List Event → ℕ → ℕ → Type 0
  Stalls result s later i n =
      (r : BlockServer) × (result ≡ ok (finished r later))
      × (r.message_queue ≡ s.message_queue ++ blocks_from i n)
      × (r.host_info ≡ s.host_info)
      × (r.socket.sent ≡ s.socket.sent)
      × (r.socket.to ≡ s.socket.to)

  Serves-later :
      (i : ℕ) (a : SocketAddress) (s : BlockServer)
      → Serves p o i s
      → Serves p o (i + 1) (record s { socket = record s.socket { from = a } })
  Serves-later i a s w = record {
    info = w.info;
    contents = w.contents;
    bad = w.bad;
    good = λ h. w.good (omega (arith, h));
    named = w.named;
  }

  -- Where the queue is full, no block is read.
  full : (i : BlockInfo) (s : BlockServer) → length s.message_queue ≡ 5 → offer_block p i s ≡ ok s
  unfolding offer_block
  full i s e = rw (le→ltb-false (length s.message_queue) 5 (omega (arith, e))) refl

  skipped :
      (noise : List Bytes) (a : SocketAddress) (later : List Event) (i : ℕ) (s : BlockServer)
      → AllIgnored p noise
      → i + length noise ≡ count o
      → Serves p o i s
      → length s.message_queue ≡ 5
      → Stalls
          (serve_blocks p
            (BlockInfo.construct p (file_of p o.digest (count o)) i)
            (busy_rounds a noise later)
            s)
          s
          later
          i
          0
  unfolding serve_blocks
  skipped [] a later i s g e w h = (
    s,
    over p (BlockInfo.construct p (file_of p o.digest (count o)) i) s later
        (at_block p o v i s w (omega (arith, e)) ∙ le→ltb-false i (count o) (omega (arith, e))),
    sym (append-nil s.message_queue),
    refl,
    refl,
    refl,
  )
  skipped (bytes ∷ noise) a later i s (g, gs) e w h =
      let s' : BlockServer = record s { socket = record s.socket { from = a } } in
      let (r, ends, queue, joined, sent, to) =
        skipped noise a later (i + 1) s' gs (omega (arith, e)) (Serves-later i a s w) h in
      (
        r,
        simp
            (
              at_block p o v i s w (omega (arith, e)),
              lt→ltb i (count o) (omega (arith, e)),
              full (BlockInfo.construct p (file_of p o.digest (count o)) i) s h,
              busy_select p a bytes s g,
              get_block-increment p (file_of p o.digest (count o)) i
                  (omega (arith, count_bounds o v)),
            )
            ends,
        queue,
        joined,
        sent,
        to,
      )

  -- The first rounds, while the queue has room for `n` more.
  pub stalled :
      (n : ℕ) (noise : List Bytes) (a : SocketAddress) (later : List Event) (i : ℕ)
      (s : BlockServer)
      → AllIgnored p noise
      → i + length noise ≡ count o
      → n ≤ length noise
      → Serves p o i s
      → n + length s.message_queue ≡ 5
      → Stalls
          (serve_blocks p
            (BlockInfo.construct p (file_of p o.digest (count o)) i)
            (busy_rounds a noise later)
            s)
          s
          later
          i
          n
  unfolding serve_blocks
  stalled zero noise a later i s g e long w room =
      skipped noise a later i s g e w (omega (arith, room))
  stalled (suc n) [] a later i s g e long w room = absurd (omega (arith, long))
  stalled (suc n) (bytes ∷ noise) a later i s (g, gs) e long w room =
      let s₁ = after_block p o v i s in
      let w₁ = after_block-Serves p o v i s w (omega (arith, e)) in
      let s' : BlockServer = record s₁ { socket = record s.socket { from = a } } in
      let w' : Serves p o (i + 1) s' = record {
        info = w₁.info;
        contents = w₁.contents;
        bad = w₁.bad;
        good = w₁.good;
        named = w₁.named;
      } in
      let size = length-append s.message_queue (block p o v i ∷ []) in
      let (r, ends, queue, joined, sent, to) =
        stalled n noise a later (i + 1) s' gs (omega (arith, e)) (omega (arith, long)) w'
          (omega (arith, room, size)) in
      (
        r,
        simp
            (
              at_block p o v i s w (omega (arith, e)),
              lt→ltb i (count o) (omega (arith, e)),
              offer_ok p o v i s w (omega (arith, e)) (omega (arith, room)),
              busy_select p a bytes s₁ g,
              get_block-increment p (file_of p o.digest (count o)) i
                  (omega (arith, count_bounds o v)),
            )
            ends,
        queue ∙ append_assoc s.message_queue (block p o v i ∷ []) (blocks_from (i + 1) n),
        joined,
        sent,
        to,
      )
