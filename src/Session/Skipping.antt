-- ===== src/Session/Skipping.antt =====
-- The blocks that a server leaves out, where its queue is full.
use multisync.Base.{
  ℕ, ◌≤◌, ◌≡◌, refl, sym, ap, ap₂, subst, ◌∙◌, some, List, [], ◌∷◌, ◌++◌, Bytes, length, arith, ok,
  ◌>>=◌,
}
use multisync.Platform.{Platform}
use multisync.BlockInfo
use multisync.Socket.{SocketAddress, Inet, OpenReply, set_address}
use multisync.Socket
use multisync.BlockServer.{BlockServer, Event, finished, continue, serve_blocks, start}
use multisync.BlockServer
use multisync.Session.{Offer, IsOffer, count, info_packet, packet_of, packets_from}
use multisync.Session.Packets.{Fits, info_packet-Fits, packet_of-Fits}
use multisync.Session.Serving.{clear_rounds, sent_after, Serves}
use multisync.Session.Starting.{
  Opens, open_ok, offer, construct-Serves, group_address, announcement, announcement_packet,
  started, start_opened,
}
use multisync.Session.Draining.{buffers, AllFit, serve_requests_drains}
use multisync.Session.Stalling.{AllIgnored, busy_rounds, blocks_from, stalled}

start_stalled :
    (p : Platform) (o : Offer) {name : Bytes} (v : IsOffer o name) (opened : OpenReply)
    (a : SocketAddress) (noise : List Bytes) (s : BlockServer)
    → Opens opened
    → AllIgnored p noise
    → length noise ≡ count o
    → 4 ≤ count o
    → Serves p o 0 s
    → s.path ≡ o.path
    → s.message_queue ≡ []
    → s.host_info ≡ []
    → let packets = info_packet p o ∷ packets_from p o 0 4 in
      (r : BlockServer) × (start p opened (busy_rounds a noise (clear_rounds packets)) s
        ≡ ok (finished r []))
      × (r.socket.sent ≡ sent_after s.socket.to packets s.socket.sent)
unfolding continue
start_stalled p o v opened a noise s ops g long many w e q none_joined =
    let (opens, to, sent) = open_ok opened s.socket ops in
    let s' = started p opened s in
    let m = announcement p s in
    let first : m.buffer ≡ info_packet p o = announcement_packet p o s v w e in
    let w' : Serves p o 0 s' = record {
      info = w.info;
      contents = w.contents;
      bad = w.bad;
      good = w.good;
      named = w.named;
    } in
    let one : s'.message_queue ≡ m ∷ [] = ap (λ ms. ms ++ (m ∷ [])) q in
    let queue = m ∷ blocks_from p o v 0 4 in
    let later = clear_rounds (buffers queue) in
    let (s₁, loop, queued, joined, unsent, same) =
      stalled p o v 4 noise a later 0 s' g (omega (arith, long)) (omega (arith, long, many)) w'
        (omega (arith, ap length one)) in
    let fit : (b : ℕ) → Fits (packet_of p o b) = λ b. packet_of-Fits p o v b in
    let fits : AllFit queue =
      (subst Fits (sym first) (info_packet-Fits p o v), (fit 0, (fit 1, (fit 2, (fit 3, tt))))) in
    let (r, ends, all) =
      serve_requests_drains p queue s₁ fits (queued ∙ ap (λ ms. ms ++ blocks_from p o v 0 4) one)
        (joined ∙ none_joined) in
    subst
      (λ bytes.
        let packets = bytes ∷ packets_from p o 0 4 in
        (r : BlockServer) × (start p opened (busy_rounds a noise (clear_rounds packets)) s
          ≡ ok (finished r []))
        × (r.socket.sent ≡ sent_after s.socket.to packets s.socket.sent))
      first
      (
        r,
        start_opened p opened (busy_rounds a noise later) s ops
            ∙ ap
                (λ f.
                  serve_blocks p (BlockInfo.construct p f 0) (busy_rounds a noise later) s'
                  >>= continue p)
                w.info
            ∙ ap (λ x. x >>= continue p) loop
            ∙ ends,
        all ∙ ap₂ (λ to' sent'. sent_after to' (buffers queue) sent') (same ∙ to) (unsent ∙ sent),
      )

-- A full queue costs blocks, and nothing makes up for them. A server is constructed for a file of
-- four blocks or more, and its socket opens. In each round of its first loop the socket cannot be
-- written, but reads a datagram that the server has no handler for, such as another server's; from
-- then on it can be written in every round, and nothing is received. Then `start` returns, having
-- sent the announcement and the first four blocks, whatever the number of blocks of the file.
-- Throughout `IsOffer` holds: the path is not empty and fits an announcement, the digest is a text
-- of 33 bytes with its NUL, and the file has at most 4 GiB.
pub start_skips :
    (p : Platform) (inet : Inet) (hex_digest : Bytes → Bytes) (file path group name : Bytes)
    (port random : ℕ) (unset a : SocketAddress) (opened : OpenReply) (noise : List Bytes)
    → IsOffer (offer hex_digest file path random) name
    → Opens opened
    → AllIgnored p noise
    → length noise ≡ count (offer hex_digest file path random)
    → 4 ≤ count (offer hex_digest file path random)
    → let o = offer hex_digest file path random in
      let packets = info_packet p o ∷ packets_from p o 0 4 in
      (r : BlockServer) × (start p opened
          (busy_rounds a noise (clear_rounds packets))
          (BlockServer.construct p inet hex_digest (some file) path group port random unset)
        ≡ ok (finished r []))
      × (r.socket.sent ≡ sent_after (group_address p inet group port) packets [])
unfolding BlockServer.construct set_address Socket.construct
start_skips p inet hex_digest file path group name port random unset a opened noise v ops g long
      many =
    start_stalled p (offer hex_digest file path random) v opened a noise
      (BlockServer.construct p inet hex_digest (some file) path group port random unset) ops g long
      many (construct-Serves p inet hex_digest file path group port random unset) refl refl refl
