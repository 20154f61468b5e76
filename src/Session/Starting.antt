-- ===== src/Session/Starting.antt =====
-- `start` of a server whose socket opens and can always be written.
use multisync.Base.{
  ℕ, ◌≡◌, refl, sym, ap, ap₂, subst, ◌∙◌, true, some, List, [], ◌∷◌, ◌++◌, Bytes, arith, ok, ◌>>=◌,
}
use multisync.Platform.{Platform}
use multisync.FileInfo.{get_block_count}
use multisync.BlockInfo.{increment, to_unsigned, get_block-increment}
use multisync.BlockInfo
use multisync.FileInfo
use multisync.Message.{Message, of_metadata_text, type_info}
use multisync.Message.Packet.{of_metadata_text-packet}
use multisync.Socket
use multisync.Socket.{set_address, BlockSocket, SocketAddress, Inet, OpenReply, open_socket}
use multisync.BlockServer
use multisync.BlockServer.{
  BlockServer, Event, start, Progress, finished, offer_block, select, serve_blocks, serve_requests,
  continue,
}
use multisync.BlockServer.Blocks.{file_of}
use multisync.Session.{Offer, IsOffer, count, packets_from, info_packet}
use multisync.Session.Packets.{Fits, file_value, info_packet-Fits}
use multisync.Session.Serving.{clear_rounds, sent_after, Serves}
use multisync.Session.Sending.{blocks_sent}

-- Where every call of `open` succeeds.
pub record Opens (r : OpenReply) : Type 0 where
  pub descriptor : (fd : ℕ) × (r.descriptor ≡ some fd)
  pub joined : r.joined ≡ true
  pub is_bound : r.is_bound ≡ true
  pub is_named : r.is_named ≡ true

pub open_ok :
    (r : OpenReply) (s : BlockSocket)
    → Opens r
    → ((open_socket r s).0 ≡ ok tt)
      × ((open_socket r s).1.to ≡ s.to)
      × ((open_socket r s).1.sent ≡ s.sent)
unfolding open_socket
open_ok r s o = let (fd, e) = o.descriptor in ground (arith, e, o.joined, o.is_bound, o.is_named)

pub open_sent : (r : OpenReply) (s : BlockSocket) → (open_socket r s).1.sent ≡ s.sent
unfolding open_socket
open_sent r s = ground arith

pub open_to : (r : OpenReply) (s : BlockSocket) → (open_socket r s).1.to ≡ s.to
unfolding open_socket
open_to r s = ground arith

-- The offer of a server that is constructed for a file.
abbrev pub offer : (Bytes → Bytes) → Bytes → Bytes → ℕ → Offer
offer hex_digest file path random = record {
  id = random;
  digest = hex_digest file;
  path = path;
  file = file;
}

pub construct-Serves :
    (p : Platform) (inet : Inet) (hex_digest : Bytes → Bytes) (file path group : Bytes)
    (port random : ℕ) (unset : SocketAddress)
    → Serves p
        (offer hex_digest file path random)
        0
        (BlockServer.construct p inet hex_digest (some file) path group port random unset)
unfolding BlockServer.construct FileInfo.construct
construct-Serves p inet hex_digest file path group port random unset = record {
  info = refl;
  contents = refl;
  bad = refl;
  good = λ h. refl;
  named = refl;
}

abbrev pub group_address : Platform → Inet → Bytes → ℕ → SocketAddress
group_address p inet group port = record { s_addr = inet.inet_addr group; sin_port = p.htons port }

-- The announcement that `start` puts into the queue.
abbrev pub announcement : Platform → BlockServer → Message
announcement p s = of_metadata_text p (FileInfo.pod p) s.id type_info s.file_info s.path

pub announcement_packet :
    (p : Platform) (o : Offer) {name : Bytes} {i : ℕ} (s : BlockServer)
    → IsOffer o name
    → Serves p o i s
    → s.path ≡ o.path
    → (announcement p s).buffer ≡ info_packet p o
announcement_packet p o s v w e =
    ap₂ (λ d t. (of_metadata_text p (FileInfo.pod p) d type_info s.file_info t).buffer) w.named e
    ∙ ap (λ f. (of_metadata_text p (FileInfo.pod p) o.id type_info f o.path).buffer) w.info
    ∙ of_metadata_text-packet p (FileInfo.pod p) o.id type_info (file_of p o.digest (count o))
        (file_value p o v).0 o.path (omega (arith, (file_value p o v).1))
        (omega (arith, v.path_size))

-- The server when `start` has come to its first loop.
abbrev pub started : Platform → OpenReply → BlockServer → BlockServer
started p opened s = record s {
  socket = (open_socket opened s.socket).1;
  message_queue = s.message_queue ++ (announcement p s ∷ []);
}

-- `start` once the socket has opened.
pub start_opened :
    (p : Platform) (opened : OpenReply) (events : List Event) (s : BlockServer)
    → Opens opened
    → start p opened events s ≡ (
        serve_blocks p (BlockInfo.construct p s.file_info 0) events (started p opened s)
        >>= continue p)
unfolding start
start_opened p opened events s ops = rw (open_ok opened s.socket ops).0 refl

start_sending :
    (p : Platform) (o : Offer) {name : Bytes} (v : IsOffer o name) (opened : OpenReply)
    (s : BlockServer)
    → Opens opened
    → Serves p o 0 s
    → s.path ≡ o.path
    → s.message_queue ≡ []
    → s.host_info ≡ []
    → let packets = info_packet p o ∷ packets_from p o 0 (count o) in
      (r : BlockServer) × (start p opened (clear_rounds packets) s ≡ ok (finished r []))
      × (r.socket.sent ≡ sent_after s.socket.to packets s.socket.sent)
      × (r.message_queue ≡ [])
start_sending p o v opened s ops w e q none_joined =
    let (opens, to, sent) = open_ok opened s.socket ops in
    let s' = started p opened s in
    let first : (announcement p s).buffer ≡ info_packet p o = announcement_packet p o s v w e in
    let w' : Serves p o 0 s' = record {
      info = w.info;
      contents = w.contents;
      bad = w.bad;
      good = w.good;
      named = w.named;
    } in
    let (r, ends, all, empty) =
      blocks_sent p o v (count o) 0 (announcement p s) s' (omega arith) w'
        (subst Fits (sym first) (info_packet-Fits p o v))
        (ap (λ ms. ms ++ (announcement p s ∷ [])) q) none_joined in
    let ps = packets_from p o 0 (count o) in
    subst
      (λ bytes.
        (r : BlockServer) × (start p opened (clear_rounds (bytes ∷ ps)) s ≡ ok (finished r []))
        × (r.socket.sent ≡ sent_after s.socket.to (bytes ∷ ps) s.socket.sent)
        × (r.message_queue ≡ []))
      first
      (
        r,
        start_opened p opened (clear_rounds ((announcement p s).buffer ∷ ps)) s ops
            ∙ ap
                (λ f.
                  serve_blocks p (BlockInfo.construct p f 0)
                    (clear_rounds ((announcement p s).buffer ∷ ps)) s'
                  >>= continue p)
                w.info
            ∙ ends,
        all ∙ ap₂ (λ a b. sent_after a ((announcement p s).buffer ∷ ps) b) to sent,
        empty,
      )

-- A server that is constructed for a file of at most 4 GiB, and whose socket opens, can be written
-- in every round and receives nothing: `start` returns. It has then sent to the group the
-- announcement of the file and after it each of its blocks once, in their order, and nothing else.
-- Throughout `IsOffer` holds: the path is not empty and fits an announcement, the digest is a text
-- of 33 bytes with its NUL, and the file has at most 4 GiB.
pub start_sends :
    (p : Platform) (inet : Inet) (hex_digest : Bytes → Bytes) (file path group name : Bytes)
    (port random : ℕ) (unset : SocketAddress) (opened : OpenReply)
    → IsOffer (offer hex_digest file path random) name
    → Opens opened
    → let o = offer hex_digest file path random in
      let packets = info_packet p o ∷ packets_from p o 0 (count o) in
      (r : BlockServer) × (start p opened
          (clear_rounds packets)
          (BlockServer.construct p inet hex_digest (some file) path group port random unset)
        ≡ ok (finished r []))
      × (r.socket.sent ≡ sent_after (group_address p inet group port) packets [])
      × (r.message_queue ≡ [])
unfolding BlockServer.construct set_address Socket.construct
start_sends p inet hex_digest file path group name port random unset opened v ops =
    start_sending p (offer hex_digest file path random) v opened
      (BlockServer.construct p inet hex_digest (some file) path group port random unset) ops
      (construct-Serves p inet hex_digest file path group port random unset) refl refl refl
