-- ===== src/Session/Serving.antt =====
-- A server whose socket can always be written sends its whole file, and ends.
use multisync.Base.{
  ℕ, ◌+◌, ◌*◌, ◌%◌, ◌^◌, ◌≤◌, ◌<◌, ◌≡◌, ap, ap₂, drop, ◌∙◌, true, false, List, [], ◌∷◌, ◌++◌, Bytes,
  length, arith, ok, length-take, length-drop, lt→ltb,
}
use multisync.Platform.{Platform}
use multisync.Stream.{Ifstream, in_fails}
use multisync.Stream
use multisync.BlockInfo.{increment, to_unsigned, get_block-increment}
use multisync.BlockInfo
use multisync.Message.{Message}
use multisync.Socket.{SocketAddress, SendReply, ReceiveReply, positive}
use multisync.Socket.Transport.{send_ok}
use multisync.BlockServer.{BlockServer, Event, enqueue_block, offer_block, send_front, select}
use multisync.BlockServer.Blocks.{block_message, file_of, file_of-IsValid, enqueue_block_lem}
use multisync.BlockServer.Rounds.{select_lem}
use multisync.Session.{Offer, IsOffer, count}
use multisync.Session.Packets.{Fits, count_bounds}

-- A round in which the socket can be written, and takes the whole packet.
abbrev pub clear_round : Bytes → Event
clear_round bytes = record {
  selected = positive 1;
  readable = false;
  writable = true;
  received = ReceiveReply.receive_failed;
  sent = SendReply.sent_bytes (length bytes);
}

abbrev pub clear_rounds : List Bytes → List Event
clear_rounds [] = []
clear_rounds (bytes ∷ packets) = clear_round bytes ∷ clear_rounds packets

-- The datagrams after these packets have been sent, the last first.
abbrev pub sent_after :
    SocketAddress → List Bytes → List (SocketAddress × Bytes) → List (SocketAddress × Bytes)
sent_after to [] earlier = earlier
sent_after to (bytes ∷ packets) earlier = sent_after to packets ((to, bytes) ∷ earlier)

-- The server stands before block `i`, and can read it.
pub record Serves (p : Platform) (o : Offer) (i : ℕ) (s : BlockServer) : Type 0 where
  pub info : s.file_info ≡ file_of p o.digest (count o)
  pub contents : s.input.contents ≡ o.file
  pub bad : s.input.badbit ≡ false
  pub good : i < count o → in_fails s.input ≡ false
  pub named : s.id ≡ o.id

send_front_ok :
    (p : Platform) (m : Message) (rest : List Message) (s : BlockServer)
    → Fits m.buffer
    → s.message_queue ≡ m ∷ rest
    → send_front p (SendReply.sent_bytes (length m.buffer)) s
      ≡ ok (record s {
        socket = record s.socket { sent = (s.socket.to, m.buffer) ∷ s.socket.sent };
        message_queue = rest;
      })
unfolding send_front
send_front_ok p m rest s f e = rw (e, send_ok p m s.socket f.at_least (f.told p))

-- In a clear round exactly the first message of the queue is sent.
pub clear_select :
    (p : Platform) (m : Message) (rest : List Message) (s : BlockServer)
    → Fits m.buffer
    → s.message_queue ≡ m ∷ rest
    → select p (clear_round m.buffer) s
      ≡ ok (record s {
        socket = record s.socket { sent = (s.socket.to, m.buffer) ∷ s.socket.sent };
        message_queue = rest;
      })
clear_select p m rest s f e =
    select_lem p (clear_round m.buffer) s (simp e) ∙ simp e (send_front_ok p m rest s f e)

read_contents :
    (n pos : ℕ) (s : Ifstream) → (Stream.read n (record s { pos = pos })).1.contents ≡ s.contents
unfolding Stream.read
read_contents n pos s = ground arith

read_badbit :
    (n pos : ℕ) (s : Ifstream) → (Stream.read n (record s { pos = pos })).1.badbit ≡ s.badbit
unfolding Stream.read
read_badbit n pos s = ground arith

-- A read that does not reach the end of the file leaves the stream good.
read_good :
    (n pos : ℕ) (s : Ifstream)
    → in_fails s ≡ false
    → pos + n ≤ length s.contents
    → in_fails (Stream.read n (record s { pos = pos })).1 ≡ false
unfolding Stream.read
read_good n pos s g h =
    ground (arith, length-take n (drop pos s.contents), length-drop pos s.contents)

module _ (p : Platform) (o : Offer) {name : Bytes} (v : IsOffer o name) where
  -- The message for block `i`, as the loop builds it.
  abbrev pub block : ℕ → Message
  block i = block_message p o.id (file_of p o.digest (count o)) i o.file

  abbrev pub after_block : ℕ → BlockServer → BlockServer
  after_block i s = record s {
    message_queue = s.message_queue ++ (block i ∷ []);
    input = (Stream.read 1024 (record s.input { pos = 1024 * (i % 2 ^ 22) })).1;
  }

  pub after_block-Serves :
      (i : ℕ) (s : BlockServer)
      → Serves p o i s
      → i < count o
      → Serves p o (i + 1) (after_block i s)
  after_block-Serves i s w h = record {
    info = w.info;
    contents = read_contents 1024 (1024 * (i % 2 ^ 22)) s.input ∙ w.contents;
    bad = read_badbit 1024 (1024 * (i % 2 ^ 22)) s.input ∙ w.bad;
    good = λ k.
        read_good 1024 (1024 * (i % 2 ^ 22)) s.input (w.good h)
          (omega (arith, count_bounds o v, ap length w.contents));
    named = w.named;
  }

  enqueue_ok :
      (i : ℕ) (s : BlockServer)
      → Serves p o i s
      → i < count o
      → enqueue_block p (BlockInfo.construct p (file_of p o.digest (count o)) i) s
        ≡ ok (after_block i s)
  enqueue_ok i s w h =
      enqueue_block_lem p (file_of p o.digest (count o))
        (file_of-IsValid p o.digest (count o) v.digest_size) i (omega (arith, count_bounds o v)) s
        (w.good h) w.bad
      ∙ ap
          (λ m. ok (record s {
            message_queue = s.message_queue ++ (m ∷ []);
            input = (Stream.read 1024 (record s.input { pos = 1024 * (i % 2 ^ 22) })).1;
          }))
          (ap₂ (λ d f. block_message p d (file_of p o.digest (count o)) i f) w.named w.contents)

  pub offer_ok :
      (i : ℕ) (s : BlockServer)
      → Serves p o i s
      → i < count o
      → length s.message_queue < 5
      → offer_block p (BlockInfo.construct p (file_of p o.digest (count o)) i) s
        ≡ ok (after_block i s)
  unfolding offer_block
  offer_ok i s w h room = rw (lt→ltb (length s.message_queue) 5 room) (enqueue_ok i s w h)
