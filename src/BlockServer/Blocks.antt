-- ===== src/BlockServer/Blocks.antt =====
-- The block messages of the server, from the file to the text that a client reads.
use multisync.Base.{
  ℕ, ◌*◌, ◌%◌, ◌^◌, ◌<◌, ◌≡◌, refl, sym, ap, ◌∙◌, false, [], ◌∷◌, ◌++◌, Bytes, length, ok, ◌>>=◌,
  arith,
}
use multisync.Platform.{Platform}
use multisync.Platform.Words.{ntohl-htonl}
use multisync.Stream.{Ifstream, in_fails}
use multisync.Stream
use multisync.FileInfo.{FileInfo, get_block_count}
use multisync.FileInfo
use multisync.BlockInfo.{BlockInfo, to_unsigned, get_block, get_file_info}
use multisync.BlockInfo
use multisync.Message.{
  Message, input, of_metadata_reserved, get_metadata, get_type, get_text, read_from, type_block,
}
use multisync.Message.Packet.{packet}
use multisync.Message.Fill.{of_metadata_reserved-filled}
use multisync.Message.Wire.{get_type-packet, get_text-packet, get_metadata-packet}
use multisync.SyncStatus.Transfer.{block_of}
use multisync.BlockServer.{BlockServer, enqueue_block}

pod_size : (p : Platform) → (BlockInfo.pod p).sizeof ≡ 44
unfolding BlockInfo.pod
pod_size p = refl

pub to_unsigned-construct :
    (p : Platform) (info : FileInfo) (b : ℕ)
    → b < 2 ^ 32
    → to_unsigned p (BlockInfo.construct p info b) ≡ b
unfolding to_unsigned BlockInfo.construct
to_unsigned-construct p info b h = ntohl-htonl p b h

pub block-IsValue :
    (p : Platform) (info : FileInfo) (b : ℕ)
    → FileInfo.IsValid info
    → (BlockInfo.pod p).IsValue (BlockInfo.construct p info b)
unfolding BlockInfo.pod BlockInfo.construct
block-IsValue p info b v = record { file_info = v; block_num-lt = p.htonl-lt b }

seek_good : (n : ℕ) (s : Ifstream) → in_fails s ≡ false → Stream.seekg n s ≡ record s { pos = n }
unfolding Stream.seekg
seek_good n s h = simp h

-- The message that `enqueue_block` builds for block `b`.
abbrev pub block_packet : Platform → ℕ → FileInfo → ℕ → Bytes → Bytes
block_packet p id info b file =
    packet p id type_block ((BlockInfo.pod p).object (BlockInfo.construct p info b))
      (block_of file (b % 2 ^ 22))

abbrev pub block_message : Platform → ℕ → FileInfo → ℕ → Bytes → Message
block_message p id info b file =
    record (of_metadata_reserved p (BlockInfo.pod p) id type_block (BlockInfo.construct p info b)
      1024) { buffer = block_packet p id info b file }

module _ (p : Platform) (info : FileInfo) (v : FileInfo.IsValid info) (b : ℕ) (h : b < 2 ^ 32) where
  filled_block :
      (id : ℕ) (stream : Ifstream)
      → in_fails stream ≡ false
      → stream.badbit ≡ false
      → read_from p
          (of_metadata_reserved p
            (BlockInfo.pod p)
            id
            type_block
            (BlockInfo.construct p info b)
            1024)
          (Stream.seekg (1024 * to_unsigned p (BlockInfo.construct p info b) % 2 ^ 32) stream)
        ≡ ok (
          block_message p id info b stream.contents,
          (Stream.read 1024 (record stream { pos = 1024 * (b % 2 ^ 22) })).1,
        )
  filled_block id stream good bad =
      let i = BlockInfo.construct p info b in
      ap (read_from p (of_metadata_reserved p (BlockInfo.pod p) id type_block i 1024)) (
        ap (λ n. Stream.seekg n stream) {y = 1024 * (b % 2 ^ 22)}
          (ap (λ n. 1024 * n % 2 ^ 32) (to_unsigned-construct p info b h) ∙ omega arith)
        ∙ seek_good (1024 * (b % 2 ^ 22)) stream good)
      ∙ of_metadata_reserved-filled p (BlockInfo.pod p) id type_block i 1024
          (record stream { pos = 1024 * (b % 2 ^ 22) }) (block-IsValue p info b v)
          (omega (arith, pod_size p)) (omega arith) good bad

  pub enqueue_block_lem :
      (s : BlockServer)
      → in_fails s.input ≡ false
      → s.input.badbit ≡ false
      → enqueue_block p (BlockInfo.construct p info b) s
        ≡ ok (record s {
          message_queue = s.message_queue ++ (block_message p s.id info b s.input.contents ∷ []);
          input = (Stream.read 1024 (record s.input { pos = 1024 * (b % 2 ^ 22) })).1;
        })
  unfolding enqueue_block
  enqueue_block_lem s good bad =
      ap
        (λ r.
          r >>= λ x. ok (record s { message_queue = s.message_queue ++ (x.0 ∷ []); input = x.1 }))
        (filled_block s.id s.input good bad)

-- What a client on host `q` reads in a block message of a server on host `p`.
abbrev pub ReadsBlock : Platform → Message → Bytes → ℕ → ℕ → Bytes → Type 0
ReadsBlock q m digest count b text =
    (get_type q m ≡ type_block)
    × (get_text q m ≡ ok text)
    × ((i : BlockInfo) × (get_metadata q (BlockInfo.pod q) m ≡ ok i)
        × ((FileInfo.get_digest (get_file_info i) ≡ digest)
            × (get_block_count q (get_file_info i) ≡ count)
            × (get_block q i ≡ b)))

abbrev pub file_of : Platform → Bytes → ℕ → FileInfo
file_of p digest count = record { digest = digest; num_blocks = p.htonl count }

pub file_of-IsValid :
    (p : Platform) (digest : Bytes) (count : ℕ)
    → length digest ≡ 33
    → FileInfo.IsValid (file_of p digest count)
file_of-IsValid p digest count h = record { digest_size = h; num_blocks-lt = p.htonl-lt count }

reads_block :
    (p q : Platform) (digest : Bytes) (count b id : ℕ) (file : Bytes) (m : Message)
    → length digest ≡ 33
    → count < 2 ^ 32
    → b < 2 ^ 32
    → m.buffer ≡ block_packet p id (file_of p digest count) b file
    → ReadsBlock q m digest count b (block_of file (b % 2 ^ 22))
reads_block p q digest count b id file m hd hc hb e =
    let i = BlockInfo.construct p (file_of p digest count) b in
    let obj = (BlockInfo.pod p).object i in
    let text = block_of file (b % 2 ^ 22) in
    let size : length obj ≡ 44 =
      (BlockInfo.pod p).length-object i (block-IsValue p _ b (file_of-IsValid p digest count hd))
      ∙ pod_size p in
    (
      get_type-packet p q id type_block obj text m e (omega arith),
      get_text-packet p q id type_block obj text m e (omega arith),
      (
        (BlockInfo.pod q).value (obj ++ text),
        get_metadata-packet p q id type_block obj text m e (BlockInfo.pod q)
            (size ∙ sym (pod_size q)) (omega arith),
        BlockInfo.value_wire p q digest count b text hd hc hb,
      ),
    )

-- A server whose stream has not failed enqueues block `b` of a file with a digest of 33 characters,
-- where number and count fit unsigned ints: one message is added at the back of the queue, and a
-- client on any host that holds its buffer reads the block's type, the file's digest and number of
-- blocks, the number `b`, and as the text the 1024 bytes of the server's file (or what is left of
-- it) that begin at 1024 * (b mod 2^22). So below 4 GiB it is block `b` itself.
pub enqueue_block-received :
    (p q : Platform) (s : BlockServer) (digest : Bytes) (count b : ℕ)
    → length digest ≡ 33
    → count < 2 ^ 32
    → b < 2 ^ 32
    → in_fails s.input ≡ false
    → s.input.badbit ≡ false
    → (s' : BlockServer) × (m : Message) × (enqueue_block p
          (BlockInfo.construct p (file_of p digest count) b)
          s
        ≡ ok s')
      × (s'.message_queue ≡ s.message_queue ++ (m ∷ []))
      × ReadsBlock q
          (record m { direction = input })
          digest
          count
          b
          (block_of s.input.contents (b % 2 ^ 22))
enqueue_block-received p q s digest count b hd hc hb good bad =
    let info = file_of p digest count in
    (
      record s {
        message_queue = s.message_queue ++ (block_message p s.id info b s.input.contents ∷ []);
        input = (Stream.read 1024 (record s.input { pos = 1024 * (b % 2 ^ 22) })).1;
      },
      block_message p s.id info b s.input.contents,
      enqueue_block_lem p info (file_of-IsValid p digest count hd) b hb s good bad,
      refl,
      reads_block p q digest count b s.id s.input.contents
          (record (block_message p s.id info b s.input.contents) { direction = input }) hd hc hb
          refl,
    )

-- The same as objects: the client's own `BlockInfo` for that file and number, and the text.
pub block_metadata :
    (p q : Platform) (digest : Bytes) (count b id : ℕ) (file : Bytes) (m : Message)
    → length digest ≡ 33
    → count < 2 ^ 32
    → b < 2 ^ 32
    → m.buffer ≡ block_packet p id (file_of p digest count) b file
    → (get_metadata q (BlockInfo.pod q) m ≡ ok (BlockInfo.construct q (file_of q digest count) b))
      × (get_text q m ≡ ok (block_of file (b % 2 ^ 22)))
block_metadata p q digest count b id file m hd hc hb e =
    let i = BlockInfo.construct p (file_of p digest count) b in
    let obj = (BlockInfo.pod p).object i in
    let text = block_of file (b % 2 ^ 22) in
    let size : length obj ≡ 44 =
      (BlockInfo.pod p).length-object i (block-IsValue p _ b (file_of-IsValid p digest count hd))
      ∙ pod_size p in
    (
      get_metadata-packet p q id type_block obj text m e (BlockInfo.pod q) (size ∙ sym (pod_size q))
            (omega arith)
          ∙ ap ok (BlockInfo.value_raw p q digest count b text hd hc hb),
      get_text-packet p q id type_block obj text m e (omega arith),
    )
