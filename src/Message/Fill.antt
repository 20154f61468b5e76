-- ===== src/Message/Fill.antt =====
-- `operator>>(istream, message)`: a block of a file read into the space that a message reserves.
use multisync.Base.{
  ℕ, ◌+◌, ◌-◌, ◌%◌, ◌^◌, ◌≤◌, ◌<◌, ◌≡◌, sym, ap, ap₂, ◌∙◌, false, ◌++◌, Bytes, length, drop, take,
  arith, length-append, length-take, take-append-drop, length-replicate, ok, eq→==,
}
use mathlib.Core.List.{append-nil, append_assoc}
use multisync.Platform.{Platform, store32}
use multisync.Platform.Memory.{Pod, take_at, overwrite, overwrite_at}
use multisync.Platform.Words.{read-byte32, wire16}
use multisync.Stream.{Ifstream, in_fails}
use multisync.Stream
use multisync.Message.{
  Message, zeros, resize, header_offset, header_length, read_from, fill_buffer,
  of_metadata_reserved,
}
use multisync.Message.Packet.{packet, header_bytes, of_metadata_reserved-packet}
use multisync.Message.Wire.{leb-true}

-- The bytes that a read of `n` at `pos` finds in a file.
abbrev pub slice : Bytes → ℕ → ℕ → Bytes
slice file pos n = take n (drop pos file)

pub overwrite_front :
    (n : ℕ) (front bs old : Bytes)
    → length front ≡ n
    → length bs ≤ length old
    → overwrite (front ++ old) n bs ≡ front ++ (bs ++ drop (length bs) old)
overwrite_front n front bs old h k =
    ap (λ z. overwrite (front ++ z) n bs) (sym (take-append-drop (length bs) old))
    ∙ overwrite_at n front (take (length bs) old) bs (drop (length bs) old) h
        (omega (arith, length-take (length bs) old))

pub resize_at : (n : ℕ) (front tail : Bytes) → length front ≡ n → resize (front ++ tail) n ≡ front
resize_at n front tail h =
    ap₂ (λ (x y : Bytes). x ++ y) (take_at n front tail h)
      (ap zeros {y = 0} (omega (arith, length-append front tail)))
    ∙ append-nil front

-- The three changes of the buffer in turn: the bytes behind the header and the metadata, the length
-- in the header, and the space that was not used.
filled :
    (p : Platform) (type sender len offset : ℕ) (metadata space got : Bytes)
    → length got ≤ length space
    → resize
        (overwrite
          (overwrite
            (header_bytes p type sender 0 offset ++ (metadata ++ space))
            (16 + length metadata)
            got)
          4
          (store32 p.endian len))
        (16 + length metadata + length got)
      ≡ header_bytes p type sender len offset ++ (metadata ++ got)
filled p type sender len offset metadata space got h =
    let tail = drop (length got) space in
    let header = header_bytes p type sender len offset in
    let n = 16 + length metadata + length got in
    ap (λ z. resize (overwrite z 4 (store32 p.endian len)) n)
      (overwrite_front (16 + length metadata) (header_bytes p type sender 0 offset ++ metadata) got
        space (omega arith) h)
    ∙ ap (λ z. resize (header ++ z) n) (sym (append_assoc metadata got tail))
    ∙ resize_at n (header ++ (metadata ++ got)) tail (omega (arith, length-append metadata got))

-- Filling a message whose header promises nothing: its buffer becomes the packet with the bytes
-- that were read as its body.
fill_buffer-packet :
    (p : Platform) (sender type : ℕ) (metadata space got : Bytes) (m : Message) (s : Ifstream)
    → m.buffer
      ≡ header_bytes p (p.htonl type) (p.htonl sender) 0 (p.htons (16 + length metadata))
        ++ (metadata ++ space)
    → length got ≤ length space
    → length got < 2 ^ 32
    → s.badbit ≡ false
    → fill_buffer p m (16 + length metadata) (got, s)
      ≡ ok (record m { buffer = packet p sender type metadata got }, s)
unfolding fill_buffer
fill_buffer-packet p sender type metadata space got m s e h k b = simp b (
    rw e (
      ap (λ z. ok (record m { buffer = z }, s))
        (filled p (p.htonl type) (p.htonl sender) (p.htonl (length got % 2 ^ 32))
            (p.htons (16 + length metadata)) metadata space got h
          ∙ ap
              (λ l.
                header_bytes p (p.htonl type) (p.htonl sender) l (p.htons (16 + length metadata))
                ++ (metadata ++ got))
              (ap p.htonl (omega arith)))))

-- `read_from` once the header's two numbers are known.
read_from_empty :
    (p : Platform) (m : Message) (s : Ifstream) (off : ℕ)
    → header_length p m.buffer ≡ 0
    → p.ntohs (header_offset p m.buffer) ≡ off
    → off ≤ length m.buffer
    → read_from p m s ≡ fill_buffer p m off (Stream.read (length m.buffer - off) s)
unfolding read_from
read_from_empty p m s off z o h =
    rw (eq→== (header_length p m.buffer) 0 z, o, leb-true off (length m.buffer) h)

read_good :
    (n : ℕ) (s : Ifstream) → in_fails s ≡ false → (Stream.read n s).0 ≡ slice s.contents s.pos n
unfolding Stream.read
read_good n s h = simp h

read_pair :
    (n : ℕ) (s : Ifstream)
    → in_fails s ≡ false
    → Stream.read n s ≡ (slice s.contents s.pos n, (Stream.read n s).1)
read_pair n s h i = (read_good n s h i, (Stream.read n s).1)

-- A read never sets `badbit`, which stands for a device that fails.
read-badbit : (n : ℕ) (s : Ifstream) → (Stream.read n s).1.badbit ≡ s.badbit
unfolding Stream.read
read-badbit n s = ground arith

reserved_header :
    (p : Platform) (type sender n : ℕ) (rest : Bytes)
    → n < 2 ^ 16
    → let buf = header_bytes p type sender 0 (p.htons n) ++ rest in
      (header_length p buf ≡ 0) × (p.ntohs (header_offset p buf) ≡ n)
reserved_header p type sender n rest h = (read-byte32 p.endian 0 (omega arith), wire16 p p n h)

read_from_reserved :
    (p : Platform) (sender type : ℕ) (metadata : Bytes) (reserve : ℕ) (m : Message) (s : Ifstream)
    → m.buffer
      ≡ header_bytes p (p.htonl type) (p.htonl sender) 0 (p.htons (16 + length metadata))
        ++ (metadata ++ zeros reserve)
    → length metadata < 65520
    → reserve < 2 ^ 32
    → in_fails s ≡ false
    → s.badbit ≡ false
    → read_from p m s
      ≡ ok (
        record m { buffer = packet p sender type metadata (slice s.contents s.pos reserve) },
        (Stream.read reserve s).1,
      )
read_from_reserved p sender type metadata reserve m s e hs hr good bad =
    let header =
      reserved_header p (p.htonl type) (p.htonl sender) (16 + length metadata)
        (metadata ++ zeros reserve) (omega arith) in
    let size : length m.buffer ≡ 16 + length metadata + reserve =
      rw e (
        omega
          (arith, length-append metadata (zeros reserve), length-replicate {A = ℕ} reserve 0)) in
    let got = slice s.contents s.pos reserve in
    read_from_empty p m s (16 + length metadata) (rw e header.0) (rw e header.1) (omega arith)
    ∙ ap (λ n. fill_buffer p m (16 + length metadata) (Stream.read n s)) {y = reserve} (omega arith)
    ∙ ap (fill_buffer p m (16 + length metadata)) (read_pair reserve s good)
    ∙ (fill_buffer-packet p sender type metadata (zeros reserve) got m (Stream.read reserve s).1 e
        (omega
          (arith, length-take reserve (drop s.pos s.contents), length-replicate {A = ℕ} reserve 0))
        (omega (arith, length-take reserve (drop s.pos s.contents))) (read-badbit reserve s ∙ bad))

-- A message with metadata of fewer than 65520 bytes that reserves space, filled from a stream that
-- has not failed: it becomes the packet whose body is what stands in the file at the stream's
-- position, as many bytes as were reserved or as the file has left.
pub of_metadata_reserved-filled :
    (p : Platform) {M : Type 0} (pod : Pod M) (sender type : ℕ) (x : M) (reserve : ℕ) (s : Ifstream)
    → pod.IsValue x
    → pod.sizeof < 65520
    → reserve < 2 ^ 32
    → in_fails s ≡ false
    → s.badbit ≡ false
    → read_from p (of_metadata_reserved p pod sender type x reserve) s
      ≡ ok (
        record (of_metadata_reserved p pod sender type x reserve) {
          buffer = packet p sender type (pod.object x) (slice s.contents s.pos reserve);
        },
        (Stream.read reserve s).1,
      )
of_metadata_reserved-filled p pod sender type x reserve s v hs hr good bad =
    read_from_reserved p sender type (pod.object x) reserve
      (of_metadata_reserved p pod sender type x reserve) s
      (of_metadata_reserved-packet p pod sender type x v reserve hs)
      (omega (arith, pod.length-object x v)) hr good bad
