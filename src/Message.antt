-- ===== src/Message.antt =====
-- src/message.cpp and include/message.hpp: a message is a byte buffer that begins with a Header of
-- 16 bytes (three unsigned ints, an unsigned short, two bytes of padding), then the metadata of a
-- MetadataHeader, then the payload. All metadata types are aligned to 4 bytes and of a size that 4
-- divides, so `sizeof(MetadataHeader<M>)` is `16 + sizeof(M)`.
pub mod Packet
pub mod Wire
pub mod Fill
use multisync.Base.{
  ℕ, ◌+◌, ◌-◌, ◌*◌, ◌/◌, ◌%◌, ◌^◌, ◌≤◌, ◌<◌, Bool, true, false, ◌&&◌, ◌||◌, List, [], ◌∷◌, ◌++◌,
  Bytes, length, take, drop, replicate, ltb, leb, ◌==◌, if◌then◌else◌, Result, ok, throw, undefined,
  ◌>>=◌, ◌>>◌, require, in_bounds, header_size_mismatch, invalid_buffer_length, could_not_write,
  could_not_read,
}
use multisync.Platform.{Platform, store32, store16}
use multisync.Platform.Memory.{Pod, load32, load16, overwrite}
use multisync.Stream.{Ifstream, Ofstream}
use multisync.Stream

pub data Direction : Type 0 where
  output input : Direction

pub record Message : Type 0 where
  pub buffer : Bytes
  pub direction : Direction

-- `sizeof(Header)`.
abbrev pub sizeof_header : ℕ
sizeof_header = 16

-- `vector<char>(n)`.
abbrev pub zeros : ℕ → Bytes
zeros n = replicate n 0

-- `vector::resize`.
abbrev pub resize : Bytes → ℕ → Bytes
resize buf n = take n buf ++ zeros (n - length buf)

-- The values of `enum MessageType`.
abbrev pub type_info : ℕ
type_info = 0

abbrev pub type_block : ℕ
type_block = 1

abbrev pub type_getblock : ℕ
type_getblock = 2

abbrev pub type_getinfo : ℕ
type_getinfo = 3

abbrev pub type_cgoodbye : ℕ
type_cgoodbye = 4

abbrev pub type_sgoodbye : ℕ
type_sgoodbye = 5

abbrev pub type_chello : ℕ
type_chello = 6

module _ (p : Platform) where
  -- The fields of the header that a buffer begins with, as they lie in memory.
  abbrev pub header_type : Bytes → ℕ
  header_type buf = load32 p.endian buf 0

  abbrev pub header_length : Bytes → ℕ
  header_length buf = load32 p.endian buf 4

  abbrev pub header_sender : Bytes → ℕ
  header_sender buf = load32 p.endian buf 8

  abbrev pub header_offset : Bytes → ℕ
  header_offset buf = load16 p.endian buf 12

  -- `Header::GetPacketLength`: unsigned, so the sum wraps.
  unfoldable pub get_packet_length : Bytes → ℕ
  get_packet_length buf = (p.ntohl (header_length buf) + p.ntohs (header_offset buf)) % 2 ^ 32

  -- The assignments to the four fields, in the constructors' order.
  abbrev pub store_header : Bytes → ℕ → ℕ → ℕ → ℕ → Bytes
  store_header buf type sender len offset =
      let typed : Bytes = overwrite buf 0 (store32 p.endian type) in
      let sent : Bytes = overwrite typed 8 (store32 p.endian sender) in
      let sized : Bytes = overwrite sent 4 (store32 p.endian len) in
      overwrite sized 12 (store16 p.endian offset)

  -- `Message(unsigned int reserve)`.
  unfoldable pub for_input : ℕ → Message
  for_input reserve = record {
    buffer = store_header (zeros (reserve + sizeof_header)) 0 0 0 0;
    direction = input;
  }

  -- `Message(sender, type)`. The three constructors without metadata call `ntohs` for `htons`.
  unfoldable pub empty : ℕ → ℕ → Message
  empty sender type = record {
    buffer =
        store_header (zeros sizeof_header) (p.htonl type) (p.htonl sender) 0
          (p.ntohs sizeof_header);
    direction = output;
  }

  -- `Message(sender, type, reserve)`.
  unfoldable pub reserved : ℕ → ℕ → ℕ → Message
  reserved sender type reserve = record {
    buffer =
        store_header (zeros (reserve + sizeof_header)) (p.htonl type) (p.htonl sender) 0
          (p.ntohs sizeof_header);
    direction = output;
  }

  -- `Message(sender, type, text)`.
  unfoldable pub of_text : ℕ → ℕ → Bytes → Message
  of_text sender type text = record {
    buffer =
        overwrite
          (store_header (zeros (length text + sizeof_header)) (p.htonl type) (p.htonl sender)
            (p.htonl (length text % 2 ^ 32)) (p.ntohs sizeof_header))
          sizeof_header text;
    direction = output;
  }

  module _ {M : Type 0} (pod : Pod M) where
    abbrev pub sizeof_metadata_header : ℕ
    sizeof_metadata_header = sizeof_header + pod.sizeof

    -- `Message(sender, type, metadata)`.
    unfoldable pub of_metadata : ℕ → ℕ → M → Message
    of_metadata sender type metadata = record {
      buffer =
          overwrite
            (store_header (zeros sizeof_metadata_header) (p.htonl type) (p.htonl sender) 0
              (p.htons (sizeof_metadata_header % 2 ^ 16)))
            sizeof_header (pod.object metadata);
      direction = output;
    }

    -- `Message(sender, type, metadata, reserve)`.
    unfoldable pub of_metadata_reserved : ℕ → ℕ → M → ℕ → Message
    of_metadata_reserved sender type metadata reserve = record {
      buffer =
          overwrite
            (store_header (zeros (reserve + sizeof_metadata_header)) (p.htonl type) (p.htonl sender)
              0 (p.htons (sizeof_metadata_header % 2 ^ 16)))
            sizeof_header (pod.object metadata);
      direction = output;
    }

    -- `Message(sender, type, metadata, text)`.
    unfoldable pub of_metadata_text : ℕ → ℕ → M → Bytes → Message
    of_metadata_text sender type metadata text = record {
      buffer =
          overwrite
            (overwrite
              (store_header (zeros (length text + sizeof_metadata_header)) (p.htonl type)
                (p.htonl sender) (p.htonl (length text % 2 ^ 32))
                (p.htons (sizeof_metadata_header % 2 ^ 16)))
              sizeof_header (pod.object metadata))
            sizeof_metadata_header text;
      direction = output;
    }

    -- `get_metadata<M>()`: the object behind the header, if the header says that it has its size.
    unfoldable pub get_metadata : Message → Result M
    get_metadata m = do
      require (p.ntohs (header_offset m.buffer) == sizeof_metadata_header) header_size_mismatch
      in_bounds (leb sizeof_metadata_header (length m.buffer))
      ok (pod.value (drop sizeof_header m.buffer))

  unfoldable pub get_type : Message → ℕ
  get_type m = p.ntohl (header_type m.buffer)

  unfoldable pub get_length : Message → ℕ
  get_length m = p.ntohl (header_length m.buffer)

  -- `get_text()`: undefined if the data would begin behind the end of the buffer.
  unfoldable pub get_text : Message → Result Bytes
  get_text m = do
    let offset = p.ntohs (header_offset m.buffer)
    in_bounds (leb offset (length m.buffer))
    ok (drop offset m.buffer)

  -- `operator<<(ostream, message)`: writes all behind the header.
  unfoldable pub write_to : Message → Ofstream → Result Ofstream
  write_to m stream = do
    let offset = p.ntohs (header_offset m.buffer)
    in_bounds (leb offset (length m.buffer))
    let stream' = Stream.write (drop offset m.buffer) stream
    if stream'.failbit then throw could_not_write else ok stream'

  -- The body of `operator>>(istream, message)` for a message that holds no data yet.
  unfoldable pub fill_buffer : Message → ℕ → Bytes × Ifstream → Result (Message × Ifstream)
  fill_buffer m offset (got, stream) = do
    let loaded : Bytes = overwrite m.buffer offset got
    let sized : Bytes = overwrite loaded 4 (store32 p.endian (p.htonl (length got % 2 ^ 32)))
    let trimmed : Bytes = resize sized (offset + length got)
    if stream.badbit then throw could_not_read else ok (record m { buffer = trimmed }, stream)

  -- `operator>>(istream, message)`.
  unfoldable pub read_from : Message → Ifstream → Result (Message × Ifstream)
  read_from m stream =
      if header_length m.buffer == 0
      then (do
        let offset = p.ntohs (header_offset m.buffer)
        in_bounds (leb offset (length m.buffer))
        fill_buffer m offset (Stream.read (length m.buffer - offset) stream))
      else ok (m, stream)

-- `Array<T>`: where the elements begin in the buffer, and their number.
pub record Array : Type 0 where
  pub first : ℕ
  pub count : ℕ

module _ (p : Platform) where
  -- `get_array<T>()`, for elements of `size` bytes.
  unfoldable pub get_array : ℕ → Message → Result Array
  get_array size m = do
    let len = p.ntohl (header_length p m.buffer)
    require (len % size == 0) invalid_buffer_length
    ok (record { first = p.ntohs (header_offset p m.buffer); count = len / size })

  -- `array.data[i]` for `T = unsigned`: the word as it lies in the buffer.
  unfoldable pub array_elem : Message → Array → ℕ → Result ℕ
  array_elem m array i = do
    let at = array.first + 4 * i
    in_bounds (leb (at + 4) (length m.buffer))
    ok (load32 p.endian m.buffer at)
