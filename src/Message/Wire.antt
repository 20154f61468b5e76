-- ===== src/Message/Wire.antt =====
-- A message built on one host, read on another.
use multisync.Base.{
  ℕ, ◌+◌, ◌%◌, ◌^◌, ◌≤◌, ◌<◌, ◌≡◌, ◌≢◌, refl, ap, ap₂, ◌∙◌, true, false, ◌++◌, Bytes, length, drop,
  leb, arith, length-append, ok, throw, undefined, header_size_mismatch, eq→==, ne→==,
}
use multisync.Platform.{Platform}
use multisync.Platform.Memory.{Pod, drop_at}
use multisync.Platform.Words.{wire32, wire16}
use multisync.Message.{
  Message, header_offset, header_length, header_type, get_packet_length, get_type, get_length,
  get_text, get_metadata, of_metadata_text,
}
use multisync.Message.Packet.{packet, header_bytes, of_metadata_text-packet}

pub leb-true : (a b : ℕ) → a ≤ b → leb a b ≡ true
leb-true a b h = ground arith

pub leb-false : (a b : ℕ) → b < a → leb a b ≡ false
leb-false a b h = ground arith

-- The accessors by the offset that the header tells.
module _ (q : Platform) (m : Message) (off : ℕ) (e : q.ntohs (header_offset q m.buffer) ≡ off) where
  pub get_text_at : off ≤ length m.buffer → get_text q m ≡ ok (drop off m.buffer)
  unfolding get_text
  get_text_at h = rw (e, leb-true off (length m.buffer) h)

  pub get_text_past : length m.buffer < off → get_text q m ≡ undefined
  unfolding get_text
  get_text_past h = rw (e, leb-false off (length m.buffer) h)

  module _ {M : Type 0} (pod : Pod M) where
    pub get_metadata_at :
        off ≡ 16 + pod.sizeof
        → off ≤ length m.buffer
        → get_metadata q pod m ≡ ok (pod.value (drop 16 m.buffer))
    unfolding get_metadata
    get_metadata_at s h = rw (
      e,
      eq→== off (16 + pod.sizeof) s,
      leb-true (16 + pod.sizeof) (length m.buffer) (omega arith),
    )

    pub get_metadata_mismatch :
        off ≢ 16 + pod.sizeof → get_metadata q pod m ≡ throw header_size_mismatch
    unfolding get_metadata
    get_metadata_mismatch s = rw (e, ne→== off (16 + pod.sizeof) s)

module _ (p q : Platform) (sender type : ℕ) (metadata body : Bytes) where
  abbrev buf : Bytes
  buf = packet p sender type metadata body

  -- The buffer up to the body.
  abbrev front : Bytes
  front =
      header_bytes p (p.htonl type) (p.htonl sender) (p.htonl (length body))
        (p.htons (16 + length metadata))
      ++ metadata

  pub header_offset-packet :
      length metadata < 65520 → q.ntohs (header_offset q buf) ≡ 16 + length metadata
  header_offset-packet h = wire16 p q (16 + length metadata) (omega arith)

  pub header_length-packet : length body < 2 ^ 32 → q.ntohl (header_length q buf) ≡ length body
  header_length-packet h = wire32 p q (length body) h

  pub header_type-packet : type < 2 ^ 32 → q.ntohl (header_type q buf) ≡ type
  header_type-packet h = wire32 p q type h

  pub length-packet : length buf ≡ 16 + length metadata + length body
  length-packet = omega (arith, length-append metadata body)

  -- The length that the header tells is the length of the buffer.
  pub get_packet_length-packet :
      length metadata < 65520 → length buf < 2 ^ 32 → get_packet_length q buf ≡ length buf
  unfolding get_packet_length
  get_packet_length-packet h k =
      ap (λ n. n % 2 ^ 32)
        (ap₂ (λ (a b : ℕ). a + b) (header_length-packet (omega (arith, length-packet)))
          (header_offset-packet h))
      ∙ omega (arith, length-packet)

  module _ (m : Message) (e : m.buffer ≡ buf) where
    pub get_type-packet : type < 2 ^ 32 → get_type q m ≡ type
    unfolding get_type
    get_type-packet h = rw e (header_type-packet h)

    pub get_length-packet : length body < 2 ^ 32 → get_length q m ≡ length body
    unfolding get_length
    get_length-packet h = rw e (header_length-packet h)

    pub get_text-packet : length metadata < 65520 → get_text q m ≡ ok body
    get_text-packet h =
        get_text_at q m (16 + length metadata) (rw e (header_offset-packet h))
          (rw e (omega (arith, length-packet)))
        ∙ rw e (ap ok (drop_at (16 + length metadata) front body (omega arith)))

    pub get_metadata-packet :
        {M : Type 0} (pod : Pod M)
        → length metadata ≡ pod.sizeof
        → length metadata < 65520
        → get_metadata q pod m ≡ ok (pod.value (metadata ++ body))
    get_metadata-packet pod s h =
        get_metadata_at q m (16 + length metadata) (rw e (header_offset-packet h)) pod (omega arith)
          (rw e (omega (arith, length-packet)))
        ∙ rw e refl

    pub get_metadata-packet_mismatch :
        {M : Type 0} (pod : Pod M)
        → length metadata ≢ pod.sizeof
        → length metadata < 65520
        → get_metadata q pod m ≡ throw header_size_mismatch
    get_metadata-packet_mismatch pod s h =
        get_metadata_mismatch q m (16 + length metadata) (rw e (header_offset-packet h)) pod
          (λ k. s (omega arith))

-- A message with metadata of fewer than 65520 bytes and a text shorter than 2^32, built on host
-- `p`, whose buffer host `q` holds, whatever the byte orders of the two: `q` reads the type, the
-- length of the text, the text, and as the metadata the object that the sender's bytes are on `q`,
-- where it asks for a type of the same size.
pub of_metadata_text-received :
    (p q : Platform) {M N : Type 0} (pod : Pod M) (pod' : Pod N) (sender type : ℕ) (x : M)
    (text : Bytes) (m : Message)
    → pod.IsValue x
    → pod.sizeof < 65520
    → pod'.sizeof ≡ pod.sizeof
    → type < 2 ^ 32
    → length text < 2 ^ 32
    → m.buffer ≡ (of_metadata_text p pod sender type x text).buffer
    → (get_type q m ≡ type)
      × (get_length q m ≡ length text)
      × (get_text q m ≡ ok text)
      × (get_metadata q pod' m ≡ ok (pod'.value (pod.object x ++ text)))
of_metadata_text-received p q pod pod' sender type x text m v hs same ht hl e =
    let obj = pod.object x in
    let size : length obj ≡ pod.sizeof = pod.length-object x v in
    let b : m.buffer ≡ packet p sender type obj text =
      e ∙ of_metadata_text-packet p pod sender type x v text hs hl in
    (
      get_type-packet p q sender type obj text m b ht,
      get_length-packet p q sender type obj text m b hl,
      get_text-packet p q sender type obj text m b (omega arith),
      get_metadata-packet p q sender type obj text m b pod' (omega arith) (omega arith),
    )
