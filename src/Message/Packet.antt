-- ===== src/Message/Packet.antt =====
-- What the constructors put into the buffer: a header in network byte order, the metadata, the
-- text or the reserved space.
use multisync.Base.{
  ℕ, zero, suc, ◌+◌, ◌%◌, ◌^◌, ◌<◌, ◌≡◌, refl, sym, ap, ap₂, ◌∙◌, [], ◌∷◌, ◌++◌, Bytes, length,
  arith, length-replicate,
}
use mathlib.Core.List.{append-nil}
use multisync.Platform.{Platform, store32, store16}
use multisync.Platform.Memory.{Pod, overwrite, overwrite_at}
use multisync.Platform.Words.{ntohs-eq-htons, htonl-zero}
use multisync.Message.{
  zeros, store_header, sizeof_header, empty, of_text, of_metadata, of_metadata_reserved,
  of_metadata_text,
}

-- The 16 bytes of a header with these four fields, as they lie in memory.
abbrev pub header_bytes : Platform → ℕ → ℕ → ℕ → ℕ → Bytes
header_bytes p type sender len offset =
    store32 p.endian type
    ++ (store32 p.endian len
        ++ (store32 p.endian sender ++ (store16 p.endian offset ++ (0 ∷ 0 ∷ []))))

-- The buffer of a message of `sender` with `type`: a header that tells the length of the body and
-- the offset at which it begins, the metadata, the body.
abbrev pub packet : Platform → ℕ → ℕ → Bytes → Bytes → Bytes
packet p sender type metadata body =
    header_bytes p (p.htonl type) (p.htonl sender) (p.htonl (length body))
      (p.htons (sizeof_header + length metadata))
    ++ (metadata ++ body)

pub zeros-add : (m n : ℕ) → zeros (n + m) ≡ zeros m ++ zeros n
zeros-add zero n = ap zeros (omega arith)
zeros-add (suc m) n =
    ap zeros {x = n + suc m} {y = suc (n + m)} (omega arith) ∙ ap (◌∷◌ 0) (zeros-add m n)

-- On a buffer of zeros the assignments build the header.
pub store_header-zeros :
    (p : Platform) (type sender len offset : ℕ) (rest : Bytes)
    → store_header p (zeros 16 ++ rest) type sender len offset
      ≡ header_bytes p type sender len offset ++ rest
store_header-zeros p type sender len offset rest = refl

store_header_reserved :
    (p : Platform) (type sender len offset n : ℕ)
    → store_header p (zeros (n + 16)) type sender len offset
      ≡ header_bytes p type sender len offset ++ zeros n
store_header_reserved p type sender len offset n =
    ap (λ buf. store_header p buf type sender len offset) (zeros-add 16 n)

-- Bytes copied over as many zeros replace them.
pub overwrite-zeros :
    (n : ℕ) (front bs rest : Bytes)
    → length front ≡ n
    → overwrite (front ++ (zeros (length bs) ++ rest)) n bs ≡ front ++ (bs ++ rest)
overwrite-zeros n front bs rest h =
    overwrite_at n front (zeros (length bs)) bs rest h (length-replicate (length bs) 0)

overwrite_last :
    (n : ℕ) (front bs : Bytes)
    → length front ≡ n
    → overwrite (front ++ zeros (length bs)) n bs ≡ front ++ bs
overwrite_last n front bs h =
    rw (append-nil (zeros (length bs)), append-nil bs) at (overwrite-zeros n front bs [] h)

zeros_split : (s n : ℕ) → zeros (n + (16 + s)) ≡ zeros 16 ++ (zeros s ++ zeros n)
zeros_split s n =
    zeros-add (16 + s) n
    ∙ ap (λ z. z ++ zeros n) (ap zeros {x = 16 + s} {y = s + 16} (omega arith) ∙ zeros-add 16 s)

module _ (p : Platform) (type sender len offset : ℕ) where
  abbrev header : Bytes
  header = header_bytes p type sender len offset

  -- The buffer after the metadata is assigned, with `n` zeros left for the body.
  with_metadata :
      (metadata : Bytes) (n : ℕ)
      → overwrite
          (store_header p (zeros (n + (16 + length metadata))) type sender len offset)
          16
          metadata
        ≡ header ++ (metadata ++ zeros n)
  with_metadata metadata n =
      ap (λ buf. overwrite (store_header p buf type sender len offset) 16 metadata)
        (zeros_split (length metadata) n)
      ∙ overwrite-zeros 16 header metadata (zeros n) refl

  with_body :
      (metadata body : Bytes)
      → overwrite
          (overwrite
            (store_header p (zeros (length body + (16 + length metadata))) type sender len offset)
            16
            metadata)
          (16 + length metadata)
          body
        ≡ header ++ (metadata ++ body)
  with_body metadata body =
      ap (λ buf. overwrite buf (16 + length metadata) body) (with_metadata metadata (length body))
      ∙ overwrite_last (16 + length metadata) (header ++ metadata) body (omega arith)

  with_text :
      (body : Bytes)
      → overwrite (store_header p (zeros (length body + 16)) type sender len offset) 16 body
        ≡ header ++ body
  with_text body =
      ap (λ buf. overwrite (store_header p buf type sender len offset) 16 body)
        (zeros-add 16 (length body))
      ∙ overwrite_last 16 header body refl

-- Constructors that take metadata, with the checks of their sizes as hypotheses: the metadata is a
-- value of its type, the size of the header fits its field, and the length of the text its own.
module _ (p : Platform) {M : Type 0} (pod : Pod M) (sender type : ℕ) (m : M)
    (v : pod.IsValue m) where
  pub of_metadata_text-packet :
      (text : Bytes)
      → pod.sizeof < 65520
      → length text < 2 ^ 32
      → (of_metadata_text p pod sender type m text).buffer
        ≡ packet p sender type (pod.object m) text
  unfolding of_metadata_text
  of_metadata_text-packet text hs ht =
      let obj = pod.object m in
      rw (← pod.length-object m v) (
        with_body p (p.htonl type) (p.htonl sender) (p.htonl (length text % 2 ^ 32))
          (p.htons ((16 + length obj) % 2 ^ 16)) obj text
        ∙ ap₂ (λ l o. header_bytes p (p.htonl type) (p.htonl sender) l o ++ (obj ++ text))
            (ap p.htonl (omega arith)) (ap p.htons (omega (arith, pod.length-object m v))))

  pub of_metadata-packet :
      pod.sizeof < 65520
      → (of_metadata p pod sender type m).buffer ≡ packet p sender type (pod.object m) []
  unfolding of_metadata
  of_metadata-packet hs =
      let obj = pod.object m in
      let type' = p.htonl type in
      let sender' = p.htonl sender in
      rw (← pod.length-object m v) (
        ap
          (λ z.
            overwrite (store_header p z type' sender' 0 (p.htons ((16 + length obj) % 2 ^ 16))) 16
              obj)
          (ap zeros {x = 16 + length obj} {y = 0 + (16 + length obj)} (omega arith))
        ∙ with_metadata p type' sender' 0 (p.htons ((16 + length obj) % 2 ^ 16)) obj 0
        ∙ ap₂ (λ l o. header_bytes p type' sender' l o ++ (obj ++ [])) (sym (htonl-zero p))
            (ap p.htons (omega (arith, pod.length-object m v))))

  pub of_metadata_reserved-packet :
      (reserve : ℕ)
      → pod.sizeof < 65520
      → (of_metadata_reserved p pod sender type m reserve).buffer
        ≡ header_bytes p (p.htonl type) (p.htonl sender) 0 (p.htons (16 + length (pod.object m)))
          ++ (pod.object m ++ zeros reserve)
  unfolding of_metadata_reserved
  of_metadata_reserved-packet reserve hs =
      let obj = pod.object m in
      let type' = p.htonl type in
      let sender' = p.htonl sender in
      rw (← pod.length-object m v) (
        with_metadata p type' sender' 0 (p.htons ((16 + length obj) % 2 ^ 16)) obj reserve
        ∙ ap (λ o. header_bytes p type' sender' 0 o ++ (obj ++ zeros reserve))
            (ap p.htons (omega (arith, pod.length-object m v))))

-- The constructors without metadata.
module _ (p : Platform) (sender type : ℕ) where
  pub of_text-packet :
      (text : Bytes)
      → length text < 2 ^ 32
      → (of_text p sender type text).buffer ≡ packet p sender type [] text
  unfolding of_text
  of_text-packet text ht =
      with_text p (p.htonl type) (p.htonl sender) (p.htonl (length text % 2 ^ 32)) (p.ntohs 16) text
      ∙ ap₂ (λ l o. header_bytes p (p.htonl type) (p.htonl sender) l o ++ text)
          (ap p.htonl (omega arith)) (ntohs-eq-htons p 16 (omega arith))

  pub empty-packet : (empty p sender type).buffer ≡ packet p sender type [] []
  unfolding empty
  empty-packet =
      ap₂ (λ l o. header_bytes p (p.htonl type) (p.htonl sender) l o ++ []) (sym (htonl-zero p))
        (ntohs-eq-htons p 16 (omega arith))
