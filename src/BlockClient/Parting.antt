-- ===== src/BlockClient/Parting.antt =====
-- The goodbye of a server: the array of clients that it names, and what the client does at it.
use mathlib.Core.List.{append_assoc}
use multisync.Base.{
  ℕ, ◌+◌, ◌*◌, ◌/◌, ◌%◌, ◌^◌, ◌<◌, ◌≡◌, refl, sym, ap, ◌∙◌, List, [], ◌∷◌, ◌++◌, Bytes, length,
  arith, ok, length-append, eq→==,
}
use multisync.Platform.{Platform, store32}
use multisync.Platform.Memory.{load32, drop_at}
use multisync.Platform.Words.{raw_wire32}
use multisync.Message.{Message, Array, header_length, header_offset, get_array, array_elem}
use multisync.Message.Packet.{packet, header_bytes}
use multisync.Message.Wire.{header_length-packet, header_offset-packet, leb-true}
use multisync.BlockClient.Goodbye.{Elements}

-- An array of unsigned ints in network byte order, as host `p` stores it.
abbrev pub words : Platform → List ℕ → Bytes
words p [] = []
words p (x ∷ xs) = store32 p.endian (p.htonl x) ++ words p xs

-- The elements as they lie in the memory of host `q`.
abbrev pub raw : Platform → List ℕ → List ℕ
raw q [] = []
raw q (x ∷ xs) = q.htonl x ∷ raw q xs

abbrev pub AllWords : List ℕ → Type 0
AllWords [] = Unit {0}
AllWords (x ∷ xs) = (x < 2 ^ 32) × AllWords xs

pub length-words : (p : Platform) (xs : List ℕ) → length (words p xs) ≡ 4 * length xs
length-words p [] = refl
length-words p (x ∷ xs) = omega (arith, length-words p xs)

array_elem_at :
    (p q : Platform) (m : Message) (array : Array) (i x : ℕ) (front rest : Bytes)
    → m.buffer ≡ front ++ (store32 p.endian (p.htonl x) ++ rest)
    → length front ≡ array.first + 4 * i
    → x < 2 ^ 32
    → array_elem q m array i ≡ ok (q.htonl x)
unfolding array_elem
array_elem_at p q m array i x front rest e h b =
    let size : length m.buffer ≡ length front + (4 + length rest) =
      omega (arith, ap length e, length-append front (store32 p.endian (p.htonl x) ++ rest)) in
    rw (leb-true (array.first + 4 * i + 4) (length m.buffer) (omega (arith, size))) (
      ap (λ z. ok (load32 q.endian z (array.first + 4 * i))) e
      ∙ ap (λ (w : Bytes). ok (load32 q.endian w 0))
          (drop_at (array.first + 4 * i) front (store32 p.endian (p.htonl x) ++ rest) h)
      ∙ ap ok (raw_wire32 p q x b))

words-Elements :
    (p q : Platform) (m : Message) (array : Array) (xs : List ℕ) (i : ℕ) (front : Bytes)
    → m.buffer ≡ front ++ words p xs
    → length front ≡ array.first + 4 * i
    → AllWords xs
    → Elements q m array i (raw q xs)
words-Elements p q m array [] i front e h b = tt
words-Elements p q m array (x ∷ xs) i front e h (b, bs) = (
  array_elem_at p q m array i x front (words p xs) e h b,
  words-Elements p q m array xs (i + 1) (front ++ store32 p.endian (p.htonl x))
      (e ∙ sym (append_assoc front (store32 p.endian (p.htonl x)) (words p xs)))
      (omega (arith, length-append front (store32 p.endian (p.htonl x)))) bs,
)

-- A message whose text is an array of unsigned ints in network byte order, built on host `p` and held
-- by host `q`: `get_array` finds as many elements as were stored, and the elements that it gives are
-- those numbers as they lie in memory, which nothing converts back.
pub get_array_received :
    (p q : Platform) (sender type : ℕ) (metadata : Bytes) (xs : List ℕ) (m : Message)
    → m.buffer ≡ packet p sender type metadata (words p xs)
    → length metadata < 65520
    → 4 * length xs < 2 ^ 32
    → AllWords xs
    → (array : Array) × (get_array q 4 m ≡ ok array)
      × (array.count ≡ length xs)
      × Elements q m array 0 (raw q xs)
unfolding get_array
get_array_received p q sender type metadata xs m e hm hx b =
    let len : q.ntohl (header_length q m.buffer) ≡ 4 * length xs =
      ap (λ z. q.ntohl (header_length q z)) e
      ∙ header_length-packet p q sender type metadata (words p xs)
          (omega (arith, length-words p xs))
      ∙ length-words p xs in
    let off : q.ntohs (header_offset q m.buffer) ≡ 16 + length metadata =
      ap (λ z. q.ntohs (header_offset q z)) e
      ∙ header_offset-packet p q sender type metadata (words p xs) hm in
    let array : Array = record {
      first = q.ntohs (header_offset q m.buffer);
      count = q.ntohl (header_length q m.buffer) / 4;
    } in
    let front =
      header_bytes p (p.htonl type) (p.htonl sender) (p.htonl (length (words p xs)))
        (p.htons (16 + length metadata))
      ++ metadata in
    (
      array,
      rw (eq→== (q.ntohl (header_length q m.buffer) % 4) 0 (omega (arith, len))) refl,
      omega (arith, len),
      words-Elements p q m array xs 0 front e (omega (arith, off)) b,
    )
