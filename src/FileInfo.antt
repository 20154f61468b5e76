-- ===== src/FileInfo.antt =====
-- src/fileinfo.cpp and include/fileinfo.hpp: the identity of a file, its digest and the number of
-- its blocks. The MD5 class is another project's; its digest of the bytes read is a parameter.
pub mod Order
use Prim.Native.Nat.{compare, Ordering}
use multisync.Base.{
  ℕ, ◌+◌, ◌*◌, ◌/◌, ◌%◌, ◌^◌, ◌≤◌, ◌<◌, ◌≡◌, refl, sym, ap, ◌∙◌, Bool, true, false, ◌&&◌, Option,
  none, some, [], ◌∷◌, ◌++◌, Bytes, length, take, drop, ltb, ◌==◌, if◌then◌else◌, arith,
  length-append,
}
use multisync.Platform.{Platform, Endian, store32}
use mathlib.Core.List.{append_assoc}
use multisync.Platform.Memory.{Pod, load32, drop_at, take_at}
use multisync.Platform.Words.{wire32, raw_wire32, ntohl-htonl}

-- `BLOCKSIZE` of include/blockserver.hpp.
abbrev pub block_size : ℕ
block_size = 1024

-- `digest` is a `char[33]`, and `num_blocks` the field as it lies in memory.
pub record FileInfo : Type 0 where
  pub digest : Bytes
  pub num_blocks : ℕ

-- The count of blocks before `htonl`: the last one may be short. Of a file that cannot be opened
-- `tellg` is -1, with quotient 0 and a remainder that is not 0.
unfoldable pub count_blocks : Option Bytes → ℕ
count_blocks none = 1
count_blocks (some file) =
    let size = length file in
    let n = size / block_size % 2 ^ 32 in if size % block_size == 0 then n else (n + 1) % 2 ^ 32

-- What the `MD5` object has read when it gives its digest: nothing of a file that is not open.
abbrev pub contents : Option Bytes → Bytes
contents none = []
contents (some file) = file

unfoldable pub construct : Platform → (Bytes → Bytes) → Option Bytes → FileInfo
construct p hex_digest file = record {
  digest = hex_digest (contents file);
  num_blocks = p.htonl (count_blocks file);
}

unfoldable pub get_block_count : Platform → FileInfo → ℕ
get_block_count p f = p.ntohl f.num_blocks

unfoldable pub get_digest : FileInfo → Bytes
get_digest f = f.digest

-- The sign of `memcmp`. Both arrays have 33 bytes, so neither ends before the other.
unfoldable pub memcmp : Bytes → Bytes → Ordering
memcmp [] [] = Ordering.eq
memcmp [] (y ∷ ys) = Ordering.lt
memcmp (x ∷ xs) [] = Ordering.gt
memcmp (x ∷ xs) (y ∷ ys) = elim (compare x y) [
  | Ordering.lt ↦ Ordering.lt
  | Ordering.eq ↦ memcmp xs ys
  | Ordering.gt ↦ Ordering.gt
]

-- The value of `memcmp` as a condition: true where it is not 0.
abbrev pub is_nonzero : Ordering → Bool
is_nonzero Ordering.lt = true
is_nonzero Ordering.eq = false
is_nonzero Ordering.gt = true

unfoldable pub equal : FileInfo → FileInfo → Bool
equal f other = is_nonzero (memcmp f.digest other.digest) && (f.num_blocks == other.num_blocks)

unfoldable pub less : FileInfo → FileInfo → Bool
less f other = elim (memcmp f.digest other.digest) [
  | Ordering.lt ↦ true
  | Ordering.eq ↦ ltb f.num_blocks other.num_blocks
  | Ordering.gt ↦ false
]

-- The fields have the sizes of their C++ types.
pub record IsValid (f : FileInfo) : Type 0 where
  pub digest_size : length f.digest ≡ 33
  pub num_blocks-lt : f.num_blocks < 2 ^ 32

-- Three bytes of padding follow the digest; the model holds them at 0.
abbrev pub object : Platform → FileInfo → Bytes
object p f = f.digest ++ (0 ∷ 0 ∷ 0 ∷ store32 p.endian f.num_blocks)

pub length-object : (p : Platform) (f : FileInfo) → IsValid f → length (object p f) ≡ 40
length-object p f v =
    omega (arith, v.digest_size, length-append f.digest (0 ∷ 0 ∷ 0 ∷ store32 p.endian f.num_blocks))

unfoldable pub pod : Platform → Pod FileInfo
pod p = record {
  sizeof = 40;
  object = object p;
  value = λ bs. record { digest = take 33 bs; num_blocks = load32 p.endian bs 36 };
  IsValue = IsValid;
  length-object = length-object p;
}

-- The digest stands at offset 0 of an object, and the count at offset 36.
pub digest_at :
    (e : Endian) (digest rest : Bytes) (raw : ℕ)
    → length digest ≡ 33
    → take 33 ((digest ++ (0 ∷ 0 ∷ 0 ∷ store32 e raw)) ++ rest) ≡ digest
digest_at e digest rest raw h = rw append_assoc (take_at 33 digest _ h)

pub num_blocks_at :
    (e : Endian) (digest rest : Bytes) (raw : ℕ)
    → length digest ≡ 33
    → drop 36 ((digest ++ (0 ∷ 0 ∷ 0 ∷ store32 e raw)) ++ rest) ≡ store32 e raw ++ rest
num_blocks_at e digest rest raw h =
    ap (drop 36) (
      append_assoc digest (0 ∷ 0 ∷ 0 ∷ store32 e raw) rest
      ∙ sym (append_assoc digest (0 ∷ 0 ∷ 0 ∷ []) (store32 e raw ++ rest)))
    ∙ drop_at 36 (digest ++ (0 ∷ 0 ∷ 0 ∷ [])) (store32 e raw ++ rest)
        (omega (arith, h, length-append digest (0 ∷ 0 ∷ 0 ∷ [])))

-- Written by one host, a file's identity is the same digest and the same count on every other.
pub value_wire :
    (p q : Platform) (digest : Bytes) (count : ℕ) (rest : Bytes)
    → length digest ≡ 33
    → count < 2 ^ 32
    → let sent : FileInfo = record { digest = digest; num_blocks = p.htonl count } in
      let f : FileInfo = (pod q).value ((pod p).object sent ++ rest) in
      (get_digest f ≡ digest) × (get_block_count q f ≡ count)
unfolding pod get_block_count get_digest
value_wire p q digest count rest hd hc = (
  digest_at p.endian digest rest (p.htonl count) hd,
  ap (λ w. q.ntohl (load32 q.endian w 0)) (num_blocks_at p.endian digest rest (p.htonl count) hd)
      ∙ wire32 p q count hc,
)

-- It is the object that the other host makes of the same digest and count.
pub value_raw :
    (p q : Platform) (digest : Bytes) (count : ℕ) (rest : Bytes)
    → length digest ≡ 33
    → count < 2 ^ 32
    → let sent : FileInfo = record { digest = digest; num_blocks = p.htonl count } in
      (pod q).value ((pod p).object sent ++ rest)
      ≡ record { digest = digest; num_blocks = q.htonl count }
unfolding pod
value_raw p q digest count rest hd hc = λ i. record {
  digest = digest_at p.endian digest rest (p.htonl count) hd i;
  num_blocks =
      (ap (λ w. load32 q.endian w 0) (num_blocks_at p.endian digest rest (p.htonl count) hd)
          ∙ raw_wire32 p q count hc)
        i;
}
