-- ===== src/Platform.antt =====
-- The host: how a number lies in its memory (C++ object representation), and the four byte-order
-- functions of <netinet/in.h>, which every class of the repository calls and none implements.
pub mod Memory
pub mod Words
pub mod Hosts
use multisync.Base.{ℕ, ◌+◌, ◌*◌, ◌/◌, ◌%◌, ◌^◌, ◌<◌, ◌≡◌, List, [], ◌∷◌, Bytes}

pub data Endian : Type 0 where
  little big : Endian

-- Byte `k` of an unsigned int, lowest address first.
abbrev pub byte32 : Endian → ℕ → ℕ × ℕ × ℕ × ℕ
byte32 little x = (x % 256, x / 256 % 256, x / 65536 % 256, x / 16777216 % 256)
byte32 big x = (x / 16777216 % 256, x / 65536 % 256, x / 256 % 256, x % 256)

abbrev pub byte16 : Endian → ℕ → ℕ × ℕ
byte16 little x = (x % 256, x / 256 % 256)
byte16 big x = (x / 256 % 256, x % 256)

-- The four bytes that an unsigned int fills, and the two of an unsigned short.
abbrev pub store32 : Endian → ℕ → Bytes
store32 e x = let b = byte32 e x in b.0 ∷ b.1 ∷ b.2 ∷ b.3 ∷ []

abbrev pub store16 : Endian → ℕ → Bytes
store16 e x = let b = byte16 e x in b.0 ∷ b.1 ∷ []

-- The number that a host reads from such bytes.
abbrev pub word32 : Endian → ℕ → ℕ → ℕ → ℕ → ℕ
word32 little a b c d = a + b * 256 + c * 65536 + d * 16777216
word32 big a b c d = d + c * 256 + b * 65536 + a * 16777216

abbrev pub word16 : Endian → ℕ → ℕ → ℕ
word16 little a b = a + b * 256
word16 big a b = b + a * 256

-- The documented behaviour of the byte-order functions: a converted value lies in memory with its
-- highest byte first, whatever the host.
pub record Platform : Type 0 where
  pub endian : Endian
  pub htonl : ℕ → ℕ
  pub ntohl : ℕ → ℕ
  pub htons : ℕ → ℕ
  pub ntohs : ℕ → ℕ
  pub htonl-lt : (x : ℕ) → htonl x < 2 ^ 32
  pub ntohl-lt : (x : ℕ) → ntohl x < 2 ^ 32
  pub htonl_wire : (x : ℕ) → x < 2 ^ 32 → byte32 endian (htonl x) ≡ byte32 big x
  pub ntohl_wire :
      (a b c d : ℕ)
      → a < 256
      → b < 256
      → c < 256
      → d < 256
      → ntohl (word32 endian a b c d) ≡ word32 big a b c d
  pub htons-lt : (x : ℕ) → htons x < 2 ^ 16
  pub htons_wire : (x : ℕ) → x < 2 ^ 16 → byte16 endian (htons x) ≡ byte16 big x
  pub ntohs-lt : (x : ℕ) → ntohs x < 2 ^ 16
  pub ntohs_wire : (a b : ℕ) → a < 256 → b < 256 → ntohs (word16 endian a b) ≡ word16 big a b
