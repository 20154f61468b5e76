-- ===== src/Platform/Hosts.antt =====
-- Two concrete hosts, for the tests and the witnesses: one keeps the lowest byte first and swaps
-- in its byte-order functions, the other keeps the highest byte first.
use multisync.Base.{ℕ, ◌+◌, ◌*◌, ◌/◌, ◌%◌, ◌^◌, ◌<◌, ◌≡◌, arith}
use multisync.Platform.{Platform, little, big, byte32, byte16, word32, word16}

abbrev pub swap32 : ℕ → ℕ
swap32 x = x / 16777216 % 256 + x / 65536 % 256 * 256 + x / 256 % 256 * 65536 + x % 256 * 16777216

abbrev pub swap16 : ℕ → ℕ
swap16 x = x / 256 % 256 + x % 256 * 256

pub swap32-lt : (x : ℕ) → swap32 x < 2 ^ 32
swap32-lt x = omega arith

pub swap32_wire : (x : ℕ) → x < 2 ^ 32 → byte32 little (swap32 x) ≡ byte32 big x
swap32_wire x h = ground arith

pub swap32-word :
    (a b c d : ℕ)
    → a < 256
    → b < 256
    → c < 256
    → d < 256
    → swap32 (word32 little a b c d) ≡ word32 big a b c d
swap32-word a b c d ha hb hc hd = omega arith

pub swap16-lt : (x : ℕ) → swap16 x < 2 ^ 16
swap16-lt x = omega arith

pub swap16_wire : (x : ℕ) → x < 2 ^ 16 → byte16 little (swap16 x) ≡ byte16 big x
swap16_wire x h = ground arith

pub swap16-word : (a b : ℕ) → a < 256 → b < 256 → swap16 (word16 little a b) ≡ word16 big a b
swap16-word a b ha hb = omega arith

abbrev pub x86 : Platform
x86 = record {
  endian = little;
  htonl = swap32;
  ntohl = swap32;
  htons = swap16;
  ntohs = swap16;
  htonl-lt = swap32-lt;
  ntohl-lt = swap32-lt;
  htonl_wire = swap32_wire;
  ntohl_wire = swap32-word;
  htons-lt = swap16-lt;
  htons_wire = swap16_wire;
  ntohs-lt = swap16-lt;
  ntohs_wire = swap16-word;
}

pub cut32-lt : (x : ℕ) → x % 2 ^ 32 < 2 ^ 32
cut32-lt x = omega arith

pub cut32_wire : (x : ℕ) → x < 2 ^ 32 → byte32 big (x % 2 ^ 32) ≡ byte32 big x
cut32_wire x h = ground arith

pub cut32-word :
    (a b c d : ℕ)
    → a < 256
    → b < 256
    → c < 256
    → d < 256
    → word32 big a b c d % 2 ^ 32 ≡ word32 big a b c d
cut32-word a b c d ha hb hc hd = omega arith

pub cut16-lt : (x : ℕ) → x % 2 ^ 16 < 2 ^ 16
cut16-lt x = omega arith

pub cut16_wire : (x : ℕ) → x < 2 ^ 16 → byte16 big (x % 2 ^ 16) ≡ byte16 big x
cut16_wire x h = ground arith

pub cut16-word : (a b : ℕ) → a < 256 → b < 256 → word16 big a b % 2 ^ 16 ≡ word16 big a b
cut16-word a b ha hb = omega arith

abbrev pub powerpc : Platform
powerpc = record {
  endian = big;
  htonl = λ x. x % 2 ^ 32;
  ntohl = λ x. x % 2 ^ 32;
  htons = λ x. x % 2 ^ 16;
  ntohs = λ x. x % 2 ^ 16;
  htonl-lt = cut32-lt;
  ntohl-lt = cut32-lt;
  htonl_wire = cut32_wire;
  ntohl_wire = cut32-word;
  htons-lt = cut16-lt;
  htons_wire = cut16_wire;
  ntohs-lt = cut16-lt;
  ntohs_wire = cut16-word;
}
