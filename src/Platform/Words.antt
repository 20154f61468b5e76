-- ===== src/Platform/Words.antt =====
-- Words in memory: a stored number is read back, and what one host converts and stores another
-- host reads and converts to the same number.
use multisync.Base.{ℕ, ◌^◌, ◌<◌, ◌≡◌, refl, sym, ap, ◌∙◌, arith}
use multisync.Platform.{Platform, Endian, little, big, byte32, byte16, word32, word16}

-- A word read from the four bytes of a tuple.
abbrev pub read32 : Endian → ℕ × ℕ × ℕ × ℕ → ℕ
read32 e b = word32 e b.0 b.1 b.2 b.3

abbrev pub read16 : Endian → ℕ × ℕ → ℕ
read16 e b = word16 e b.0 b.1

pub read-byte32 : (e : Endian) (x : ℕ) → x < 2 ^ 32 → read32 e (byte32 e x) ≡ x
read-byte32 little x h = omega arith
read-byte32 big x h = omega arith

pub read-byte16 : (e : Endian) (x : ℕ) → x < 2 ^ 16 → read16 e (byte16 e x) ≡ x
read-byte16 little x h = omega arith
read-byte16 big x h = omega arith

module _ (p : Platform) where
  open p use {endian, htonl, ntohl, htons, ntohs}

  -- The host reads bytes that lie highest first.
  pub ntohl-read_big : (x : ℕ) → x < 2 ^ 32 → ntohl (read32 endian (byte32 big x)) ≡ x
  ntohl-read_big x h =
      p.ntohl_wire _ _ _ _ (omega arith) (omega arith) (omega arith) (omega arith)
      ∙ read-byte32 big x h

  pub ntohs-read_big : (x : ℕ) → x < 2 ^ 16 → ntohs (read16 endian (byte16 big x)) ≡ x
  ntohs-read_big x h = p.ntohs_wire _ _ (omega arith) (omega arith) ∙ read-byte16 big x h

  pub ntohl-htonl : (x : ℕ) → x < 2 ^ 32 → ntohl (htonl x) ≡ x
  ntohl-htonl x h =
      ap ntohl
        (sym (read-byte32 endian (htonl x) (p.htonl-lt x)) ∙ ap (read32 endian) (p.htonl_wire x h))
      ∙ ntohl-read_big x h

  pub ntohs-htons : (x : ℕ) → x < 2 ^ 16 → ntohs (htons x) ≡ x
  ntohs-htons x h =
      ap ntohs
        (sym (read-byte16 endian (htons x) (p.htons-lt x)) ∙ ap (read16 endian) (p.htons_wire x h))
      ∙ ntohs-read_big x h

-- `htonl` never takes two numbers to one.
pub htonl-injective :
    (p : Platform) (x y : ℕ) → x < 2 ^ 32 → y < 2 ^ 32 → p.htonl x ≡ p.htonl y → x ≡ y
htonl-injective p x y hx hy e = sym (ntohl-htonl p x hx) ∙ ap p.ntohl e ∙ ntohl-htonl p y hy

-- The sender `p` converts and stores, the receiver `q` loads and converts.
module _ (p q : Platform) where
  pub wire32 : (x : ℕ) → x < 2 ^ 32 → q.ntohl (read32 q.endian (byte32 p.endian (p.htonl x))) ≡ x
  wire32 x h = ap (λ b. q.ntohl (read32 q.endian b)) (p.htonl_wire x h) ∙ ntohl-read_big q x h

  pub wire16 : (x : ℕ) → x < 2 ^ 16 → q.ntohs (read16 q.endian (byte16 p.endian (p.htons x))) ≡ x
  wire16 x h = ap (λ b. q.ntohs (read16 q.endian b)) (p.htons_wire x h) ∙ ntohs-read_big q x h

crossed16 : (e : Endian) (x : ℕ) → x < 2 ^ 16 → read16 big (byte16 e x) ≡ read16 e (byte16 big x)
crossed16 little x h = omega arith
crossed16 big x h = refl

byte16-lt : (e : Endian) (x : ℕ) → ((byte16 e x).0 < 256) × ((byte16 e x).1 < 256)
byte16-lt little x = omega arith
byte16-lt big x = omega arith

-- The constructors without metadata store `ntohs(sizeof(Header))`: the other function, the same
-- number.
pub ntohs-eq-htons : (p : Platform) (x : ℕ) → x < 2 ^ 16 → p.ntohs x ≡ p.htons x
ntohs-eq-htons p x h =
    ap p.ntohs (sym (read-byte16 p.endian x h))
    ∙ p.ntohs_wire _ _ (byte16-lt p.endian x).0 (byte16-lt p.endian x).1
    ∙ crossed16 p.endian x h
    ∙ ap (read16 p.endian) (sym (p.htons_wire x h))
    ∙ read-byte16 p.endian (p.htons x) (p.htons-lt x)

read32_zeros : (e : Endian) → read32 e (0, 0, 0, 0) ≡ 0
read32_zeros little = refl
read32_zeros big = refl

pub htonl-zero : (p : Platform) → p.htonl 0 ≡ 0
htonl-zero p =
    sym (read-byte32 p.endian (p.htonl 0) (p.htonl-lt 0))
    ∙ ap (read32 p.endian) (p.htonl_wire 0 (omega arith))
    ∙ read32_zeros p.endian

pub htons-ntohs : (p : Platform) (x : ℕ) → x < 2 ^ 16 → p.htons (p.ntohs x) ≡ x
htons-ntohs p x h =
    sym (ntohs-eq-htons p (p.ntohs x) (p.ntohs-lt x))
    ∙ ap p.ntohs (ntohs-eq-htons p x h)
    ∙ ntohs-htons p x h

-- The word as it lies in memory is the one that the receiver's own `htonl` would give.
pub raw_wire32 :
    (p q : Platform) (x : ℕ)
    → x < 2 ^ 32
    → read32 q.endian (byte32 p.endian (p.htonl x)) ≡ q.htonl x
raw_wire32 p q x h =
    ap (read32 q.endian) (p.htonl_wire x h ∙ sym (q.htonl_wire x h))
    ∙ read-byte32 q.endian (q.htonl x) (q.htonl-lt x)
