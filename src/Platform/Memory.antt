-- ===== src/Platform/Memory.antt =====
-- Objects in a byte buffer: loads at an offset, overwriting, and what the sources ask of a
-- metadata type, whose objects they copy into a buffer and read in place.
use multisync.Base.{
  ℕ, zero, suc, ◌≡◌, refl, ap, [], ◌∷◌, ◌++◌, Bytes, length, get_or, drop, take, arith,
}
use multisync.Platform.{Endian, word32, word16}

-- The unsigned int, and the unsigned short, at an offset; the callers keep within the buffer.
abbrev pub load32 : Endian → Bytes → ℕ → ℕ
load32 e buf off =
    let w : Bytes = drop off buf in
    word32 e (get_or w 0 0) (get_or w 1 0) (get_or w 2 0) (get_or w 3 0)

abbrev pub load16 : Endian → Bytes → ℕ → ℕ
load16 e buf off = let w : Bytes = drop off buf in word16 e (get_or w 0 0) (get_or w 1 0)

-- `buf` with `bs` written from the offset on, never past its end.
abbrev pub overwrite : Bytes → ℕ → Bytes → Bytes
overwrite [] off bs = []
overwrite (x ∷ xs) zero [] = x ∷ xs
overwrite (x ∷ xs) zero (b ∷ bs) = b ∷ overwrite xs zero bs
overwrite (x ∷ xs) (suc off) bs = x ∷ overwrite xs off bs

-- A type whose objects are copied byte by byte: `sizeof`, the bytes of an object, and the object
-- that given bytes are.
pub record Pod (A : Type 0) : Type 1 where
  pub sizeof : ℕ
  pub object : A → Bytes
  pub value : Bytes → A
  pub IsValue : A → Type 0
  pub length-object : (a : A) → IsValue a → length (object a) ≡ sizeof

pub drop_at : (n : ℕ) (xs ys : Bytes) → length xs ≡ n → drop n (xs ++ ys) ≡ ys
drop_at zero [] ys h = refl
drop_at zero (x ∷ xs) ys h = absurd (omega arith)
drop_at (suc n) [] ys h = absurd (omega arith)
drop_at (suc n) (x ∷ xs) ys h = drop_at n xs ys (omega arith)

pub take_at : (n : ℕ) (xs ys : Bytes) → length xs ≡ n → take n (xs ++ ys) ≡ xs
take_at zero [] ys h = refl
take_at zero (x ∷ xs) ys h = absurd (omega arith)
take_at (suc n) [] ys h = absurd (omega arith)
take_at (suc n) (x ∷ xs) ys h = ap (◌∷◌ x) (take_at n xs ys (omega arith))

-- A block of zeros as long as `bs` is replaced by `bs`, and what stands round it is kept.
pub overwrite_at :
    (n : ℕ) (front old bs rest : Bytes)
    → length front ≡ n
    → length old ≡ length bs
    → overwrite (front ++ (old ++ rest)) n bs ≡ front ++ (bs ++ rest)
overwrite_at zero [] [] [] [] h k = refl
overwrite_at zero [] [] [] (r ∷ rest) h k = refl
overwrite_at zero [] [] (b ∷ bs) rest h k = absurd (omega arith)
overwrite_at zero [] (o ∷ old) [] rest h k = absurd (omega arith)
overwrite_at zero [] (o ∷ old) (b ∷ bs) rest h k =
    ap (◌∷◌ b) (overwrite_at zero [] old bs rest refl (omega arith))
overwrite_at zero (x ∷ front) old bs rest h k = absurd (omega arith)
overwrite_at (suc n) [] old bs rest h k = absurd (omega arith)
overwrite_at (suc n) (x ∷ front) old bs rest h k =
    ap (◌∷◌ x) (overwrite_at n front old bs rest (omega arith) k)

pub length-overwrite : (buf : Bytes) (n : ℕ) (bs : Bytes) → length (overwrite buf n bs) ≡ length buf
length-overwrite [] n bs = refl
length-overwrite (x ∷ xs) zero [] = refl
length-overwrite (x ∷ xs) zero (b ∷ bs) = ap suc (length-overwrite xs zero bs)
length-overwrite (x ∷ xs) (suc n) bs = ap suc (length-overwrite xs n bs)
