-- ===== src/FileInfo/Order.antt =====
-- `operator<` and `operator==` of FileInfo.
use Prim.Native.Nat.{Ordering}
use native.Mathlib.Decide.{ℕ_discrete}
use multisync.Base.{
  ◌≡◌, ◌≢◌, ◌↔◌, refl, ap, ◌∙◌, Bool, true, false, not, ◌&&◌, ◌||◌, ◌⊎◌, inl, inr, Bool-cases, [],
  ◌∷◌, Bytes, arith,
}
use multisync.OrderedMap.{Order}
use multisync.FileInfo.{FileInfo, memcmp, less, equal}

pub FileInfo-discrete : Discrete FileInfo
FileInfo-discrete = hlevel ℕ_discrete

pub memcmp_refl : (a : Bytes) → memcmp a a ≡ Ordering.eq
unfolding memcmp
memcmp_refl [] = refl
memcmp_refl (x ∷ xs) = ground (arith, memcmp_refl xs)

pub eq_of_memcmp : (a b : Bytes) → memcmp a b ≡ Ordering.eq → a ≡ b
unfolding memcmp
eq_of_memcmp [] [] e = refl
eq_of_memcmp [] (y ∷ ys) e = cc
eq_of_memcmp (x ∷ xs) [] e = cc
eq_of_memcmp (x ∷ xs) (y ∷ ys) e = ground (arith, eq_of_memcmp xs ys)

memcmp_flip : (a b : Bytes) → memcmp a b ≡ Ordering.gt → memcmp b a ≡ Ordering.lt
unfolding memcmp
memcmp_flip [] [] e = cc
memcmp_flip [] (y ∷ ys) e = cc
memcmp_flip (x ∷ xs) [] e = refl
memcmp_flip (x ∷ xs) (y ∷ ys) e = ground (arith, memcmp_flip xs ys)

memcmp_trans :
    (a b c : Bytes) → memcmp a b ≡ Ordering.lt → memcmp b c ≡ Ordering.lt → memcmp a c ≡ Ordering.lt
unfolding memcmp
memcmp_trans [] [] c e f = cc
memcmp_trans [] (y ∷ ys) [] e f = cc
memcmp_trans [] (y ∷ ys) (z ∷ zs) e f = refl
memcmp_trans (x ∷ xs) [] c e f = cc
memcmp_trans (x ∷ xs) (y ∷ ys) [] e f = cc
memcmp_trans (x ∷ xs) (y ∷ ys) (z ∷ zs) e f = ground (arith, memcmp_trans xs ys zs)

pub less_irrefl : (f : FileInfo) → less f f ≡ false
unfolding less
less_irrefl f = ground (arith, memcmp_refl f.digest)

pub less_trans : (f g h : FileInfo) → less f g ≡ true → less g h ≡ true → less f h ≡ true
unfolding less
less_trans f g h a b = ground (
  arith,
  memcmp_trans f.digest g.digest h.digest,
  eq_of_memcmp f.digest g.digest,
  eq_of_memcmp g.digest h.digest,
)

pub less_total : (f g : FileInfo) → less f g ≡ false → less g f ≡ false → f ≡ g
unfolding less
less_total f g a b = ground (arith, eq_of_memcmp f.digest g.digest, memcmp_flip f.digest g.digest)

-- The order of the keys of the client's map.
unfoldable pub order : Order FileInfo
order = record { less = less; irrefl = less_irrefl; trans = less_trans; total = less_total }

equal_self : (f : FileInfo) → equal f f ≡ false
unfolding equal
equal_self f = ground (arith, memcmp_refl f.digest)

nonzero_digests : (f g : FileInfo) → equal f g ≡ true → memcmp f.digest g.digest ≢ Ordering.eq
unfolding equal
nonzero_digests f g e z = ground arith

equal_sound :
    (f g : FileInfo) → equal f g ≡ true → (f.digest ≢ g.digest) × (f.num_blocks ≡ g.num_blocks)
unfolding equal
equal_sound f g e = (
  λ same. nonzero_digests f g e (ap (λ d. memcmp d g.digest) same ∙ memcmp_refl g.digest),
  ground arith,
)

equal_complete :
    (f g : FileInfo) → (f.digest ≢ g.digest) × (f.num_blocks ≡ g.num_blocks) → equal f g ≡ true
unfolding equal
equal_complete f g h = ground (arith, eq_of_memcmp f.digest g.digest)

-- `operator==` answers true exactly of two files with the same number of blocks and different
-- digests: `memcmp` is 0, and so false, where they are equal. So no file is equal to itself.
pub equal_iff :
    (f g : FileInfo)
    → ((equal f g ≡ true) ↔ ((f.digest ≢ g.digest) × (f.num_blocks ≡ g.num_blocks)))
      × (equal f f ≡ false)
equal_iff f g = ((equal_sound f g, equal_complete f g), equal_self f)

or_false : (a b : Bool) → (a || b) ≡ false → (a ≡ false) × (b ≡ false)
or_false a b e = ground arith

trichotomy : (f g : FileInfo) → (f ≡ g) ⊎ ((less f g || less g f) ≡ true)
trichotomy f g = elim (Bool-cases (less f g || less g f)) [
  | inl e ↦ inr e
  | inr e ↦
      inl (less_total f g (or_false (less f g) (less g f) e).0 (or_false (less f g) (less g f) e).1)
]

-- `operator<` is a strict total order on files, as `std::map` asks of it: no file is less than
-- itself, the order is transitive, and of two files neither of which is less than the other both
-- fields are the same.
pub less_laws :
    (f g h : FileInfo)
    → (less f f ≡ false)
      × ((less f h || not (less f g && less g h)) ≡ true)
      × ((f ≡ g) ⊎ ((less f g || less g f) ≡ true))
less_laws f g h = (less_irrefl f, ground (arith, less_trans f g h), trichotomy f g)
