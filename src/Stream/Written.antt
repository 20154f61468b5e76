-- ===== src/Stream/Written.antt =====
-- What a file holds after a write, byte by byte, and what the disk holds after a rename.
use multisync.Base.{
  ℕ, zero, suc, ◌+◌, ◌≤◌, ◌<◌, ◌≡◌, ◌≢◌, ◌⊎◌, refl, ap, ◌∙◌, sym, true, false, none, some, [], ◌∷◌,
  Bytes, length, get_elem?, arith, Bool-cases, Option-cases, inl, inr,
}
use multisync.Stream.{file_write, Disk, bytes_eq, file_at, remove_file, put_file, rename}
use Prim.Native.Nat.{max}

pub length-file_write :
    (f : Bytes) (pos b : ℕ) (bs : Bytes)
    → length (file_write f pos (b ∷ bs)) ≡ max (length f) (pos + length (b ∷ bs))
unfolding file_write
length-file_write [] zero b [] = omega arith
length-file_write [] zero b (c ∷ bs) = omega (arith, length-file_write [] zero c bs)
length-file_write (x ∷ f) zero b [] = omega arith
length-file_write (x ∷ f) zero b (c ∷ bs) = omega (arith, length-file_write f zero c bs)
length-file_write [] (suc pos) b bs = omega (arith, length-file_write [] pos b bs)
length-file_write (x ∷ f) (suc pos) b bs = omega (arith, length-file_write f pos b bs)

elem_zero-add : (xs : Bytes) (i : ℕ) → get_elem? xs (0 + i) ≡ get_elem? xs i
elem_zero-add xs i = ap (get_elem? xs) (omega arith)

elem_suc-add :
    (x : ℕ) (xs : Bytes) (p i : ℕ) → get_elem? (x ∷ xs) (suc p + i) ≡ get_elem? xs (p + i)
elem_suc-add x xs p i = ap (get_elem? (x ∷ xs)) {x = suc p + i} {y = suc (p + i)} (omega arith)

-- The written bytes stand at their place.
pub get_elem?-file_write_in :
    (f : Bytes) (pos : ℕ) (bs : Bytes) (i : ℕ)
    → i < length bs
    → get_elem? (file_write f pos bs) (pos + i) ≡ get_elem? bs i
unfolding file_write
get_elem?-file_write_in f pos [] i h = absurd (omega arith)
get_elem?-file_write_in [] zero (b ∷ bs) zero h = refl
get_elem?-file_write_in [] zero (b ∷ bs) (suc i) h =
    elem_zero-add (b ∷ file_write [] zero bs) (suc i)
    ∙ sym (elem_zero-add (file_write [] zero bs) i)
    ∙ get_elem?-file_write_in [] zero bs i (omega arith)
get_elem?-file_write_in (x ∷ f) zero (b ∷ bs) zero h = refl
get_elem?-file_write_in (x ∷ f) zero (b ∷ bs) (suc i) h =
    elem_zero-add (b ∷ file_write f zero bs) (suc i)
    ∙ sym (elem_zero-add (file_write f zero bs) i)
    ∙ get_elem?-file_write_in f zero bs i (omega arith)
get_elem?-file_write_in [] (suc pos) (b ∷ bs) i h =
    elem_suc-add 0 (file_write [] pos (b ∷ bs)) pos i ∙ get_elem?-file_write_in [] pos (b ∷ bs) i h
get_elem?-file_write_in (x ∷ f) (suc pos) (b ∷ bs) i h =
    elem_suc-add x (file_write f pos (b ∷ bs)) pos i ∙ get_elem?-file_write_in f pos (b ∷ bs) i h

-- Every other byte that the file had stays.
pub get_elem?-file_write_out :
    (f : Bytes) (pos : ℕ) (bs : Bytes) (i : ℕ)
    → i < length f
    → (i < pos) ⊎ (pos + length bs ≤ i)
    → get_elem? (file_write f pos bs) i ≡ get_elem? f i
unfolding file_write
get_elem?-file_write_out f pos [] i h o = refl
get_elem?-file_write_out [] pos (b ∷ bs) i h o = absurd (omega arith)
get_elem?-file_write_out (x ∷ f) zero (b ∷ bs) zero h o = absurd (omega arith)
get_elem?-file_write_out (x ∷ f) zero (b ∷ bs) (suc i) h o =
    get_elem?-file_write_out f zero bs i (omega arith) (omega arith)
get_elem?-file_write_out (x ∷ f) (suc pos) (b ∷ bs) zero h o = refl
get_elem?-file_write_out (x ∷ f) (suc pos) (b ∷ bs) (suc i) h o =
    get_elem?-file_write_out f pos (b ∷ bs) i (omega arith) (omega arith)

pub bytes_eq_refl : (xs : Bytes) → bytes_eq xs xs ≡ true
unfolding bytes_eq
bytes_eq_refl [] = refl
bytes_eq_refl (x ∷ xs) = ground (arith, bytes_eq_refl xs)

pub eq_of_bytes_eq : (xs ys : Bytes) → bytes_eq xs ys ≡ true → xs ≡ ys
unfolding bytes_eq
eq_of_bytes_eq [] [] e = refl
eq_of_bytes_eq [] (y ∷ ys) e = cc
eq_of_bytes_eq (x ∷ xs) [] e = cc
eq_of_bytes_eq (x ∷ xs) (y ∷ ys) e = ground (arith, eq_of_bytes_eq xs ys)

pub bytes_eq_ne : (xs ys : Bytes) → xs ≢ ys → bytes_eq xs ys ≡ false
bytes_eq_ne xs ys h = elim (Bool-cases (bytes_eq xs ys)) [
  | inl e ↦ absurd (h (eq_of_bytes_eq xs ys e))
  | inr e ↦ e
]

file_at-remove_self : (path : Bytes) (disk : Disk) → file_at path (remove_file path disk) ≡ none
unfolding file_at remove_file
file_at-remove_self path [] = refl
file_at-remove_self path ((name, file) ∷ disk) = ground (arith, file_at-remove_self path disk)

file_at-remove_ne :
    (path other : Bytes) (disk : Disk)
    → path ≢ other
    → file_at path (remove_file other disk) ≡ file_at path disk
unfolding file_at remove_file
file_at-remove_ne path other [] h = refl
file_at-remove_ne path other ((name, file) ∷ disk) h = ground (
  arith,
  file_at-remove_ne path other disk h,
  eq_of_bytes_eq path name,
  eq_of_bytes_eq other name,
)

pub file_at-put_self :
    (path file : Bytes) (disk : Disk) → file_at path (put_file path file disk) ≡ some file
unfolding file_at put_file
file_at-put_self path file disk = ground (arith, bytes_eq_refl path)

pub file_at-put_ne :
    (path other file : Bytes) (disk : Disk)
    → path ≢ other
    → file_at path (put_file other file disk) ≡ file_at path disk
unfolding file_at put_file
file_at-put_ne path other file disk h =
    ground (arith, bytes_eq_ne path other h, file_at-remove_ne path other disk h)

-- A rename moves the file, and leaves every other one.
pub rename_moves :
    (from to : Bytes) (disk : Disk) (file : Bytes)
    → from ≢ to
    → file_at from disk ≡ some file
    → (file_at to (rename from to disk) ≡ some file) × (file_at from (rename from to disk) ≡ none)
unfolding rename
rename_moves from to disk file h e = ground (
  arith,
  bytes_eq_ne from to h,
  file_at-put_self to file (remove_file from disk),
  file_at-put_ne from to file (remove_file from disk) h,
  file_at-remove_self from disk,
)

pub rename_missing :
    (from to : Bytes) (disk : Disk) → file_at from disk ≡ none → rename from to disk ≡ disk
unfolding rename
rename_missing from to disk e = ground arith

pub file_at-rename_ne :
    (path from to : Bytes) (disk : Disk)
    → path ≢ from
    → path ≢ to
    → file_at path (rename from to disk) ≡ file_at path disk
unfolding rename
file_at-rename_ne path from to disk h k = elim (Option-cases (file_at from disk)) [
  | inl gone ↦ ap (file_at path) (rename_missing from to disk gone)
  | inr (file, there) ↦ ground (
    arith,
    file_at-put_ne path to file (remove_file from disk) k,
    file_at-remove_ne path from disk h,
  )
]
