-- ===== src/Stream.antt =====
-- What the sources use of the standard library's streams and files: `std::ifstream` (seekg, read,
-- gcount, bad), `std::ofstream` (seekp, write, fail, close) and `rename`. A file is its bytes.
pub mod Written
use multisync.Base.{
  ℕ, zero, suc, ◌+◌, ◌<◌, Bool, true, false, not, ◌||◌, Option, none, some, List, [], ◌∷◌, Bytes,
  length, take, drop, ltb, ◌==◌, if◌then◌else◌,
}

-- `eofbit` is set by `read` only, and there together with `failbit`, so it is not kept.
pub record Ifstream : Type 0 where
  pub contents : Bytes
  pub pos : ℕ
  pub failbit : Bool
  pub badbit : Bool

-- `fail()`.
abbrev pub in_fails : Ifstream → Bool
in_fails s = s.failbit || s.badbit

-- A stream that has failed stays where it is.
unfoldable pub seekg : ℕ → Ifstream → Ifstream
seekg n s = if in_fails s then s else record s { pos = n }

-- The bytes that `read(buf, n)` stores (their number is `gcount`), and the stream after it.
unfoldable pub read : ℕ → Ifstream → Bytes × Ifstream
read n s =
    let got = take n (drop s.pos s.contents) in
    if in_fails s
    then ([], record s { failbit = true })
    else (got, record s { pos = s.pos + length got; failbit = ltb (length got) n })

-- `written` is what has been written to the file so far.
pub record Ofstream : Type 0 where
  pub written : Bytes
  pub pos : ℕ
  pub is_open : Bool
  pub failbit : Bool

unfoldable pub seekp : ℕ → Ofstream → Ofstream
seekp n s =
    if s.failbit then s else if s.is_open then record s { pos = n } else record s { failbit = true }

-- The bytes of a file with `bs` written from `pos` on; what the file lacks before is zero.
unfoldable pub file_write : Bytes → ℕ → Bytes → Bytes
file_write f pos [] = f
file_write [] zero (b ∷ bs) = b ∷ file_write [] zero bs
file_write (x ∷ f) zero (b ∷ bs) = b ∷ file_write f zero bs
file_write [] (suc pos) (b ∷ bs) = 0 ∷ file_write [] pos (b ∷ bs)
file_write (x ∷ f) (suc pos) (b ∷ bs) = x ∷ file_write f pos (b ∷ bs)

unfoldable pub write : Bytes → Ofstream → Ofstream
write bs s =
    if s.failbit
    then s
    else if s.is_open
    then record s { written = file_write s.written s.pos bs; pos = s.pos + length bs }
    else record s { failbit = true }

-- The files by name.
abbrev pub Disk : Type 0
Disk = List (Bytes × Bytes)

unfoldable pub bytes_eq : Bytes → Bytes → Bool
bytes_eq [] [] = true
bytes_eq [] (y ∷ ys) = false
bytes_eq (x ∷ xs) [] = false
bytes_eq (x ∷ xs) (y ∷ ys) = if x == y then bytes_eq xs ys else false

unfoldable pub file_at : Bytes → Disk → Option Bytes
file_at path [] = none
file_at path ((name, file) ∷ disk) = if bytes_eq path name then some file else file_at path disk

unfoldable pub remove_file : Bytes → Disk → Disk
remove_file path [] = []
remove_file path ((name, file) ∷ disk) =
    let rest = remove_file path disk in if bytes_eq path name then rest else (name, file) ∷ rest

unfoldable pub put_file : Bytes → Bytes → Disk → Disk
put_file path file disk = (path, file) ∷ remove_file path disk

-- `rename(from, to)`; the sources ignore its result. Without a file `from` nothing happens.
unfoldable pub rename : Bytes → Bytes → Disk → Disk
rename from to disk = if bytes_eq from to then disk else elim (file_at from disk) [
  | none ↦ disk
  | some file ↦ put_file to file (remove_file from disk)
]

-- `close()` of a stream on the file `path`. A second one fails.
unfoldable pub close : Bytes → Ofstream → Disk → Ofstream × Disk
close path s disk =
    if s.is_open
    then (record s { is_open = false }, put_file path s.written disk)
    else (record s { failbit = true }, disk)
