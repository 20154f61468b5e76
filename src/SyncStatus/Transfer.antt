-- ===== src/SyncStatus/Transfer.antt =====
-- A file arrives block by block, in any order and with repetitions: what the output holds meanwhile,
-- and that it is the file in the end.
use Prim.Native.Nat.{min, max}
use multisync.Base.{
  ℕ, ◌+◌, ◌-◌, ◌*◌, ◌%◌, ◌^◌, ◌≤◌, ◌<◌, ◌≡◌, ◌≢◌, refl, sym, ap, ◌∙◌, true, false, some, [], ◌∷◌,
  Bytes, length, get_elem?, set, drop, leb, if◌then◌else◌, arith, Result, ok, throw, ◌>>=◌,
  in_bounds, could_not_write, length-take, length-drop, get_elem?-take, get_elem?-drop, >>=-assoc,
}
use multisync.Platform.{Platform}
use multisync.Stream.{Ofstream, Disk, file_at, file_write, in_fails}
use multisync.Stream
use multisync.Stream.Written.{length-file_write, get_elem?-file_write_in, get_elem?-file_write_out}
use multisync.Message.{Message, header_offset, write_to, get_text}
use multisync.Message.Fill.{slice}
use multisync.SyncStatus.{SyncStatus, store_block}

-- Block `b` of a file: 1024 bytes, or what is left at its end.
abbrev pub block_of : Bytes → ℕ → Bytes
block_of file b = slice file (1024 * b) 1024

write_open :
    (bs : Bytes) (s : Ofstream)
    → s.is_open ≡ true
    → s.failbit ≡ false
    → Stream.write bs s
      ≡ record s { written = file_write s.written s.pos bs; pos = s.pos + length bs }
unfolding Stream.write
write_open bs s o f = simp (f, o)

write_check : Ofstream → Result Ofstream
write_check s = if s.failbit then throw could_not_write else ok s

write_to-text :
    (q : Platform) (m : Message) (s : Ofstream)
    → write_to q m s ≡ (get_text q m >>= λ text. write_check (Stream.write text s))
unfolding write_to get_text write_check
write_to-text q m s =
    sym (>>=-assoc (in_bounds (leb (q.ntohs (header_offset q m.buffer)) (length m.buffer))) _ _)

-- `operator<<` writes the text of the message.
pub write_to-get_text :
    (q : Platform) (m : Message) (text : Bytes) (s : Ofstream)
    → get_text q m ≡ ok text
    → s.is_open ≡ true
    → s.failbit ≡ false
    → write_to q m s
      ≡ ok (record s { written = file_write s.written s.pos text; pos = s.pos + length text })
unfolding write_check
write_to-get_text q m text s e o f =
    write_to-text q m s
    ∙ ap (λ t. t >>= λ x. write_check (Stream.write x s)) e
    ∙ ap write_check (write_open text s o f)
    ∙ simp f

seek_open :
    (n : ℕ) (s : Ofstream)
    → s.is_open ≡ true
    → s.failbit ≡ false
    → n < 2 ^ 64
    → Stream.seekp (n % 2 ^ 64) s ≡ record s { pos = n }
unfolding Stream.seekp
seek_open n s o f h = ground arith

pub store_block_lem :
    (q : Platform) (b : ℕ) (m : Message) (text : Bytes) (s : SyncStatus)
    → get_text q m ≡ ok text
    → s.output.is_open ≡ true
    → s.output.failbit ≡ false
    → b < 2 ^ 32
    → (s' : SyncStatus) × (store_block q b m s ≡ ok s')
      × (s'.output.written ≡ file_write s.output.written (1024 * b) text)
      × (s'.output.is_open ≡ true)
      × (s'.output.failbit ≡ false)
      × (s'.block_array ≡ set s.block_array b true)
      × (s'.path ≡ s.path)
      × (s'.temp ≡ s.temp)
unfolding store_block
store_block_lem q b m text s e o f h =
    let out : Ofstream = record s.output {
      written = file_write s.output.written (1024 * b) text;
      pos = 1024 * b + length text;
    } in
    (
      record s {
        output = out;
        block_array = set s.block_array b true;
        remaining_blocks = (s.remaining_blocks + 2 ^ 64 - 1) % 2 ^ 64;
      },
      ap
          (λ w. w >>= λ x. ok (record s {
            output = x;
            block_array = set s.block_array b true;
            remaining_blocks = (s.remaining_blocks + 2 ^ 64 - 1) % 2 ^ 64;
          }))
          (ap (write_to q m) (seek_open (1024 * b) s.output o f (omega arith))
            ∙ write_to-get_text q m text (record s.output { pos = 1024 * b }) e o f),
      refl,
      o,
      f,
      refl,
      refl,
      refl,
    )

-- The output agrees with the file on every block that is marked, and reaches to its end.
pub record Holds (file : Bytes) (s : SyncStatus) : Type 0 where
  pub is_open : s.output.is_open ≡ true
  pub works : s.output.failbit ≡ false
  pub within : length s.output.written ≤ length file
  pub reaches :
      (b i : ℕ)
      → get_elem? s.block_array b ≡ some true
      → i < 1024
      → 1024 * b + i < length file
      → 1024 * b + i < length s.output.written
  pub agrees :
      (b i : ℕ)
      → get_elem? s.block_array b ≡ some true
      → i < 1024
      → 1024 * b + i < length file
      → get_elem? s.output.written (1024 * b + i) ≡ get_elem? file (1024 * b + i)

pub length-block_of :
    (file : Bytes) (b : ℕ) → length (block_of file b) ≡ min 1024 (length file - 1024 * b)
length-block_of file b =
    omega (arith, length-take 1024 (drop (1024 * b) file), length-drop (1024 * b) file)

get_elem?-block_of :
    (file : Bytes) (b i : ℕ)
    → i < 1024
    → get_elem? (block_of file b) i ≡ get_elem? file (1024 * b + i)
get_elem?-block_of file b i h =
    get_elem?-take 1024 (drop (1024 * b) file) i h ∙ get_elem?-drop (1024 * b) file i

-- One block written at its place.
module _ (file written : Bytes) (b : ℕ) (h : 1024 * b < length file) where
  pub length-file_write_block :
      length (file_write written (1024 * b) (block_of file b))
      ≡ max (length written) (1024 * b + length (block_of file b))
  length-file_write_block = nonempty (block_of file b) (omega (arith, length-block_of file b))
    where
      nonempty :
          (bs : Bytes)
          → 0 < length bs
          → length (file_write written (1024 * b) bs) ≡ max (length written) (1024 * b + length bs)
      nonempty [] k = absurd (omega arith)
      nonempty (x ∷ bs) k = length-file_write written (1024 * b) x bs

  pub agrees_here :
      (i : ℕ)
      → i < 1024
      → 1024 * b + i < length file
      → get_elem? (file_write written (1024 * b) (block_of file b)) (1024 * b + i)
        ≡ get_elem? file (1024 * b + i)
  agrees_here i k l =
      get_elem?-file_write_in written (1024 * b) (block_of file b) i
        (omega (arith, length-block_of file b))
      ∙ get_elem?-block_of file b i k

  pub agrees_there :
      (c i : ℕ)
      → c ≢ b
      → i < 1024
      → 1024 * c + i < length written
      → get_elem? (file_write written (1024 * b) (block_of file b)) (1024 * c + i)
        ≡ get_elem? written (1024 * c + i)
  agrees_there c i ne k l =
      get_elem?-file_write_out written (1024 * b) (block_of file b) (1024 * c + i) l
        (omega (arith, length-block_of file b))
