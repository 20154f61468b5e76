-- ===== src/SyncStatus/Delivery.antt =====
-- All blocks of a file arrive, in any order and with repetitions, and the file ends up under its
-- name.
use multisync.Base.{
  ℕ, zero, suc, ◌+◌, ◌-◌, ◌*◌, ◌/◌, ◌%◌, ◌^◌, ◌≤◌, ◌<◌, ◌≡◌, ◌≢◌, refl, sym, ap, subst, ◌∙◌, Bool,
  true, false, not, ◌&&◌, ◌||◌, some, List, [], ◌∷◌, ◌++◌, Bytes, length, get_elem?, replicate,
  ◌==◌, arith, Result, ok, ◌>>=◌, ◌⊎◌, inl, inr, length-replicate, list_ext,
}
use native.Mathlib.Decide.{ℕ_discrete, dec_lt}
use multisync.Platform.{Platform}
use multisync.Stream.{Disk, file_at}
use multisync.FileInfo.{FileInfo, get_block_count, count_blocks}
use multisync.Socket.{Address}
use multisync.Message.{Message, get_text}
use multisync.SyncStatus.{
  SyncStatus, Fresh, construct_with, set_path, suffix, write_block, transfer_complete,
}
use multisync.SyncStatus.Progress.{
  IsValid, none_missing, construct_with-IsValid, transfer_complete-moves,
}
use multisync.SyncStatus.Transfer.{Holds, block_of}
use multisync.SyncStatus.Arrival.{delivered, Keeps}

-- The messages with the blocks `bs`, in that order.
unfoldable pub receive_blocks : Platform → (ℕ → Message) → List ℕ → SyncStatus → Result SyncStatus
receive_blocks q messages [] s = ok s
receive_blocks q messages (b ∷ bs) s =
    write_block q b (messages b) s >>= λ s'. receive_blocks q messages bs s'

abbrev pub Below : ℕ → List ℕ → Type 0
Below n [] = Unit {0}
Below n (b ∷ bs) = (b < n) × Below n bs

abbrev pub occurs : ℕ → List ℕ → Bool
occurs b [] = false
occurs b (c ∷ cs) = c == b || occurs b cs

-- Every number below `n` occurs.
abbrev pub covers : ℕ → List ℕ → Bool
covers zero bs = true
covers (suc n) bs = occurs n bs && covers n bs

occurs_cases : (b c : ℕ) (cs : List ℕ) → occurs b (c ∷ cs) ≡ true → (c ≡ b) ⊎ (occurs b cs ≡ true)
occurs_cases b c cs e = ground arith

and_cases : (a b : Bool) → (a && b) ≡ true → (a ≡ true) × (b ≡ true)
and_cases a b e = ground arith

covers-occurs : (n i : ℕ) (bs : List ℕ) → covers n bs ≡ true → i < n → occurs i bs ≡ true
covers-occurs zero i bs e h = absurd (omega arith)
covers-occurs (suc n) i bs e h = elim (ℕ_discrete i n) [
  | yes p ↦ subst (λ k. occurs k bs ≡ true) (sym p) (and_cases (occurs n bs) (covers n bs) e).0
  | no p ↦ covers-occurs n i bs (and_cases (occurs n bs) (covers n bs) e).1 (omega arith)
]

abbrev Received : Platform → Bytes → (ℕ → Message) → List ℕ → SyncStatus → Type 0
Received q file messages bs s =
    (s' : SyncStatus) × (receive_blocks q messages bs s ≡ ok s')
    × Holds file s'
    × IsValid s'
    × (length s'.block_array ≡ length s.block_array)
    × (s'.path ≡ s.path)
    × (s'.temp ≡ s.temp)
    × ((b : ℕ) → occurs b bs ≡ true → get_elem? s'.block_array b ≡ some true)
    × Keeps s.block_array s'.block_array

module _ (q : Platform) (file : Bytes) (messages : ℕ → Message) (count : ℕ)
    (sent : (b : ℕ) → b < count → get_text q (messages b) ≡ ok (block_of file b))
    (inside : (b : ℕ) → b < count → 1024 * b < length file) where
  received :
      (bs : List ℕ) (s : SyncStatus)
      → Holds file s
      → IsValid s
      → length s.block_array ≡ count
      → Below count bs
      → Received q file messages bs s
  unfolding receive_blocks
  received [] s hold v n bl = (s, refl, hold, v, refl, refl, refl, λ b e. cc, λ c t. t)
  received (b ∷ bs) s hold v n bl =
      let (s₁, r₁, hold₁, v₁, n₁, p₁, t₁, m₁, k₁, a₁) =
        delivered q file b (messages b) s hold v (inside b bl.0) (omega arith) (sent b bl.0) in
      let (s₂, r₂, hold₂, v₂, n₂, p₂, t₂, m₂, k₂) = received bs s₁ hold₁ v₁ (n₁ ∙ n) bl.1 in
      (
        s₂,
        ap (λ r. r >>= λ x. receive_blocks q messages bs x) r₁ ∙ r₂,
        hold₂,
        v₂,
        n₂ ∙ n₁,
        p₂ ∙ p₁,
        t₂ ∙ t₁,
        λ c e. elim (occurs_cases c b bs e) [
          | inl p ↦ subst (λ k. get_elem? s₂.block_array k ≡ some true) p (k₂ b m₁)
          | inr o ↦ m₂ c o
        ],
        λ c u. k₂ c (k₁ c u),
      )

-- How many blocks a file has, where the count fits an unsigned int.
pub count_blocks_bounds :
    (file : Bytes)
    → length file ≤ 1024 * (2 ^ 32 - 1)
    → let n = count_blocks (some file) in
      (length file ≤ 1024 * n) × (1024 * n < length file + 1024) × (n < 2 ^ 32)
unfolding count_blocks
count_blocks_bounds file h = ground arith

not_set : (n i : ℕ) → get_elem? (replicate n false) i ≢ some true
not_set zero i e = cc
not_set (suc n) zero e = cc
not_set (suc n) (suc i) e = not_set n i e

pub construct_with-Holds :
    (q : Platform) (fresh : Fresh) (info : FileInfo) (address : Address) (digest file : Bytes)
    (disk : Disk)
    → fresh.is_opened ≡ true
    → Holds file (construct_with q fresh info address digest disk).0
unfolding construct_with
construct_with-Holds q fresh info address digest file disk o = record {
  is_open = o;
  works = ap not o;
  within = omega arith;
  reaches = λ b i e. absurd (not_set _ b e);
  agrees = λ b i e. absurd (not_set _ b e);
}

pub block_array_size :
    (q : Platform) (fresh : Fresh) (info : FileInfo) (address : Address) (digest : Bytes)
    (disk : Disk)
    → length (construct_with q fresh info address digest disk).0.block_array
      ≡ get_block_count q info
unfolding construct_with
block_array_size q fresh info address digest disk =
    length-replicate {A = Bool} (get_block_count q info) false

pub temp_name :
    (q : Platform) (fresh : Fresh) (info : FileInfo) (address : Address) (digest : Bytes)
    (disk : Disk)
    → (construct_with q fresh info address digest disk).0.temp ≡ fresh.tmpnam ++ (digest ++ suffix)
unfolding construct_with
temp_name q fresh info address digest disk = refl

-- A state in which every block is marked holds the whole file.
written-eq-file :
    (file : Bytes) (s : SyncStatus) (count : ℕ)
    → Holds file s
    → length file ≤ 1024 * count
    → ((b : ℕ) → b < count → get_elem? s.block_array b ≡ some true)
    → s.output.written ≡ file
written-eq-file file s count hold h marked =
    list_ext s.output.written file (omega (arith, hold.within, reaches_end)) same
  where
    reach : (i : ℕ) → i < length file → i < length s.output.written
    reach i k = omega (
      arith,
      hold.reaches (i / 1024) (i % 1024) (marked (i / 1024) (omega arith)) (omega arith)
          (omega arith),
    )

    reaches_end : length file ≤ length s.output.written
    reaches_end = elim (dec_lt (length s.output.written) (length file)) [
      | yes p ↦ absurd (omega (arith, reach (length s.output.written) p))
      | no p ↦ omega arith
    ]

    same : (i : ℕ) → i < length file → get_elem? s.output.written i ≡ get_elem? file i
    same i k =
        subst (λ j. get_elem? s.output.written j ≡ get_elem? file j) (omega arith)
          (hold.agrees (i / 1024) (i % 1024) (marked (i / 1024) (omega arith)) (omega arith)
            (omega arith))

pub finished :
    (file path : Bytes) (s : SyncStatus) (count : ℕ) (disk : Disk)
    → Holds file s
    → IsValid s
    → length s.block_array ≡ count
    → length file ≤ 1024 * count
    → s.path ≡ path
    → path ≢ []
    → s.temp ≢ path
    → ((b : ℕ) → b < count → get_elem? s.block_array b ≡ some true)
    → ((transfer_complete s disk).0 ≡ true)
      × (file_at path (transfer_complete s disk).2 ≡ some file)
finished file path s count disk hold v n h p ne apart every =
    let none_left : s.remaining_blocks ≡ 0 =
      v.counted ∙ none_missing s.block_array (λ i k. every i (omega arith)) in
    let moves =
      transfer_complete-moves s disk none_left (λ e. ne (sym p ∙ e)) hold.is_open
        (λ e. apart (e ∙ p)) in
    (
      moves.0,
      subst (λ z. file_at z (transfer_complete s disk).2 ≡ some s.output.written) p moves.1
          ∙ ap some (written-eq-file file s count hold h every),
    )

-- A file crosses. The client's status of a file is new, with its temporary file open under a name
-- other than the path, the path is set and not empty, and the file's identity tells its number of
-- blocks, which fits an unsigned int. Block messages of the file arrive, in any order, as often as
-- they like, each block at least once, with the bytes of that block of the file as their text. Then
-- every `write_block` returns, and `transfer_complete` after them answers true and leaves under the
-- path the file itself.
pub transfer :
    (q : Platform) (fresh : Fresh) (info : FileInfo) (address : Address) (digest path file : Bytes)
    (messages : ℕ → Message) (bs : List ℕ) (disk disk' : Disk)
    → fresh.is_opened ≡ true
    → path ≢ []
    → fresh.tmpnam ++ (digest ++ suffix) ≢ path
    → length file ≤ 1024 * (2 ^ 32 - 1)
    → get_block_count q info ≡ count_blocks (some file)
    → ((b : ℕ) → b < count_blocks (some file) → get_text q (messages b) ≡ ok (block_of file b))
    → Below (count_blocks (some file)) bs
    → covers (count_blocks (some file)) bs ≡ true
    → let s = set_path path (construct_with q fresh info address digest disk).0 in
      (s' : SyncStatus) × (receive_blocks q messages bs s ≡ ok s')
      × ((transfer_complete s' disk').0 ≡ true)
      × (file_at path (transfer_complete s' disk').2 ≡ some file)
unfolding set_path
transfer q fresh info address digest path file messages bs disk disk' o ne apart fits n sent below
      all =
    let count = count_blocks (some file) in
    let start = (construct_with q fresh info address digest disk).0 in
    let bounds = count_blocks_bounds file fits in
    let hold = construct_with-Holds q fresh info address digest file disk o in
    let valid = construct_with-IsValid q fresh info address digest disk (omega (arith, bounds.2)) in
    let (s', r, hold', v', len, p, t, marked, kept) =
      received q file messages count sent (λ b h. omega (arith, bounds.1)) bs
        (record start { path = path })
        (record {
          is_open = hold.is_open;
          works = hold.works;
          within = hold.within;
          reaches = hold.reaches;
          agrees = hold.agrees;
        })
        (record { counted = valid.counted; block_count-lt = valid.block_count-lt })
        (block_array_size q fresh info address digest disk ∙ n) below in
    let arr : length s'.block_array ≡ count =
      len ∙ block_array_size q fresh info address digest disk ∙ n in
    let done =
      finished file path s' count disk' hold' v' arr bounds.0 p ne
        (λ e. apart (sym (temp_name q fresh info address digest disk) ∙ sym t ∙ e))
        (λ b h. marked b (covers-occurs count b bs all h)) in
    (s', r, done.0, done.1)
