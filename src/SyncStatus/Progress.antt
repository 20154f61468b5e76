-- ===== src/SyncStatus/Progress.antt =====
-- The count of missing blocks, and what `transfer_complete` does to the files.
use multisync.Base.{
  ℕ, zero, suc, ◌+◌, ◌^◌, ◌≤◌, ◌<◌, ◌≡◌, ◌≢◌, refl, sym, ap, subst, ◌∙◌, Bool, true, false, none,
  some, List, [], ◌∷◌, Bytes, length, get_elem?, set, replicate, if◌then◌else◌, arith, ok,
  undefined, ◌⊎◌, inl, inr, length-set, get_elem?-set_self, >>=-eq-ok, ok-injective,
  length-replicate, get_elem?_past, Option-cases, eq→==,
}
use multisync.Platform.{Platform}
use multisync.Stream.{Ofstream, Disk, file_at, put_file, rename}
use multisync.Stream
use multisync.Stream.Written.{rename_moves, rename_missing, file_at-put_self}
use multisync.FileInfo.{FileInfo, get_block_count}
use multisync.Message.{Message, write_to}
use multisync.Socket.{Address}
use multisync.SyncStatus.{
  SyncStatus, Fresh, construct_with, write_block, store_block, transfer_complete, is_empty,
}

-- The blocks that have not been written.
abbrev pub count_missing : List Bool → ℕ
count_missing [] = 0
count_missing (b ∷ bs) = (if b then 0 else 1) + count_missing bs

pub record IsValid (s : SyncStatus) : Type 0 where
  pub counted : s.remaining_blocks ≡ count_missing s.block_array
  pub block_count-lt : length s.block_array < 2 ^ 32

pub count_missing-le : (bs : List Bool) → count_missing bs ≤ length bs
count_missing-le [] = omega arith
count_missing-le (true ∷ bs) = omega (arith, count_missing-le bs)
count_missing-le (false ∷ bs) = omega (arith, count_missing-le bs)

pub count_missing-replicate : (n : ℕ) → count_missing (replicate n false) ≡ n
count_missing-replicate zero = refl
count_missing-replicate (suc n) = omega (arith, count_missing-replicate n)

pub count_missing-set :
    (bs : List Bool) (i : ℕ)
    → get_elem? bs i ≡ some false
    → count_missing (set bs i true) + 1 ≡ count_missing bs
count_missing-set [] i e = cc
count_missing-set (b ∷ bs) zero e = ground arith
count_missing-set (b ∷ bs) (suc i) e = omega (arith, count_missing-set bs i e)

-- No block is missing exactly when every bit is set.
pub all_set :
    (bs : List Bool) (i : ℕ) → count_missing bs ≡ 0 → i < length bs → get_elem? bs i ≡ some true
all_set [] i e h = absurd (omega arith)
all_set (true ∷ bs) zero e h = refl
all_set (false ∷ bs) i e h = absurd (omega arith)
all_set (true ∷ bs) (suc i) e h = all_set bs i (omega arith) (omega arith)

pub none_missing :
    (bs : List Bool) → ((i : ℕ) → i < length bs → get_elem? bs i ≡ some true) → count_missing bs ≡ 0
none_missing [] h = refl
none_missing (true ∷ bs) h = omega (arith, none_missing bs (λ i b. h (suc i) (omega arith)))
none_missing (false ∷ bs) h = cc (h 0 (omega arith))

-- The constructor counts every block as missing.
pub construct_with-IsValid :
    (p : Platform) (fresh : Fresh) (info : FileInfo) (address : Address) (digest : Bytes)
    (disk : Disk)
    → get_block_count p info < 2 ^ 32
    → IsValid (construct_with p fresh info address digest disk).0
unfolding construct_with
construct_with-IsValid p fresh info address digest disk h = record {
  counted = sym (count_missing-replicate _);
  block_count-lt = omega (arith, length-replicate {A = Bool} (get_block_count p info) false);
}

store_block-IsValid :
    (p : Platform) (block : ℕ) (m : Message) (s s' : SyncStatus)
    → IsValid s
    → get_elem? s.block_array block ≡ some false
    → store_block p block m s ≡ ok s'
    → IsValid s'
      × (s'.block_array ≡ set s.block_array block true)
      × (s'.remaining_blocks + 1 ≡ s.remaining_blocks)
unfolding store_block
store_block-IsValid p block m s s' v e r =
    let (out, w, same) = >>=-eq-ok (write_to p m _) _ r in
    ground (
      arith,
      count_missing-set s.block_array block e,
      count_missing-le s.block_array,
      length-set s.block_array block true,
    )

-- `write_block` by what the vector holds.
module _ (p : Platform) (block : ℕ) (m : Message) (s : SyncStatus) where
  pub write_block_known : get_elem? s.block_array block ≡ some true → write_block p block m s ≡ ok s
  unfolding write_block
  write_block_known e = rw (e, write_block)

  write_block-none : get_elem? s.block_array block ≡ none → write_block p block m s ≡ undefined
  unfolding write_block
  write_block-none e = rw (e, write_block)

  pub write_block_missing :
      get_elem? s.block_array block ≡ some false → write_block p block m s ≡ store_block p block m s
  unfolding write_block
  write_block_missing e = rw (e, write_block)

  -- A block number at or above the number of blocks is an access outside the vector, whatever the
  -- message holds.
  pub write_block-past : length s.block_array ≤ block → write_block p block m s ≡ undefined
  write_block-past h = write_block-none (get_elem?_past s.block_array block h)

abbrev pub Progress : ℕ → SyncStatus → SyncStatus → Type 0
Progress block s s' =
    IsValid s'
    × (get_elem? s'.block_array block ≡ some true)
    × (((get_elem? s.block_array block ≡ some false)
          × (s'.remaining_blocks + 1 ≡ s.remaining_blocks))
        ⊎ ((get_elem? s.block_array block ≡ some true) × (s' ≡ s)))

Progress-kept :
    (block : ℕ) (s s' : SyncStatus)
    → IsValid s
    → get_elem? s.block_array block ≡ some true
    → s ≡ s'
    → Progress block s s'
Progress-kept block s s' v e same = subst (Progress block s) same (v, e, inr (e, refl))

-- After a `write_block` that returns, on a valid status, the count of remaining blocks is again the
-- number of blocks not marked; the block is marked; and the count has fallen by one if the block
-- was missing, and nothing has changed if it was not.
pub write_block-IsValid :
    (p : Platform) (block : ℕ) (m : Message) (s s' : SyncStatus)
    → IsValid s
    → write_block p block m s ≡ ok s'
    → Progress block s s'
write_block-IsValid p block m s s' v r = elim (Option-cases (get_elem? s.block_array block)) [
  | inl e ↦ cc (write_block-none p block m s e, r)
  | inr (true, e) ↦
      let same : ok s ≡ ok s' = sym (write_block_known p block m s e) ∙ r in
      Progress-kept block s s' v e (ok-injective same)
  | inr (false, e) ↦
      let stored =
        store_block-IsValid p block m s s' v e (sym (write_block_missing p block m s e) ∙ r) in
      (
        stored.0,
        rw stored.1 (get_elem?-set_self s.block_array block true false e),
        inl (e, stored.2),
      )
]

not_empty : (path : Bytes) → path ≢ [] → is_empty path ≡ false
not_empty [] h = absurd (h refl)
not_empty (x ∷ path) h = refl

-- `transfer_complete` where its condition holds.
pub transfer_complete_lem :
    (s : SyncStatus) (disk : Disk)
    → s.remaining_blocks ≡ 0
    → s.path ≢ []
    → transfer_complete s disk ≡ (
      true,
      record s { output = (Stream.close s.temp s.output disk).0 },
      rename s.temp s.path (Stream.close s.temp s.output disk).1,
    )
unfolding transfer_complete
transfer_complete_lem s disk r h = rw (eq→== s.remaining_blocks 0 r, not_empty s.path h)

close_open :
    (path : Bytes) (s : Ofstream) (disk : Disk)
    → s.is_open ≡ true
    → Stream.close path s disk ≡ (record s { is_open = false }, put_file path s.written disk)
unfolding Stream.close
close_open path s disk h = simp h

close_closed :
    (path : Bytes) (s : Ofstream) (disk : Disk)
    → s.is_open ≡ false
    → Stream.close path s disk ≡ (record s { failbit = true }, disk)
unfolding Stream.close
close_closed path s disk h = simp h

abbrev pub after_rename : SyncStatus → Disk → Disk
after_rename s disk = rename s.temp s.path (put_file s.temp s.output.written disk)

pub transfer_complete_first :
    (s : SyncStatus) (disk : Disk)
    → s.remaining_blocks ≡ 0
    → s.path ≢ []
    → s.output.is_open ≡ true
    → transfer_complete s disk
      ≡ (true, record s { output = record s.output { is_open = false } }, after_rename s disk)
transfer_complete_first s disk r h o =
    transfer_complete_lem s disk r h
    ∙ ap (λ c. (true, record s { output = c.0 }, rename s.temp s.path c.1))
        (close_open s.temp s.output disk o)

pub transfer_complete_again :
    (s : SyncStatus) (disk : Disk)
    → s.remaining_blocks ≡ 0
    → s.path ≢ []
    → s.output.is_open ≡ false
    → file_at s.temp disk ≡ none
    → transfer_complete s disk
      ≡ (true, record s { output = record s.output { failbit = true } }, disk)
transfer_complete_again s disk r h o gone =
    transfer_complete_lem s disk r h
    ∙ ap (λ c. (true, record s { output = c.0 }, rename s.temp s.path c.1))
        (close_closed s.temp s.output disk o)
    ∙ ap (λ d. (true, record s { output = record s.output { failbit = true } }, d))
        (rename_missing s.temp s.path disk gone)

-- Once no block is missing, the path is known and not the temporary name, and the output is open,
-- `transfer_complete` answers true and the file stands under the path with all that was written,
-- and no longer under the temporary name; called again it answers true and changes no file.
pub transfer_complete-moves :
    (s : SyncStatus) (disk : Disk)
    → s.remaining_blocks ≡ 0
    → s.path ≢ []
    → s.output.is_open ≡ true
    → s.temp ≢ s.path
    → let one = transfer_complete s disk in
      let two = transfer_complete one.1 one.2 in
      (one.0 ≡ true)
      × (file_at s.path one.2 ≡ some s.output.written)
      × (file_at s.temp one.2 ≡ none)
      × (two.0 ≡ true)
      × (two.2 ≡ one.2)
transfer_complete-moves s disk r h o ne =
    let moved =
      rename_moves s.temp s.path (put_file s.temp s.output.written disk) s.output.written ne
        (file_at-put_self s.temp s.output.written disk) in
    let again =
      transfer_complete_again (record s { output = record s.output { is_open = false } })
        (after_rename s disk) r h refl moved.1 in
    rw (transfer_complete_first s disk r h o, again) (refl, moved.0, moved.1, refl, refl)

-- While a block is missing or the path is unknown, it answers false and leaves all as it is.
pub transfer_complete-waits :
    (s : SyncStatus) (disk : Disk)
    → (s.remaining_blocks ≢ 0) ⊎ (s.path ≡ [])
    → transfer_complete s disk ≡ (false, s, disk)
unfolding transfer_complete
transfer_complete-waits s disk (inl h) = ground arith
transfer_complete-waits s disk (inr h) = ground arith
