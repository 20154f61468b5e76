-- ===== src/Session/Traffic/Running.antt =====
-- A client among any number of servers: what it knows of each offer is what has arrived of it.
use multisync.Base.{
  ℕ, zero, suc, ◌<◌, ◌≡◌, refl, sym, ap, subst, ◌∙◌, Bool, true, false, ◌||◌, Option, none, some,
  List, [], ◌∷◌, Bytes, get_elem?, length, list_ext, arith, ok, ◌>>=◌, inl, inr, Bool-cases,
}
use multisync.Platform.{Platform}
use multisync.OrderedMap.{find}
use multisync.Stream.{file_at}
use multisync.FileInfo.{FileInfo}
use multisync.FileInfo.Order
use multisync.Socket.{Inet}
use multisync.SyncStatus.{SyncStatus, transfer_complete}
use multisync.SyncStatus.Progress.{count_missing, none_missing}
use multisync.BlockClient.{BlockClient, run}
use multisync.Session.{Offer, IsOffer, count}
use multisync.Session.Receiving.{Datagram, announcement, block, here}
use multisync.Session.Publishing.{publishes}
use multisync.Session.Traffic.{
  Parcel, AllParcels, Shows, Carries, Going, has_arrived, any_arrived, is_parcel, same_file, table,
  expected, progress, rounds,
}
use multisync.Session.Traffic.Known.{empty-Carries}
use multisync.Session.Traffic.Taking.{taken, Shows-ext, or_true, or_false, same_datagram_self}

or_assoc : (a b c : Bool) → ((a || b) || c) ≡ (a || (b || c))
or_assoc true b c = refl
or_assoc false b c = refl

module _ (q : Platform) (inet : Inet) (what : FileInfo → Offer) where
  ran :
      (o : Offer) (xs : List Parcel) (arrived : Datagram → Bool) (c : BlockClient)
      → AllParcels q what xs
      → Carries what Going c.sync_set
      → what (here q o) ≡ o
      → Shows o arrived (find Order.order (here q o) c.sync_set)
      → (c' : BlockClient) × (run q inet (rounds xs) c ≡ ok c')
        × Shows o (λ d. arrived d || has_arrived q o xs d) (find Order.order (here q o) c'.sync_set)
  unfolding run
  ran o [] arrived c all k told h = (
    c,
    refl,
    Shows-ext o arrived (λ d. arrived d || false) (find Order.order (here q o) c.sync_set)
        (λ d. sym (or_false (arrived d))) h,
  )
  ran o (x ∷ xs) arrived c (i, all) k told h =
      let (c₁, r, k₁, shows) = taken q inet what x c i k in
      let (c', r', h') =
        ran o xs (λ d. arrived d || is_parcel q o d x) c₁ all k₁ told (shows o arrived told h) in
      (
        c',
        ap (λ z. z >>= λ y. run q inet (rounds xs) y) r ∙ r',
        Shows-ext o (λ d. (arrived d || is_parcel q o d x) || has_arrived q o xs d)
            (λ d. arrived d || (is_parcel q o d x || has_arrived q o xs d))
            (find Order.order (here q o) c'.sync_set)
            (λ d. or_assoc (arrived d) (is_parcel q o d x) (has_arrived q o xs d)) h',
      )

length-table : (n : ℕ) (f : ℕ → Bool) → length (table n f) ≡ n
length-table zero f = refl
length-table (suc n) f = ap suc (length-table n (λ b. f (suc b)))

get_elem?-table : (n : ℕ) (f : ℕ → Bool) (b : ℕ) → b < n → get_elem? (table n f) b ≡ some (f b)
get_elem?-table zero f b h = absurd (omega arith)
get_elem?-table (suc n) f zero h = refl
get_elem?-table (suc n) f (suc b) h = get_elem?-table n (λ b. f (suc b)) b (omega arith)

one_of_any :
    (q : Platform) (o : Offer) (xs : List Parcel)
    → any_arrived q o xs ≡ true
    → (d : Datagram) × (has_arrived q o xs d ≡ true)
one_of_any q o [] e = cc e
one_of_any q o (x ∷ xs) e = elim (Bool-cases (same_file (here q x.offer) (here q o))) [
  | inl same ↦ (x.datagram, ground (arith, same, same_datagram_self x.datagram))
  | inr other ↦
      let (d, later) = one_of_any q o xs (ap (λ b. b || any_arrived q o xs) (sym other) ∙ e) in
      (d, ap (λ b. is_parcel q o d x || b) later ∙ or_true (is_parcel q o d x))
]

any_of_one :
    (q : Platform) (o : Offer) (xs : List Parcel) (d : Datagram)
    → has_arrived q o xs d ≡ true
    → any_arrived q o xs ≡ true
any_of_one q o [] d e = cc e
any_of_one q o (x ∷ xs) d e = ground (arith, any_of_one q o xs d)

Shows-progress :
    (q : Platform) (o : Offer) (xs : List Parcel) (s : Option SyncStatus)
    → Shows o (has_arrived q o xs) s
    → progress s ≡ expected q o xs
Shows-progress q o xs none h = elim (Bool-cases (any_arrived q o xs)) [
  | inl some_come ↦ let (d, came) = one_of_any q o xs some_come in absurd (cc (h d, came))
  | inr none_come ↦ rw none_come refl
]
Shows-progress q o xs (some s) ((w, p, m), d, came) =
    let f = λ (b : ℕ). has_arrived q o xs (block b) in
    let len = length-table (count o) f in
    let same : s.block_array ≡ table (count o) f =
      list_ext s.block_array (table (count o) f) (w.sized ∙ sym len) (λ i h.
        m i (omega (arith, len)) ∙ sym (get_elem?-table (count o) f i (omega (arith, len)))) in
    rw (any_of_one q o xs d came) (cc (p, same, w.valid.counted, ap count_missing same))

-- The map of a client that knows no file shows what has arrived in the end.
shown :
    (q : Platform) (inet : Inet) (what : FileInfo → Offer) (o : Offer) (xs : List Parcel)
    (c : BlockClient)
    → AllParcels q what xs
    → c.sync_set ≡ []
    → what (here q o) ≡ o
    → (c' : BlockClient) × (run q inet (rounds xs) c ≡ ok c')
      × Shows o (has_arrived q o xs) (find Order.order (here q o) c'.sync_set)
shown q inet what o xs c all none_known told =
    let (carries, none_there) = empty-Carries what Going c.sync_set none_known in
    ran q inet what o xs (λ d. false) c all carries told
      (subst (Shows o (λ d. false)) (sym (none_there (here q o))) (λ d. refl))

-- A client among any number of servers. It knows no file at first, and hears datagrams of several
-- offers, from servers on hosts of any byte order, mixed in any order and repeated as often as they
-- come; its temporary files open under other names than the paths, and the uninitialised bits are
-- false. All of its rounds return, and what it then knows of an offer is exactly what has arrived of
-- it (`expected`), whatever came of the others and in whatever order: no status where no datagram
-- has come; else the path if it was announced, a mark for each block that has come and for no other,
-- and the number of those that are missing. No two of the offers have the same digest and the same
-- number of blocks (`what` tells them apart).
pub run-expected :
    (q : Platform) (inet : Inet) (what : FileInfo → Offer) (o : Offer) (xs : List Parcel)
    (c : BlockClient)
    → AllParcels q what xs
    → c.sync_set ≡ []
    → what (here q o) ≡ o
    → (c' : BlockClient) × (run q inet (rounds xs) c ≡ ok c')
      × (progress (find Order.order (here q o) c'.sync_set) ≡ expected q o xs)
run-expected q inet what o xs c all none_known told =
    let (c', r, shows) = shown q inet what o xs c all none_known told in
    (c', r, Shows-progress q o xs (find Order.order (here q o) c'.sync_set) shows)

complete :
    (o : Offer) {name : Bytes} (arrived : Datagram → Bool) (m : Option SyncStatus) (c : BlockClient)
    → IsOffer o name
    → Shows o arrived m
    → arrived announcement ≡ true
    → ((b : ℕ) → b < count o → arrived (block b) ≡ true)
    → (s : SyncStatus) × (m ≡ some s)
      × ((transfer_complete s c.disk).0 ≡ true)
      × (file_at o.path (transfer_complete s c.disk).2 ≡ some o.file)
complete o arrived none c v h told each = cc (h announcement, told)
complete o arrived (some s) c v ((w, p, m), d, came) told each =
    let none_left : s.remaining_blocks ≡ 0 =
      w.valid.counted
      ∙ none_missing s.block_array
          (λ b h. m b (omega (arith, w.sized)) ∙ ap some (each b (omega (arith, w.sized)))) in
    let (done, whole) = publishes o s c.disk v w none_left (p ∙ rw told refl) in
    (s, refl, done, whole)

-- Such a client loses nothing to the traffic of other servers: of an offer of which the announcement
-- and every block are among the datagrams, wherever they stand, it has a status for which
-- `transfer_complete` answers true and puts the whole file under its path.
pub run_completes_each :
    (q : Platform) (inet : Inet) (what : FileInfo → Offer) (o : Offer) (name : Bytes)
    (xs : List Parcel) (c : BlockClient)
    → IsOffer o name
    → AllParcels q what xs
    → c.sync_set ≡ []
    → what (here q o) ≡ o
    → has_arrived q o xs announcement ≡ true
    → ((b : ℕ) → b < count o → has_arrived q o xs (block b) ≡ true)
    → (c' : BlockClient) × (s : SyncStatus) × (run q inet (rounds xs) c ≡ ok c')
      × (find Order.order (here q o) c'.sync_set ≡ some s)
      × ((transfer_complete s c'.disk).0 ≡ true)
      × (file_at o.path (transfer_complete s c'.disk).2 ≡ some o.file)
run_completes_each q inet what o name xs c v all none_known told announced each =
    let (c', r, shows) = shown q inet what o xs c all none_known told in
    let (s, known, done, whole) =
      complete o (has_arrived q o xs) (find Order.order (here q o) c'.sync_set) c' v shows announced
        each in
    (c', s, r, known, done, whole)
