-- ===== src/Session/Traffic/Known.antt =====
-- The status that the client has or makes for a file, beside those of other files.
use multisync.Base.{
  ℕ, zero, suc, ◌<◌, ◌≡◌, ◌≢◌, refl, sym, ap, subst, ◌∙◌, Bool, false, none, some, [], ◌++◌, Bytes,
  get_elem?, replicate, arith, Result, ok, inl, inr, Option-cases,
}
use multisync.Platform.{Platform}
use multisync.OrderedMap.{OrderedMap, find, insert, IsSorted}
use multisync.OrderedMap.Laws.{insert-IsSorted, find-insert_new, find-insert_ne}
use multisync.Stream.{file_at}
use multisync.FileInfo.{FileInfo, get_block_count}
use multisync.FileInfo.Order
use multisync.FileInfo.Order.{FileInfo-discrete}
use multisync.Socket.{Address}
use multisync.SyncStatus.{SyncStatus, Fresh, construct_with, c_string, suffix}
use multisync.BlockClient.{BlockClient, get_sync_status, insert_status}
use multisync.Session.{Offer, IsOffer, count}
use multisync.Session.Packets.{count_bounds}
use multisync.Session.Sending.{file_of-count}
use multisync.Session.Receiving.{Datagram, announcement, block, here, Follows}
use multisync.Session.Tracking.{
  Clean, get_known, construct_named, construct_disk, new_named, new-Follows,
}
use multisync.Session.Traffic.{Agrees, Shows, Carries}

no_entry :
    (f : FileInfo) (m : OrderedMap FileInfo SyncStatus) → m ≡ [] → find Order.order f m ≡ none
unfolding find
no_entry f m e = rw e refl

-- A map with no file.
pub empty-Carries :
    (what : FileInfo → Offer) (E : FileInfo → SyncStatus → Type 0)
    (m : OrderedMap FileInfo SyncStatus)
    → m ≡ []
    → Carries what E m × ((f : FileInfo) → find Order.order f m ≡ none)
empty-Carries what E m e = (
  record {
    sorted = subst (IsSorted Order.order) (sym e) tt;
    each = λ f s known. cc (no_entry f m e, known);
  },
  λ f. no_entry f m e,
)

-- A new status.
insert_named :
    (q : Platform) (fresh : Fresh) (f : FileInfo) (a : Address) (name : Bytes) (c : BlockClient)
    → c_string f.digest ≡ some name
    → find Order.order f c.sync_set ≡ none
    → let made = construct_with q fresh f a name c.disk in
      get_sync_status q fresh f a c
      ≡ ok (made.0, record c { sync_set = insert Order.order f made.0 c.sync_set; disk = made.1 })
unfolding get_sync_status insert_status
insert_named q fresh f a name c e n =
    rw (n, get_sync_status) (rw (construct_named q fresh f a name c.disk e) refl)

no_marks : (n b : ℕ) → b < n → get_elem? (replicate n false) b ≡ some false
no_marks zero b h = absurd (omega arith)
no_marks (suc n) zero h = refl
no_marks (suc n) (suc b) h = no_marks n b (omega arith)

new_marks :
    (q : Platform) (fresh : Fresh) (f : FileInfo) (a : Address) (name : Bytes) (c : BlockClient)
    → (construct_with q fresh f a name c.disk).0.block_array ≡ replicate (get_block_count q f) false
unfolding construct_with
new_marks q fresh f a name c = refl

-- A map that changes at one offer carries it on, if the new status follows the offer.
pub Carries-put :
    (what : FileInfo → Offer) (E : FileInfo → SyncStatus → Type 0) (q : Platform) (o : Offer)
    (m m' : OrderedMap FileInfo SyncStatus) (s : SyncStatus)
    → what (here q o) ≡ o
    → Carries what E m
    → IsSorted Order.order m'
    → find Order.order (here q o) m' ≡ some s
    → ((f : FileInfo) → here q o ≢ f → find Order.order f m' ≡ find Order.order f m)
    → Follows o s
    → E (here q o) s
    → Carries what E m'
Carries-put what E q o m m' s told k sorted here_is there w extra = record {
  sorted = sorted;
  each = λ f t e. elim (FileInfo-discrete (here q o) f) [
    | yes same ↦
        subst (λ g. Follows (what g) t × E g t) same
          (subst (λ z. Follows (what (here q o)) z × E (here q o) z)
            (cc (sym here_is ∙ ap (λ g. find Order.order g m') same ∙ e))
            (subst (λ z. Follows z s) (sym told) w, extra))
    | no other ↦ k.each f t (sym (there f other) ∙ e)
  ];
}

-- What `get_sync_status` leaves for the offer `o`, where the map carried offers before.
abbrev pub Got :
    (FileInfo → Offer)
    → (FileInfo → SyncStatus → Type 0)
    → Platform
    → Offer
    → Bytes
    → BlockClient
    → Result (SyncStatus × BlockClient)
    → Type 0
Got what E q o temp c result =
    (s : SyncStatus) × (c' : BlockClient) × (result ≡ ok (s, c'))
    × Carries what E c'.sync_set
    × (find Order.order (here q o) c'.sync_set ≡ some s)
    × ((f : FileInfo)
        → here q o ≢ f
        → find Order.order f c'.sync_set ≡ find Order.order f c.sync_set)
    × ((arrived : Datagram → Bool)
        → Shows o arrived (find Order.order (here q o) c.sync_set)
        → Agrees o arrived s)
    × ((x : Bytes) → temp ≢ x → file_at x c'.disk ≡ file_at x c.disk)

module _ (what : FileInfo → Offer) (E : FileInfo → SyncStatus → Type 0) (P : Bool → Type 0)
    (q : Platform) (o : Offer) {name : Bytes} (v : IsOffer o name) (told : what (here q o) ≡ o)
    (fresh : Fresh) (clean : Clean o name P fresh) (a : Address) (c : BlockClient)
    (k : Carries what E c.sync_set)
    (extra : E (here q o) (construct_with q fresh (here q o) a name c.disk).0) where
  got_new :
      find Order.order (here q o) c.sync_set ≡ none
      → Got what E q o (fresh.tmpnam ++ (name ++ suffix)) c (get_sync_status q fresh (here q o) a c)
  got_new n =
      let made = construct_with q fresh (here q o) a name c.disk in
      let s = made.0 in
      let m = insert Order.order (here q o) s c.sync_set in
      let counted : get_block_count q (here q o) ≡ count o =
        file_of-count q o.digest (count o) (omega (arith, count_bounds o v)) in
      let (unnamed, bit) = new_named q fresh (here q o) a name c.disk in
      let w = new-Follows q o v P fresh a c.disk clean in
      let found_it = find-insert_new Order.order (here q o) s c.sync_set n in
      let others = λ (f : FileInfo) (ne : here q o ≢ f).
        find-insert_ne Order.order (here q o) f s c.sync_set ne in
      (
        s,
        record c { sync_set = m; disk = made.1 },
        insert_named q fresh (here q o) a name c v.digest_text n,
        Carries-put what E q o c.sync_set m s told k
            (insert-IsSorted Order.order (here q o) s c.sync_set k.sorted) found_it others w extra,
        found_it,
        others,
        λ arrived h.
            let none_yet = subst (Shows o arrived) n h in
            (
              w,
              rw (none_yet announcement) unnamed,
              λ b within.
                  ap (λ z. get_elem? z b) (new_marks q fresh (here q o) a name c)
                  ∙ no_marks (get_block_count q (here q o)) b (omega (arith, counted))
                  ∙ ap some (sym (none_yet (block b))),
            ),
        λ x ne. construct_disk q fresh (here q o) a name x c.disk ne,
      )

  pub got :
      Got what E q o (fresh.tmpnam ++ (name ++ suffix)) c (get_sync_status q fresh (here q o) a c)
  got = elim (Option-cases (find Order.order (here q o) c.sync_set)) [
    | inl n ↦ got_new n
    | inr (s, known) ↦ (
      s,
      c,
      get_known q fresh (here q o) a c s known,
      k,
      known,
      λ f ne. refl,
      λ arrived h. (subst (Shows o arrived) known h).0,
      λ x ne. refl,
    )
  ]
