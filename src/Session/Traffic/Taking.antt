-- ===== src/Session/Traffic/Taking.antt =====
-- One datagram of some server at a client that knows files of several.
use multisync.Base.{
  ℕ, zero, suc, ◌≡◌, ◌≢◌, refl, sym, ap, subst, ◌∙◌, Bool, true, false, ◌&&◌, ◌||◌, Option, none,
  some, List, [], ◌∷◌, get_elem?, set, arith, Result, ok, ◌>>=◌, if◌then◌else◌, ◌==◌,
}
use multisync.Platform.{Platform}
use multisync.OrderedMap.{find, assign}
use multisync.OrderedMap.Laws.{assign-IsSorted, find-assign_self, find-assign_ne}
use multisync.FileInfo.{FileInfo}
use multisync.FileInfo.Order
use multisync.FileInfo.Order.{FileInfo-discrete, less_irrefl, less_total}
use multisync.Message.{Message, for_input}
use multisync.Socket.{Inet, get_address}
use multisync.SyncStatus.{SyncStatus}
use multisync.BlockClient.Finish.{finish_going}
use multisync.BlockClient.{BlockClient, finish, select}
use multisync.Session.{Offer}
use multisync.Session.Receiving.{
  Datagram, announcement, block, bytes_of, here, Follows, Takes, update, updated, dispatch-handled,
}
use multisync.Session.Tracking.{new_named}
use multisync.Session.Publishing.{after_goodbye}
use multisync.Session.Hearing.{bytes_of-Fits}
use multisync.Session.Completion.{hear_round, Unset, select-dispatch}
use multisync.Session.Traffic.{
  Parcel, IsParcel, Agrees, Shows, Carries, Going, same_datagram, same_file, is_parcel,
}
use multisync.Session.Traffic.Known.{got, Carries-put}

pub or_true : (b : Bool) → (b || true) ≡ true
or_true true = refl
or_true false = refl

pub or_false : (b : Bool) → (b || false) ≡ b
or_false true = refl
or_false false = refl

marked :
    (bs : List Bool) (b c : ℕ) (v : Bool)
    → get_elem? bs c ≡ some v
    → get_elem? (set bs b true) c ≡ some (v || (b == c))
marked [] b c v e = cc e
marked (x ∷ xs) zero zero v e = ground arith
marked (x ∷ xs) zero (suc c) v e = ground arith
marked (x ∷ xs) (suc b) zero v e = ground arith
marked (x ∷ xs) (suc b) (suc c) v e = ground (arith, marked xs b c v e)

-- What the map shows depends on no more than which datagrams have come.
pub Shows-ext :
    (o : Offer) (one two : Datagram → Bool) (s : Option SyncStatus)
    → ((d : Datagram) → one d ≡ two d)
    → Shows o one s
    → Shows o two s
Shows-ext o one two none e h = λ d. sym (e d) ∙ h d
Shows-ext o one two (some s) e ((w, p, m), d, came) = (
  (
    w,
    p ∙ ap (λ b. if b then o.path else []) (e announcement),
    λ b h. m b h ∙ ap some (e (block b)),
  ),
  d,
  sym (e d) ∙ came,
)

-- The status takes the datagram in, exactly.
taken-Agrees :
    (o : Offer) (d : Datagram) (s s' : SyncStatus) (arrived : Datagram → Bool)
    → Follows o s'
    → Takes o d s s'
    → Agrees o arrived s
    → Agrees o (λ d'. arrived d' || same_datagram d d') s'
taken-Agrees o announcement s s' arrived w (p, m, t) (w₀, p₀, m₀) = (
  w,
  p ∙ sym (ap (λ b. if b then o.path else []) (or_true (arrived announcement))),
  λ b h. ap (λ z. get_elem? z b) m ∙ m₀ b h ∙ sym (ap some (or_false (arrived (block b)))),
)
taken-Agrees o (block b) s s' arrived w (p, m, t) (w₀, p₀, m₀) = (
  w,
  p ∙ p₀ ∙ sym (ap (λ b. if b then o.path else []) (or_false (arrived announcement))),
  λ c h. ap (λ z. get_elem? z c) m ∙ marked s.block_array b c (arrived (block c)) (m₀ c h),
)

pub same_datagram_self : (d : Datagram) → same_datagram d d ≡ true
same_datagram_self announcement = refl
same_datagram_self (block b) = ground arith

same_file_self : (f : FileInfo) → same_file f f ≡ true
same_file_self f = simp (less_irrefl f)

same_file_ne : (f g : FileInfo) → f ≢ g → same_file f g ≡ false
same_file_ne f g ne = ground (arith, less_total f g)

module _ (q : Platform) (inet : Inet) (what : FileInfo → Offer) where
  abbrev pub Taken : Parcel → BlockClient → Result BlockClient → Type 0
  Taken x c result =
      (c' : BlockClient) × (result ≡ ok c')
      × Carries what Going c'.sync_set
      × ((o : Offer) (arrived : Datagram → Bool)
          → what (here q o) ≡ o
          → Shows o arrived (find Order.order (here q o) c.sync_set)
          → Shows o (λ d. arrived d || is_parcel q o d x) (find Order.order (here q o) c'.sync_set))

  pub taken :
      (x : Parcel) (c : BlockClient)
      → IsParcel q what x
      → Carries what Going c.sync_set
      → Taken x c (select q inet (hear_round x.from x.fresh (bytes_of x.host x.offer x.datagram)) c)
  taken x c i k =
      let o = x.offer in
      let f = here q o in
      let bytes = bytes_of x.host o x.datagram in
      let m : Message = record (for_input q 4096) { buffer = bytes } in
      let c₀ : BlockClient = record c { socket = record c.socket { from = x.from } } in
      let k₀ : Carries what Going c₀.sync_set = record { sorted = k.sorted; each = k.each } in
      let a = get_address q inet c₀.socket in
      let (s, c₁, gets, k₁, there, others, shown, disk) =
        got what Going Unset q o i.offered i.told x.fresh i.clean a c₀ k₀
          ((new_named q x.fresh f a i.name c₀.disk).1 ∙ i.clean.bit) in
      let known = k₁.each f s there in
      let w = subst (λ z. Follows z s) i.told known.0 in
      let (s', upd, w', takes, keeps, goodbye, exact) =
        updated x.host q o i.offered x.datagram m s i.within refl w in
      let sync' = assign Order.order f s' c₁.sync_set in
      let here_is = find-assign_self Order.order f s' s c₁.sync_set there in
      let rest = λ (g : FileInfo) (ne : f ≢ g). find-assign_ne Order.order f g s' c₁.sync_set ne in
      let unset : s'.goodbye_received ≡ false = goodbye ∙ known.1 in
      (
        record c₁ { sync_set = sync' },
        select-dispatch q inet x.from x.fresh bytes c (bytes_of-Fits x.host o i.offered x.datagram)
            ∙ ap (λ r. r >>= λ z. ok z)
                (dispatch-handled x.host q o i.offered x.fresh a m c₀ x.datagram i.within refl
                  ∙ ap (λ r. r >>= λ y. update q o x.datagram m y.0 >>= λ z. ok (finish f z y.1))
                      gets
                  ∙ ap (λ r. r >>= λ z. ok (finish f z c₁)) upd
                  ∙ ap ok (finish_going f s' c₁ (after_goodbye false s' c₁.disk unset))),
        Carries-put what Going q o c₁.sync_set sync' s' i.told k₁
            (assign-IsSorted Order.order f s' c₁.sync_set k₁.sorted) here_is rest w' unset,
        λ o' arrived told h. elim (FileInfo-discrete f (here q o')) [
          | yes same ↦
              subst
                (λ z.
                  Shows z arrived (find Order.order (here q z) c.sync_set)
                  → Shows z (λ d. arrived d || is_parcel q z d x)
                      (find Order.order (here q z) sync'))
                (sym i.told ∙ ap what same ∙ told)
                (λ own. subst (Shows o (λ d. arrived d || is_parcel q o d x)) (sym here_is) (
                  Shows-ext o (λ d. arrived d || same_datagram x.datagram d)
                    (λ d. arrived d || is_parcel q o d x) (some s')
                    (λ d.
                      ap (λ b. arrived d || (b && same_datagram x.datagram d))
                        (sym (same_file_self f)))
                    (
                      taken-Agrees o x.datagram s s' arrived w' exact (shown arrived own),
                      x.datagram,
                      ap (λ b. arrived x.datagram || b) (same_datagram_self x.datagram)
                          ∙ or_true (arrived x.datagram),
                    )))
                h
          | no other ↦
              Shows-ext o' arrived (λ d. arrived d || is_parcel q o' d x)
                (find Order.order (here q o') sync')
                (λ d. sym (
                  ap (λ b. arrived d || (b && same_datagram x.datagram d))
                    (same_file_ne f (here q o') other)
                  ∙ or_false (arrived d)))
                (subst (Shows o' arrived) (sym (rest (here q o') other ∙ others (here q o') other))
                  h)
        ],
      )
