-- ===== src/Session/Crowd/Listener.antt =====
-- One client among any number of servers: its statuses follow the offers, and under each path stands
-- what stood there or a whole file.
use multisync.Base.{
  ◌≡◌, ◌≢◌, sym, ap, subst, ◌∙◌, Bool, true, false, some, List, [], ◌∷◌, ◌++◌, Bytes, ok, ◌>>=◌,
  inl, inr, Bool-cases, if◌then◌else◌, none,
}
use multisync.Platform.{Platform}
use multisync.OrderedMap.{find}
use multisync.Stream.{Disk, file_at, bytes_eq}
use multisync.Stream.Written.{eq_of_bytes_eq, bytes_eq_refl}
use multisync.FileInfo.{FileInfo}
use multisync.FileInfo.Order
use multisync.FileInfo.Order.{FileInfo-discrete}
use multisync.Message.{Message, get_type}
use multisync.Socket.{Address}
use multisync.SyncStatus.{SyncStatus, Fresh, suffix, sync_complete}
use multisync.SyncStatus.Progress.{transfer_complete-waits}
use multisync.SyncStatus.Others.{file_at-sync_complete}
use multisync.SyncStatus.Delivery.{temp_name}
use multisync.BlockClient.Finish.{finish_disk, finish-IsSorted, find-finish_self, find-finish_ne}
use multisync.BlockClient.{BlockClient, finish, dispatch, find_handler}
use multisync.Session.{Offer, IsOffer}
use multisync.Session.Receiving.{
  Datagram, announcement, block, bytes_of, IsOf, here, Follows, Takes, update, updated,
  dispatch-handled,
}
use multisync.Session.Tracking.{Clean, new_named}
use multisync.Session.Publishing.{completed, after_goodbye}
use multisync.Session.Traffic.{Carries}
use multisync.Session.Traffic.Known.{got, Carries-put}
use multisync.Session.Crowd.{OneOf, AllApart, IsApart, IsWhole}

-- The status of a file is one of an offer, and its temporary file no offered path.
abbrev pub IsOurs :
    List Offer → (Bool → Type 0) → (FileInfo → Offer) → FileInfo → SyncStatus → Type 0
IsOurs shared P what f s = OneOf (what f) shared × AllApart shared s.temp × P s.goodbye_received

pub record IsTame (shared : List Offer) (P : Bool → Type 0) (what : FileInfo → Offer) (old : Disk)
    (c : BlockClient) : Type 0 where
  pub carries : Carries what (IsOurs shared P what) c.sync_set
  pub whole : (o : Offer) → OneOf o shared → IsWhole shared P o.path old c.disk

apart_of :
    (shared : List Offer) (temp : Bytes) (o : Offer)
    → AllApart shared temp
    → OneOf o shared
    → temp ≢ o.path
apart_of [] temp o a m = absurd m
apart_of (o' ∷ shared) temp o (ne, a) (inl same) = λ e. ne (e ∙ ap (λ (z : Offer). z.path) same)
apart_of (o' ∷ shared) temp o (ne, a) (inr m) = apart_of shared temp o a m

temp_kept : (o : Offer) (d : Datagram) (s s' : SyncStatus) → Takes o d s s' → s'.temp ≡ s.temp
temp_kept o announcement s s' (p, m, t) = t
temp_kept o (block b) s s' (p, m, t) = t

-- A file that is as it was.
IsWhole-kept :
    (shared : List Offer) (P : Bool → Type 0) (path : Bytes) (old disk disk' : Disk)
    → file_at path disk' ≡ file_at path disk
    → IsWhole shared P path old disk
    → IsWhole shared P path old disk'
IsWhole-kept shared P path old disk disk' e (inl held) = inl (e ∙ held)
IsWhole-kept shared P path old disk disk' e (inr (bye, o, m, p, w)) = inr (bye, o, m, p, e ∙ w)

differ : (x y : Bytes) → bytes_eq x y ≡ false → x ≢ y
differ x y e same = cc (bytes_eq_refl x, ap (bytes_eq x) same, e)

-- Where the sync is complete, the path is known.
done_named :
    (o : Offer) (s : SyncStatus) (disk : Disk)
    → (sync_complete s disk).0 ≡ true
    → s.goodbye_received ≡ true
    → Follows o s
    → s.path ≡ o.path
done_named o s disk done goodbye w = elim w.named [
  | inl unnamed ↦ cc (
    ap (λ (x : Bool × SyncStatus × Disk). x.0)
        (after_goodbye true s disk goodbye ∙ transfer_complete-waits s disk (inr unnamed)),
    done,
  )
  | inr named ↦ named
]

module _ (shared : List Offer) (P : Bool → Type 0) (what : FileInfo → Offer) (old : Disk)
    (q : Platform) (o : Offer) {name : Bytes} (v : IsOffer o name) (told : what (here q o) ≡ o)
    (one : OneOf o shared) where
  abbrev E : FileInfo → SyncStatus → Type 0
  E = IsOurs shared P what

  -- The end of a handler, where the sync is not complete.
  ended_going :
      (s t : SyncStatus) (c : BlockClient)
      → sync_complete s c.disk ≡ (false, s, c.disk)
      → IsTame shared P what old c
      → find Order.order (here q o) c.sync_set ≡ some t
      → Follows o s
      → AllApart shared s.temp
      → P s.goodbye_received
      → IsTame shared P what old (finish (here q o) s c)
  ended_going s t c goes i there w apart bit =
      let f = here q o in
      record {
        carries =
            Carries-put what E q o c.sync_set (finish f s c).sync_set s told i.carries
              (finish-IsSorted f s c i.carries.sorted)
              (find-finish_self f t s c i.carries.sorted there
                ∙ ap (λ (x : Bool × SyncStatus × Disk). if x.0 then none else some x.1) goes)
              (λ g ne. find-finish_ne f g s c ne i.carries.sorted) w
              (subst (λ z. OneOf z shared) (sym told) one, apart, bit);
        whole = λ o' m'.
            IsWhole-kept shared P o'.path old c.disk (finish f s c).disk
              (ap (file_at o'.path)
                ((finish_disk f s c).0 ∙ ap (λ (x : Bool × SyncStatus × Disk). x.2) goes))
              (i.whole o' m');
      }

  -- Or where it is.
  ended_done :
      (s t : SyncStatus) (c : BlockClient)
      → (sync_complete s c.disk).0 ≡ true
      → file_at o.path (sync_complete s c.disk).2 ≡ some o.file
      → s.goodbye_received ≡ true
      → IsTame shared P what old c
      → find Order.order (here q o) c.sync_set ≡ some t
      → Follows o s
      → AllApart shared s.temp
      → P s.goodbye_received
      → IsTame shared P what old (finish (here q o) s c)
  ended_done s t c done file goodbye i there w apart bit =
      let f = here q o in
      let disk' = (sync_complete s c.disk).2 in
      let named = done_named o s c.disk done goodbye w in
      record {
        carries = record {
          sorted = finish-IsSorted f s c i.carries.sorted;
          each = λ g u e. elim (FileInfo-discrete f g) [
            | yes same ↦ cc (
              find-finish_self f t s c i.carries.sorted there,
              ap (λ (b : Bool). if b then none else some (sync_complete s c.disk).1) done,
              ap (λ k. find Order.order k (finish f s c).sync_set) same,
              e,
            )
            | no other ↦
                i.carries.each g u (sym (find-finish_ne f g s c other i.carries.sorted) ∙ e)
          ];
        };
        whole = λ o' m'.
            subst (IsWhole shared P o'.path old) (sym (finish_disk f s c).0)
              (elim (Bool-cases (bytes_eq o.path o'.path)) [
                | inl same ↦
                    let path = eq_of_bytes_eq o.path o'.path same in
                    inr (
                      subst P goodbye bit,
                      o,
                      one,
                      path,
                      ap (λ x. file_at x disk') (sym path) ∙ file,
                    )
                | inr other ↦
                    IsWhole-kept shared P o'.path old c.disk disk'
                      (file_at-sync_complete o'.path s c.disk
                        (λ e. apart_of shared s.temp o' apart m' (sym e))
                        (λ e. differ o.path o'.path other (sym (e ∙ named))))
                      (i.whole o' m')
              ]);
      }

  -- A datagram of the offer is handled, and leaves the client tame.
  pub heard-IsTame :
      (p : Platform) (fresh : Fresh) (a : Address) (m : Message) (d : Datagram) (c : BlockClient)
      → IsApart shared P fresh
      → IsOf o d
      → m.buffer ≡ bytes_of p o d
      → IsTame shared P what old c
      → (c' : BlockClient) × (dispatch q (find_handler (get_type q m)) fresh m a c ≡ ok c')
        × IsTame shared P what old c'
  heard-IsTame p fresh a m d c clean h e i =
      let f = here q o in
      let temp = fresh.tmpnam ++ (name ++ suffix) in
      let apart = clean.apart name in
      let own : Clean o name P fresh = record {
        opens = clean.opens;
        apart = apart_of shared temp o apart one;
        bit = clean.bit;
      } in
      let (s, c₁, gets, k₁, there, others, shown, disk) =
        got what E P q o v told fresh own a c i.carries (
          subst (λ z. OneOf z shared) (sym told) one,
          subst (AllApart shared) (sym (temp_name q fresh f a name c.disk)) apart,
          subst P (sym (new_named q fresh f a name c.disk).1) clean.bit,
        ) in
      let i₁ : IsTame shared P what old c₁ = record {
        carries = k₁;
        whole = λ o' m'.
            IsWhole-kept shared P o'.path old c.disk c₁.disk
              (disk o'.path (apart_of shared temp o' apart m')) (i.whole o' m');
      } in
      let known = k₁.each f s there in
      let w = subst (λ z. Follows z s) told known.0 in
      let (s', upd, w', taken, keeps, goodbye, takes) = updated p q o v d m s h e w in
      let apart' : AllApart shared s'.temp =
        subst (AllApart shared) (sym (temp_kept o d s s' takes)) known.1.1 in
      let bit : P s'.goodbye_received = subst P (sym goodbye) known.1.2 in
      (
        finish f s' c₁,
        dispatch-handled p q o v fresh a m c d h e
            ∙ ap (λ r. r >>= λ y. update q o d m y.0 >>= λ z. ok (finish f z y.1)) gets
            ∙ ap (λ r. r >>= λ z. ok (finish f z c₁)) upd,
        elim (completed o s' c₁.disk v w') [
          | inl goes ↦ ended_going s' s c₁ goes i₁ there w' apart' bit
          | inr (done, file, bye) ↦ ended_done s' s c₁ done file bye i₁ there w' apart' bit
        ],
      )
