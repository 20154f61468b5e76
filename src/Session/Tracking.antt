-- ===== src/Session/Tracking.antt =====
-- The client of one server, datagram by datagram: what it knows of the file, and its disk.
use multisync.Base.{
  ◌≡◌, ◌≢◌, refl, sym, ap, subst, ◌∙◌, Bool, true, none, some, [], ◌∷◌, ◌++◌, Bytes, arith, ok, ◌⊎◌,
  inl, inr,
}
use multisync.Platform.{Platform}
use multisync.OrderedMap.{OrderedMap, find, insert, assign, erase}
use multisync.Stream.{Disk, file_at}
use multisync.Stream.Written.{file_at-put_ne}
use multisync.FileInfo.{FileInfo, get_digest, get_block_count}
use multisync.FileInfo.Order
use multisync.Socket.{Address}
use multisync.SyncStatus.{SyncStatus, Fresh, construct_with, suffix, c_string}
use multisync.SyncStatus
use multisync.SyncStatus.Progress.{construct_with-IsValid}
use multisync.SyncStatus.Delivery.{construct_with-Holds, block_array_size, temp_name}
use multisync.BlockClient.{BlockClient, get_sync_status, insert_status}
use multisync.Session.{Offer, IsOffer, count}
use multisync.Session.Packets.{count_bounds}
use multisync.Session.Sending.{file_of-count}
use multisync.Session.Receiving.{Datagram, here, Follows, Knows}

-- What the environment makes a new status of: its file opens, under another name than the path, and
-- the bit that is never initialised satisfies `P`.
pub record Clean (o : Offer) (name : Bytes) (P : Bool → Type 0) (fresh : Fresh) : Type 0 where
  pub opens : fresh.is_opened ≡ true
  pub apart : fresh.tmpnam ++ (name ++ suffix) ≢ o.path
  pub bit : P fresh.uninitialised

-- The client has a status of the file, which follows the file, and none of another.
pub record Follower (q : Platform) (o : Offer) (P : Bool → Type 0)
    (sync_set : OrderedMap FileInfo SyncStatus) (s : SyncStatus) : Type 0 where
  pub alone : sync_set ≡ (here q o, s) ∷ []
  pub follows : Follows o s
  pub bit : P s.goodbye_received

-- Or it has none at all.
abbrev pub Tracks : Platform → Offer → (Bool → Type 0) → OrderedMap FileInfo SyncStatus → Type 0
Tracks q o P sync_set = (sync_set ≡ []) ⊎ ((s : SyncStatus) × Follower q o P sync_set s)

abbrev pub KnownBy : Platform → Offer → Datagram → OrderedMap FileInfo SyncStatus → Type 0
KnownBy q o d sync_set = (s : SyncStatus) × (sync_set ≡ (here q o, s) ∷ []) × Knows o d s

abbrev pub only : SyncStatus → OrderedMap FileInfo SyncStatus → SyncStatus
only s [] = s
only s ((f, t) ∷ m) = t

pub find_alone : (f : FileInfo) (s : SyncStatus) → find Order.order f ((f, s) ∷ []) ≡ some s
unfolding find
find_alone f s = ground (arith, Order.order.irrefl f)

pub assign_alone :
    (f : FileInfo) (s t : SyncStatus) → assign Order.order f t ((f, s) ∷ []) ≡ (f, t) ∷ []
unfolding assign
assign_alone f s t = ground (arith, Order.order.irrefl f)

pub erase_alone : (f : FileInfo) (s : SyncStatus) → erase Order.order f ((f, s) ∷ []) ≡ []
unfolding erase
erase_alone f s = ground (arith, Order.order.irrefl f)

pub get_known :
    (q : Platform) (fresh : Fresh) (f : FileInfo) (a : Address) (c : BlockClient) (s : SyncStatus)
    → find Order.order f c.sync_set ≡ some s
    → get_sync_status q fresh f a c ≡ ok (s, c)
unfolding get_sync_status
get_known q fresh f a c s e = rw (e, get_sync_status)

-- The client after a status has been made for the first file that it hears of.
abbrev first_status :
    Platform → Fresh → FileInfo → Address → Bytes → BlockClient → SyncStatus × BlockClient
first_status q fresh f a name c =
    let made = construct_with q fresh f a name c.disk in
    (made.0, record c { sync_set = (f, made.0) ∷ []; disk = made.1 })

pub construct_named :
    (q : Platform) (fresh : Fresh) (f : FileInfo) (a : Address) (name : Bytes) (disk : Disk)
    → c_string f.digest ≡ some name
    → SyncStatus.construct q fresh f a disk ≡ ok (construct_with q fresh f a name disk)
unfolding SyncStatus.construct get_digest
construct_named q fresh f a name disk e = rw (e, SyncStatus.construct)

insert_first :
    (q : Platform) (fresh : Fresh) (f : FileInfo) (a : Address) (name : Bytes) (c : BlockClient)
    → c_string f.digest ≡ some name
    → c.sync_set ≡ []
    → insert_status q fresh f a c ≡ ok (first_status q fresh f a name c)
unfolding insert_status insert
insert_first q fresh f a name c e none_known =
    rw (construct_named q fresh f a name c.disk e, none_known) refl

get_first :
    (q : Platform) (fresh : Fresh) (f : FileInfo) (a : Address) (name : Bytes) (c : BlockClient)
    → c_string f.digest ≡ some name
    → c.sync_set ≡ []
    → get_sync_status q fresh f a c ≡ ok (first_status q fresh f a name c)
unfolding get_sync_status find
get_first q fresh f a name c e none_known =
    get_missing (rw none_known refl) ∙ insert_first q fresh f a name c e none_known
  where
    get_missing :
        find Order.order f c.sync_set ≡ none
        → get_sync_status q fresh f a c ≡ insert_status q fresh f a c
    get_missing n = rw (n, get_sync_status)

-- Making a status leaves every file but its own temporary one as it is.
pub construct_disk :
    (q : Platform) (fresh : Fresh) (f : FileInfo) (a : Address) (name path : Bytes) (disk : Disk)
    → fresh.tmpnam ++ (name ++ suffix) ≢ path
    → file_at path (construct_with q fresh f a name disk).1 ≡ file_at path disk
unfolding construct_with
construct_disk q fresh f a name path disk ne =
    ground (arith, file_at-put_ne path (fresh.tmpnam ++ (name ++ suffix)) [] disk (λ e. ne (sym e)))

pub new_named :
    (q : Platform) (fresh : Fresh) (f : FileInfo) (a : Address) (name : Bytes) (disk : Disk)
    → ((construct_with q fresh f a name disk).0.path ≡ [])
      × ((construct_with q fresh f a name disk).0.goodbye_received ≡ fresh.uninitialised)
unfolding construct_with
new_named q fresh f a name disk = (refl, refl)

module _ (q : Platform) (o : Offer) {name : Bytes} (v : IsOffer o name) (P : Bool → Type 0) where
  pub new-Follows :
      (fresh : Fresh) (a : Address) (disk : Disk)
      → Clean o name P fresh
      → Follows o (construct_with q fresh (here q o) a name disk).0
  new-Follows fresh a disk clean =
      let counted : get_block_count q (here q o) ≡ count o =
        file_of-count q o.digest (count o) (omega (arith, count_bounds o v)) in
      record {
        holds = construct_with-Holds q fresh (here q o) a name o.file disk clean.opens;
        valid =
            construct_with-IsValid q fresh (here q o) a name disk
              (omega (arith, counted, count_bounds o v));
        sized = block_array_size q fresh (here q o) a name disk ∙ counted;
        named = inl (new_named q fresh (here q o) a name disk).0;
        apart = λ e. clean.apart (sym (temp_name q fresh (here q o) a name disk) ∙ e);
      }

  -- What `get_sync_status` gives for the file, and what it leaves as it was.
  abbrev pub Found : Fresh → Address → BlockClient → Type 0
  Found fresh a c =
      (s : SyncStatus) × (c' : BlockClient) × (get_sync_status q fresh (here q o) a c ≡ ok (s, c'))
      × Follower q o P c'.sync_set s
      × (file_at o.path c'.disk ≡ file_at o.path c.disk)
      × ((d : Datagram) → KnownBy q o d c.sync_set → Knows o d s)

  pub found :
      (fresh : Fresh) (a : Address) (c : BlockClient)
      → Clean o name P fresh
      → Tracks q o P c.sync_set
      → Found fresh a c
  found fresh a c clean (inl none_known) =
      let made = first_status q fresh (here q o) a name c in
      (
        made.0,
        made.1,
        get_first q fresh (here q o) a name c v.digest_text none_known,
        record {
          alone = refl;
          follows = new-Follows fresh a c.disk clean;
          bit = subst P (sym (new_named q fresh (here q o) a name c.disk).1) clean.bit;
        },
        construct_disk q fresh (here q o) a name o.path c.disk clean.apart,
        λ d k. cc (none_known, k.1),
      )
  found fresh a c clean (inr (s, w)) = (
    s,
    c,
    get_known q fresh (here q o) a c s (rw w.alone (find_alone (here q o) s)),
    w,
    refl,
    λ d k. subst (Knows o d) (ap (only s) (sym k.1 ∙ w.alone)) k.2,
  )
