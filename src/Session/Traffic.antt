-- ===== src/Session/Traffic.antt =====
-- The datagrams of any number of servers at one client, mixed as they come, and what of each offer
-- has arrived: the set of its datagrams, whatever their order and number.
pub mod Known
pub mod Taking
pub mod Running
use multisync.Base.{
  ℕ, zero, suc, ◌<◌, ◌≡◌, ◌≢◌, refl, Bool, true, false, not, ◌&&◌, ◌||◌, Option, none, some, List,
  [], ◌∷◌, Bytes, get_elem?, length, ◌==◌, arith, if◌then◌else◌,
}
use multisync.Platform.{Platform}
use multisync.OrderedMap.{OrderedMap, find, IsSorted}
use multisync.FileInfo.{FileInfo}
use multisync.FileInfo
use multisync.FileInfo.Order
use multisync.Socket.{SocketAddress}
use multisync.SyncStatus.{SyncStatus, Fresh}
use multisync.SyncStatus.Progress.{count_missing}
use multisync.BlockClient.{Event}
use multisync.Session.{Offer, IsOffer, count}
use multisync.Session.Receiving.{Datagram, announcement, block, bytes_of, IsOf, here, Follows}
use multisync.Session.Tracking.{Clean}
use multisync.Session.Completion.{hear_round, Unset}

-- A datagram of an offer, from a server on `host` at the address `from`, and what the client would
-- make a new status of in its round.
pub record Parcel : Type 0 where
  pub offer : Offer
  pub datagram : Datagram
  pub host : Platform
  pub from : SocketAddress
  pub fresh : Fresh

abbrev pub same_datagram : Datagram → Datagram → Bool
same_datagram announcement announcement = true
same_datagram announcement (block c) = false
same_datagram (block b) announcement = false
same_datagram (block b) (block c) = b == c

-- One key, as `std::map` compares them.
abbrev pub same_file : FileInfo → FileInfo → Bool
same_file f g = not (FileInfo.less f g || FileInfo.less g f)

abbrev pub is_parcel : Platform → Offer → Datagram → Parcel → Bool
is_parcel q o d x = same_file (here q x.offer) (here q o) && same_datagram x.datagram d

-- Whether the datagram of the offer is among the parcels.
abbrev pub has_arrived : Platform → Offer → List Parcel → Datagram → Bool
has_arrived q o [] d = false
has_arrived q o (x ∷ xs) d = is_parcel q o d x || has_arrived q o xs d

abbrev pub any_arrived : Platform → Offer → List Parcel → Bool
any_arrived q o [] = false
any_arrived q o (x ∷ xs) = same_file (here q x.offer) (here q o) || any_arrived q o xs

-- The list of `f 0`, `f 1`, up to `n` elements.
abbrev pub table : ℕ → (ℕ → Bool) → List Bool
table zero f = []
table (suc n) f = f 0 ∷ table n (λ b. f (suc b))

-- What the client should know of an offer: nothing before a datagram of it has come, and then the
-- path if it was announced, which blocks have come, and how many are missing.
abbrev pub expected : Platform → Offer → List Parcel → Option (Bytes × List Bool × ℕ)
expected q o xs =
    let marks = table (count o) (λ b. has_arrived q o xs (block b)) in
    if any_arrived q o xs
    then some (if has_arrived q o xs announcement then o.path else [], marks, count_missing marks)
    else none

-- The same of a status.
abbrev pub progress : Option SyncStatus → Option (Bytes × List Bool × ℕ)
progress none = none
progress (some s) = some (s.path, s.block_array, s.remaining_blocks)

abbrev pub rounds : List Parcel → List Event
rounds [] = []
rounds (x ∷ xs) = hear_round x.from x.fresh (bytes_of x.host x.offer x.datagram) ∷ rounds xs

-- A datagram of an offer of its own: `what` tells the offers apart by their digests and numbers of
-- blocks.
pub record IsParcel (q : Platform) (what : FileInfo → Offer) (x : Parcel) : Type 0 where
  pub name : Bytes
  pub offered : IsOffer x.offer name
  pub clean : Clean x.offer name Unset x.fresh
  pub within : IsOf x.offer x.datagram
  pub told : what (here q x.offer) ≡ x.offer

abbrev pub AllParcels : Platform → (FileInfo → Offer) → List Parcel → Type 0
AllParcels q what [] = Unit {0}
AllParcels q what (x ∷ xs) = IsParcel q what x × AllParcels q what xs

-- A status that agrees with the file, has the path exactly if it was announced, and marks exactly
-- the blocks that have come.
abbrev pub Agrees : Offer → (Datagram → Bool) → SyncStatus → Type 0
Agrees o arrived s =
    Follows o s
    × (s.path ≡ (if arrived announcement then o.path else []))
    × ((b : ℕ) → b < count o → get_elem? s.block_array b ≡ some (arrived (block b)))

-- What the client's map has of an offer of which the datagrams `arrived` have come: nothing where
-- there is none, and else such a status.
abbrev pub Shows : Offer → (Datagram → Bool) → Option SyncStatus → Type 0
Shows o arrived none = (d : Datagram) → arrived d ≡ false
Shows o arrived (some s) = Agrees o arrived s × (d : Datagram) × (arrived d ≡ true)

-- What every parcel keeps: the map is in its order, and each of its statuses is one of an offer, of
-- which `E` holds.
pub record Carries (what : FileInfo → Offer) (E : FileInfo → SyncStatus → Type 0)
    (sync_set : OrderedMap FileInfo SyncStatus) : Type 0 where
  pub sorted : IsSorted Order.order sync_set
  pub each :
      (f : FileInfo) (s : SyncStatus)
      → find Order.order f sync_set ≡ some s
      → Follows (what f) s × E f s

-- No goodbye has come.
abbrev pub Going : FileInfo → SyncStatus → Type 0
Going f s = s.goodbye_received ≡ false
