-- ===== src/Session/Crowd/Safety.antt =====
-- What any number of servers and clients reach: no client ever puts a part of a file under a path.
use multisync.Base.{Bool, false, ◌≡◌, sym, subst, List}
use multisync.Platform.{Platform}
use multisync.FileInfo.{FileInfo}
use multisync.Socket.{Inet}
use multisync.Session.{Offer}
use multisync.Session.Starting.{started}
use multisync.Session.Receiving.{here}
use multisync.Session.Crowd.{
  Site, Network, OneOf, Step, serves, listens, Reach, here as start_here, then,
}
use multisync.Session.Crowd.Stations.{
  AllOffers, AllStarted, AllStations, station_at, Serves-IsOurStation, first-AllStations,
}
use multisync.Session.Crowd.Sites.{
  AllNew, AllTame, AllHeld, AllTame-AllHeld, site_at, select-IsTame, first-AllTame,
}

-- What every step keeps.
record Invariant (shared : List Offer) (P : Bool → Type 0) (what : Platform → FileInfo → Offer)
    (first : List Site) (n : Network) : Type 0 where
  stations : AllStations shared n.stations
  sites : AllTame shared P what first n.sites

module _ (inet : Inet) (shared : List Offer) (P : Bool → Type 0) (all : AllOffers shared)
    (what : Platform → FileInfo → Offer)
    (told : (q : Platform) (o : Offer) → OneOf o shared → what q (here q o) ≡ o)
    (first : List Site) where
  Step-Invariant :
      (n m : Network)
      → Invariant shared P what first n
      → Step inet shared P n m
      → Invariant shared P what first m
  Step-Invariant n m i (serves before after x y at moves same) =
      let (ours, put) =
        station_at shared before after x y (subst (AllStations shared) at i.stations) in
      subst (Invariant shared P what first) (sym same) (record {
        stations = put (Serves-IsOurStation inet shared all x y moves ours);
        sites = i.sites;
      })
  Step-Invariant n m i (listens before after x e c at apart reads sel same) =
      let (old, tame, put) =
        site_at shared P what first before after x c
          (subst (AllTame shared P what first) at i.sites) in
      subst (Invariant shared P what first) (sym same) (record {
        stations = i.stations;
        sites = put (
            select-IsTame inet shared P all (what x.host) x.host (told x.host) old n.stations e
              x.client c i.stations apart reads tame sel);
      })

  Reach-Invariant :
      {n m : Network}
      → Invariant shared P what first n
      → Reach inet shared P n m
      → Invariant shared P what first m
  Reach-Invariant i start_here = i
  Reach-Invariant i (then r st) = Step-Invariant _ _ (Reach-Invariant i r) st

-- Files appear whole or not at all, however many take part. Servers that are constructed for files
-- have started, on hosts of any byte order, with any requests reaching them, and clients that know
-- no file read datagrams that any of them has sent, lost, late, repeated or in any order, and such
-- of other senders whose type they have no handler for; the temporary files open under names that no
-- server offers as a path. In every state that they reach by rounds that return, in whatever order
-- they take turns, each client's map is in its order, each of its statuses agrees with the file of
-- an offer on every block that it marks, and under each offered path on its disk stands what stood
-- there at first or the whole file of an offer with that path (`IsTame`). Each offer is one that
-- `IsOffer` admits, and no two have the same digest and number of blocks (`what` tells them apart).
pub every_path_whole :
    (inet : Inet) (shared : List Offer) (what : Platform → FileInfo → Offer) (first n : Network)
    → AllOffers shared
    → ((q : Platform) (o : Offer) → OneOf o shared → what q (here q o) ≡ o)
    → AllStarted shared first.stations
    → AllNew first.sites
    → Reach inet shared (λ b. Unit {0}) first n
    → AllTame shared (λ b. Unit {0}) what first.sites n.sites
every_path_whole inet shared what first n all told started new r =
    (Reach-Invariant inet shared (λ b. Unit {0}) all what told first.sites
      (record {
        stations = first-AllStations inet shared all first.stations started;
        sites = first-AllTame shared (λ b. Unit {0}) what first.sites new;
      })
      r).sites

-- Without a goodbye of a server no file appears at all. Servers that are constructed for files have
-- started, on hosts of any byte order, with any requests reaching them, and clients that know no file
-- read datagrams that any of them has sent, lost, late, repeated or in any order, and such of other
-- senders whose type they have no handler for; the temporary files open under names that no server
-- offers as a path, and the bit where a new status keeps `goodbye_received`, which no constructor
-- sets, is always false. In every state that they reach by rounds that return, each client's disk has
-- under each offered path what stood there at first, whatever has arrived. Each offer is one that
-- `IsOffer` admits, and no two have the same digest and number of blocks (`what` tells them apart).
pub every_path_waits :
    (inet : Inet) (shared : List Offer) (what : Platform → FileInfo → Offer) (first n : Network)
    → AllOffers shared
    → ((q : Platform) (o : Offer) → OneOf o shared → what q (here q o) ≡ o)
    → AllStarted shared first.stations
    → AllNew first.sites
    → Reach inet shared (λ b. b ≡ false) first n
    → AllHeld shared first.sites n.sites
every_path_waits inet shared what first n all told started new r =
    AllTame-AllHeld shared (λ b. b ≡ false) what first.sites n.sites (λ e. cc e)
      (Reach-Invariant inet shared (λ b. b ≡ false) all what told first.sites
        (record {
          stations = first-AllStations inet shared all first.stations started;
          sites = first-AllTame shared (λ b. b ≡ false) what first.sites new;
        })
        r).sites
