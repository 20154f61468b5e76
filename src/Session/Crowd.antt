-- ===== src/Session/Crowd.antt =====
-- Any number of servers and clients on one network, which loses, repeats and delays datagrams: the
-- steps, and what holds of one client whatever the others do.
pub mod Listener
pub mod Stations
pub mod Sites
pub mod Safety
use multisync.Base.{◌≡◌, ◌≢◌, Bool, true, false, Option, some, List, [], ◌∷◌, ◌++◌, Bytes, ok, ◌⊎◌}
use multisync.Platform.{Platform}
use multisync.Stream.{Disk, file_at}
use multisync.FileInfo.{FileInfo}
use multisync.BlockInfo.{BlockInfo, increment}
use multisync.Message.{Message, for_input, get_type}
use multisync.Socket.{BlockSocket, SocketAddress, Inet, ReceiveReply, receive}
use multisync.SyncStatus.{SyncStatus, Fresh, suffix}
use multisync.BlockServer.{BlockServer, offer_block}
use multisync.BlockServer
use multisync.BlockClient.{BlockClient, find_handler}
use multisync.BlockClient as Client
use multisync.Session.{Offer, IsOffer}
use multisync.Session.Station.{is_serving, IsStation}
use multisync.Session.System.{IsSent}

-- A server on its host, with the variable of its loop over the blocks.
pub record Station : Type 0 where
  pub host : Platform
  pub offer : Offer
  pub server : BlockServer
  pub next : BlockInfo

-- A client on its host.
pub record Site : Type 0 where
  pub host : Platform
  pub client : BlockClient

pub record Network : Type 0 where
  pub stations : List Station
  pub sites : List Site

abbrev pub OneOf : Offer → List Offer → Type 0
OneOf o [] = ⊥
OneOf o (o' ∷ shared) = (o ≡ o') ⊎ OneOf o shared

abbrev pub AllApart : List Offer → Bytes → Type 0
AllApart [] temp = Unit {0}
AllApart (o ∷ shared) temp = (temp ≢ o.path) × AllApart shared temp

-- What the environment makes a new status of: its file opens, under a name that is no offered
-- path, and the bit where `goodbye_received` lies is one of which `P` holds.
pub record IsApart (shared : List Offer) (P : Bool → Type 0) (fresh : Fresh) : Type 0 where
  pub opens : fresh.is_opened ≡ true
  pub apart : (name : Bytes) → AllApart shared (fresh.tmpnam ++ (name ++ suffix))
  pub bit : P fresh.uninitialised

-- The datagram has been sent by one of the servers.
abbrev pub IsOnAir : Bytes → List Station → Type 0
IsOnAir bytes [] = ⊥
IsOnAir bytes (x ∷ stations) = IsSent bytes x.server.socket.sent ⊎ IsOnAir bytes stations

-- What the network lets a client read: nothing, any datagram that any server has ever sent, or one
-- of a type that the client has no handler for.
pub data Reads (q : Platform) (stations : List Station) (e : Client.Event) (c : BlockClient)
    : Type 0 where
  none_there : e.readable ≡ false → Reads q stations e c
  delivered :
      (a : SocketAddress) (bytes : Bytes)
      → IsOnAir bytes stations
      → e.received ≡ ReceiveReply.datagram a bytes
      → Reads q stations e c
  unknown :
      (m : Message) (s : BlockSocket)
      → receive q e.received (for_input q 4096) c.socket ≡ ok (m, s)
      → find_handler (get_type q m) ≡ Option.none
      → Reads q stations e c

-- A round of a server in its first loop, or one in its second. The requests that reach it are any
-- bytes whatever.
pub data Serves (x y : Station) : Type 0 where
  offers :
      (e : BlockServer.Event) (s₁ s₂ : BlockServer)
      → is_serving x.host x.server x.next ≡ true
      → offer_block x.host x.next x.server ≡ ok s₁
      → BlockServer.select x.host e s₁ ≡ ok s₂
      → y ≡ record x { server = s₂; next = increment x.host x.next }
      → Serves x y
  answers :
      (e : BlockServer.Event) (s₁ : BlockServer)
      → is_serving x.host x.server x.next ≡ false
      → BlockServer.select x.host e x.server ≡ ok s₁
      → y ≡ record x { server = s₁ }
      → Serves x y

-- A round of one server, or of one client; the others stay as they are.
pub data Step (inet : Inet) (shared : List Offer) (P : Bool → Type 0) (n m : Network) : Type 0 where
  serves :
      (before after : List Station) (x y : Station)
      → n.stations ≡ before ++ (x ∷ after)
      → Serves x y
      → m ≡ record n { stations = before ++ (y ∷ after) }
      → Step inet shared P n m
  listens :
      (before after : List Site) (x : Site) (e : Client.Event) (c : BlockClient)
      → n.sites ≡ before ++ (x ∷ after)
      → IsApart shared P e.fresh
      → Reads x.host n.stations e x.client
      → Client.select x.host inet e x.client ≡ ok c
      → m ≡ record n { sites = before ++ (record x { client = c } ∷ after) }
      → Step inet shared P n m

pub data Reach (inet : Inet) (shared : List Offer) (P : Bool → Type 0) (n : Network)
    : Network → Type 0 where
  here : Reach inet shared P n n
  then :
      {m l : Network} → Reach inet shared P n m → Step inet shared P m l → Reach inet shared P n l

-- Under the path stands what stood there at first, or the whole file of an offer with that path, if a
-- goodbye can have been taken.
abbrev pub IsWhole : List Offer → (Bool → Type 0) → Bytes → Disk → Disk → Type 0
IsWhole shared P path old disk =
    (file_at path disk ≡ file_at path old)
    ⊎ (P true × (o : Offer) × OneOf o shared × (o.path ≡ path) × (file_at path disk ≡ some o.file))
