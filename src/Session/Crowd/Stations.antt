-- ===== src/Session/Crowd/Stations.antt =====
-- The stations of the network: a round of one keeps what each of them keeps.
use multisync.Base.{◌≡◌, sym, subst, some, List, [], ◌∷◌, ◌++◌, Bytes, inl, inr, ℕ}
use multisync.BlockInfo
use multisync.Socket.{SocketAddress, Inet, OpenReply}
use multisync.BlockServer
use multisync.Session.{Offer, IsOffer}
use multisync.Session.Starting.{started, offer}
use multisync.Session.Server.{IsOffered}
use multisync.Session.Station.{IsStation, offers-IsStation, serves-IsStation, started-IsStation}
use multisync.Session.System.{sent-IsOffered}
use multisync.Session.Crowd.{Station, OneOf, IsOnAir, Serves, offers, answers}

abbrev pub AllOffers : List Offer → Type 0
AllOffers [] = Unit {0}
AllOffers (o ∷ shared) = ((name : Bytes) × IsOffer o name) × AllOffers shared

-- The server of an offer, when `start` has opened its socket and queued the announcement.
pub record IsStarted (x : Station) : Type 0 where
  pub inet : Inet
  pub hex_digest : Bytes → Bytes
  pub file : Bytes
  pub group : Bytes
  pub port : ℕ
  pub unset : SocketAddress
  pub opened : OpenReply
  pub serving : x.offer ≡ offer hex_digest file x.offer.path x.offer.id
  pub begun :
      let s =
        BlockServer.construct x.host inet hex_digest
          (some file)
          x.offer.path
          group
          port
          x.offer.id
          unset in
      (x.server ≡ started x.host opened s) × (x.next ≡ BlockInfo.construct x.host s.file_info 0)

abbrev pub AllStarted : List Offer → List Station → Type 0
AllStarted shared [] = Unit {0}
AllStarted shared (x ∷ stations) = OneOf x.offer shared × IsStarted x × AllStarted shared stations

abbrev pub IsOurStation : List Offer → Station → Type 0
IsOurStation shared x = OneOf x.offer shared × IsStation x.host x.offer x.server x.next

abbrev pub AllStations : List Offer → List Station → Type 0
AllStations shared [] = Unit {0}
AllStations shared (x ∷ stations) = IsOurStation shared x × AllStations shared stations

pub offered :
    (shared : List Offer) (o : Offer)
    → AllOffers shared
    → OneOf o shared
    → (name : Bytes) × IsOffer o name
offered [] o all m = absurd m
offered (o' ∷ shared) o ((name, v), all) (inl same) =
    (name, subst (λ z. IsOffer z name) (sym same) v)
offered (o' ∷ shared) o (v, all) (inr m) = offered shared o all m

-- One station moves, the others stay.
pub station_at :
    (shared : List Offer) (before after : List Station) (x y : Station)
    → AllStations shared (before ++ (x ∷ after))
    → IsOurStation shared x × (IsOurStation shared y → AllStations shared (before ++ (y ∷ after)))
station_at shared [] after x y (h, hs) = (h, λ k. (k, hs))
station_at shared (z ∷ before) after x y (h, hs) =
    let (k, put) = station_at shared before after x y hs in (k, λ l. (h, put l))

-- What is on the air is a datagram of an offer.
pub on_air :
    (shared : List Offer) (bytes : Bytes) (stations : List Station)
    → AllStations shared stations
    → IsOnAir bytes stations
    → (x : Station) × OneOf x.offer shared × IsOffered x.host x.offer bytes
on_air shared bytes [] all m = absurd m
on_air shared bytes (x ∷ stations) (h, hs) (inl m) =
    (x, h.0, sent-IsOffered x.host x.offer bytes x.server.socket.sent h.1.keeps.sent m)
on_air shared bytes (x ∷ stations) (h, hs) (inr m) = on_air shared bytes stations hs m

module _ (inet : Inet) (shared : List Offer) (all : AllOffers shared) where
  pub Serves-IsOurStation :
      (x y : Station) → Serves x y → IsOurStation shared x → IsOurStation shared y
  Serves-IsOurStation x y (offers e s₁ s₂ more off sel same) (m, i) =
      let (name, v) = offered shared x.offer all m in
      subst (IsOurStation shared) (sym same)
        (m, offers-IsStation x.host x.offer v e x.server s₁ s₂ x.next i more off sel)
  Serves-IsOurStation x y (answers e s₁ over sel same) (m, i) =
      let (name, v) = offered shared x.offer all m in
      subst (IsOurStation shared) (sym same)
        (m, serves-IsStation x.host x.offer v e x.server s₁ x.next i sel)

  started-IsOurStation : (x : Station) → OneOf x.offer shared → IsStarted x → IsOurStation shared x
  started-IsOurStation x m i =
      let (name, v) = offered shared x.offer all m in
      let st =
        started-IsStation x.host i.inet i.hex_digest i.file x.offer.path i.group i.port x.offer.id
          i.unset i.opened (subst (λ z. IsOffer z name) i.serving v) in
      (
        m,
        subst (λ z. IsStation x.host z x.server x.next) (sym i.serving)
            (subst
              (λ s. IsStation x.host (offer i.hex_digest i.file x.offer.path x.offer.id) s x.next)
              (sym i.begun.0)
              (subst
                (λ n.
                  IsStation x.host (offer i.hex_digest i.file x.offer.path x.offer.id)
                    (started x.host i.opened (
                      BlockServer.construct x.host i.inet i.hex_digest (some i.file) x.offer.path
                        i.group i.port x.offer.id i.unset))
                    n)
                (sym i.begun.1) st)),
      )

  pub first-AllStations :
      (stations : List Station) → AllStarted shared stations → AllStations shared stations
  first-AllStations [] s = tt
  first-AllStations (x ∷ stations) (m, s, rest) =
      (started-IsOurStation x m s, first-AllStations stations rest)
