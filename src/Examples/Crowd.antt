-- ===== src/Examples/Crowd.antt =====
-- Two servers and two clients on one network: a server sends, and a client hears it.
use multisync.Base.{◌≡◌, Bool, false, inl, inr, refl, sym, ap, ◌∙◌, some, List, [], ◌∷◌, arith}
use multisync.Platform.{Platform}
use multisync.Platform.Hosts.{x86, powerpc}
use multisync.BlockInfo.{increment}
use multisync.BlockInfo
use multisync.BlockServer.{BlockServer}
use multisync.BlockServer
use multisync.Session.{Offer, info_packet}
use multisync.Session.Serving.{clear_round}
use multisync.Session.Starting.{started}
use multisync.Session.Completion.{hear_round}
use multisync.Session.Receiving.{here}
use multisync.Session.Crowd.{Station, Site, Network, OneOf, IsApart, Reads, Serves, Step, Reach}
use multisync.Session.Crowd.Stations.{AllOffers, AllStarted}
use multisync.Session.Crowd.Sites.{AllTame, AllHeld}
use multisync.Session.Crowd.Safety.{every_path_whole, every_path_waits}
use multisync.Examples.{file, name, peer, printed, first_byte}
use multisync.Examples.Network.{
  hex, shared, digest_name, shared-IsOffer, opened, sender, fresh, receiver,
}
use multisync.Examples.Steps.{
  begun, first, first_packet, offered, announced, serving_first, offers_first, sends_first, heard,
}
use multisync.Examples.Traffic.{other, other_name, other-IsOffer, what}

abbrev offers : List Offer
offers = shared ∷ (other ∷ [])

abbrev other_server : BlockServer
other_server =
    BlockServer.construct powerpc printed (λ bytes. other.digest) (some other.file) other.path name
      9000 4 peer

abbrev other_station : Station
other_station = record {
  host = powerpc;
  offer = other;
  server = started powerpc opened other_server;
  next = BlockInfo.construct powerpc other_server.file_info 0;
}

abbrev station : Station
station = record {
  host = x86;
  offer = shared;
  server = begun;
  next = BlockInfo.construct x86 sender.file_info 0;
}

-- The one that has sent its announcement.
abbrev station_announced : Station
station_announced = record {
  host = x86;
  offer = shared;
  server = announced;
  next = increment x86 (BlockInfo.construct x86 sender.file_info 0);
}

abbrev quiet : Site
quiet = record { host = x86; client = receiver }

abbrev network : Network
network = record {
  stations = other_station ∷ (station ∷ []);
  sites = quiet ∷ (record { host = powerpc; client = receiver } ∷ []);
}

abbrev told : Network
told = record {
  stations = other_station ∷ (station_announced ∷ []);
  sites = quiet ∷ (record { host = powerpc; client = heard.0 } ∷ []);
}

fresh-IsApart : (P : Bool → Type 0) → P false → IsApart offers P fresh
fresh-IsApart P h = record {
  opens = refl;
  apart = λ name'. (λ e. omega (arith, ap first_byte e), (λ e. omega (arith, ap first_byte e), tt));
  bit = h;
}

reached : (P : Bool → Type 0) → P false → Reach printed offers P network told
reached P h =
    Reach.then
      (Reach.then Reach.here (
        Step.serves (other_station ∷ []) [] station station_announced refl
          (Serves.offers (clear_round first.buffer) offered announced serving_first offers_first
            sends_first refl)
          refl))
      (Step.listens (quiet ∷ []) [] (record { host = powerpc; client = receiver })
        (hear_round peer fresh (info_packet x86 shared)) heard.0 refl (fresh-IsApart P h)
        (Reads.delivered peer (info_packet x86 shared) (inr (inl (inl (sym first_packet)))) refl)
        heard.2 refl)

offers-AllOffers : AllOffers offers
offers-AllOffers = ((digest_name, shared-IsOffer), ((other_name, other-IsOffer), tt))

told_apart : (q : Platform) (o : Offer) → OneOf o offers → what (here q o) ≡ o
told_apart q o (inl same) = ap (λ z. what (here q z)) same ∙ sym same
told_apart q o (inr (inl same)) = ap (λ z. what (here q z)) same ∙ sym same
told_apart q o (inr (inr none)) = absurd none

network-AllStarted : AllStarted offers network.stations
network-AllStarted = (
  inr (inl refl),
  record {
    inet = printed;
    hex_digest = λ bytes. other.digest;
    file = other.file;
    group = name;
    port = 9000;
    unset = peer;
    opened = opened;
    serving = refl;
    begun = (refl, refl);
  },
  (
    inl refl,
    record {
      inet = printed;
      hex_digest = hex;
      file = file;
      group = name;
      port = 9000;
      unset = peer;
      opened = opened;
      serving = refl;
      begun = (refl, refl);
    },
    tt,
  ),
)

every_path_whole_example : AllTame offers (λ b. Unit {0}) (λ q. what) network.sites told.sites
every_path_whole_example =
    every_path_whole printed offers (λ q. what) network told offers-AllOffers told_apart
      network-AllStarted (refl, (refl, tt)) (reached (λ b. Unit {0}) tt)

every_path_waits_example : AllHeld offers network.sites told.sites
every_path_waits_example =
    every_path_waits printed offers (λ q. what) network told offers-AllOffers told_apart
      network-AllStarted (refl, (refl, tt)) (reached (λ b. b ≡ false) refl)
