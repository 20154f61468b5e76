-- ===== src/Session/Crowd/Sites.antt =====
-- The sites of the network: a round of a client keeps it tame.
use multisync.Base.{
  Bool, ◌≡◌, refl, sym, ap, subst, ◌∙◌, true, List, [], ◌∷◌, ◌++◌, ok, ok-injective, inl, inr,
}
use multisync.Platform.{Platform}
use multisync.Stream.{Disk, file_at}
use multisync.FileInfo.{FileInfo}
use multisync.Message.{Message, for_input}
use multisync.Socket.{Inet, ReceiveReply, get_address}
use multisync.BlockClient.{BlockClient, process_message, select}
use multisync.BlockClient as Client
use multisync.BlockClient.Rounds.{select_keeps}
use multisync.Session.{Offer}
use multisync.Session.Receiving.{here, bytes_of}
use multisync.Session.Hearing.{process_dispatch, bytes_of-Fits}
use multisync.Session.Client.{foreign_same}
use multisync.Session.Traffic.{Carries}
use multisync.Session.Traffic.Known.{empty-Carries}
use multisync.Session.Crowd.{
  Station, Site, OneOf, IsApart, Reads, none_there, delivered, unknown, IsWhole,
}
use multisync.Session.Crowd.Listener.{IsTame, IsOurs, heard-IsTame}
use multisync.Session.Crowd.Stations.{AllOffers, AllStations, offered, on_air}

-- No client knows a file.
abbrev pub AllNew : List Site → Type 0
AllNew [] = Unit {0}
AllNew (x ∷ sites) = (x.client.sync_set ≡ []) × AllNew sites

-- Each client is where it was, and tame.
abbrev pub AllTame :
    List Offer → (Bool → Type 0) → (Platform → FileInfo → Offer) → List Site → List Site → Type 0
AllTame shared P what [] [] = Unit {0}
AllTame shared P what [] (y ∷ after) = ⊥
AllTame shared P what (x ∷ before) [] = ⊥
AllTame shared P what (x ∷ before) (y ∷ after) =
    ((y.host ≡ x.host) × IsTame shared P (what y.host) x.client.disk y.client)
    × AllTame shared P what before after

-- Each client has under each offered path what it had.
abbrev pub AllHeld : List Offer → List Site → List Site → Type 0
AllHeld shared [] [] = Unit {0}
AllHeld shared [] (y ∷ after) = ⊥
AllHeld shared (x ∷ before) [] = ⊥
AllHeld shared (x ∷ before) (y ∷ after) =
    ((o : Offer) → OneOf o shared → file_at o.path y.client.disk ≡ file_at o.path x.client.disk)
    × AllHeld shared before after

-- Where no goodbye can have been taken.
pub AllTame-AllHeld :
    (shared : List Offer) (P : Bool → Type 0) (what : Platform → FileInfo → Offer)
    (first last : List Site)
    → ¬ P true
    → AllTame shared P what first last
    → AllHeld shared first last
AllTame-AllHeld shared P what [] [] none_taken h = tt
AllTame-AllHeld shared P what [] (y ∷ after) none_taken h = absurd h
AllTame-AllHeld shared P what (x ∷ before) [] none_taken h = absurd h
AllTame-AllHeld shared P what (x ∷ before) (y ∷ after) none_taken ((host, h), hs) = (
  λ o m. elim (h.whole o m) [
    | inl held ↦ held
    | inr (bye, o', m', path, w) ↦ absurd (none_taken bye)
  ],
  AllTame-AllHeld shared P what before after none_taken hs,
)

pub site_at :
    (shared : List Offer) (P : Bool → Type 0) (what : Platform → FileInfo → Offer)
    (first before after : List Site) (x : Site) (c : BlockClient)
    → AllTame shared P what first (before ++ (x ∷ after))
    → (old : Disk) × IsTame shared P (what x.host) old x.client
      × (IsTame shared P (what x.host) old c
          → AllTame shared P what first (before ++ (record x { client = c } ∷ after)))
site_at shared P what [] [] after x c h = absurd h
site_at shared P what [] (z ∷ before) after x c h = absurd h
site_at shared P what (a ∷ first) [] after x c ((host, h), hs) =
    (a.client.disk, h, λ k. ((host, k), hs))
site_at shared P what (a ∷ first) (z ∷ before) after x c (h, hs) =
    let (old, k, put) = site_at shared P what first before after x c hs in (old, k, λ l. (h, put l))

module _ (inet : Inet) (shared : List Offer) (P : Bool → Type 0) (all : AllOffers shared) where
  local :
      (what : FileInfo → Offer) (old : Disk) (c c' : BlockClient)
      → c'.sync_set ≡ c.sync_set
      → c'.disk ≡ c.disk
      → IsTame shared P what old c
      → IsTame shared P what old c'
  local what old c c' set disk i = record {
    carries = subst (Carries what (IsOurs shared P what)) (sym set) i.carries;
    whole = λ o m. subst (IsWhole shared P o.path old) (sym disk) (i.whole o m);
  }

  module _ (what : FileInfo → Offer) (q : Platform)
      (told : (o : Offer) → OneOf o shared → what (here q o) ≡ o) (old : Disk) where
    Reads-IsTame :
        (stations : List Station) (e : Client.Event) (c c₁ : BlockClient)
        → AllStations shared stations
        → IsApart shared P e.fresh
        → Reads q stations e c
        → e.readable ≡ true
        → IsTame shared P what old c
        → process_message q inet e c ≡ ok c₁
        → IsTame shared P what old c₁
    Reads-IsTame stations e c c₁ ours apart (none_there deaf) readable i done =
        absurd (cc (readable, deaf))
    Reads-IsTame stations e c c₁ ours apart (delivered a bytes m r) readable i done =
        let (x, one, (d, h, same)) = on_air shared bytes stations ours m in
        let (name, v) = offered shared x.offer all one in
        let message : Message = record (for_input q 4096) { buffer = bytes_of x.host x.offer d } in
        let socket = record c.socket { from = a } in
        let c₀ : BlockClient = record c { socket = socket } in
        let (c₂, ends, tame) =
          heard-IsTame shared P what old q x.offer v (told x.offer one) one x.host e.fresh
            (get_address q inet socket) message d c₀ apart h refl
            (local what old c c₀ refl refl i) in
        subst (IsTame shared P what old)
          (ok-injective (
            sym (
              process_dispatch q inet a (bytes_of x.host x.offer d) e c
                (bytes_of-Fits x.host x.offer v d) (r ∙ ap (ReceiveReply.datagram a) same)
              ∙ ends)
            ∙ done))
          tame
    Reads-IsTame stations e c c₁ ours apart (unknown m s r h) readable i done =
        subst (IsTame shared P what old)
          (ok-injective (sym (foreign_same q inet e m s c r h) ∙ done))
          (local what old c (record c { socket = s }) refl refl i)

    pub select-IsTame :
        (stations : List Station) (e : Client.Event) (c c' : BlockClient)
        → AllStations shared stations
        → IsApart shared P e.fresh
        → Reads q stations e c
        → IsTame shared P what old c
        → select q inet e c ≡ ok c'
        → IsTame shared P what old c'
    select-IsTame stations e c c' ours apart r i done =
        select_keeps q inet (IsTame shared P what old) (local what old) e c i
          (λ readable c₁ done₁. Reads-IsTame stations e c c₁ ours apart r readable i done₁) c' done

pub first-AllTame :
    (shared : List Offer) (P : Bool → Type 0) (what : Platform → FileInfo → Offer)
    (sites : List Site)
    → AllNew sites
    → AllTame shared P what sites sites
first-AllTame shared P what [] new = tt
first-AllTame shared P what (x ∷ sites) (none_known, new) = (
  (
    refl,
    record {
      carries =
          (empty-Carries (what x.host) (IsOurs shared P (what x.host)) x.client.sync_set
            none_known).0;
      whole = λ o m. inl refl;
    },
  ),
  first-AllTame shared P what sites new,
)
