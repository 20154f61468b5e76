-- ===== src/Session/Completion.antt =====
-- A client that hears each datagram of the offer at least once has the whole file.
use multisync.Base.{
  ◌≡◌, refl, sym, ap, subst, ◌∙◌, Bool, true, false, List, [], ◌∷◌, Bytes, Result, ok, ◌>>=◌, ◌⊎◌,
  inl, inr,
}
use multisync.Platform.{Platform}
use multisync.Stream.{file_at}
use multisync.Socket.{
  SocketAddress, Inet, ReceiveReply, SendReply, positive, select_status, Status, get_address,
}
use multisync.SyncStatus.{SyncStatus, Fresh}
use multisync.BlockClient.{
  BlockClient, Event, finish, find_handler, dispatch, process_message, select, run, has_messages,
}
use multisync.Session.{Offer, IsOffer}
use multisync.Session.Receiving.{Datagram, bytes_of, IsOf, here, Knows}
use multisync.Session.Tracking.{Clean, Follower, Tracks, KnownBy}
use multisync.Session.Hearing.{processed, process_dispatch}
use multisync.Session.Packets.{Fits}
use multisync.Message.{Message, for_input, get_type}

-- A round in which the client reads one packet, and cannot write.
abbrev pub hear_round : SocketAddress → Fresh → Bytes → Event
hear_round a fresh bytes = record {
  selected = positive 1;
  readable = true;
  writable = false;
  received = ReceiveReply.datagram a bytes;
  sent = SendReply.send_failed;
  fresh = fresh;
}

-- A datagram with what a status would be made of in its round.
abbrev pub hear_rounds : Platform → Offer → SocketAddress → List (Datagram × Fresh) → List Event
hear_rounds p o a [] = []
hear_rounds p o a ((d, fresh) ∷ ds) = hear_round a fresh (bytes_of p o d) ∷ hear_rounds p o a ds

abbrev pub In : Datagram → List (Datagram × Fresh) → Type 0
In d [] = ⊥
In d ((d', fresh) ∷ ds) = (d ≡ d') ⊎ In d ds

-- The bit that is never initialised is false.
abbrev pub Unset : Bool → Type 0
Unset b = b ≡ false

abbrev pub AllClean : Offer → Bytes → List (Datagram × Fresh) → Type 0
AllClean o name [] = Unit {0}
AllClean o name ((d, fresh) ∷ ds) = IsOf o d × Clean o name Unset fresh × AllClean o name ds

read_only : (polled : Bool) → select_status polled (positive 1) true false ≡ ok Status.read
unfolding select_status
read_only true = refl
read_only false = refl

pub select_hears :
    (q : Platform) (inet : Inet) (a : SocketAddress) (fresh : Fresh) (bytes : Bytes)
    (c : BlockClient)
    → select q inet (hear_round a fresh bytes) c
      ≡ (process_message q inet (hear_round a fresh bytes) c >>= λ c'. ok c')
unfolding select
select_hears q inet a fresh bytes c = rw (read_only (has_messages c.message_queue)) refl

-- A round in which the client receives a packet that fits.
pub select-dispatch :
    (q : Platform) (inet : Inet) (a : SocketAddress) (fresh : Fresh) (bytes : Bytes)
    (c : BlockClient)
    → Fits bytes
    → let m : Message = record (for_input q 4096) { buffer = bytes } in
      let socket = record c.socket { from = a } in
      select q inet (hear_round a fresh bytes) c ≡ (
        dispatch q
          (find_handler (get_type q m))
          fresh
          m
          (get_address q inet socket)
          (record c { socket = socket })
        >>= λ z. ok z)
select-dispatch q inet a fresh bytes c f =
    select_hears q inet a fresh bytes c
    ∙ ap (λ r. r >>= λ z. ok z)
        (process_dispatch q inet a bytes (hear_round a fresh bytes) c f refl)

module _ (p q : Platform) (inet : Inet) (o : Offer) {name : Bytes} (v : IsOffer o name)
    (a : SocketAddress) where
  -- One round, with nothing published.
  abbrev pub Took : Datagram → BlockClient → Result BlockClient → Type 0
  Took d c result =
      (c' : BlockClient) × (s : SyncStatus) × (result ≡ ok c')
      × Follower q o Unset c'.sync_set s
      × (file_at o.path c'.disk ≡ file_at o.path c.disk)
      × Knows o d s
      × ((d' : Datagram) → KnownBy q o d' c.sync_set → Knows o d' s)

  pub took :
      (d : Datagram) (fresh : Fresh) (c : BlockClient)
      → Clean o name Unset fresh
      → IsOf o d
      → Tracks q o Unset c.sync_set
      → Took d c (select q inet (hear_round a fresh (bytes_of p o d)) c)
  took d fresh c clean h t =
      let e = hear_round a fresh (bytes_of p o d) in
      let (s, c', r, end, disk, taken, known) =
        processed p q o v Unset inet e a d c clean h refl t in
      elim end [
        | inl (w, same) ↦ (
          finish (here q o) s c',
          s,
          select_hears q inet a fresh (bytes_of p o d) c ∙ ap (λ z. z >>= λ x. ok x) r,
          w,
          ap (file_at o.path) same ∙ disk,
          taken,
          known,
        )
        | inr (gone, whole, goodbye) ↦ absurd (cc goodbye)
      ]

  -- What the client knows after all of the rounds.
  abbrev Ran : List (Datagram × Fresh) → BlockClient → Type 0
  Ran ds c =
      (c' : BlockClient) × (run q inet (hear_rounds p o a ds) c ≡ ok c')
      × Tracks q o Unset c'.sync_set
      × (file_at o.path c'.disk ≡ file_at o.path c.disk)
      × ((d : Datagram) → In d ds ⊎ KnownBy q o d c.sync_set → KnownBy q o d c'.sync_set)

  pub ran :
      (ds : List (Datagram × Fresh)) (c : BlockClient)
      → AllClean o name ds
      → Tracks q o Unset c.sync_set
      → Ran ds c
  unfolding run
  ran [] c clean t = (c, refl, t, refl, λ d k. elim k [ inl n ↦ absurd n | inr known ↦ known ])
  ran ((d, fresh) ∷ ds) c clean t =
      let (h, cl, rest) = clean in
      let (c₁, s, r, w, disk, taken, known) = took d fresh c cl h t in
      let (c₂, r₂, t₂, disk₂, known₂) = ran ds c₁ rest (inr (s, w)) in
      (
        c₂,
        ap (λ z. z >>= λ x. run q inet (hear_rounds p o a ds) x) r ∙ r₂,
        t₂,
        disk₂ ∙ disk,
        λ d' k. elim k [
          | inl (inl same) ↦ known₂ d' (inr (s, w.alone, subst (λ z. Knows o z s) (sym same) taken))
          | inl (inr later) ↦ known₂ d' (inl later)
          | inr before ↦ known₂ d' (inr (s, w.alone, known d' before))
        ],
      )
