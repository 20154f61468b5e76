-- ===== src/Session/Publishing.antt =====
-- How a handler of the client ends: the status goes on, or the whole file is under its path.
use multisync.Base.{
  ◌≡◌, refl, sym, ap, subst, ◌∙◌, Bool, true, false, some, [], ◌∷◌, Bytes, arith, ◌⊎◌, inl, inr,
  if◌then◌else◌, Bool-cases,
}
use native.Mathlib.Decide.{ℕ_discrete}
use multisync.Platform.{Platform}
use multisync.Stream.{Disk, file_at}
use multisync.SyncStatus.{SyncStatus, transfer_complete, sync_complete}
use multisync.SyncStatus.Progress.{all_set, transfer_complete-waits}
use multisync.SyncStatus.Delivery.{finished}
use multisync.BlockClient.{BlockClient, finish}
use multisync.Session.{Offer, IsOffer, count}
use multisync.Session.Packets.{count_bounds}
use multisync.Session.Receiving.{here, Follows}
use multisync.Session.Tracking.{Follower, assign_alone, erase_alone}

-- What `sync_complete` comes to, on a status that follows the file.
abbrev pub Completed : Offer → SyncStatus → Disk → Type 0
Completed o s disk =
    (sync_complete s disk ≡ (false, s, disk))
    ⊎ (((sync_complete s disk).0 ≡ true)
        × (file_at o.path (sync_complete s disk).2 ≡ some o.file)
        × (s.goodbye_received ≡ true))

-- A status with nothing missing and the path known publishes the file.
pub publishes :
    (o : Offer) {name : Bytes} (s : SyncStatus) (disk : Disk)
    → IsOffer o name
    → Follows o s
    → s.remaining_blocks ≡ 0
    → s.path ≡ o.path
    → ((transfer_complete s disk).0 ≡ true)
      × (file_at o.path (transfer_complete s disk).2 ≡ some o.file)
publishes o s disk v w r n =
    finished o.file o.path s (count o) disk w.holds w.valid w.sized (count_bounds o v).1 n v.path-ne
      w.apart (λ b h. all_set s.block_array b (sym w.valid.counted ∙ r) (omega (arith, w.sized)))

pub after_goodbye :
    (b : Bool) (s : SyncStatus) (disk : Disk)
    → s.goodbye_received ≡ b
    → sync_complete s disk ≡ (if b then transfer_complete s disk else (false, s, disk))
unfolding sync_complete
after_goodbye b s disk e = ap (λ g. if g then transfer_complete s disk else (false, s, disk)) e

pub completed :
    (o : Offer) {name : Bytes} (s : SyncStatus) (disk : Disk)
    → IsOffer o name
    → Follows o s
    → Completed o s disk
completed o s disk v w = elim (Bool-cases s.goodbye_received) [
  | inr no_goodbye ↦ inl (after_goodbye false s disk no_goodbye)
  | inl goodbye ↦ elim (ℕ_discrete s.remaining_blocks 0) [
    | no more ↦ inl (after_goodbye true s disk goodbye ∙ transfer_complete-waits s disk (inl more))
    | yes all ↦ elim w.named [
      | inl unnamed ↦
          inl (after_goodbye true s disk goodbye ∙ transfer_complete-waits s disk (inr unnamed))
      | inr named ↦
          let done = publishes o s disk v w all named in
          inr (rw (after_goodbye true s disk goodbye) (done.0, done.1, goodbye))
    ]
  ]
]

-- The end of a handler.
abbrev pub Ended : Platform → Offer → (Bool → Type 0) → SyncStatus → BlockClient → Type 0
Ended q o P s c =
    let c' = finish (here q o) s c in
    (Follower q o P c'.sync_set s × (c'.disk ≡ c.disk))
    ⊎ ((c'.sync_set ≡ []) × (file_at o.path c'.disk ≡ some o.file) × P true)

pub ended :
    (q : Platform) (o : Offer) {name : Bytes} (P : Bool → Type 0) (s old : SyncStatus)
    (c : BlockClient)
    → IsOffer o name
    → Follows o s
    → P s.goodbye_received
    → c.sync_set ≡ (here q o, old) ∷ []
    → Ended q o P s c
unfolding finish
ended q o P s old c v w b e = elim (completed o s c.disk v w) [
  | inl goes ↦ inl (
    record { alone = rw goes (rw e (assign_alone (here q o) old s)); follows = w; bit = b },
    rw goes refl,
  )
  | inr (done, file, goodbye) ↦ inr (
    rw (done, e, assign_alone (here q o) old (sync_complete s c.disk).1) (erase_alone (here q o) _),
    file,
    subst P goodbye b,
  )
]
