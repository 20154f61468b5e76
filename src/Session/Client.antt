-- ===== src/Session/Client.antt =====
-- Whatever the client hears of the server, in any order: its status follows the file, and the path
-- holds what it held or the whole file.
use multisync.Base.{
  ◌≡◌, sym, ap, subst, ◌∙◌, Bool, true, false, Option, none, some, Bytes, Result, ok, ◌>>=◌,
  ok-injective, ◌⊎◌, inl, inr,
}
use multisync.Platform.{Platform}
use multisync.Stream.{Disk, file_at}
use multisync.Message.{Message, for_input, get_type}
use multisync.Socket.{BlockSocket, SocketAddress, Inet, ReceiveReply, receive, get_address}
use multisync.BlockClient.{BlockClient, Event, find_handler, dispatch, process_message, select}
use multisync.BlockClient.Rounds.{select_keeps}
use multisync.Session.{Offer, IsOffer}
use multisync.Session.Receiving.{Datagram, bytes_of, IsOf}
use multisync.Session.Tracking.{Clean, Tracks}
use multisync.Session.Hearing.{Heard, processed}

-- The path holds what it held at first, or, where a status may have its goodbye, the whole file.
abbrev pub Published : Offer → (Bool → Type 0) → Option Bytes → Disk → Type 0
Published o P old disk =
    (file_at o.path disk ≡ old) ⊎ ((file_at o.path disk ≡ some o.file) × P true)

abbrev pub IsSafe : Platform → Offer → (Bool → Type 0) → Option Bytes → BlockClient → Type 0
IsSafe q o P old c = Tracks q o P c.sync_set × Published o P old c.disk

Heard-IsSafe :
    (q : Platform) (o : Offer) (P : Bool → Type 0) (old : Option Bytes) (d : Datagram)
    (c c' : BlockClient) (r : Result BlockClient)
    → IsSafe q o P old c
    → Heard q o P d c r
    → r ≡ ok c'
    → IsSafe q o P old c'
Heard-IsSafe q o P old d c c' r (t, pub') (s, c₁, e, end, disk, taken, known) e' =
    subst (IsSafe q o P old) (ok-injective (sym e ∙ e')) (elim end [
      | inl (w, same) ↦ (
        inr (s, w),
        elim pub' [
          | inl held ↦ inl (ap (file_at o.path) same ∙ disk ∙ held)
          | inr whole ↦ inr (ap (file_at o.path) same ∙ disk ∙ whole.0, whole.1)
        ],
      )
      | inr (gone, whole, goodbye) ↦ (inl gone, inr (whole, goodbye))
    ])

-- What a round may read: nothing, a datagram of the server, or one that the client has no handler for.
pub data Hears (p q : Platform) (o : Offer) (e : Event) (c : BlockClient) : Type 0 where
  nothing : e.readable ≡ false → Hears p q o e c
  server :
      (a : SocketAddress) (d : Datagram)
      → IsOf o d
      → e.received ≡ ReceiveReply.datagram a (bytes_of p o d)
      → Hears p q o e c
  foreign :
      (m : Message) (s : BlockSocket)
      → receive q e.received (for_input q 4096) c.socket ≡ ok (m, s)
      → find_handler (get_type q m) ≡ none
      → Hears p q o e c

pub foreign_same :
    (q : Platform) (inet : Inet) (e : Event) (m : Message) (s : BlockSocket) (c : BlockClient)
    → receive q e.received (for_input q 4096) c.socket ≡ ok (m, s)
    → find_handler (get_type q m) ≡ none
    → process_message q inet e c ≡ ok (record c { socket = s })
unfolding process_message dispatch
foreign_same q inet e m s c r none_there =
    ap
      (λ z. z >>= λ x.
        dispatch q (find_handler (get_type q x.0)) e.fresh x.0 (get_address q inet x.1)
          (record c { socket = x.1 }))
      r
    ∙ ap (λ f. dispatch q f e.fresh m (get_address q inet s) (record c { socket = s })) none_there

module _ (p q : Platform) (o : Offer) {name : Bytes} (v : IsOffer o name) (P : Bool → Type 0)
    (inet : Inet) (old : Option Bytes) where
  read-IsSafe :
      (e : Event) (c c' : BlockClient)
      → Clean o name P e.fresh
      → e.readable ≡ true
      → Hears p q o e c
      → IsSafe q o P old c
      → process_message q inet e c ≡ ok c'
      → IsSafe q o P old c'
  read-IsSafe e c c' clean r (nothing deaf) safe done = absurd (cc (r, deaf))
  read-IsSafe e c c' clean r (server a d h hears) safe done =
      Heard-IsSafe q o P old d c c' (process_message q inet e c) safe
        (processed p q o v P inet e a d c clean h hears safe.0) done
  read-IsSafe e c c' clean r (foreign m s got none_there) safe done =
      subst (IsSafe q o P old)
        (ok-injective (sym (foreign_same q inet e m s c got none_there) ∙ done)) safe

  same_place :
      (c c' : BlockClient)
      → c'.sync_set ≡ c.sync_set
      → c'.disk ≡ c.disk
      → IsSafe q o P old c
      → IsSafe q o P old c'
  same_place c c' set disk safe =
      (subst (Tracks q o P) (sym set) safe.0, subst (Published o P old) (sym disk) safe.1)

  -- One round of the client.
  pub select-IsSafe :
      (e : Event) (c c' : BlockClient)
      → Clean o name P e.fresh
      → Hears p q o e c
      → IsSafe q o P old c
      → select q inet e c ≡ ok c'
      → IsSafe q o P old c'
  select-IsSafe e c c' clean hears safe done =
      select_keeps q inet (IsSafe q o P old) same_place e c safe
        (λ r c₁ done₁. read-IsSafe e c c₁ clean r hears safe done₁) c' done
