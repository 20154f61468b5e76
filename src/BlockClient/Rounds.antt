-- ===== src/BlockClient/Rounds.antt =====
-- The rule for a round of the client: what `process_message` keeps, where the socket can be read,
-- `select` keeps, if it is a matter of the map and the disk alone.
use multisync.Base.{
  ◌≡◌, refl, sym, ap, subst, Bool, true, false, arith, ok, >>=-eq-ok, ok-injective, ◌⊎◌, inl, inr,
  if◌then◌else◌,
}
use multisync.Platform.{Platform}
use multisync.Socket.{Inet, Signed, Status, SendReply, select_status}
use multisync.Socket.Polling.{can_read, can_write}
use multisync.BlockServer.Rounds.{quiet_status}
use multisync.BlockClient.{BlockClient, Event, process_message, select, send_front, has_messages}

send_front_same :
    (q : Platform) (inet : Inet) (r : SendReply) (c c' : BlockClient)
    → send_front q inet r c ≡ ok c'
    → (c'.sync_set ≡ c.sync_set) × (c'.disk ≡ c.disk)
unfolding send_front
send_front_same q inet r c c' e = ground arith

sent_same :
    (q : Platform) (inet : Inet) (b : Bool) (r : SendReply) (c c' : BlockClient)
    → (if b then send_front q inet r c else ok c) ≡ ok c'
    → (c'.sync_set ≡ c.sync_set) × (c'.disk ≡ c.disk)
sent_same q inet true r c c' e = send_front_same q inet r c c' e
sent_same q inet false r c c' e =
    (ap (λ x. x.sync_set) (sym (ok-injective e)), ap (λ x. x.disk) (sym (ok-injective e)))

deaf_or_not :
    (polled writable readable : Bool) (n : Signed) (st : Status)
    → select_status polled n readable writable ≡ ok st
    → (readable ≡ true) ⊎ (can_read st ≡ false)
deaf_or_not polled writable true n st e = inl refl
deaf_or_not polled writable false n st e = inr (quiet_status polled writable n st e)

-- A property of the map and the disk.
abbrev pub IsLocal : (BlockClient → Type 0) → Type 0
IsLocal I = (c c' : BlockClient) → c'.sync_set ≡ c.sync_set → c'.disk ≡ c.disk → I c → I c'

module _ (q : Platform) (inet : Inet) (I : BlockClient → Type 0) (local : IsLocal I) (e : Event)
    (c : BlockClient) (i : I c)
    (reads : e.readable ≡ true
      → (c₁ : BlockClient) → process_message q inet e c ≡ ok c₁
      → I c₁) where
  read_or_not :
      (b : Bool) (c₁ : BlockClient)
      → (e.readable ≡ true) ⊎ (b ≡ false)
      → (if b then process_message q inet e c else ok c) ≡ ok c₁
      → I c₁
  read_or_not true c₁ (inl r) done = reads r c₁ done
  read_or_not true c₁ (inr n) done = cc n
  read_or_not false c₁ r done = subst I (ok-injective done) i

  pub select_keeps : (c' : BlockClient) → select q inet e c ≡ ok c' → I c'
  unfolding select
  select_keeps c' done =
      let (st, e₁, r₁) = >>=-eq-ok (select_status _ e.selected e.readable e.writable) _ done in
      let (c₁, e₂, r₂) =
        >>=-eq-ok (if can_read st then process_message q inet e c else ok c) _ r₁ in
      let (set, disk) = sent_same q inet (can_write st) e.sent c₁ c' r₂ in
      local c₁ c' set disk (
        read_or_not (can_read st) c₁
          (deaf_or_not (has_messages c.message_queue) e.writable e.readable e.selected st e₁) e₂)
