-- ===== src/BlockClient/Invariant.antt =====
-- What every run of the client keeps, whatever datagrams reach it: its map is in its order, and each
-- status counts its missing blocks.
use multisync.Base.{
  ℕ, suc, zero, ◌+◌, ◌==◌, ◌^◌, ◌<◌, ◌≡◌, refl, sym, ap, subst, ◌∙◌, Bool, true, false, Option,
  none, some, List, Bytes, length, arith, ok, >>=-eq-ok, ok-injective, inl, inr, Bool-cases,
  Option-cases,
}
use multisync.Platform.{Platform}
use multisync.OrderedMap.{find, assign, IsSorted}
use multisync.OrderedMap.Laws.{insert-IsSorted}
use multisync.OrderedMap.Values.{
  AllValues, find-AllValues, insert-AllValues, assign-AllValues, erase-AllValues,
}
use multisync.Stream.{Disk}
use multisync.FileInfo.{FileInfo, get_block_count, get_digest}
use multisync.FileInfo
use multisync.FileInfo.Order
use multisync.BlockInfo.{to_unsigned, get_file_info}
use multisync.BlockInfo
use multisync.Message.{Message, get_metadata, get_text, get_array, array_elem, Array}
use multisync.Socket.{Address}
use multisync.SyncStatus.{
  SyncStatus, Fresh, construct_with, c_string, write_block, set_path, set_goodbye_received,
  transfer_complete, sync_complete,
}
use multisync.SyncStatus
use multisync.SyncStatus.Progress.{
  IsValid, count_missing, construct_with-IsValid, write_block-IsValid,
}
use multisync.BlockClient.Finish.{finish-IsSorted}
use multisync.BlockClient.{
  BlockClient, Handler, finish, insert_status, get_sync_status, handle_info, handle_block,
  handle_sgoodbye, scan_goodbyes, answer_goodbye, dispatch,
}

pub record IsInvariant (c : BlockClient) : Type 0 where
  pub sorted : IsSorted Order.order c.sync_set
  pub valid : AllValues IsValid c.sync_set

kept :
    (s s' : SyncStatus)
    → s'.remaining_blocks ≡ s.remaining_blocks
    → s'.block_array ≡ s.block_array
    → IsValid s
    → IsValid s'
kept s s' r b v = record {
  counted = r ∙ v.counted ∙ sym (ap count_missing b);
  block_count-lt = subst (λ z. length z < 2 ^ 32) (sym b) v.block_count-lt;
}

set_path-IsValid : (path : Bytes) (s : SyncStatus) → IsValid s → IsValid (set_path path s)
unfolding set_path
set_path-IsValid path s v = kept s (record s { path = path }) refl refl v

set_goodbye-IsValid : (s : SyncStatus) → IsValid s → IsValid (set_goodbye_received s)
unfolding set_goodbye_received
set_goodbye-IsValid s v = kept s (record s { goodbye_received = true }) refl refl v

transfer_same :
    (s : SyncStatus) (disk : Disk)
    → ((transfer_complete s disk).1.remaining_blocks ≡ s.remaining_blocks)
      × ((transfer_complete s disk).1.block_array ≡ s.block_array)
unfolding transfer_complete
transfer_same s disk = ground arith

transfer-IsValid : (s : SyncStatus) (disk : Disk) → IsValid s → IsValid (transfer_complete s disk).1
transfer-IsValid s disk v =
    kept s (transfer_complete s disk).1 (transfer_same s disk).0 (transfer_same s disk).1 v

complete_same :
    (s : SyncStatus) (disk : Disk)
    → ((sync_complete s disk).1.remaining_blocks ≡ s.remaining_blocks)
      × ((sync_complete s disk).1.block_array ≡ s.block_array)
unfolding sync_complete
complete_same s disk = ground (arith, transfer_same s disk)

complete-IsValid : (s : SyncStatus) (disk : Disk) → IsValid s → IsValid (sync_complete s disk).1
complete-IsValid s disk v =
    kept s (sync_complete s disk).1 (complete_same s disk).0 (complete_same s disk).1 v

finish-IsInvariant :
    (f : FileInfo) (s : SyncStatus) (c : BlockClient)
    → IsInvariant c
    → IsValid s
    → IsInvariant (finish f s c)
unfolding finish
finish-IsInvariant f s c i v =
    let s' = (sync_complete s c.disk).1 in
    let m = assign Order.order f s' c.sync_set in
    let sorted = finish-IsSorted f s c i.sorted in
    let valid =
      assign-AllValues Order.order IsValid f s' c.sync_set (complete-IsValid s c.disk v) i.valid in
    elim (Bool-cases (sync_complete s c.disk).0) [
      | inl done ↦ record {
        sorted = sorted;
        valid = rw done (erase-AllValues Order.order IsValid f m valid);
      }
      | inr more ↦ record { sorted = sorted; valid = rw more valid }
    ]

-- A status, and the client that holds it.
record Holder (x : SyncStatus × BlockClient) : Type 0 where
  status : IsValid x.0
  client : IsInvariant x.1

construct-IsValid :
    (q : Platform) (fresh : Fresh) (f : FileInfo) (a : Address) (disk : Disk)
    (x : SyncStatus × Disk)
    → SyncStatus.construct q fresh f a disk ≡ ok x
    → IsValid x.0
unfolding SyncStatus.construct get_block_count
construct-IsValid q fresh f a disk x e = elim (Option-cases (c_string (get_digest f))) [
  | inl unended ↦ absurd (cc (rw (unended, SyncStatus.construct) at e))
  | inr (name, named) ↦
      subst (λ (z : SyncStatus × Disk). IsValid z.0)
        (ok-injective (rw (named, SyncStatus.construct) at e))
        (construct_with-IsValid q fresh f a name disk (q.ntohl-lt f.num_blocks))
]

insert-Holder :
    (q : Platform) (fresh : Fresh) (f : FileInfo) (a : Address) (c : BlockClient)
    (x : SyncStatus × BlockClient)
    → IsInvariant c
    → insert_status q fresh f a c ≡ ok x
    → Holder x
unfolding insert_status
insert-Holder q fresh f a c x i e =
    let (made, e₁, e₂) = >>=-eq-ok (SyncStatus.construct q fresh f a c.disk) _ e in
    let valid = construct-IsValid q fresh f a c.disk made e₁ in
    subst Holder (ok-injective e₂) (record {
      status = valid;
      client = record {
        sorted = insert-IsSorted Order.order f made.0 c.sync_set i.sorted;
        valid = insert-AllValues Order.order IsValid f made.0 c.sync_set valid i.valid;
      };
    })

get-Holder :
    (q : Platform) (fresh : Fresh) (f : FileInfo) (a : Address) (c : BlockClient)
    (x : SyncStatus × BlockClient)
    → IsInvariant c
    → get_sync_status q fresh f a c ≡ ok x
    → Holder x
unfolding get_sync_status
get-Holder q fresh f a c x i e = elim (Option-cases (find Order.order f c.sync_set)) [
  | inl unknown ↦ insert-Holder q fresh f a c x i (rw (unknown, get_sync_status) at e)
  | inr (s, known) ↦ subst Holder (ok-injective (rw (known, get_sync_status) at e)) (record {
    status = find-AllValues Order.order IsValid f s c.sync_set i.valid known;
    client = i;
  })
]

module _ (q : Platform) (fresh : Fresh) (m : Message) (a : Address) (c c' : BlockClient)
    (i : IsInvariant c) where
  handle_info-IsInvariant : handle_info q fresh m a c ≡ ok c' → IsInvariant c'
  unfolding handle_info
  handle_info-IsInvariant e =
      let (f, e₁, r₁) = >>=-eq-ok (get_metadata q (FileInfo.pod q) m) _ e in
      let (x, e₂, r₂) = >>=-eq-ok (get_sync_status q fresh f a c) _ r₁ in
      let (text, e₃, r₃) = >>=-eq-ok (get_text q m) _ r₂ in
      let h = get-Holder q fresh f a c x i e₂ in
      subst IsInvariant (ok-injective r₃)
        (finish-IsInvariant f (set_path text x.0) x.1 h.client (set_path-IsValid text x.0 h.status))

  handle_block-IsInvariant : handle_block q fresh m a c ≡ ok c' → IsInvariant c'
  unfolding handle_block
  handle_block-IsInvariant e =
      let (b, e₁, r₁) = >>=-eq-ok (get_metadata q (BlockInfo.pod q) m) _ e in
      let f = get_file_info b in
      let (x, e₂, r₂) = >>=-eq-ok (get_sync_status q fresh f a c) _ r₁ in
      let (s', e₃, r₃) = >>=-eq-ok (write_block q (to_unsigned q b) m x.0) _ r₂ in
      let h = get-Holder q fresh f a c x i e₂ in
      subst IsInvariant (ok-injective r₃) (
        finish-IsInvariant f s' x.1 h.client
          (write_block-IsValid q (to_unsigned q b) m x.0 s' h.status e₃).0)

scan-IsValid :
    (q : Platform) (id : ℕ) (m : Message) (clients : Array) (n i : ℕ) (s : SyncStatus)
    (queue : List Message) (x : SyncStatus × List Message)
    → IsValid s
    → scan_goodbyes q id m clients n i (s, queue) ≡ ok x
    → IsValid x.0
unfolding scan_goodbyes
scan-IsValid q id m clients zero i s queue x v e =
    subst (λ (z : SyncStatus × List Message). IsValid z.0) (ok-injective e) v
scan-IsValid q id m clients (suc n) i s queue x v e =
    let (client, e₁, r₁) = >>=-eq-ok (array_elem q m clients i) _ e in
    elim (Bool-cases (client == id)) [
      | inl hit ↦
          scan-IsValid q id m clients n (i + 1) (set_goodbye_received s) _ x
            (set_goodbye-IsValid s v) (rw hit at r₁)
      | inr miss ↦ scan-IsValid q id m clients n (i + 1) s queue x v (rw miss at r₁)
    ]

answer-Holder :
    (q : Platform) (done : Bool) (m : Message) (s : SyncStatus) (c : BlockClient)
    (x : SyncStatus × BlockClient)
    → IsValid s
    → IsInvariant c
    → answer_goodbye q done m s c ≡ ok x
    → Holder x
unfolding answer_goodbye
answer-Holder q false m s c x v i e =
    subst Holder (ok-injective e) (record { status = v; client = i })
answer-Holder q true m s c x v i e =
    let (clients, e₁, r₁) = >>=-eq-ok (get_array q 4 m) _ e in
    let (y, e₂, r₂) =
      >>=-eq-ok (scan_goodbyes q c.id m clients clients.count 0 (s, c.message_queue)) _ r₁ in
    subst Holder (ok-injective r₂) (record {
      status = scan-IsValid q c.id m clients clients.count 0 s c.message_queue y v e₂;
      client = record { sorted = i.sorted; valid = i.valid };
    })

module _ (q : Platform) (fresh : Fresh) (m : Message) (a : Address) (c c' : BlockClient)
    (i : IsInvariant c) where
  handle_sgoodbye-IsInvariant : handle_sgoodbye q fresh m a c ≡ ok c' → IsInvariant c'
  unfolding handle_sgoodbye
  handle_sgoodbye-IsInvariant e =
      let (f, e₁, r₁) = >>=-eq-ok (get_metadata q (FileInfo.pod q) m) _ e in
      let (x, e₂, r₂) = >>=-eq-ok (get_sync_status q fresh f a c) _ r₁ in
      let h = get-Holder q fresh f a c x i e₂ in
      let t = transfer_complete x.0 x.1.disk in
      let (y, e₃, r₃) = >>=-eq-ok (answer_goodbye q t.0 m t.1 (record x.1 { disk = t.2 })) _ r₂ in
      let k =
        answer-Holder q t.0 m t.1 (record x.1 { disk = t.2 }) y
          (transfer-IsValid x.0 x.1.disk h.status)
          (record { sorted = h.client.sorted; valid = h.client.valid }) e₃ in
      subst IsInvariant (ok-injective r₃) (finish-IsInvariant f y.0 y.1 k.client k.status)

  pub dispatch-IsInvariant :
      (h : Option Handler) → dispatch q h fresh m a c ≡ ok c' → IsInvariant c'
  unfolding dispatch
  dispatch-IsInvariant none e = subst IsInvariant (ok-injective e) i
  dispatch-IsInvariant (some Handler.info) e = handle_info-IsInvariant q fresh m a c c' i e
  dispatch-IsInvariant (some Handler.block) e = handle_block-IsInvariant q fresh m a c c' i e
  dispatch-IsInvariant (some Handler.sgoodbye) e = handle_sgoodbye-IsInvariant e
