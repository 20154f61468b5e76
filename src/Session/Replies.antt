-- ===== src/Session/Replies.antt =====
-- What a client sends, whatever reaches it: its hello, and a goodbye of its own each time that a
-- server's goodbye names it.
pub mod Runs
use mathlib.Core.List.{append-nil, append_assoc}
use multisync.Base.{
  ℕ, zero, suc, ◌+◌, ◌≡◌, refl, sym, ap, subst, ◌∙◌, Bool, true, false, Option, none, some, List,
  [], ◌∷◌, ◌++◌, Bytes, replicate, replicate-append, arith, ok, ◌>>=◌, >>=-eq-ok, ok-injective, inl,
  inr, if◌then◌else◌, Bool-cases, Option-cases, ◌==◌,
}
use multisync.Platform.{Platform}
use multisync.OrderedMap.{find}
use multisync.FileInfo.{FileInfo}
use multisync.FileInfo
use multisync.FileInfo.Order
use multisync.BlockInfo
use multisync.BlockInfo.{BlockInfo, get_file_info, to_unsigned}
use multisync.Message.{
  Message, Array, array_elem, empty, type_cgoodbye, get_metadata, get_text, get_array,
}
use multisync.Socket.{Address}
use multisync.SyncStatus.{
  SyncStatus, Fresh, write_block, set_path, set_goodbye_received, transfer_complete,
}
use multisync.SyncStatus
use multisync.BlockClient.{
  BlockClient, Handler, finish, insert_status, get_sync_status, handle_info, handle_block,
  scan_goodbyes, answer_goodbye, handle_sgoodbye, dispatch,
}

-- What a handler does to the queue: it may add goodbyes to its end.
pub record Replies (q : Platform) (c c' : BlockClient) : Type 0 where
  pub id : c'.id ≡ c.id
  pub socket : c'.socket ≡ c.socket
  pub count : ℕ
  pub queue : c'.message_queue ≡ c.message_queue ++ replicate count (empty q c.id type_cgoodbye)

silent :
    (q : Platform) (c c' : BlockClient)
    → c'.id ≡ c.id
    → c'.socket ≡ c.socket
    → c'.message_queue ≡ c.message_queue
    → Replies q c c'
silent q c c' id socket queue = record {
  id = id;
  socket = socket;
  count = 0;
  queue = queue ∙ sym (append-nil c.message_queue);
}

finish-Replies :
    (q : Platform) (f : FileInfo) (s : SyncStatus) (c c' : BlockClient)
    → Replies q c c'
    → Replies q c (finish f s c')
unfolding finish
finish-Replies q f s c c' r = record {
  id = r.id;
  socket = r.socket;
  count = r.count;
  queue = r.queue;
}

insert_status-Replies :
    (q : Platform) (fresh : Fresh) (f : FileInfo) (a : Address) (c : BlockClient)
    (x : SyncStatus × BlockClient)
    → insert_status q fresh f a c ≡ ok x
    → Replies q c x.1
unfolding insert_status
insert_status-Replies q fresh f a c x e =
    let (y, e₁, e₂) = >>=-eq-ok (SyncStatus.construct q fresh f a c.disk) _ e in
    subst (λ z. Replies q c z.1) (ok-injective e₂) (silent q c _ refl refl refl)

status-Replies :
    (q : Platform) (fresh : Fresh) (f : FileInfo) (a : Address) (c : BlockClient)
    (x : SyncStatus × BlockClient)
    → get_sync_status q fresh f a c ≡ ok x
    → Replies q c x.1
unfolding get_sync_status
status-Replies q fresh f a c x e = elim (Option-cases (find Order.order f c.sync_set)) [
  | inl unknown ↦ insert_status-Replies q fresh f a c x (rw (unknown, get_sync_status) at e)
  | inr (s, known) ↦
      subst (λ z. Replies q c z.1) (ok-injective (rw (known, get_sync_status) at e))
        (silent q c c refl refl refl)
]

scan_queue :
    (q : Platform) (id : ℕ) (m : Message) (clients : Array) (n i : ℕ) (s : SyncStatus)
    (queue : List Message) (y : SyncStatus × List Message)
    → scan_goodbyes q id m clients n i (s, queue) ≡ ok y
    → (k : ℕ) × (y.1 ≡ queue ++ replicate k (empty q id type_cgoodbye))
unfolding scan_goodbyes
scan_queue q id m clients zero i s queue y e =
    (0, ap (λ z. z.1) (sym (ok-injective e)) ∙ sym (append-nil queue))
scan_queue q id m clients (suc n) i s queue y e =
    let bye = empty q id type_cgoodbye in
    let (client, e₁, e₂) = >>=-eq-ok (array_elem q m clients i) _ e in
    elim (Bool-cases (client == id)) [
      | inl hit ↦
          let (k, same) =
            scan_queue q id m clients n (i + 1) (set_goodbye_received s) (queue ++ (bye ∷ [])) y
              (rw hit at e₂) in
          (suc k, same ∙ append_assoc queue (bye ∷ []) (replicate k bye))
      | inr miss ↦ scan_queue q id m clients n (i + 1) s queue y (rw miss at e₂)
    ]

answer-Replies :
    (q : Platform) (done : Bool) (m : Message) (s : SyncStatus) (c : BlockClient)
    (x : SyncStatus × BlockClient)
    → answer_goodbye q done m s c ≡ ok x
    → Replies q c x.1
unfolding answer_goodbye
answer-Replies q false m s c x e =
    subst (λ z. Replies q c z.1) (ok-injective e) (silent q c c refl refl refl)
answer-Replies q true m s c x e =
    let (clients, e₁, r₁) = >>=-eq-ok (get_array q 4 m) _ e in
    let (y, e₂, r₂) =
      >>=-eq-ok (scan_goodbyes q c.id m clients clients.count 0 (s, c.message_queue)) _ r₁ in
    let (k, queue) = scan_queue q c.id m clients clients.count 0 s c.message_queue y e₂ in
    subst (λ z. Replies q c z.1) (ok-injective r₂)
      (record { id = refl; socket = refl; count = k; queue = queue })

Replies-trans : (q : Platform) (a b c : BlockClient) → Replies q a b → Replies q b c → Replies q a c
Replies-trans q a b c r t = record {
  id = t.id ∙ r.id;
  socket = t.socket ∙ r.socket;
  count = r.count + t.count;
  queue =
      t.queue
      ∙ ap (λ i. b.message_queue ++ replicate t.count (empty q i type_cgoodbye)) r.id
      ∙ ap (λ ms. ms ++ replicate t.count (empty q a.id type_cgoodbye)) r.queue
      ∙ append_assoc a.message_queue (replicate r.count (empty q a.id type_cgoodbye))
          (replicate t.count (empty q a.id type_cgoodbye))
      ∙ ap (λ ms. a.message_queue ++ ms)
          (replicate-append r.count t.count (empty q a.id type_cgoodbye));
}

module _ (q : Platform) (fresh : Fresh) (m : Message) (a : Address) (c c' : BlockClient) where
  handle_info-Replies : handle_info q fresh m a c ≡ ok c' → Replies q c c'
  unfolding handle_info
  handle_info-Replies e =
      let (f, e₁, r₁) = >>=-eq-ok (get_metadata q (FileInfo.pod q) m) _ e in
      let (x, e₂, r₂) = >>=-eq-ok (get_sync_status q fresh f a c) _ r₁ in
      let (text, e₃, r₃) = >>=-eq-ok (get_text q m) _ r₂ in
      subst (Replies q c) (ok-injective r₃)
        (finish-Replies q f (set_path text x.0) c x.1 (status-Replies q fresh f a c x e₂))

  handle_block-Replies : handle_block q fresh m a c ≡ ok c' → Replies q c c'
  unfolding handle_block
  handle_block-Replies e =
      let (i, e₁, r₁) = >>=-eq-ok (get_metadata q (BlockInfo.pod q) m) _ e in
      let f = get_file_info i in
      let (x, e₂, r₂) = >>=-eq-ok (get_sync_status q fresh f a c) _ r₁ in
      let (s, e₃, r₃) = >>=-eq-ok (write_block q (to_unsigned q i) m x.0) _ r₂ in
      subst (Replies q c) (ok-injective r₃)
        (finish-Replies q f s c x.1 (status-Replies q fresh f a c x e₂))

  handle_sgoodbye-Replies : handle_sgoodbye q fresh m a c ≡ ok c' → Replies q c c'
  unfolding handle_sgoodbye
  handle_sgoodbye-Replies e =
      let (f, e₁, r₁) = >>=-eq-ok (get_metadata q (FileInfo.pod q) m) _ e in
      let (x, e₂, r₂) = >>=-eq-ok (get_sync_status q fresh f a c) _ r₁ in
      let t = transfer_complete x.0 x.1.disk in
      let c₁ : BlockClient = record x.1 { disk = t.2 } in
      let (y, e₃, r₃) = >>=-eq-ok (answer_goodbye q t.0 m t.1 c₁) _ r₂ in
      let known = status-Replies q fresh f a c x e₂ in
      let moved : Replies q c c₁ = record {
        id = known.id;
        socket = known.socket;
        count = known.count;
        queue = known.queue;
      } in
      subst (Replies q c) (ok-injective r₃) (
        finish-Replies q f y.0 c y.1
          (Replies-trans q c c₁ y.1 moved (answer-Replies q t.0 m t.1 c₁ y e₃)))

  pub dispatch-Replies : (h : Option Handler) → dispatch q h fresh m a c ≡ ok c' → Replies q c c'
  unfolding dispatch
  dispatch-Replies none e = subst (Replies q c) (ok-injective e) (silent q c c refl refl refl)
  dispatch-Replies (some Handler.info) e = handle_info-Replies e
  dispatch-Replies (some Handler.block) e = handle_block-Replies e
  dispatch-Replies (some Handler.sgoodbye) e = handle_sgoodbye-Replies e
