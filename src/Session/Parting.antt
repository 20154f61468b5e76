-- ===== src/Session/Parting.antt =====
-- The client at the goodbye of a server, for a file that it has whole.
use multisync.Base.{
  ℕ, zero, suc, ◌*◌, ◌^◌, ◌<◌, ◌≡◌, ◌≢◌, refl, sym, ap, ◌∙◌, Bool, true, false, none, some, List,
  [], ◌∷◌, ◌++◌, Bytes, length, replicate, arith, ok, ◌>>=◌, inl, inr, Bool-cases,
}
use multisync.Platform.{Platform}
use multisync.OrderedMap.{find}
use multisync.Stream.{Disk, file_at}
use multisync.FileInfo.{FileInfo}
use multisync.FileInfo
use multisync.FileInfo.Order
use multisync.Message.{Message, Array, get_metadata, get_array, type_sgoodbye, type_cgoodbye, empty}
use multisync.Message.Packet.{packet}
use multisync.Message.Wire.{get_metadata-packet}
use multisync.Socket.{Address}
use multisync.SyncStatus.{SyncStatus, Fresh, transfer_complete, sync_complete, set_goodbye_received}
use multisync.SyncStatus.Progress.{
  transfer_complete-moves, transfer_complete_first, transfer_complete_again, after_rename,
}
use multisync.BlockServer.Blocks.{file_of, file_of-IsValid}
use multisync.BlockClient.Finish.{finish_disk}
use multisync.BlockClient.{
  BlockClient, get_sync_status, finish, scan_goodbyes, answer_goodbye, handle_sgoodbye,
}
use multisync.BlockClient.Goodbye.{count, Elements, after_goodbyes, scan_goodbyes-count}
use multisync.BlockClient.Parting.{words, raw, AllWords, get_array_received}
use multisync.Session.Tracking.{get_known}
use multisync.Session.Publishing.{after_goodbye}

-- What the server's goodbye for a file looks like: the file, and the clients that it names.
abbrev pub sgoodbye_packet : Platform → ℕ → Bytes → ℕ → List ℕ → Bytes
sgoodbye_packet p sender digest blocks clients =
    packet p sender type_sgoodbye ((FileInfo.pod p).object (file_of p digest blocks))
      (words p clients)

length-raw : (q : Platform) (xs : List ℕ) → length (raw q xs) ≡ length xs
length-raw q [] = refl
length-raw q (x ∷ xs) = ap suc (length-raw q xs)

-- A status that has been moved and closed, with or without its goodbye.
done_again :
    (n : ℕ) (s : SyncStatus) (disk : Disk)
    → s.remaining_blocks ≡ 0
    → s.path ≢ []
    → s.output.is_open ≡ false
    → file_at s.temp disk ≡ none
    → (sync_complete (after_goodbyes n s) disk).2 ≡ disk
unfolding set_goodbye_received
done_again zero s disk r h o gone = elim (Bool-cases s.goodbye_received) [
  | inl goodbye ↦
      ap (λ (x : Bool × SyncStatus × Disk). x.2)
        (after_goodbye true s disk goodbye ∙ transfer_complete_again s disk r h o gone)
  | inr none_yet ↦ ap (λ (x : Bool × SyncStatus × Disk). x.2) (after_goodbye false s disk none_yet)
]
done_again (suc n) s disk r h o gone =
    let s' : SyncStatus = record s { goodbye_received = true } in
    ap (λ (x : Bool × SyncStatus × Disk). x.2)
      (after_goodbye true s' disk refl ∙ transfer_complete_again s' disk r h o gone)

file_metadata :
    (p q : Platform) (sender : ℕ) (digest : Bytes) (blocks : ℕ) (clients : List ℕ) (m : Message)
    → length digest ≡ 33
    → blocks < 2 ^ 32
    → m.buffer ≡ sgoodbye_packet p sender digest blocks clients
    → (get_metadata q (FileInfo.pod q) m ≡ ok (file_of q digest blocks))
      × (length ((FileInfo.pod p).object (file_of p digest blocks)) ≡ 40)
unfolding FileInfo.pod
file_metadata p q sender digest blocks clients m hd hb e =
    let size =
      FileInfo.length-object p (file_of p digest blocks) (file_of-IsValid p digest blocks hd) in
    (
      get_metadata-packet p q sender type_sgoodbye _ (words p clients) m e (FileInfo.pod q) size
            (omega (arith, size))
          ∙ ap ok (FileInfo.value_raw p q digest blocks (words p clients) hd hb),
      size,
    )

answered :
    (q : Platform) (m : Message) (s : SyncStatus) (c : BlockClient) (array : Array) (xs : List ℕ)
    → get_array q 4 m ≡ ok array
    → array.count ≡ length xs
    → Elements q m array 0 xs
    → answer_goodbye q true m s c
      ≡ ok (
        after_goodbyes (count c.id xs) s,
        record c {
          message_queue = c.message_queue ++ replicate (count c.id xs) (empty q c.id type_cgoodbye);
        },
      )
unfolding answer_goodbye
answered q m s c array xs e n els =
    ap
      (λ r. r >>= λ clients.
        scan_goodbyes q c.id m clients clients.count 0 (s, c.message_queue) >>= λ x.
        ok (x.0, record c { message_queue = x.1 }))
      e
    ∙ ap
        (λ k. scan_goodbyes q c.id m array k 0 (s, c.message_queue) >>= λ x.
          ok (x.0, record c { message_queue = x.1 }))
        n
    ∙ ap (λ r. r >>= λ x. ok (x.0, record c { message_queue = x.1 }))
        (scan_goodbyes-count q c.id m array xs 0 s c.message_queue els)

-- The handler up to its `if`, for a file that the client knows.
handled :
    (q : Platform) (fresh : Fresh) (m : Message) (a : Address) (c : BlockClient) (f : FileInfo)
    (s : SyncStatus) (moved : Bool × SyncStatus × Disk)
    → get_metadata q (FileInfo.pod q) m ≡ ok f
    → find Order.order f c.sync_set ≡ some s
    → transfer_complete s c.disk ≡ moved
    → handle_sgoodbye q fresh m a c ≡ (
        answer_goodbye q moved.0 m moved.1 (record c { disk = moved.2 }) >>= λ x.
        ok (finish f x.0 x.1))
unfolding handle_sgoodbye
handled q fresh m a c f s moved told known done =
    ap
      (λ r. r >>= λ f'. get_sync_status q fresh f' a c >>= λ y.
        (let (b, s', disk') = transfer_complete y.0 y.1.disk in
          answer_goodbye q b m s' (record y.1 { disk = disk' }) >>= λ x. ok (finish f' x.0 x.1)))
      told
    ∙ ap
        (λ r. r >>= λ y.
          (let (b, s', disk') = transfer_complete y.0 y.1.disk in
            answer_goodbye q b m s' (record y.1 { disk = disk' }) >>= λ x. ok (finish f x.0 x.1)))
        (get_known q fresh f a c s known)
    ∙ ap
        (λ (t : Bool × SyncStatus × Disk).
          answer_goodbye q t.0 m t.1 (record c { disk = t.2 }) >>= λ x. ok (finish f x.0 x.1))
        done

-- The goodbye of a server reaches a client that knows the file, has all of its blocks and its path,
-- and has not moved it yet: `handle_sgoodbye` returns, and all that was written stands under the
-- path. One goodbye of the client's own is put into its queue for each element that, as the number
-- lies in memory in network byte order, is the client's id.
pub handle_sgoodbye_publishes :
    (p q : Platform) (sender blocks : ℕ) (digest : Bytes) (clients : List ℕ) (m : Message)
    (fresh : Fresh) (a : Address) (c : BlockClient) (s : SyncStatus)
    → length digest ≡ 33
    → blocks < 2 ^ 32
    → 4 * length clients < 2 ^ 32
    → AllWords clients
    → m.buffer ≡ sgoodbye_packet p sender digest blocks clients
    → find Order.order (file_of q digest blocks) c.sync_set ≡ some s
    → s.remaining_blocks ≡ 0
    → s.path ≢ []
    → s.output.is_open ≡ true
    → s.temp ≢ s.path
    → (c' : BlockClient) × (handle_sgoodbye q fresh m a c ≡ ok c')
      × (file_at s.path c'.disk ≡ some s.output.written)
      × (c'.message_queue
          ≡ c.message_queue ++ replicate (count c.id (raw q clients)) (empty q c.id type_cgoodbye))
handle_sgoodbye_publishes p q sender blocks digest clients m fresh a c s hd hb hc words_ok e known r
      h o ne =
    let f = file_of q digest blocks in
    let (told, size) = file_metadata p q sender digest blocks clients m hd hb e in
    let (array, got, number, elements) =
      get_array_received p q sender type_sgoodbye _ clients m e (omega (arith, size)) hc words_ok in
    let moved = transfer_complete-moves s c.disk r h o ne in
    let first = transfer_complete_first s c.disk r h o in
    let s₁ : SyncStatus = record s { output = record s.output { is_open = false } } in
    let c₁ : BlockClient = record c { disk = after_rename s c.disk } in
    let n = count c.id (raw q clients) in
    let s₂ = after_goodbyes n s₁ in
    let c₂ : BlockClient = record c₁ {
      message_queue = c.message_queue ++ replicate n (empty q c.id type_cgoodbye);
    } in
    let gone : file_at s.temp (after_rename s c.disk) ≡ none =
      ap (λ (x : Bool × SyncStatus × Disk). file_at s.temp x.2) (sym first) ∙ moved.2 in
    let there : file_at s.path (after_rename s c.disk) ≡ some s.output.written =
      ap (λ (x : Bool × SyncStatus × Disk). file_at s.path x.2) (sym first) ∙ moved.1 in
    (
      finish f s₂ c₂,
      handled q fresh m a c f s (true, s₁, after_rename s c.disk) told known first
          ∙ ap (λ r. r >>= λ x. ok (finish f x.0 x.1))
              (answered q m s₁ c₁ array (raw q clients) got (number ∙ sym (length-raw q clients))
                elements),
      ap (file_at s.path)
            ((finish_disk f s₂ c₂).0 ∙ done_again n s₁ (after_rename s c.disk) r h refl gone)
          ∙ there,
      (finish_disk f s₂ c₂).1,
    )
