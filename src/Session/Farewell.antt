-- ===== src/Session/Farewell.antt =====
-- A client that hears a file and then the goodbye of its server.
use multisync.Base.{
  ℕ, ◌≤◌, ◌<◌, ◌≡◌, ◌≢◌, refl, sym, ap, ◌∙◌, some, List, [], ◌∷◌, ◌++◌, Bytes, length, arith, ok,
  ◌>>=◌, >>=-eq-ok, ok-injective,
}
use multisync.Platform.{Platform}
use multisync.OrderedMap.{find}
use multisync.Stream.{file_at}
use multisync.FileInfo.Order
use multisync.Message.{Message, for_input, get_type, type_sgoodbye}
use multisync.Message.Wire.{get_type-packet}
use multisync.Socket.{SocketAddress, Address, Inet, get_address}
use multisync.SyncStatus.{SyncStatus, Fresh, transfer_complete}
use multisync.SyncStatus.Progress.{transfer_complete-moves}
use multisync.BlockClient.{
  BlockClient, Event, Handler, find_handler, dispatch, handle_sgoodbye, select, run,
}
use multisync.BlockClient.Parting.{words, length-words, AllWords}
use multisync.Session.{Offer, IsOffer, count}
use multisync.Session.Packets.{Fits, packet-Fits, count_bounds, file_object}
use multisync.Session.Receiving.{Datagram, announcement, block, here}
use multisync.Session.Tracking.{Follower, find_alone}
use multisync.Session.Publishing.{publishes}
use multisync.Session.Parting.{sgoodbye_packet, handle_sgoodbye_publishes}
use multisync.Session.Completion.{hear_round, hear_rounds, In, Unset, AllClean, select-dispatch}
use multisync.Session.Arrival.{gathered}

-- The goodbye of the server for its file.
abbrev pub farewell : Platform → Offer → List ℕ → Bytes
farewell p o clients = sgoodbye_packet p o.id o.digest (count o) clients

run-append :
    (q : Platform) (inet : Inet) (events later : List Event) (c c' : BlockClient)
    → run q inet events c ≡ ok c'
    → run q inet (events ++ later) c ≡ run q inet later c'
unfolding run
run-append q inet [] later c c' r = ap (run q inet later) (ok-injective r)
run-append q inet (e ∷ events) later c c' r =
    let (c₁, r₁, r₂) = >>=-eq-ok (select q inet e c) _ r in
    ap (λ z. z >>= λ x. run q inet (events ++ later) x) r₁ ∙ run-append q inet events later c₁ c' r₂

farewell-Fits :
    (p : Platform) (o : Offer) {name : Bytes} (v : IsOffer o name) (clients : List ℕ)
    → length clients ≤ 1014
    → Fits (farewell p o clients)
farewell-Fits p o v clients h =
    packet-Fits p o.id type_sgoodbye _ (words p clients)
      (omega (arith, file_object p o v, length-words p clients))

find_sgoodbye : find_handler type_sgoodbye ≡ some Handler.sgoodbye
unfolding find_handler
find_sgoodbye = refl

dispatch-farewell :
    (p q : Platform) (o : Offer) (clients : List ℕ) (fresh : Fresh) (m : Message) (a : Address)
    (c : BlockClient)
    → m.buffer ≡ farewell p o clients
    → dispatch q (find_handler (get_type q m)) fresh m a c ≡ handle_sgoodbye q fresh m a c
unfolding dispatch
dispatch-farewell p q o clients fresh m a c e =
    ap (λ t. dispatch q (find_handler t) fresh m a c)
      (get_type-packet p q o.id type_sgoodbye _ (words p clients) m e (omega arith))
    ∙ ap (λ h. dispatch q h fresh m a c) find_sgoodbye

-- The client with a status that has the whole file, at the goodbye.
parted :
    (p q : Platform) (o : Offer) {name : Bytes} (v : IsOffer o name) (clients : List ℕ)
    (m : Message) (fresh : Fresh) (a : Address) (c : BlockClient) (s : SyncStatus)
    → length clients ≤ 1014
    → AllWords clients
    → m.buffer ≡ farewell p o clients
    → Follower q o Unset c.sync_set s
    → s.remaining_blocks ≡ 0
    → s.path ≡ o.path
    → (c' : BlockClient) × (handle_sgoodbye q fresh m a c ≡ ok c')
      × (file_at o.path c'.disk ≡ some o.file)
parted p q o v clients m fresh a c s h words_ok e w none_left named =
    let known = ap (find Order.order (here q o)) w.alone ∙ find_alone (here q o) s in
    let given : s.path ≢ [] = λ n. v.path-ne (sym named ∙ n) in
    let apart : s.temp ≢ s.path = λ n. w.follows.apart (n ∙ named) in
    let is_open = w.follows.holds.is_open in
    let (c', ends, moved, queue) =
      handle_sgoodbye_publishes p q o.id (count o) o.digest clients m fresh a c s v.digest_size
        (omega (arith, count_bounds o v)) (omega arith) words_ok e known none_left given is_open
        apart in
    let whole = publishes o s c.disk v w.follows none_left named in
    let first = transfer_complete-moves s c.disk none_left given is_open apart in
    (
      c',
      ends,
      ap (λ x. file_at x c'.disk) (sym named)
          ∙ moved
          ∙ sym first.1
          ∙ ap (λ x. file_at x (transfer_complete s c.disk).2) named
          ∙ whole.1,
    )

-- The round of the goodbye.
heard_farewell :
    (p q : Platform) (inet : Inet) (o : Offer) {name : Bytes} (v : IsOffer o name)
    (clients : List ℕ) (a : SocketAddress) (fresh : Fresh) (c : BlockClient) (s : SyncStatus)
    → length clients ≤ 1014
    → AllWords clients
    → Follower q o Unset c.sync_set s
    → s.remaining_blocks ≡ 0
    → s.path ≡ o.path
    → (c' : BlockClient) × (select q inet (hear_round a fresh (farewell p o clients)) c ≡ ok c')
      × (file_at o.path c'.disk ≡ some o.file)
heard_farewell p q inet o v clients a fresh c s h words_ok w none_left named =
    let bytes = farewell p o clients in
    let f = farewell-Fits p o v clients h in
    let m : Message = record (for_input q 4096) { buffer = bytes } in
    let socket = record c.socket { from = a } in
    let c₁ : BlockClient = record c { socket = socket } in
    let w₁ : Follower q o Unset c₁.sync_set s = record {
      alone = w.alone;
      follows = w.follows;
      bit = w.bit;
    } in
    let (c', ends, whole) =
      parted p q o v clients m fresh (get_address q inet socket) c₁ s h words_ok refl w₁ none_left
        named in
    (
      c',
      select-dispatch q inet a fresh bytes c f
          ∙ ap (λ r. r >>= λ z. ok z)
              (dispatch-farewell p q o clients fresh m (get_address q inet socket) c₁ refl ∙ ends),
      whole,
    )

-- What the client is made for. A client that knows no file hears datagrams of the offer and nothing
-- else, the announcement and each block at least once, in any order and as often as they come,
-- while its temporary files open under other names than the path and the uninitialised bits are
-- false; then it hears a goodbye for the file that names at most 1014 clients, whichever they are.
-- All of its rounds return, and the whole file stands under the path on its disk. Throughout
-- `IsOffer` holds: the path is not empty and fits an announcement, the digest is a text of 33 bytes
-- with its NUL, and the file has at most 4 GiB.
pub run_publishes :
    (p q : Platform) (inet : Inet) (o : Offer) (name : Bytes) (a : SocketAddress)
    (ds : List (Datagram × Fresh)) (clients : List ℕ) (fresh : Fresh) (c : BlockClient)
    → IsOffer o name
    → c.sync_set ≡ []
    → AllClean o name ds
    → In announcement ds
    → ((b : ℕ) → b < count o → In (block b) ds)
    → length clients ≤ 1014
    → AllWords clients
    → (c' : BlockClient) × (run q inet
          (hear_rounds p o a ds ++ (hear_round a fresh (farewell p o clients) ∷ []))
          c
        ≡ ok c')
      × (file_at o.path c'.disk ≡ some o.file)
unfolding run
run_publishes p q inet o name a ds clients fresh c v none_known clean told each h words_ok =
    let (c₁, s, r, w, disk, none_left, named) =
      gathered p q inet o v a ds c none_known clean told each in
    let (c', ends, whole) =
      heard_farewell p q inet o v clients a fresh c₁ s h words_ok w none_left named in
    (
      c',
      run-append q inet (hear_rounds p o a ds) (hear_round a fresh (farewell p o clients) ∷ []) c c₁
            r
          ∙ ap (λ z. z >>= λ x. ok x) ends,
      whole,
    )
