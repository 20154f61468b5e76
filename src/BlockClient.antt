-- ===== src/BlockClient.antt =====
-- src/blockclient.cpp and include/blockclient.hpp: the client, which gathers every file that it
-- hears of. The files on disk are part of its state here. The logger only prints, and is left out.
pub mod Finish
pub mod Handlers
pub mod Goodbye
pub mod Invariant
pub mod Rounds
pub mod Runs
pub mod Parting
use multisync.Base.{
  ℕ, zero, suc, ◌+◌, ◌*◌, ◌%◌, ◌^◌, ◌<◌, Bool, true, false, Option, none, some, List, [], ◌∷◌, ◌++◌,
  Bytes, length, ltb, ◌==◌, if◌then◌else◌, Result, ok, throw, undefined, ◌>>=◌, ◌>>◌,
}
use multisync.Platform.{Platform}
use multisync.OrderedMap.{OrderedMap}
use multisync.OrderedMap
use multisync.Stream.{Disk}
use multisync.HostInfo.{HostInfo}
use multisync.HostInfo
use multisync.FileInfo.{FileInfo}
use multisync.FileInfo
use multisync.FileInfo.Order
use multisync.BlockInfo.{BlockInfo, to_unsigned, get_file_info}
use multisync.BlockInfo
use multisync.Message.{
  Message, Array, for_input, of_metadata, empty, get_metadata, get_type, get_text, get_array,
  array_elem, type_info, type_block, type_sgoodbye, type_cgoodbye, type_chello,
}
use multisync.Socket.{
  BlockSocket, SocketAddress, Address, Inet, Signed, ReceiveReply, SendReply, OpenReply,
  select_status, receive, send, open_socket, get_address,
}
use multisync.Socket
use multisync.Socket.Polling.{can_read, can_write}
use multisync.SyncStatus.{
  SyncStatus, Fresh, write_block, set_path, set_goodbye_received, transfer_complete, sync_complete,
}
use multisync.SyncStatus

-- `id` is a member that the constructor leaves uninitialised; the host's identity is `info`.
pub record BlockClient : Type 0 where
  pub info : HostInfo
  pub socket : BlockSocket
  pub sync_set : OrderedMap FileInfo SyncStatus
  pub message_queue : List Message
  pub id : ℕ
  pub disk : Disk

-- What the environment answers in one `select`: the system calls, and what a new status is made of.
pub record Event : Type 0 where
  pub selected : Signed
  pub readable : Bool
  pub writable : Bool
  pub received : ReceiveReply
  pub sent : SendReply
  pub fresh : Fresh

-- The constructor, for the process `pid`, with `junk` where `id` lies.
unfoldable pub construct : Platform → Inet → Bytes → ℕ → ℕ → ℕ → SocketAddress → Disk → BlockClient
construct p inet group port pid junk unset disk = record {
  info = HostInfo.construct p pid;
  socket = Socket.construct p inet group port unset;
  sync_set = [];
  message_queue = [];
  id = junk;
  disk = disk;
}

pub data Handler : Type 0 where
  info block sgoodbye : Handler

-- `handlers.find(type)`, over the map that the constructor fills.
unfoldable pub find_handler : ℕ → Option Handler
find_handler type =
    if type == type_info
    then some Handler.info
    else if type == type_block
    then some block
    else if type == type_sgoodbye
    then some sgoodbye
    else none

-- The end of each handler, `if (status.sync_complete()) sync_set.erase(info);`, where `status`
-- refers to the entry of the map.
unfoldable pub finish : FileInfo → SyncStatus → BlockClient → BlockClient
finish file status c =
    let (done, status', disk') = sync_complete status c.disk in
    let kept = OrderedMap.assign Order.order file status' c.sync_set in
    let left = OrderedMap.erase Order.order file kept in
    record c { sync_set = if done then left else kept; disk = disk' }

-- `!message_queue.empty()`.
abbrev pub has_messages : List Message → Bool
has_messages [] = false
has_messages (m ∷ rest) = true

module _ (p : Platform) where
  -- The branch of `get_sync_status` for a file that the client does not know.
  unfoldable pub insert_status :
      Fresh → FileInfo → Address → BlockClient → Result (SyncStatus × BlockClient)
  insert_status fresh file address c = do
    (status, disk) ← SyncStatus.construct p fresh file address c.disk
    ok (
      status,
      record c { sync_set = OrderedMap.insert Order.order file status c.sync_set; disk = disk },
    )

  unfoldable pub get_sync_status :
      Fresh → FileInfo → Address → BlockClient → Result (SyncStatus × BlockClient)
  get_sync_status fresh file address c = elim (OrderedMap.find Order.order file c.sync_set) [
    | some status ↦ ok (status, c)
    | none ↦ insert_status fresh file address c
  ]

  unfoldable pub handle_info : Fresh → Message → Address → BlockClient → Result BlockClient
  handle_info fresh m address c = do
    file ← get_metadata p (FileInfo.pod p) m
    (status, c') ← get_sync_status fresh file address c
    text ← get_text p m
    ok (finish file (set_path text status) c')

  unfoldable pub handle_block : Fresh → Message → Address → BlockClient → Result BlockClient
  handle_block fresh m address c = do
    i ← get_metadata p (BlockInfo.pod p) m
    (status, c') ← get_sync_status fresh (get_file_info i) address c
    status' ← write_block p (to_unsigned p i) m status
    ok (finish (get_file_info i) status' c')

  -- The loop over the clients of a goodbye, from the `i`-th on, with `n` left: the status and the
  -- queue.
  unfoldable pub scan_goodbyes :
      ℕ → Message → Array → ℕ → ℕ → SyncStatus × List Message → Result (SyncStatus × List Message)
  scan_goodbyes id m clients zero i (status, queue) = ok (status, queue)
  scan_goodbyes id m clients (suc n) i (status, queue) = do
    client ← array_elem p m clients i
    scan_goodbyes id m clients n (i + 1) (
        if client == id
        then (set_goodbye_received status, queue ++ (empty p id type_cgoodbye ∷ []))
        else (status, queue))

  -- The `if` of `handle_sgoodbye`, once `transfer_complete` has answered.
  unfoldable pub answer_goodbye :
      Bool → Message → SyncStatus → BlockClient → Result (SyncStatus × BlockClient)
  answer_goodbye false m status c = ok (status, c)
  answer_goodbye true m status c = do
    clients ← get_array p 4 m
    (status', queue) ← scan_goodbyes c.id m clients clients.count 0 (status, c.message_queue)
    ok (status', record c { message_queue = queue })

  unfoldable pub handle_sgoodbye : Fresh → Message → Address → BlockClient → Result BlockClient
  handle_sgoodbye fresh m address c = do
    file ← get_metadata p (FileInfo.pod p) m
    (status, c') ← get_sync_status fresh file address c
    let (done, status', disk') = transfer_complete status c'.disk
    (status'', c'') ← answer_goodbye done m status' (record c' { disk = disk' })
    ok (finish file status'' c'')

  unfoldable pub dispatch :
      Option Handler → Fresh → Message → Address → BlockClient → Result BlockClient
  dispatch none fresh m address c = ok c
  dispatch (some Handler.info) fresh m address c = handle_info fresh m address c
  dispatch (some block) fresh m address c = handle_block fresh m address c
  dispatch (some sgoodbye) fresh m address c = handle_sgoodbye fresh m address c

module _ (p : Platform) (inet : Inet) where
  unfoldable pub process_message : Event → BlockClient → Result BlockClient
  process_message e c = do
    (m, socket) ← receive p e.received (for_input p 4096) c.socket
    dispatch p (find_handler (get_type p m)) e.fresh m (get_address p inet socket)
        (record c { socket = socket })

  unfoldable pub send_front : SendReply → BlockClient → Result BlockClient
  send_front reply c = elim c.message_queue [
    | [] ↦ undefined
    | m ∷ rest ↦ (do
      socket ← send p reply m c.socket
      ok (record c { socket = socket; message_queue = rest }))
  ]

  unfoldable pub select : Event → BlockClient → Result BlockClient
  select e c = do
    status ← select_status (has_messages c.message_queue) e.selected e.readable e.writable
    c' ← if can_read status then process_message e c else ok c
    if can_write status then send_front e.sent c' else ok c'

  -- The endless loop of `start`, as far as the events go.
  unfoldable pub run : List Event → BlockClient → Result BlockClient
  run [] c = ok c
  run (e ∷ events) c = do c' ← select e c; run events c'

  -- `start()`.
  unfoldable pub start : OpenReply → List Event → BlockClient → Result BlockClient
  start opened events c = do
    (open_socket opened c.socket).0
    let hello = of_metadata p (HostInfo.pod p) c.id type_chello c.info
    run events (record c {
      socket = (open_socket opened c.socket).1;
      message_queue = c.message_queue ++ (hello ∷ []);
    })
