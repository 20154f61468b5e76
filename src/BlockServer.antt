-- ===== src/BlockServer.antt =====
-- src/blockserver.cpp and include/blockserver.hpp: the server of one file. What the system calls of
-- one round answer is an event. The logger only prints, and is left out here; the handlers do not
-- use the address of the sender. After a throw only `main` goes on, so no state is kept of it.
pub mod Blocks
pub mod Hosts
pub mod Rounds
use multisync.Base.{
  ℕ, ◌+◌, ◌*◌, ◌%◌, ◌^◌, ◌<◌, Bool, true, false, not, ◌||◌, Option, none, some, List, [], ◌∷◌, ◌++◌,
  Bytes, length, ltb, ◌==◌, if◌then◌else◌, Result, ok, throw, undefined, ◌>>=◌, ◌>>◌, require,
  in_bounds,
}
use multisync.Platform.{Platform}
use multisync.OrderedMap.{OrderedMap}
use multisync.OrderedMap
use multisync.Stream.{Ifstream}
use multisync.Stream
use multisync.HostInfo.{HostInfo}
use multisync.HostInfo
use multisync.FileInfo.{FileInfo, get_block_count, block_size, contents}
use multisync.FileInfo
use multisync.BlockInfo.{BlockInfo, increment, to_unsigned, get_file_info}
use multisync.BlockInfo
use multisync.Message.{
  Message, for_input, of_metadata_reserved, of_metadata_text, get_metadata, get_type, read_from,
  type_info, type_block, type_getblock, type_getinfo, type_cgoodbye, type_chello,
}
use multisync.Socket.{
  BlockSocket, SocketAddress, Inet, Signed, ReceiveReply, SendReply, OpenReply, select_status,
  receive, send, open_socket, set_address,
}
use multisync.Socket
use multisync.Socket.Polling.{can_read, can_write}

pub record BlockServer : Type 0 where
  pub socket : BlockSocket
  pub id : ℕ
  pub path : Bytes
  pub input : Ifstream
  pub host_info : OrderedMap HostInfo (Unit {0})
  pub message_queue : List Message
  pub file_info : FileInfo

-- What the system calls of one `select` of a class answer.
pub record Event : Type 0 where
  pub selected : Signed
  pub readable : Bool
  pub writable : Bool
  pub received : ReceiveReply
  pub sent : SendReply

-- The stream on a file that may not be there.
abbrev pub open_input : Option Bytes → Ifstream
open_input none = record { contents = []; pos = 0; failbit = true; badbit = false }
open_input (some file) = record { contents = file; pos = 0; failbit = false; badbit = false }

-- The constructor: `source` is what stands in the source file, `random` the value of `rand()`.
unfoldable pub construct :
    Platform
    → Inet
    → (Bytes → Bytes)
    → Option Bytes
    → Bytes
    → Bytes
    → ℕ
    → ℕ
    → SocketAddress
    → BlockServer
construct p inet hex_digest source path group port random unset = record {
  socket =
      set_address p inet (record { ip_address = group; port = port })
        (Socket.construct p inet group 0 unset);
  id = random;
  path = path;
  input = open_input source;
  host_info = [];
  message_queue = [];
  file_info = FileInfo.construct p hex_digest source;
}

pub data Handler : Type 0 where
  chello getinfo getblock cgoodbye : Handler

-- `handlers.find(type)`, over the map that the constructor fills.
unfoldable pub find_handler : ℕ → Option Handler
find_handler type =
    if type == type_chello
    then some chello
    else if type == type_getinfo
    then some getinfo
    else if type == type_getblock
    then some getblock
    else if type == type_cgoodbye
    then some cgoodbye
    else none

-- `!message_queue.empty()`.
abbrev pub has_messages : List Message → Bool
has_messages [] = false
has_messages (m ∷ rest) = true

module _ (p : Platform) where
  -- A message with space for a block, pushed to the queue and filled from the file. The product
  -- `BLOCKSIZE * i` is one of unsigned ints.
  unfoldable pub enqueue_block : BlockInfo → BlockServer → Result BlockServer
  enqueue_block i s = do
    let message = of_metadata_reserved p (BlockInfo.pod p) s.id type_block i block_size
    (filled, input) ←
        read_from p message (Stream.seekg (block_size * to_unsigned p i % 2 ^ 32) s.input)
    ok (record s { message_queue = s.message_queue ++ (filled ∷ []); input = input })

  unfoldable pub handle_chello : Message → BlockServer → Result BlockServer
  handle_chello m s = do
    info ← get_metadata p (HostInfo.pod p) m
    ok (record s { host_info = OrderedMap.insert HostInfo.order info tt s.host_info })

  unfoldable pub handle_getinfo : Message → BlockServer → Result BlockServer
  handle_getinfo m s = do
    info ← get_metadata p (HostInfo.pod p) m
    let reply = of_metadata_text p (FileInfo.pod p) s.id type_info s.file_info s.path
    ok (record s {
      host_info = OrderedMap.insert HostInfo.order info tt s.host_info;
      message_queue = s.message_queue ++ (reply ∷ []);
    })

  unfoldable pub handle_getblock : Message → BlockServer → Result BlockServer
  handle_getblock m s = do
    info ← get_metadata p (HostInfo.pod p) m
    let s' : BlockServer = record s {
      host_info = OrderedMap.insert HostInfo.order info tt s.host_info;
    }
    i ← get_metadata p (BlockInfo.pod p) m
    if FileInfo.equal (get_file_info i) s.file_info then enqueue_block i s' else ok s'

  unfoldable pub handle_cgoodbye : Message → BlockServer → Result BlockServer
  handle_cgoodbye m s = do
    i ← get_metadata p (HostInfo.pod p) m
    ok (record s { host_info = OrderedMap.erase HostInfo.order i s.host_info })

  unfoldable pub dispatch : Option Handler → Message → BlockServer → Result BlockServer
  dispatch none m s = ok s
  dispatch (some chello) m s = handle_chello m s
  dispatch (some getinfo) m s = handle_getinfo m s
  dispatch (some getblock) m s = handle_getblock m s
  dispatch (some cgoodbye) m s = handle_cgoodbye m s

  unfoldable pub process_message : ReceiveReply → BlockServer → Result BlockServer
  process_message reply s = do
    (m, socket) ← receive p reply (for_input p 4096) s.socket
    dispatch (find_handler (get_type p m)) m (record s { socket = socket })

  -- `socket << message_queue.front(); message_queue.pop_front();`
  unfoldable pub send_front : SendReply → BlockServer → Result BlockServer
  send_front reply s = elim s.message_queue [
    | [] ↦ undefined
    | m ∷ rest ↦ (do
      socket ← send p reply m s.socket
      ok (record s { socket = socket; message_queue = rest }))
  ]

  unfoldable pub select : Event → BlockServer → Result BlockServer
  select e s = do
    status ← select_status (has_messages s.message_queue) e.selected e.readable e.writable
    s' ← if can_read status then process_message e.received s else ok s
    if can_write status then send_front e.sent s' else ok s'

  -- The body of the loop over the blocks before its `select`.
  unfoldable pub offer_block : BlockInfo → BlockServer → Result BlockServer
  offer_block i s = if ltb (length s.message_queue) 5 then enqueue_block i s else ok s

-- Where a loop stands: over, with the events that are left, or in its next `select`.
pub data Progress : Type 0 where
  finished : BlockServer → List Event → Progress
  waiting : BlockServer → Progress

-- `!host_info.empty() || message_queue.size() > 0`.
abbrev pub is_busy : BlockServer → Bool
is_busy s = not (elim s.host_info [ [] ↦ true | h ∷ hs ↦ false ]) || ltb 0 (length s.message_queue)

module _ (p : Platform) where
  -- The loop over the blocks. Each round takes one event.
  unfoldable pub serve_blocks : BlockInfo → List Event → BlockServer → Result Progress
  serve_blocks i [] s =
      if ltb (to_unsigned p i) (get_block_count p s.file_info)
      then (do s' ← offer_block p i s; ok (waiting s'))
      else ok (finished s [])
  serve_blocks i (e ∷ events) s =
      if ltb (to_unsigned p i) (get_block_count p s.file_info)
      then (do s' ← offer_block p i s; s'' ← select p e s'; serve_blocks (increment p i) events s'')
      else ok (finished s (e ∷ events))

  -- The loop over the remaining requests.
  unfoldable pub serve_requests : List Event → BlockServer → Result Progress
  serve_requests [] s = if is_busy s then ok (waiting s) else ok (finished s [])
  serve_requests (e ∷ events) s =
      if is_busy s
      then (do s' ← select p e s; serve_requests events s')
      else ok (finished s (e ∷ events))

  -- The second loop, where the first one has ended.
  unfoldable pub continue : Progress → Result Progress
  continue (finished s events) = serve_requests events s
  continue (waiting s) = ok (waiting s)

  -- `start()`.
  unfoldable pub start : OpenReply → List Event → BlockServer → Result Progress
  unfolding continue
  start opened events s = do
    (open_socket opened s.socket).0
    let first = of_metadata_text p (FileInfo.pod p) s.id type_info s.file_info s.path
    let s' : BlockServer = record s {
      socket = (open_socket opened s.socket).1;
      message_queue = s.message_queue ++ (first ∷ []);
    }
    progress ← serve_blocks (BlockInfo.construct p s.file_info 0) events s'
    continue progress
