-- ===== src/Examples/Goodbye.antt =====
-- Goodbyes, and servers and clients that do not end, at concrete inputs.
use multisync.Base.{
  ℕ, ◌≡◌, inl, inr, refl, ◌∙◌, true, some, List, [], ◌∷◌, ◌++◌, replicate, arith, ok,
}
use multisync.Platform.Hosts.{x86, powerpc}
use multisync.OrderedMap.{find}
use multisync.Stream.{file_at}
use multisync.FileInfo
use multisync.HostInfo
use multisync.SyncStatus.{SyncStatus, transfer_complete}
use multisync.Session.Receiving.{here}
use multisync.Session.Completion.{hear_round, hear_rounds}
use multisync.Session.Farewell.{run_publishes, farewell}
use multisync.Session.Arrival.{run_completes}
use multisync.FileInfo.Order
use multisync.Message.{
  Message, Array, input, get_array, empty, type_sgoodbye, type_cgoodbye, of_metadata, type_chello,
}
use multisync.Message.Packet.{packet}
use multisync.Socket.{open_socket}
use multisync.BlockServer.Blocks.{file_of}
use multisync.BlockClient.{BlockClient, handle_sgoodbye, start, run}
use multisync.BlockClient as Client
use multisync.BlockClient.Goodbye.{Elements}
use multisync.BlockClient.Invariant.{IsInvariant}
use multisync.BlockClient.Runs.{start-IsInvariant}
use multisync.BlockClient.Parting.{words, get_array_received}
use multisync.Session.Parting.{sgoodbye_packet, handle_sgoodbye_publishes}
use multisync.Session.Starting.{group_address}
use multisync.Session.Serving.{sent_after}
use multisync.Session.Draining.{buffers}
use multisync.Session.Replies.Runs.{replies, start-replies}
use multisync.Examples.{digest, file, name, peer, printed}
use multisync.Examples.Network.{
  opened, fresh, shared, mixed, mixed-AllClean, mixed_each, shared-IsOffer, digest_name,
}
use multisync.Examples.Transfer.{complete, client, name_given, apart}

-- A client that has all blocks of the file, and not moved it.
abbrev waiting_client : BlockClient
waiting_client = record client { sync_set = (file_of powerpc digest 2, complete) ∷ [] }

abbrev goodbye_message : Message
goodbye_message = record { buffer = sgoodbye_packet x86 9 digest 2 (3 ∷ 4 ∷ []); direction = input }

known : find Order.order (file_of powerpc digest 2) waiting_client.sync_set ≡ some complete
unfolding find Order.order FileInfo.less FileInfo.memcmp
known = refl

handle_sgoodbye_publishes_example :
    (c' : BlockClient) × (handle_sgoodbye powerpc fresh goodbye_message complete.server_address
        waiting_client
      ≡ ok c')
    × (file_at name c'.disk ≡ some file)
    × (c'.message_queue ≡ [] ++ replicate 1 (empty powerpc 3 type_cgoodbye))
handle_sgoodbye_publishes_example =
    handle_sgoodbye_publishes x86 powerpc 9 2 digest (3 ∷ 4 ∷ []) goodbye_message fresh
      complete.server_address waiting_client complete refl (omega arith) (omega arith)
      (omega arith, (omega arith, tt)) refl known refl name_given refl apart

abbrev told : Message
told = record { buffer = packet x86 9 type_sgoodbye [] (words x86 (3 ∷ 4 ∷ [])); direction = input }

-- On a little endian host the number 3 is read as 50331648.
get_array_received_example :
    (array : Array) × (get_array x86 4 told ≡ ok array)
    × (array.count ≡ 2)
    × Elements x86 told array 0 (50331648 ∷ 67108864 ∷ [])
get_array_received_example =
    get_array_received x86 x86 9 type_sgoodbye [] (3 ∷ 4 ∷ []) told refl (omega arith) (omega arith)
      (omega arith, (omega arith, tt))

-- A client when its `start` has come to the loop.
abbrev listening : BlockClient
listening =
    let c = Client.construct powerpc printed name 9000 70 3 peer [] in
    record c {
      socket = (open_socket opened c.socket).1;
      message_queue =
          c.message_queue
          ++ (of_metadata powerpc (HostInfo.pod powerpc) c.id type_chello c.info ∷ []);
    }

none_known : listening.sync_set ≡ []
unfolding Client.construct
none_known = refl

-- It hears the blocks and the announcement of a file.
abbrev datagrams : List Client.Event
datagrams = hear_rounds x86 shared peer mixed

heard :
    (c' : BlockClient) × (s : SyncStatus) × (run powerpc printed datagrams listening ≡ ok c')
    × (find Order.order (here powerpc shared) c'.sync_set ≡ some s)
    × (file_at name c'.disk ≡ file_at name listening.disk)
    × ((transfer_complete s c'.disk).0 ≡ true)
    × (file_at name (transfer_complete s c'.disk).2 ≡ some file)
heard =
    run_completes x86 powerpc printed shared digest_name peer mixed listening shared-IsOffer
      none_known mixed-AllClean (inr (inl refl)) mixed_each

begins :
    (events : List Client.Event)
    → start powerpc printed opened events (Client.construct powerpc printed name 9000 70 3 peer [])
      ≡ run powerpc printed events listening
unfolding start open_socket
begins events = refl

start-IsInvariant_example : IsInvariant heard.0
start-IsInvariant_example =
    start-IsInvariant powerpc printed name 9000 70 3 peer [] opened datagrams heard.0
      (begins datagrams ∙ heard.2)

-- The goodbye names the clients 3 and 4.
abbrev parting : List Client.Event
parting = datagrams ++ (hear_round peer fresh (farewell x86 shared (3 ∷ 4 ∷ [])) ∷ [])

parted :
    (c' : BlockClient) × (run powerpc printed parting listening ≡ ok c')
    × (file_at name c'.disk ≡ some file)
parted =
    run_publishes x86 powerpc printed shared digest_name peer mixed (3 ∷ 4 ∷ []) fresh listening
      shared-IsOffer none_known mixed-AllClean (inr (inl refl)) mixed_each (omega arith)
      (omega arith, (omega arith, tt))

start-replies_example :
    let to = group_address powerpc printed name 9000 in
    (n : ℕ) × (sent_after to (buffers parted.0.message_queue) parted.0.socket.sent
      ≡ sent_after to (replies powerpc 3 70 n) [])
start-replies_example =
    start-replies powerpc printed name 9000 70 3 peer [] opened parting parted.0
      (begins parting ∙ parted.1)

run_publishes_example :
    (c' : BlockClient) × (run powerpc printed parting listening ≡ ok c')
    × (file_at name c'.disk ≡ some file)
run_publishes_example =
    run_publishes x86 powerpc printed shared digest_name peer mixed (3 ∷ 4 ∷ []) fresh listening
      shared-IsOffer none_known mixed-AllClean (inr (inl refl)) mixed_each (omega arith)
      (omega arith, (omega arith, tt))
