-- ===== src/Examples/Server.antt =====
-- The server at concrete inputs.
use multisync.Base.{
  ◌^◌, ◌≤◌, ◌%◌, ◌≡◌, ◌≢◌, refl, some, [], ◌∷◌, ◌++◌, length, arith, ok, throw,
  header_size_mismatch,
}
use multisync.Platform.Hosts.{x86, powerpc}
use multisync.OrderedMap.{find, IsSorted}
use multisync.HostInfo
use multisync.FileInfo
use multisync.BlockInfo
use multisync.Message.{Message, input, empty, of_metadata, type_chello, type_cgoodbye}
use multisync.SyncStatus.Transfer.{block_of}
use multisync.BlockServer.{
  BlockServer, Progress, waiting, enqueue_block, handle_chello, handle_getblock, handle_cgoodbye,
  process_message, send_front, select, serve_blocks, has_messages,
}
use multisync.BlockServer
use multisync.BlockServer.Blocks.{enqueue_block-received, ReadsBlock, file_of}
use multisync.BlockServer.Hosts.{handle_chello-joins, handle_getblock-fails, handle_cgoodbye-throws}
use multisync.BlockServer.Rounds.{serve_blocks-queue}
use multisync.Examples.{digest, server, file, message_of}

-- The second block of the file, 6 bytes, for a PowerPC client.
enqueue_block-received_example :
    (s' : BlockServer) × (m : Message) × (enqueue_block x86
        (BlockInfo.construct x86 (file_of x86 digest 2) 1)
        server
      ≡ ok s')
    × (s'.message_queue ≡ [] ++ (m ∷ []))
    × ReadsBlock powerpc (record m { direction = input }) digest 2 1 (block_of file (1 % 2 ^ 22))
enqueue_block-received_example =
    enqueue_block-received x86 powerpc server digest 2 1 refl (omega arith) (omega arith) refl refl

abbrev hello : Message
hello = of_metadata powerpc (HostInfo.pod powerpc) 4 type_chello (HostInfo.construct powerpc 70)

handle_chello-joins_example :
    (s' : BlockServer) × (handle_chello x86 hello server ≡ ok s')
    × (find HostInfo.order (HostInfo.construct x86 70) s'.host_info ≡ some tt)
    × (find HostInfo.order (HostInfo.construct x86 71) s'.host_info
        ≡ find HostInfo.order (HostInfo.construct x86 71) server.host_info)
    × IsSorted HostInfo.order s'.host_info
handle_chello-joins_example =
    handle_chello-joins x86 powerpc 4 70 71 hello server (omega arith) (omega arith) (omega arith)
      tt refl

handle_getblock-fails_example : handle_getblock x86 hello server ≢ ok server
handle_getblock-fails_example = handle_getblock-fails x86 hello server server

handle_cgoodbye-throws_example :
    handle_cgoodbye x86 (empty powerpc 4 type_cgoodbye) server ≡ throw header_size_mismatch
handle_cgoodbye-throws_example =
    handle_cgoodbye-throws x86 powerpc 4 (empty powerpc 4 type_cgoodbye) server refl

-- The loop over the blocks with no event: it offers the first block and waits.
abbrev offered : BlockServer
offered = record server {
  message_queue = message_of 0 ∷ message_of 0 ∷ message_of 0 ∷ message_of 0 ∷ message_of 0 ∷ [];
}

full_queue_waits :
    serve_blocks x86 (BlockInfo.construct x86 server.file_info 0) [] offered ≡ ok (waiting offered)
unfolding serve_blocks BlockServer.offer_block BlockInfo.to_unsigned BlockInfo.construct
    FileInfo.get_block_count
full_queue_waits = refl

serve_blocks-queue_example :
    (length offered.message_queue ≤ 5) × (offered.file_info ≡ offered.file_info)
serve_blocks-queue_example =
    serve_blocks-queue x86 [] (BlockInfo.construct x86 server.file_info 0) offered (waiting offered)
      tt (omega arith) full_queue_waits
