-- ===== src/Examples/Transfer.antt =====
-- A file of two blocks on its way to a client, at concrete inputs.
use multisync.Base.{
  ℕ, zero, suc, ◌≡◌, ◌≢◌, refl, ap, true, false, none, some, [], ◌∷◌, ◌++◌, replicate, set,
  get_elem?, arith, ok, undefined,
}
use multisync.Platform.Hosts.{x86, powerpc}
use multisync.OrderedMap.{find}
use multisync.Stream.{file_at}
use multisync.FileInfo
use multisync.FileInfo.Order
use multisync.FileInfo.{FileInfo, get_block_count, count_blocks}
use multisync.BlockInfo
use multisync.BlockInfo.{BlockInfo}
use multisync.Message.{
  Message, input, get_metadata, get_text, of_text, of_metadata, empty, type_block, type_cgoodbye,
  Array, array_elem,
}
use multisync.Message.Packet.{of_text-packet}
use multisync.Message.Wire.{get_text-packet}
use multisync.SyncStatus.{
  SyncStatus, Fresh, construct_with, set_path, suffix, write_block, transfer_complete,
  sync_complete,
}
use multisync.SyncStatus.Progress.{IsValid, write_block-IsValid, transfer_complete-moves, Progress}
use multisync.SyncStatus.Transfer.{Holds, block_of, length-block_of}
use multisync.SyncStatus.Delivery.{transfer, receive_blocks}
use multisync.BlockServer.Blocks.{block_packet, file_of}
use multisync.BlockClient.{BlockClient, handle_block, finish, scan_goodbyes}
use multisync.BlockClient.Handlers.{handle_block-past, handle_block-delivers}
use multisync.BlockClient.Goodbye.{scan_goodbyes-count, after_goodbyes, Elements}
use multisync.Stream
use multisync.SyncStatus
use multisync.Message
use multisync.Examples.{digest, text, file, name, socket, status, message_of, first_byte}

abbrev fresh : Fresh
fresh = record { tmpnam = b't' ∷ []; is_opened = true; uninitialised = false }

message_text : (b : ℕ) → get_text powerpc (message_of b) ≡ ok (block_of file b)
message_text b =
    get_text-packet x86 powerpc 0 1 [] (block_of file b) (message_of b)
      (of_text-packet x86 0 1 (block_of file b) (omega (arith, length-block_of file b)))
      (omega arith)

-- The blocks in the order 1, 0, 1.
transfer_example :
    let s =
      set_path name
        (construct_with powerpc fresh
          (file_of powerpc digest 2)
          status.server_address
          digest
          []).0 in
    (s' : SyncStatus) × (receive_blocks powerpc message_of (1 ∷ 0 ∷ 1 ∷ []) s ≡ ok s')
    × ((transfer_complete s' []).0 ≡ true)
    × (file_at name (transfer_complete s' []).2 ≡ some file)
unfolding get_block_count count_blocks
transfer_example =
    transfer powerpc fresh (file_of powerpc digest 2) status.server_address digest name file
      message_of (1 ∷ 0 ∷ 1 ∷ []) [] [] refl (λ e. cc) (λ e. cc) (omega arith) refl
      (λ b h. message_text b) (omega arith, (omega arith, (omega arith, tt))) refl

status-Holds : Holds file status
status-Holds = record {
  is_open = refl;
  works = refl;
  within = omega arith;
  reaches = λ b i e. absurd (unmarked b e);
  agrees = λ b i e. absurd (unmarked b e);
}
  where
    unmarked : (b : ℕ) → get_elem? (false ∷ false ∷ []) b ≢ some true
    unmarked zero e = cc
    unmarked (suc zero) e = cc
    unmarked (suc (suc b)) e = cc

status-IsValid : IsValid status
status-IsValid = record { counted = refl; block_count-lt = omega arith }

abbrev pub client : BlockClient
client = record {
  info = record { id = 1 };
  socket = socket;
  sync_set = (file_of powerpc digest 2, status) ∷ [];
  message_queue = [];
  id = 3;
  disk = [];
}

found : find Order.order (file_of powerpc digest 2) client.sync_set ≡ some status
unfolding find Order.order FileInfo.less FileInfo.memcmp
found = refl

abbrev block_message : Message
block_message = record {
  buffer = block_packet x86 9 (file_of x86 digest 2) 1 file;
  direction = input;
}

handle_block-delivers_example :
    (s' : SyncStatus) × (handle_block powerpc fresh block_message status.server_address client
      ≡ ok (finish (file_of powerpc digest 2) s' client))
    × Holds file s'
    × IsValid s'
    × (s'.block_array ≡ set status.block_array 1 true)
handle_block-delivers_example =
    handle_block-delivers x86 powerpc digest 2 1 9 file block_message fresh status.server_address
      client status refl (omega arith) (omega arith) refl found status-Holds status-IsValid
      (omega arith) (omega arith)

-- The first three bytes of a file.
abbrev short_message : Message
short_message = of_text x86 0 1 text

abbrev written : SyncStatus
written = record status {
  block_array = true ∷ false ∷ [];
  remaining_blocks = 1;
  output = record { written = text; pos = 3; is_open = true; failbit = false };
}

short_written : write_block powerpc 0 short_message status ≡ ok written
unfolding write_block SyncStatus.store_block Message.write_to Stream.seekp Stream.write
    Stream.file_write of_text
short_written = refl

write_block-IsValid_example : Progress 0 status written
write_block-IsValid_example =
    write_block-IsValid powerpc 0 short_message status written status-IsValid short_written

abbrev pub complete : SyncStatus
complete = record status {
  block_array = true ∷ true ∷ [];
  remaining_blocks = 0;
  output = record { written = file; pos = 0; is_open = true; failbit = false };
}

pub name_given : complete.path ≢ []
name_given = λ e. cc

pub apart : complete.temp ≢ name
apart = λ e. omega (arith, ap first_byte e)

transfer_complete-moves_example :
    let one = transfer_complete complete [] in
    let two = transfer_complete one.1 one.2 in
    (one.0 ≡ true)
    × (file_at name one.2 ≡ some file)
    × (file_at complete.temp one.2 ≡ none)
    × (two.0 ≡ true)
    × (two.2 ≡ one.2)
transfer_complete-moves_example = transfer_complete-moves complete [] refl name_given refl apart

-- A message with block 5 of the file of two blocks.
abbrev past_message : Message
past_message = record {
  buffer = block_packet x86 9 (file_of x86 digest 2) 5 file;
  direction = input;
}

abbrev past_block : BlockInfo
past_block = record { file_info = file_of powerpc digest 2; block_num = 5 }

past_read : get_metadata powerpc (BlockInfo.pod powerpc) past_message ≡ ok past_block
unfolding get_metadata BlockInfo.pod BlockInfo.construct FileInfo.pod
past_read = refl

past_found : find Order.order (BlockInfo.get_file_info past_block) client.sync_set ≡ some status
unfolding BlockInfo.get_file_info
past_found = found

past_number : BlockInfo.to_unsigned powerpc past_block ≡ 5
unfolding BlockInfo.to_unsigned
past_number = refl

handle_block-past_example :
    handle_block powerpc fresh past_message status.server_address client ≡ undefined
handle_block-past_example =
    handle_block-past powerpc fresh past_message status.server_address client past_block status
      past_read past_found (omega (arith, past_number))

-- A goodbye that names the clients 3, 4 and 3.
abbrev goodbye : Message
goodbye = record {
  buffer = replicate 16 0 ++ (0 ∷ 0 ∷ 0 ∷ 3 ∷ 0 ∷ 0 ∷ 0 ∷ 4 ∷ 0 ∷ 0 ∷ 0 ∷ 3 ∷ []);
  direction = input;
}

abbrev clients : Array
clients = record { first = 16; count = 3 }

clients_read : Elements powerpc goodbye clients 0 (3 ∷ 4 ∷ 3 ∷ [])
unfolding array_elem
clients_read = (refl, (refl, (refl, tt)))

scan_goodbyes-count_example :
    scan_goodbyes powerpc 3 goodbye clients 3 0 (status, [])
    ≡ ok (
      after_goodbyes 2 status,
      [] ++ (empty powerpc 3 type_cgoodbye ∷ empty powerpc 3 type_cgoodbye ∷ []),
    )
scan_goodbyes-count_example =
    scan_goodbyes-count powerpc 3 goodbye clients (3 ∷ 4 ∷ 3 ∷ []) 0 status [] clients_read
