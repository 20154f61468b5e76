-- ===== src/SyncStatus.antt =====
-- src/syncstatus.cpp and include/syncstatus.hpp: how far the client is with one file.
pub mod Progress
pub mod Transfer
pub mod Arrival
pub mod Delivery
pub mod Others
use multisync.Base.{
  ℕ, zero, suc, ◌+◌, ◌-◌, ◌*◌, ◌/◌, ◌%◌, ◌^◌, ◌<◌, ◌≡◌, Bool, true, false, not, ◌&&◌, Option, none,
  some, List, [], ◌∷◌, ◌++◌, Bytes, length, get_elem?, set, replicate, ◌==◌, if◌then◌else◌, Result,
  ok, throw, undefined, ◌>>=◌, ◌>>◌,
}
use multisync.Platform.{Platform}
use multisync.Stream.{Ofstream, Disk, put_file}
use multisync.Stream
use multisync.FileInfo.{FileInfo, get_block_count, get_digest, block_size}
use multisync.Message.{Message, write_to}
use multisync.Socket.{Address}

-- `output` points to a stream from the constructor on, so it is never null.
pub record SyncStatus : Type 0 where
  pub temp : Bytes
  pub path : Bytes
  pub block_array : List Bool
  pub remaining_blocks : ℕ
  pub output : Ofstream
  pub goodbye_received : Bool
  pub server_address : Address

-- The characters of a `const char*` up to its NUL, if there is one in the array.
unfoldable pub c_string : Bytes → Option Bytes
c_string [] = none
c_string (x ∷ xs) =
    let rest = c_string xs in
    if x == 0 then some [] else elim rest [ none ↦ none | some s ↦ some (x ∷ s) ]

-- `".msync"`.
abbrev pub suffix : Bytes
suffix = b'.' ∷ b'm' ∷ b's' ∷ b'y' ∷ b'n' ∷ b'c' ∷ []

abbrev pub is_empty : Bytes → Bool
is_empty [] = true
is_empty (x ∷ xs) = false

-- What the environment gives the constructor: the name from `tmpnam`, whether the file could be
-- opened, and the bit that lies where `goodbye_received` is never initialised.
pub record Fresh : Type 0 where
  pub tmpnam : Bytes
  pub is_opened : Bool
  pub uninitialised : Bool

-- The object for the digest's text. Opening the stream makes an empty file.
unfoldable pub construct_with :
    Platform → Fresh → FileInfo → Address → Bytes → Disk → SyncStatus × Disk
construct_with p fresh info address digest disk =
    let temp : Bytes = fresh.tmpnam ++ (digest ++ suffix) in
    let count = get_block_count p info in
    (
      record {
        temp = temp;
        path = [];
        block_array = replicate count false;
        remaining_blocks = count;
        output = record {
          written = [];
          pos = 0;
          is_open = fresh.is_opened;
          failbit = not fresh.is_opened;
        };
        goodbye_received = fresh.uninitialised;
        server_address = address;
      },
      if fresh.is_opened then put_file temp [] disk else disk,
    )

-- The constructor. A digest without a NUL is read past its end.
unfoldable pub construct : Platform → Fresh → FileInfo → Address → Disk → Result (SyncStatus × Disk)
construct p fresh info address disk = elim (c_string (get_digest info)) [
  | none ↦ undefined
  | some digest ↦ ok (construct_with p fresh info address digest disk)
]

-- The body of the `if` of `write_block`. `block` and `remaining_blocks` are unsigned longs of 64
-- bits.
unfoldable pub store_block : Platform → ℕ → Message → SyncStatus → Result SyncStatus
store_block p block message s = do
  output ← write_to p message (Stream.seekp (block_size * block % 2 ^ 64) s.output)
  ok (record s {
    output = output;
    block_array = set s.block_array block true;
    remaining_blocks = (s.remaining_blocks + 2 ^ 64 - 1) % 2 ^ 64;
  })

-- `write_block(block, message)`; `block_array[block]` behind the end of the vector is undefined.
unfoldable pub write_block : Platform → ℕ → Message → SyncStatus → Result SyncStatus
write_block p block message s = elim (get_elem? s.block_array block) [
  | none ↦ undefined
  | some true ↦ ok s
  | some false ↦ store_block p block message s
]

unfoldable pub set_path : Bytes → SyncStatus → SyncStatus
set_path path s = record s { path = path }

unfoldable pub get_server_address : SyncStatus → Address
get_server_address s = s.server_address

unfoldable pub set_goodbye_received : SyncStatus → SyncStatus
set_goodbye_received s = record s { goodbye_received = true }

-- `transfer_complete()`: closes the file and moves it each time that it answers true.
unfoldable pub transfer_complete : SyncStatus → Disk → Bool × SyncStatus × Disk
transfer_complete s disk =
    if s.remaining_blocks == 0 && not (is_empty s.path)
    then (let (output, disk') = Stream.close s.temp s.output disk in
        (true, record s { output = output }, Stream.rename s.temp s.path disk'))
    else (false, s, disk)

-- `sync_complete()`.
unfoldable pub sync_complete : SyncStatus → Disk → Bool × SyncStatus × Disk
unfolding transfer_complete
sync_complete s disk = if s.goodbye_received then transfer_complete s disk else (false, s, disk)
