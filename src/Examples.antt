-- ===== src/Examples.antt =====
-- The theorems at concrete inputs: the data, and below it the examples by part of the program.
mod Messages
mod Server
pub mod Transfer
mod Small
pub mod Network
pub mod Steps
mod Programs
mod Goodbye
mod Stalls
pub mod Traffic
mod Crowd
use multisync.Base.{ℕ, ◌^◌, ◌<◌, ◌≡◌, refl, false, true, some, [], ◌∷◌, ◌++◌, Bytes, replicate}
use multisync.Stream.{Ifstream, Ofstream}
use multisync.FileInfo.{FileInfo}
use multisync.Platform.Hosts.{x86}
use multisync.Message.{Message, of_text}
use multisync.Socket.{
  BlockSocket, SocketAddress, Address, Inet, positive, Signed, ReceiveReply, SendReply,
}
use multisync.SyncStatus.{SyncStatus}
use multisync.SyncStatus.Transfer.{block_of}
use multisync.BlockServer.{BlockServer, Event}

-- A digest of 32 characters and a NUL.
abbrev pub digest : Bytes
digest = replicate 32 b'a' ++ (0 ∷ [])

-- A file of two blocks, the last one short.
abbrev pub file : Bytes
file = replicate 1030 7

abbrev pub text : Bytes
text = 1 ∷ 2 ∷ 3 ∷ []

abbrev pub name : Bytes
name = b'f' ∷ []

abbrev pub group : SocketAddress
group = record { s_addr = 5; sin_port = 6 }

abbrev pub peer : SocketAddress
peer = record { s_addr = 7; sin_port = 8 }

abbrev pub socket : BlockSocket
socket = record {
  sock = some 3;
  group = group;
  from = peer;
  to = group;
  timeout = positive 5000;
  sent = [];
  closed = [];
}

abbrev pub stream : Ifstream
stream = record { contents = file; pos = 0; failbit = false; badbit = false }

abbrev pub server : BlockServer
server = record {
  socket = socket;
  id = 9;
  path = name;
  input = stream;
  host_info = [];
  message_queue = [];
  file_info = record { digest = digest; num_blocks = x86.htonl 2 };
}

-- A round in which the socket can only be written.
abbrev pub write_round : ℕ → Event
write_round n = record {
  selected = positive 1;
  readable = false;
  writable = true;
  received = ReceiveReply.receive_failed;
  sent = SendReply.sent_bytes n;
}

-- A status of a file of two blocks, of which none is there.
abbrev pub status : SyncStatus
status = record {
  temp = b't' ∷ [];
  path = name;
  block_array = false ∷ false ∷ [];
  remaining_blocks = 2;
  output = record { written = []; pos = 0; is_open = true; failbit = false };
  goodbye_received = false;
  server_address = record { ip_address = []; port = 0 };
}

abbrev pub message_of : ℕ → Message
message_of b = of_text x86 0 1 (block_of file b)

-- An address printed as one character, of its number.
abbrev pub printed : Inet
printed = record {
  inet_addr = λ bs. elim bs [ [] ↦ 0 | b ∷ rest ↦ b ];
  inet_ntoa = λ a. a ∷ [];
  inet_addr-ntoa = λ a h. refl;
}

abbrev pub first_byte : Bytes → ℕ
first_byte [] = 0
first_byte (b ∷ bs) = b
