-- ===== src/Session.antt =====
-- A server of one file and a client, over a network that loses, repeats and reorders datagrams
-- (src/blockserver.cpp, src/blockclient.cpp and the sockets of both).
pub mod Packets
pub mod Serving
pub mod Sending
pub mod Starting
pub mod Receiving
pub mod Tracking
pub mod Publishing
pub mod Hearing
pub mod Client
pub mod Server
pub mod Rounds
pub mod Station
pub mod System
pub mod Safety
pub mod Completion
pub mod Exchange
pub mod Account
pub mod Replies
pub mod Arrival
pub mod Staying
pub mod Waiting
pub mod Parting
pub mod Draining
pub mod Stalling
pub mod Skipping
pub mod Farewell
pub mod Traffic
pub mod Crowd
use multisync.Base.{ℕ, zero, suc, ◌+◌, ◌≤◌, ◌<◌, ◌^◌, ◌≡◌, ◌≢◌, some, List, [], ◌∷◌, Bytes, length}
use multisync.Platform.{Platform}
use multisync.FileInfo.{FileInfo, count_blocks}
use multisync.FileInfo
use multisync.BlockServer.Blocks.{block_packet, file_of}
use multisync.Message.{type_info}
use multisync.Message.Packet.{packet}
use multisync.SyncStatus.{c_string}

-- What a server offers: its id, the digest and the bytes of its file, and the path it announces.
pub record Offer : Type 0 where
  pub id : ℕ
  pub digest : Bytes
  pub path : Bytes
  pub file : Bytes

-- The digest is a text of a `char[33]`; the announcement fits the buffer of a receiver, and the
-- file an unsigned int.
pub record IsOffer (o : Offer) (name : Bytes) : Type 0 where
  pub digest_size : length o.digest ≡ 33
  pub digest_text : c_string o.digest ≡ some name
  pub path-ne : o.path ≢ []
  pub path_size : length o.path ≤ 4056
  pub file_size : length o.file ≤ 2 ^ 32

abbrev pub count : Offer → ℕ
count o = count_blocks (some o.file)

-- The buffers of the two kinds of messages that the server on host `p` sends.
abbrev pub info_packet : Platform → Offer → Bytes
info_packet p o =
    packet p o.id type_info ((FileInfo.pod p).object (file_of p o.digest (count o))) o.path

abbrev pub packet_of : Platform → Offer → ℕ → Bytes
packet_of p o b = block_packet p o.id (file_of p o.digest (count o)) b o.file

-- The blocks from `b` on, `n` of them.
abbrev pub packets_from : Platform → Offer → ℕ → ℕ → List Bytes
packets_from p o b zero = []
packets_from p o b (suc n) = packet_of p o b ∷ packets_from p o (b + 1) n
