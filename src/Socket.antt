-- ===== src/Socket.antt =====
-- src/blocksocket.cpp and include/blocksocket.hpp: the UDP socket that both ends use. What the
-- operating system answers is an argument of each call. Of the buffers that it is handed the model
-- keeps the packets sent and the descriptors closed. `port` is a member that nothing sets or reads.
pub mod Transport
pub mod Polling
use multisync.Base.{
  ℕ, suc, ◌+◌, ◌*◌, ◌/◌, ◌%◌, ◌^◌, ◌<◌, ◌≡◌, Bool, true, false, ◌&&◌, Option, none, some, List, [],
  ◌∷◌, Bytes, length, take, leb, ltb, ◌==◌, if◌then◌else◌, Result, ok, throw, undefined, ◌>>=◌,
  ◌>>◌, require, in_bounds, system_error, zero_bytes, invalid_packet_length,
}
use multisync.Platform.{Platform}
use multisync.Platform.Memory.{overwrite}
use multisync.Message.{Message, get_packet_length, sizeof_header, resize}

-- A `long` or an `int`: `negative n` is -(n + 1).
pub data Signed : Type 0 where
  positive : ℕ → Signed
  negative : ℕ → Signed

-- `struct Address`.
pub record Address : Type 0 where
  pub ip_address : Bytes
  pub port : ℕ

-- The two fields of a `sockaddr_in` that the sources use, as they lie in memory.
pub record SocketAddress : Type 0 where
  pub s_addr : ℕ
  pub sin_port : ℕ

-- `inet_addr` and `inet_ntoa` of <arpa/inet.h>: the second prints an address so that the first
-- reads it back.
pub record Inet : Type 0 where
  pub inet_addr : Bytes → ℕ
  pub inet_ntoa : ℕ → Bytes
  pub inet_addr-ntoa : (a : ℕ) → a < 2 ^ 32 → inet_addr (inet_ntoa a) ≡ a

-- `sock` is `none` for INVALID_SOCKET. `sent` holds the datagrams sent and `closed` the descriptors
-- given back, the last first.
pub record BlockSocket : Type 0 where
  pub sock : Option ℕ
  pub group : SocketAddress
  pub from : SocketAddress
  pub to : SocketAddress
  pub timeout : Signed
  pub sent : List (SocketAddress × Bytes)
  pub closed : List ℕ

pub data Status : Type 0 where
  read write both none_ready : Status

module _ (p : Platform) (inet : Inet) where
  -- The constructor sets no `from`: `unset` is what stands there.
  unfoldable pub construct : Bytes → ℕ → SocketAddress → BlockSocket
  construct group port unset =
      let address : SocketAddress = record {
        s_addr = inet.inet_addr group;
        sin_port = p.htons port;
      } in
      record {
        sock = none;
        group = address;
        from = unset;
        to = address;
        timeout = positive 5000;
        sent = [];
        closed = [];
      }

  -- `operator>>(Address&)`.
  unfoldable pub get_address : BlockSocket → Address
  get_address s = record {
    ip_address = inet.inet_ntoa s.from.s_addr;
    port = p.ntohs s.from.sin_port;
  }

  -- `operator<<(const Address&)`.
  unfoldable pub set_address : Address → BlockSocket → BlockSocket
  set_address a s = record s {
    to = record { s_addr = inet.inet_addr a.ip_address; sin_port = p.htons a.port };
  }

-- What the four system calls of `open` answer: a descriptor or -1, and whether each later one
-- succeeds.
pub record OpenReply : Type 0 where
  pub descriptor : Option ℕ
  pub joined : Bool
  pub is_bound : Bool
  pub is_named : Bool

-- The calls after `socket`, in turn.
abbrev pub configure : OpenReply → Result (Unit {0})
configure r = do
  require r.joined system_error
  require r.is_bound system_error
  require r.is_named system_error

-- `open()`. What throws later leaves the new descriptor in `sock`.
unfoldable pub open_socket : OpenReply → BlockSocket → Result (Unit {0}) × BlockSocket
open_socket r s = elim r.descriptor [
  | none ↦ (throw system_error, record s { sock = none })
  | some fd ↦ (configure r, record s { sock = some fd })
]

-- `close()`.
unfoldable pub close : BlockSocket → BlockSocket
close s = elim s.sock [ none ↦ s | some fd ↦ record s { sock = none; closed = fd ∷ s.closed } ]

-- `~BlockSocket()`.
unfoldable pub destroy : BlockSocket → BlockSocket
unfolding close
destroy s = elim s.sock [ none ↦ s | some fd ↦ close s ]

unfoldable pub set_timeout : Signed → BlockSocket → BlockSocket
set_timeout timeout s = record s { timeout = timeout }

-- The `timeval` that `select` hands over: seconds and microseconds, none for a negative timeout.
unfoldable pub time_limit : Signed → Option (ℕ × ℕ)
time_limit (positive n) = some (n / 1000, n % 1000 * 1000)
time_limit (negative n) = none

-- `FD_ISSET(sock, &writefds)` after the call: a set that was not handed over is still as filled.
abbrev pub write_set : Bool → Bool → Bool
write_set polled writable = if polled then writable else true

-- The branches on what `::select` returned, with the set for reading and the one for writing.
unfoldable pub select_status : Bool → Signed → Bool → Bool → Result Status
select_status polled (negative n) readable writable = throw system_error
select_status polled (positive n) readable writable =
    if ltb 0 n
    then (if readable && (write_set polled writable && polled)
        then ok both
        else if readable
        then ok read
        else if write_set polled writable
        then ok write
        else ok none_ready)
    else ok none_ready

-- What `recvfrom` answers: an error, or the datagram that is next, with its sender.
pub data ReceiveReply : Type 0 where
  receive_failed : ReceiveReply
  datagram : SocketAddress → Bytes → ReceiveReply

-- What `sendto` answers: an error, or the number of bytes sent.
pub data SendReply : Type 0 where
  send_failed : SendReply
  sent_bytes : ℕ → SendReply

module _ (p : Platform) where
  -- After `recvfrom` stored `n` bytes in `buffer`. A header of fewer than 16 bytes lies past the
  -- end of the vector.
  unfoldable pub accept : Message → Bytes → ℕ → Result Message
  accept m stored n = do
    require (ltb 0 n) zero_bytes
    let trimmed : Bytes = resize stored n
    in_bounds (leb sizeof_header n)
    require (get_packet_length p trimmed == n) invalid_packet_length
    ok (record m { buffer = trimmed })

  -- `operator>>(Message&)`. A datagram that is longer than the buffer is cut to its size.
  unfoldable pub receive : ReceiveReply → Message → BlockSocket → Result (Message × BlockSocket)
  receive receive_failed m s = throw system_error
  receive (datagram from bytes) m s = do
    let got : Bytes = take (length m.buffer) bytes
    m' ← accept m (overwrite m.buffer 0 got) (length got)
    ok (m', record s { from = from })

  -- `operator<<(const Message&)`: the datagram is on its way when the lengths are compared.
  unfoldable pub send : SendReply → Message → BlockSocket → Result BlockSocket
  send send_failed m s = throw system_error
  send (sent_bytes n) m s = do
    require (ltb 0 n) zero_bytes
    in_bounds (leb sizeof_header (length m.buffer))
    require (get_packet_length p m.buffer == n) invalid_packet_length
    ok (record s { sent = (s.to, m.buffer) ∷ s.sent })
