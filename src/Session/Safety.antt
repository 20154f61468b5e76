-- ===== src/Session/Safety.antt =====
-- What a server and a client reach from the start: the file appears whole or not at all.
use multisync.Base.{ℕ, ◌≡◌, refl, Bool, false, some, [], Bytes, ◌⊎◌, inl, inr}
use multisync.Platform.{Platform}
use multisync.Stream.{file_at}
use multisync.BlockInfo
use multisync.Socket.{SocketAddress, Inet, OpenReply}
use multisync.BlockServer.{BlockServer}
use multisync.BlockServer
use multisync.BlockClient.{BlockClient}
use multisync.Session.{IsOffer}
use multisync.Session.Starting.{started, offer}
use multisync.Session.Tracking.{Tracks}
use multisync.Session.Server.{AllSent}
use multisync.Session.Station.{started-IsStation}
use multisync.Session.System.{System, Reach, Invariant, Reach-Invariant}

-- The server once `start` has opened its socket and queued the announcement, and a client.
abbrev pub initial : Platform → OpenReply → BlockServer → BlockClient → System
initial p opened s c = record {
  server = started p opened s;
  next = BlockInfo.construct p s.file_info 0;
  client = c;
}

-- A server that is constructed for the offer, and a client that knows no file.
initial-Invariant :
    (p q : Platform) (inet : Inet) (hex_digest : Bytes → Bytes) (file path group name : Bytes)
    (port random : ℕ) (unset : SocketAddress) (opened : OpenReply) (P : Bool → Type 0)
    (c : BlockClient)
    → IsOffer (offer hex_digest file path random) name
    → c.sync_set ≡ []
    → Invariant p q (offer hex_digest file path random) P (file_at path c.disk) (
        initial p opened
          (BlockServer.construct p inet hex_digest (some file) path group port random unset)
          c)
initial-Invariant p q inet hex_digest file path group name port random unset opened P c v
      none_known =
    record {
      station = started-IsStation p inet hex_digest file path group port random unset opened v;
      safe = (inl none_known, inl refl);
    }

-- The file appears whole or not at all. A server that is constructed for a file has started, with
-- any requests reaching it. A client that knows no file reads datagrams that the server has sent,
-- lost, late, repeated or in any order, and such of other senders whose type it has no handler for;
-- its temporary files open under other names than the path. In every state that they reach by
-- rounds that return, the path on the client's disk holds what it held at first or the whole file;
-- a status of the client agrees with the file on every block that it marks; and the server has sent
-- nothing but its announcement and the blocks of its file. Throughout `IsOffer` holds: the path is
-- not empty and fits an announcement, the digest is a text of 33 bytes with its NUL, and the file
-- has at most 4 GiB.
pub path_whole :
    (p q : Platform) (inet : Inet) (hex_digest : Bytes → Bytes) (file path group name : Bytes)
    (port random : ℕ) (unset : SocketAddress) (opened : OpenReply) (c : BlockClient) (t : System)
    → IsOffer (offer hex_digest file path random) name
    → c.sync_set ≡ []
    → Reach p q inet
        (offer hex_digest file path random)
        name
        (λ b. Unit {0})
        (initial p opened
          (BlockServer.construct p inet hex_digest (some file) path group port random unset)
          c)
        t
    → ((file_at path t.client.disk ≡ file_at path c.disk)
        ⊎ (file_at path t.client.disk ≡ some file))
      × Tracks q (offer hex_digest file path random) (λ b. Unit {0}) t.client.sync_set
      × AllSent p (offer hex_digest file path random) t.server.socket.sent
path_whole p q inet hex_digest file path group name port random unset opened c t v none_known r =
    let o = offer hex_digest file path random in
    let i =
      Reach-Invariant p q inet o v (λ b. Unit {0}) (file_at path c.disk)
        (initial-Invariant p q inet hex_digest file path group name port random unset opened
          (λ b. Unit {0}) c v none_known)
        r in
    (
      elim i.safe.1 [ inl held ↦ inl held | inr whole ↦ inr whole.0 ],
      i.safe.0,
      i.station.keeps.sent,
    )

-- A client that knows no file and reads datagrams of one server, and such of other senders whose
-- type it has no handler for, never puts the file under its path: where the bit that a status
-- begins with, which is never initialised, happens to be false, and the temporary files open under
-- other names, the path holds in every state that is reached by rounds that return what it held at
-- first. Throughout `IsOffer` holds: the path is not empty and fits an announcement, the digest is
-- a text of 33 bytes with its NUL, and the file has at most 4 GiB.
pub path_waits :
    (p q : Platform) (inet : Inet) (hex_digest : Bytes → Bytes) (file path group name : Bytes)
    (port random : ℕ) (unset : SocketAddress) (opened : OpenReply) (c : BlockClient) (t : System)
    → IsOffer (offer hex_digest file path random) name
    → c.sync_set ≡ []
    → Reach p q inet
        (offer hex_digest file path random)
        name
        (λ b. b ≡ false)
        (initial p opened
          (BlockServer.construct p inet hex_digest (some file) path group port random unset)
          c)
        t
    → file_at path t.client.disk ≡ file_at path c.disk
path_waits p q inet hex_digest file path group name port random unset opened c t v none_known r =
    let o = offer hex_digest file path random in
    let i =
      Reach-Invariant p q inet o v (λ b. b ≡ false) (file_at path c.disk)
        (initial-Invariant p q inet hex_digest file path group name port random unset opened
          (λ b. b ≡ false) c v none_known)
        r in
    elim i.safe.1 [ inl held ↦ held | inr whole ↦ absurd (cc whole.1) ]
