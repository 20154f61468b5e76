-- ===== src/Session/Arrival.antt =====
-- From the server's `start` to the client's disk.
use multisync.Base.{
  ℕ, zero, suc, ◌+◌, ◌≤◌, ◌<◌, ◌≡◌, refl, sym, ap, subst, ◌∙◌, true, some, List, [], ◌∷◌, Bytes,
  get_elem?, arith, ok, inl, inr,
}
use native.Mathlib.Decide.{ℕ_discrete}
use multisync.Platform.{Platform}
use multisync.OrderedMap.{find}
use multisync.Stream.{file_at}
use multisync.FileInfo.Order
use multisync.Socket.{SocketAddress, Inet, OpenReply}
use multisync.SyncStatus.{SyncStatus, Fresh, transfer_complete}
use multisync.SyncStatus.Progress.{none_missing}
use multisync.BlockServer.{BlockServer, finished, start}
use multisync.BlockServer
use multisync.BlockClient.{BlockClient, run}
use multisync.BlockClient as Client
use multisync.Session.{Offer, IsOffer, count, info_packet, packet_of, packets_from}
use multisync.Session.Serving.{clear_rounds, sent_after}
use multisync.Session.Starting.{offer, group_address, Opens, start_sends}
use multisync.Session.Receiving.{Datagram, announcement, block, here}
use multisync.Session.Tracking.{Clean, Follower, find_alone, only}
use multisync.Session.Publishing.{publishes}
use multisync.Session.Completion.{hear_round, hear_rounds, In, Unset, AllClean, ran}

-- What such datagrams leave: a status that follows the file, with nothing missing and the path known.
pub gathered :
    (p q : Platform) (inet : Inet) (o : Offer) {name : Bytes} (v : IsOffer o name)
    (a : SocketAddress) (ds : List (Datagram × Fresh)) (c : BlockClient)
    → c.sync_set ≡ []
    → AllClean o name ds
    → In announcement ds
    → ((b : ℕ) → b < count o → In (block b) ds)
    → (c' : BlockClient) × (s : SyncStatus) × (run q inet (hear_rounds p o a ds) c ≡ ok c')
      × Follower q o Unset c'.sync_set s
      × (file_at o.path c'.disk ≡ file_at o.path c.disk)
      × (s.remaining_blocks ≡ 0)
      × (s.path ≡ o.path)
gathered p q inet o v a ds c none_known clean told each =
    let (c', r, t, disk, known) = ran p q inet o v a ds c clean (inl none_known) in
    let (s, alone, named) = known announcement (inl told) in
    let follower : Follower q o Unset c'.sync_set s = elim t [
      | inl gone ↦ absurd (cc (gone, alone))
      | inr (s', w) ↦ subst (Follower q o Unset c'.sync_set) (ap (only s') (sym w.alone ∙ alone)) w
    ] in
    let w = follower.follows in
    let marked = λ (b : ℕ) (h : b < count o).
      let (s', alone', mark) = known (block b) (inl (each b h)) in
      subst (λ z. get_elem? z.block_array b ≡ some true) (ap (only s') (sym alone' ∙ alone)) mark in
    (
      c',
      s,
      r,
      follower,
      disk,
      w.valid.counted ∙ none_missing s.block_array (λ b h. marked b (omega (arith, w.sized))),
      named,
    )

-- A client that knows no file hears datagrams of the offer and nothing else, the announcement and
-- each block at least once, in any order and as often as they come, while its temporary files open
-- under other names than the path and the uninitialised bits are false. Then all of its rounds
-- return; it knows the file; the path on its disk is as before; and `transfer_complete` of the
-- file's status answers true and puts the whole file there. Throughout `IsOffer` holds: the path is
-- not empty and fits an announcement, the digest is a text of 33 bytes with its NUL, and the file
-- has at most 4 GiB.
pub run_completes :
    (p q : Platform) (inet : Inet) (o : Offer) (name : Bytes) (a : SocketAddress)
    (ds : List (Datagram × Fresh)) (c : BlockClient)
    → IsOffer o name
    → c.sync_set ≡ []
    → AllClean o name ds
    → In announcement ds
    → ((b : ℕ) → b < count o → In (block b) ds)
    → (c' : BlockClient) × (s : SyncStatus) × (run q inet (hear_rounds p o a ds) c ≡ ok c')
      × (find Order.order (here q o) c'.sync_set ≡ some s)
      × (file_at o.path c'.disk ≡ file_at o.path c.disk)
      × ((transfer_complete s c'.disk).0 ≡ true)
      × (file_at o.path (transfer_complete s c'.disk).2 ≡ some o.file)
run_completes p q inet o name a ds c v none_known clean told each =
    let (c', s, r, w, disk, none_left, named) =
      gathered p q inet o v a ds c none_known clean told each in
    let done = publishes o s c'.disk v w.follows none_left named in
    (
      c',
      s,
      r,
      ap (find Order.order (here q o)) w.alone ∙ find_alone (here q o) s,
      disk,
      done.0,
      done.1,
    )

-- The datagrams of the offer, each once and in the order in which the server sends them.
abbrev blocks_from : Fresh → ℕ → ℕ → List (Datagram × Fresh)
blocks_from fresh b zero = []
blocks_from fresh b (suc n) = (block b, fresh) ∷ blocks_from fresh (b + 1) n

abbrev pub datagrams : Offer → Fresh → List (Datagram × Fresh)
datagrams o fresh = (announcement, fresh) ∷ blocks_from fresh 0 (count o)

blocks-Clean :
    (o : Offer) (name : Bytes) (fresh : Fresh) (n b : ℕ)
    → Clean o name Unset fresh
    → b + n ≡ count o
    → AllClean o name (blocks_from fresh b n)
blocks-Clean o name fresh zero b clean e = tt
blocks-Clean o name fresh (suc n) b clean e =
    (omega arith, clean, blocks-Clean o name fresh n (b + 1) clean (omega arith))

blocks_each : (fresh : Fresh) (n b i : ℕ) → b ≤ i → i < b + n → In (block i) (blocks_from fresh b n)
blocks_each fresh zero b i h k = absurd (omega arith)
blocks_each fresh (suc n) b i h k = elim (ℕ_discrete i b) [
  | yes same ↦ inl (ap block same)
  | no more ↦ inr (blocks_each fresh n (b + 1) i (omega arith) (omega arith))
]

abbrev pub hear_packets : SocketAddress → Fresh → List Bytes → List Client.Event
hear_packets a fresh [] = []
hear_packets a fresh (bytes ∷ packets) = hear_round a fresh bytes ∷ hear_packets a fresh packets

same_blocks :
    (p : Platform) (o : Offer) (a : SocketAddress) (fresh : Fresh) (n b : ℕ)
    → hear_packets a fresh (packets_from p o b n) ≡ hear_rounds p o a (blocks_from fresh b n)
same_blocks p o a fresh zero b = refl
same_blocks p o a fresh (suc n) b =
    ap (◌∷◌ (hear_round a fresh (packet_of p o b))) (same_blocks p o a fresh n (b + 1))

same_rounds :
    (p : Platform) (o : Offer) (a : SocketAddress) (fresh : Fresh)
    → hear_packets a fresh (info_packet p o ∷ packets_from p o 0 (count o))
      ≡ hear_rounds p o a (datagrams o fresh)
same_rounds p o a fresh =
    ap (◌∷◌ (hear_round a fresh (info_packet p o))) (same_blocks p o a fresh (count o) 0)

-- A file crosses from end to end. A server is constructed for a file of at most 4 GiB, its socket
-- opens and can be written in every round, and nothing is received: `start` returns, and what it
-- has sent to the group are the packets of the announcement and of each block. A client that knows
-- no file, on a host of any byte order, reads these packets one by one, its temporary files open
-- under other names than the path, and the uninitialised bits are false: its rounds return, and
-- `transfer_complete` of the status that it then has of the file puts under the path the very file
-- of the server. Throughout `IsOffer` holds: the path is not empty and fits an announcement, the
-- digest is a text of 33 bytes with its NUL, and the file has at most 4 GiB.
pub file_crosses :
    (p q : Platform) (inet : Inet) (hex_digest : Bytes → Bytes) (file path group name : Bytes)
    (port random : ℕ) (unset a : SocketAddress) (opened : OpenReply) (fresh : Fresh)
    (c : BlockClient)
    → IsOffer (offer hex_digest file path random) name
    → Opens opened
    → Clean (offer hex_digest file path random) name Unset fresh
    → c.sync_set ≡ []
    → let o = offer hex_digest file path random in
      let packets = info_packet p o ∷ packets_from p o 0 (count o) in
      (r : BlockServer) × (c' : BlockClient) × (s : SyncStatus) × (start p opened
          (clear_rounds packets)
          (BlockServer.construct p inet hex_digest (some file) path group port random unset)
        ≡ ok (finished r []))
      × (r.socket.sent ≡ sent_after (group_address p inet group port) packets [])
      × (run q inet (hear_packets a fresh packets) c ≡ ok c')
      × (find Order.order (here q o) c'.sync_set ≡ some s)
      × ((transfer_complete s c'.disk).0 ≡ true)
      × (file_at path (transfer_complete s c'.disk).2 ≡ some file)
file_crosses p q inet hex_digest file path group name port random unset a opened fresh c v ops clean
      none_known =
    let o = offer hex_digest file path random in
    let (r, ends, sent, empty) =
      start_sends p inet hex_digest file path group name port random unset opened v ops in
    let (c', s, ran, found, disk, done, whole) =
      run_completes p q inet o name a (datagrams o fresh) c v none_known
        (tt, clean, blocks-Clean o name fresh (count o) 0 clean (omega arith)) (inl refl)
        (λ b h. inr (blocks_each fresh (count o) 0 b (omega arith) (omega arith))) in
    (
      r,
      c',
      s,
      ends,
      sent,
      ap (λ es. run q inet es c) (same_rounds p o a fresh) ∙ ran,
      found,
      done,
      whole,
    )
