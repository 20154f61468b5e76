-- ===== src/Session/Hearing.antt =====
-- The client's round with one datagram of the server.
use multisync.Base.{◌≡◌, refl, sym, ap, subst, ◌∙◌, Bool, Bytes, arith, Result, ok, ◌>>=◌}
use multisync.Platform.{Platform}
use multisync.Stream.{file_at}
use multisync.Message.{Message, for_input, get_type}
use multisync.Socket.{SocketAddress, Address, Inet, ReceiveReply, receive, get_address}
use multisync.Socket.Transport.{receive_ok, length-for_input}
use multisync.SyncStatus.{SyncStatus, Fresh}
use multisync.BlockClient.{BlockClient, Event, find_handler, finish, dispatch, process_message}
use multisync.Session.{Offer, IsOffer}
use multisync.Session.Packets.{Fits, info_packet-Fits, packet_of-Fits}
use multisync.Session.Receiving.{
  Datagram, announcement, block, bytes_of, IsOf, here, update, Knows, dispatch-handled, updated,
}
use multisync.Session.Tracking.{Clean, Tracks, KnownBy, found}
use multisync.Session.Publishing.{Ended, ended}

pub bytes_of-Fits :
    (p : Platform) (o : Offer) {name : Bytes} (v : IsOffer o name) (d : Datagram)
    → Fits (bytes_of p o d)
bytes_of-Fits p o v announcement = info_packet-Fits p o v
bytes_of-Fits p o v (block b) = packet_of-Fits p o v b

-- A packet that fits is received as it is, and dispatched.
pub process_dispatch :
    (q : Platform) (inet : Inet) (a : SocketAddress) (bytes : Bytes) (e : Event) (c : BlockClient)
    → Fits bytes
    → e.received ≡ ReceiveReply.datagram a bytes
    → let m : Message = record (for_input q 4096) { buffer = bytes } in
      let socket = record c.socket { from = a } in
      process_message q inet e c
      ≡ dispatch q
          (find_handler (get_type q m))
          e.fresh
          m
          (get_address q inet socket)
          (record c { socket = socket })
unfolding process_message
process_dispatch q inet a bytes e c f hears =
    ap
      (λ z. z >>= λ x.
        dispatch q (find_handler (get_type q x.0)) e.fresh x.0 (get_address q inet x.1)
          (record c { socket = x.1 }))
      (ap (λ z. receive q z (for_input q 4096) c.socket) hears
        ∙ receive_ok q a bytes (for_input q 4096) c.socket
            (omega (arith, f.at_most, length-for_input q 4096)) f.at_least (f.told q))

-- What comes of the client `c` when `result` is its state after the datagram `d`.
abbrev pub Heard :
    Platform → Offer → (Bool → Type 0) → Datagram → BlockClient → Result BlockClient → Type 0
Heard q o P d c result =
    (s : SyncStatus) × (c' : BlockClient) × (result ≡ ok (finish (here q o) s c'))
    × Ended q o P s c'
    × (file_at o.path c'.disk ≡ file_at o.path c.disk)
    × Knows o d s
    × ((d' : Datagram) → KnownBy q o d' c.sync_set → Knows o d' s)

module _ (p q : Platform) (o : Offer) {name : Bytes} (v : IsOffer o name) (P : Bool → Type 0) where
  pub dispatched :
      (fresh : Fresh) (a : Address) (m : Message) (d : Datagram) (c : BlockClient)
      → Clean o name P fresh
      → IsOf o d
      → m.buffer ≡ bytes_of p o d
      → Tracks q o P c.sync_set
      → Heard q o P d c (dispatch q (find_handler (get_type q m)) fresh m a c)
  dispatched fresh a m d c clean h e t =
      let (s, c', got, w, disk, known) = found q o v P fresh a c clean t in
      let (s', upd, w', taken, kept, goodbye, takes) = updated p q o v d m s h e w.follows in
      (
        s',
        c',
        dispatch-handled p q o v fresh a m c d h e
            ∙ ap (λ r. r >>= λ x. update q o d m x.0 >>= λ z. ok (finish (here q o) z x.1)) got
            ∙ ap (λ r. r >>= λ z. ok (finish (here q o) z c')) upd,
        ended q o P s' s c' v w' (subst P (sym goodbye) w.bit) w.alone,
        disk,
        taken,
        λ d' k. kept d' (known d' k),
      )

  module _ (inet : Inet) where
    pub processed :
        (e : Event) (a : SocketAddress) (d : Datagram) (c : BlockClient)
        → Clean o name P e.fresh
        → IsOf o d
        → e.received ≡ ReceiveReply.datagram a (bytes_of p o d)
        → Tracks q o P c.sync_set
        → Heard q o P d c (process_message q inet e c)
    processed e a d c clean h hears t =
        let m = record (for_input q 4096) { buffer = bytes_of p o d } in
        let socket = record c.socket { from = a } in
        let (s, c', r, end, disk, taken, known) =
          dispatched e.fresh (get_address q inet socket) m d (record c { socket = socket }) clean h
            refl t in
        (
          s,
          c',
          process_dispatch q inet a (bytes_of p o d) e c (bytes_of-Fits p o v d) hears ∙ r,
          end,
          disk,
          taken,
          known,
        )
