-- ===== src/Socket/Transport.antt =====
-- Datagrams between two hosts: what is sent and accepted, and what the accepted header is worth.
use multisync.Base.{
  ℕ, ◌+◌, ◌-◌, ◌^◌, ◌≤◌, ◌<◌, ◌≡◌, refl, sym, ap, ◌∙◌, [], ◌∷◌, Bytes, length, drop, take, arith,
  length-take, length-drop, length-replicate, take_all, ok, undefined, eq→==, lt→ltb,
}
use multisync.Platform.{Platform}
use multisync.Platform.Memory.{overwrite, length-overwrite}
use multisync.Message.{
  Message, resize, header_offset, header_length, get_packet_length, get_text, get_length, for_input,
}
use multisync.Message.Packet.{packet}
use multisync.Message.Fill.{overwrite_front, resize_at}
use multisync.Message.Wire.{
  leb-true, get_text_at, get_text_past, get_packet_length-packet, length-packet,
}
use multisync.Socket.{BlockSocket, SocketAddress, datagram, sent_bytes, accept, receive, send}

pub length-for_input :
    (q : Platform) (reserve : ℕ) → length (for_input q reserve).buffer ≡ reserve + 16
unfolding for_input
length-for_input q reserve = simp length-overwrite (length-replicate {A = ℕ} (reserve + 16) 0)

-- The first bytes of the buffer, cut off where the datagram ends, are the datagram.
pub received_bytes :
    (buffer got : Bytes)
    → length got ≤ length buffer
    → resize (overwrite buffer 0 got) (length got) ≡ got
received_bytes buffer got h =
    ap (λ z. resize z (length got)) (overwrite_front 0 [] got buffer refl h)
    ∙ resize_at (length got) got (drop (length got) buffer) refl

accept_ok :
    (q : Platform) (m : Message) (stored got : Bytes)
    → resize stored (length got) ≡ got
    → 16 ≤ length got
    → get_packet_length q got ≡ length got
    → accept q m stored (length got) ≡ ok (record m { buffer = got })
unfolding accept
accept_ok q m stored got e h k = rw (
  lt→ltb 0 (length got) (omega arith),
  leb-true 16 (length got) h,
  e,
  eq→== (get_packet_length q got) (length got) k,
)

-- A datagram that fits the buffer and whose header tells its length is accepted as it is.
pub receive_ok :
    (q : Platform) (a : SocketAddress) (bytes : Bytes) (m : Message) (s : BlockSocket)
    → length bytes ≤ length m.buffer
    → 16 ≤ length bytes
    → get_packet_length q bytes ≡ length bytes
    → receive q (datagram a bytes) m s ≡ ok (record m { buffer = bytes }, record s { from = a })
unfolding receive
receive_ok q a bytes m s fits h k =
    rw (take_all (length m.buffer) bytes fits) (
      rw
        (accept_ok q m (overwrite m.buffer 0 bytes) bytes (received_bytes m.buffer bytes fits) h k))

pub send_ok :
    (p : Platform) (m : Message) (s : BlockSocket)
    → 16 ≤ length m.buffer
    → get_packet_length p m.buffer ≡ length m.buffer
    → send p (sent_bytes (length m.buffer)) m s ≡ ok (record s { sent = (s.to, m.buffer) ∷ s.sent })
unfolding send
send_ok p m s h k = ground arith

accept_inv :
    (q : Platform) (m m' : Message) (stored : Bytes) (n : ℕ)
    → accept q m stored n ≡ ok m'
    → (16 ≤ n) × (m'.buffer ≡ resize stored n) × (get_packet_length q m'.buffer ≡ n)
unfolding accept
accept_inv q m m' stored n e = ground arith

-- A message whose header tells the length of its buffer, in at most 4112 bytes, crosses: the sender's
-- `operator<<` hands its buffer to the network unchanged, and the receiver's `operator>>`, into a
-- message made for 4096 bytes on any host, accepts that datagram and holds the same buffer.
pub send-receive :
    (p q : Platform) (sender type : ℕ) (metadata body : Bytes) (m : Message) (s s' : BlockSocket)
    (a : SocketAddress)
    → m.buffer ≡ packet p sender type metadata body
    → length m.buffer ≤ 4112
    → (send p (sent_bytes (length m.buffer)) m s
        ≡ ok (record s { sent = (s.to, m.buffer) ∷ s.sent }))
      × (receive q (datagram a m.buffer) (for_input q 4096) s'
          ≡ ok (record (for_input q 4096) { buffer = m.buffer }, record s' { from = a }))
send-receive p q sender type metadata body m s s' a e h =
    let size : length m.buffer ≡ 16 + length metadata + length body =
      ap length e ∙ length-packet p q sender type metadata body in
    let told = λ (r : Platform).
      ap (get_packet_length r) e
      ∙ get_packet_length-packet p r sender type metadata body (omega arith)
          (omega (arith, ap length e))
      ∙ sym (ap length e) in
    (
      send_ok p m s (omega arith) (told p),
      receive_ok q a m.buffer (for_input q 4096) s' (omega (arith, length-for_input q 4096))
          (omega arith) (told q),
    )

receive_inv :
    (q : Platform) (a : SocketAddress) (bytes : Bytes) (m m' : Message) (s s' : BlockSocket)
    → receive q (datagram a bytes) m s ≡ ok (m', s')
    → let got = take (length m.buffer) bytes in
      (accept q m (overwrite m.buffer 0 got) (length got) ≡ ok m') × (s'.from ≡ a)
unfolding receive
receive_inv q a bytes m m' s s' e = ground arith

-- What a successful `operator>>` guarantees where the length that the message's header tells is below
-- 2^32 - 2^16: the message holds the datagram, cut to the buffer's size, and the text lies in the
-- buffer and has exactly that length.
pub receive_text :
    (q : Platform) (a : SocketAddress) (bytes : Bytes) (m m' : Message) (s s' : BlockSocket)
    → receive q (datagram a bytes) m s ≡ ok (m', s')
    → get_length q m' < 2 ^ 32 - 2 ^ 16
    → (text : Bytes) × (get_text q m' ≡ ok text)
      × (length text ≡ get_length q m')
      × (m'.buffer ≡ take (length m.buffer) bytes)
unfolding get_length get_packet_length
receive_text q a bytes m m' s s' e h =
    let got : Bytes = take (length m.buffer) bytes in
    let inv = accept_inv q m m' _ (length got) (receive_inv q a bytes m m' s s' e).0 in
    let held : m'.buffer ≡ got =
      inv.1 ∙ received_bytes m.buffer got (omega (arith, length-take (length m.buffer) bytes)) in
    let off = q.ntohs (header_offset q m'.buffer) in
    let fits : off + q.ntohl (header_length q m'.buffer) ≡ length m'.buffer =
      omega (arith, inv.2, ap length held, q.ntohs-lt (header_offset q m'.buffer)) in
    (
      drop off m'.buffer,
      get_text_at q m' off refl (omega arith),
      omega (arith, length-drop off m'.buffer),
      held,
    )

-- A datagram of at least 16 bytes that fits the buffer, whose offset lies `k` > 0 bytes behind its
-- end and whose length is 2^32 - k, is accepted, since the sum of the two wraps, and reading its
-- text is undefined.
pub receive_wrapped :
    (q : Platform) (a : SocketAddress) (bytes : Bytes) (m : Message) (s : BlockSocket) (k : ℕ)
    → 16 ≤ length bytes
    → length bytes ≤ length m.buffer
    → 0 < k
    → q.ntohs (header_offset q bytes) ≡ length bytes + k
    → q.ntohl (header_length q bytes) ≡ 2 ^ 32 - k
    → (receive q (datagram a bytes) m s ≡ ok (record m { buffer = bytes }, record s { from = a }))
      × (get_text q (record m { buffer = bytes }) ≡ undefined)
unfolding get_packet_length
receive_wrapped q a bytes m s k h fits pos o l = (
  receive_ok q a bytes m s fits h (omega (arith, q.ntohs-lt (header_offset q bytes))),
  get_text_past q (record m { buffer = bytes }) (length bytes + k) o (omega arith),
)
