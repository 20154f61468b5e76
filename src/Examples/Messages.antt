-- ===== src/Examples/Messages.antt =====
-- Messages and sockets at concrete inputs: an x86 and a PowerPC host.
use multisync.Base.{◌≡◌, refl, [], ◌∷◌, ◌++◌, Bytes, length, take, arith, ok, undefined}
use multisync.Platform.Hosts.{x86, powerpc}
use multisync.HostInfo
use multisync.HostInfo.{HostInfo}
use multisync.Message.{
  Message, input, of_metadata_text, for_input, get_type, get_length, get_text, get_metadata,
  get_packet_length,
}
use multisync.Message.Packet.{packet}
use multisync.Message.Wire.{of_metadata_text-received}
use multisync.Socket
use multisync.Socket.{BlockSocket, send, receive, sent_bytes, datagram}
use multisync.Socket.Transport.{send-receive, receive_text, receive_wrapped}
use multisync.Examples.{text, socket, peer}

abbrev host : HostInfo
host = record { id = 5 }

abbrev sent : Message
sent = of_metadata_text x86 (HostInfo.pod x86) 9 6 host text

host_size : ((HostInfo.pod x86).sizeof ≡ 4) × ((HostInfo.pod powerpc).sizeof ≡ 4)
unfolding HostInfo.pod
host_size = (refl, refl)

host-IsValue : (HostInfo.pod x86).IsValue host
unfolding HostInfo.pod
host-IsValue = omega arith

of_metadata_text-received_example :
    (get_type powerpc sent ≡ 6)
    × (get_length powerpc sent ≡ length text)
    × (get_text powerpc sent ≡ ok text)
    × (get_metadata powerpc (HostInfo.pod powerpc) sent
        ≡ ok ((HostInfo.pod powerpc).value ((HostInfo.pod x86).object host ++ text)))
of_metadata_text-received_example =
    of_metadata_text-received x86 powerpc (HostInfo.pod x86) (HostInfo.pod powerpc) 9 6 host text
      sent host-IsValue (omega (arith, host_size)) (omega (arith, host_size)) (omega arith)
      (omega arith) refl

-- A message with a text of three bytes.
abbrev small : Message
small = record { buffer = packet x86 9 6 [] text; direction = input }

send-receive_example :
    (send x86 (sent_bytes 19) small socket
      ≡ ok (record socket { sent = (socket.to, small.buffer) ∷ socket.sent }))
    × (receive powerpc (datagram peer small.buffer) (for_input powerpc 4096) socket
        ≡ ok (
          record (for_input powerpc 4096) { buffer = small.buffer },
          record socket { from = peer },
        ))
send-receive_example =
    send-receive x86 powerpc 9 6 [] text small socket socket peer refl (omega arith)

-- A buffer of 19 bytes, to receive into.
abbrev space : Message
space = record { buffer = packet x86 0 0 [] text; direction = input }

small-received :
    receive powerpc (datagram peer small.buffer) space socket
    ≡ ok (record space { buffer = small.buffer }, record socket { from = peer })
unfolding receive Socket.accept get_packet_length
small-received = refl

receive_text_example :
    (body : Bytes) × (get_text powerpc (record space { buffer = small.buffer }) ≡ ok body)
    × (length body ≡ get_length powerpc (record space { buffer = small.buffer }))
    × (small.buffer ≡ take (length space.buffer) small.buffer)
unfolding get_length
receive_text_example =
    receive_text powerpc peer small.buffer space (record space { buffer = small.buffer }) socket
      (record socket { from = peer }) small-received (omega arith)

-- A header whose data begin 4 bytes behind its end, and whose length is 2^32 - 4.
abbrev wrapped : Bytes
wrapped = 0 ∷ 0 ∷ 0 ∷ 6 ∷ 255 ∷ 255 ∷ 255 ∷ 252 ∷ 0 ∷ 0 ∷ 0 ∷ 9 ∷ 0 ∷ 20 ∷ 0 ∷ 0 ∷ []

receive_wrapped_example :
    (receive powerpc (datagram peer wrapped) space socket
      ≡ ok (record space { buffer = wrapped }, record socket { from = peer }))
    × (get_text powerpc (record space { buffer = wrapped }) ≡ undefined)
receive_wrapped_example =
    receive_wrapped powerpc peer wrapped space socket 4 (omega arith) (omega arith) (omega arith)
      refl refl
