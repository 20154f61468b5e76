-- ===== src/Examples/Network.antt =====
-- A server on an x86 host and a client on a PowerPC host, at concrete inputs.
use multisync.Base.{
  ℕ, zero, suc, ◌<◌, ◌≡◌, ◌≢◌, inl, inr, refl, ap, true, false, some, List, [], ◌∷◌, ◌++◌, Bytes,
  replicate, arith, ok,
}
use multisync.Platform.Hosts.{x86, powerpc}
use multisync.OrderedMap.{find}
use multisync.Stream.{file_at}
use multisync.FileInfo.{count_blocks}
use multisync.FileInfo.Order
use multisync.Socket.{OpenReply}
use multisync.SyncStatus.{SyncStatus, Fresh, transfer_complete, c_string, suffix}
use multisync.BlockServer.{BlockServer, finished, start}
use multisync.BlockServer
use multisync.BlockClient.{BlockClient, run}
use multisync.Session.{Offer, IsOffer, count, info_packet, packets_from}
use multisync.Session.Serving.{clear_rounds, sent_after}
use multisync.Session.Starting.{offer, group_address, Opens, start_sends}
use multisync.Session.Receiving.{Datagram, announcement, block, here}
use multisync.Session.Tracking.{Clean}
use multisync.Session.Completion.{In, Unset, AllClean}
use multisync.Session.Arrival.{file_crosses, hear_packets}
use multisync.Examples.{digest, file, name, peer, socket, printed, first_byte}

abbrev pub hex : Bytes → Bytes
hex bytes = digest

abbrev pub shared : Offer
shared = offer hex file name 9

-- The digest up to its NUL.
abbrev pub digest_name : Bytes
digest_name = replicate 32 b'a'

pub shared-IsOffer : IsOffer shared digest_name
unfolding c_string
shared-IsOffer = record {
  digest_size = refl;
  digest_text = refl;
  path-ne = λ e. cc;
  path_size = omega arith;
  file_size = omega arith;
}

abbrev pub opened : OpenReply
opened = record { descriptor = some 4; joined = true; is_bound = true; is_named = true }

pub opened-Opens : Opens opened
opened-Opens = record { descriptor = (4, refl); joined = refl; is_bound = refl; is_named = refl }

abbrev pub packets : List Bytes
packets = info_packet x86 shared ∷ packets_from x86 shared 0 (count shared)

abbrev pub sender : BlockServer
sender = BlockServer.construct x86 printed hex (some file) name name 9000 9 peer

start_sends_example :
    (r : BlockServer) × (start x86 opened (clear_rounds packets) sender ≡ ok (finished r []))
    × (r.socket.sent ≡ sent_after (group_address x86 printed name 9000) packets [])
    × (r.message_queue ≡ [])
start_sends_example =
    start_sends x86 printed hex file name name digest_name 9000 9 peer opened shared-IsOffer
      opened-Opens

abbrev pub fresh : Fresh
fresh = record { tmpnam = b't' ∷ []; is_opened = true; uninitialised = false }

pub temp_apart : fresh.tmpnam ++ (digest_name ++ suffix) ≢ name
temp_apart e = omega (arith, ap first_byte e)

pub fresh-Clean : Clean shared digest_name Unset fresh
fresh-Clean = record { opens = refl; apart = temp_apart; bit = refl }

-- A client that knows no file.
abbrev pub receiver : BlockClient
receiver = record {
  info = record { id = 1 };
  socket = socket;
  sync_set = [];
  message_queue = [];
  id = 3;
  disk = [];
}

-- The second block, the announcement, the first block and the second one again.
abbrev pub mixed : List (Datagram × Fresh)
mixed = (block 1, fresh) ∷ (announcement, fresh) ∷ (block 0, fresh) ∷ (block 1, fresh) ∷ []

pub two_blocks : count shared ≡ 2
unfolding count_blocks
two_blocks = refl

pub mixed-AllClean : AllClean shared digest_name mixed
mixed-AllClean = (
  omega (arith, two_blocks),
  fresh-Clean,
  (
    tt,
    fresh-Clean,
    (omega (arith, two_blocks), fresh-Clean, (omega (arith, two_blocks), fresh-Clean, tt)),
  ),
)

pub mixed_each : (b : ℕ) → b < count shared → In (block b) mixed
mixed_each zero h = inr (inr (inl refl))
mixed_each (suc zero) h = inl refl
mixed_each (suc (suc b)) h = absurd (omega (arith, two_blocks))

file_crosses_example :
    (r : BlockServer) × (c' : BlockClient) × (s : SyncStatus) × (start x86 opened
        (clear_rounds packets)
        sender
      ≡ ok (finished r []))
    × (r.socket.sent ≡ sent_after (group_address x86 printed name 9000) packets [])
    × (run powerpc printed (hear_packets peer fresh packets) receiver ≡ ok c')
    × (find Order.order (here powerpc shared) c'.sync_set ≡ some s)
    × ((transfer_complete s c'.disk).0 ≡ true)
    × (file_at name (transfer_complete s c'.disk).2 ≡ some file)
file_crosses_example =
    file_crosses x86 powerpc printed hex file name name digest_name 9000 9 peer peer opened fresh
      receiver shared-IsOffer opened-Opens fresh-Clean refl
