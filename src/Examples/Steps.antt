-- ===== src/Examples/Steps.antt =====
-- A round of a server, which sends its announcement, and the round of a client that hears it.
use multisync.Base.{◌≡◌, inl, refl, sym, ap, subst, ◌∙◌, true, [], ◌∷◌, arith, ok}
use multisync.Platform.Hosts.{x86, powerpc}
use multisync.FileInfo.{count_blocks, get_block_count}
use multisync.FileInfo
use multisync.BlockInfo.{to_unsigned, increment}
use multisync.BlockInfo
use multisync.Message.{Message}
use multisync.BlockServer.{BlockServer, offer_block, select}
use multisync.BlockServer
use multisync.BlockClient as Client
use multisync.BlockClient.{BlockClient}
use multisync.Session.{info_packet}
use multisync.Session.Packets.{Fits, info_packet-Fits}
use multisync.Session.Serving.{Serves, block, after_block, offer_ok, clear_round, clear_select}
use multisync.Session.Starting.{started, announcement, announcement_packet, construct-Serves}
use multisync.Session.Receiving.{Datagram}
use multisync.Session.Station.{is_serving}
use multisync.Session.Completion.{took, Took, hear_round}
use multisync.Examples.{file, name, peer, printed}
use multisync.Examples.Network.{
  hex, shared, shared-IsOffer, opened, sender, fresh, fresh-Clean, receiver, two_blocks,
}

abbrev pub begun : BlockServer
begun = started x86 opened sender

serving : Serves x86 shared 0 sender
serving = construct-Serves x86 printed hex file name name 9000 9 peer

begun-Serves : Serves x86 shared 0 begun
begun-Serves = record {
  info = serving.info;
  contents = serving.contents;
  bad = serving.bad;
  good = serving.good;
  named = serving.named;
}

abbrev pub first : Message
first = announcement x86 sender

pub first_packet : first.buffer ≡ info_packet x86 shared
unfolding BlockServer.construct
first_packet = announcement_packet x86 shared sender shared-IsOffer serving refl

first-Fits : Fits first.buffer
first-Fits = subst Fits (sym first_packet) (info_packet-Fits x86 shared shared-IsOffer)

abbrev pub offered : BlockServer
offered = after_block x86 shared shared-IsOffer 0 begun

abbrev pub announced : BlockServer
announced = record offered {
  socket = record begun.socket { sent = (begun.socket.to, first.buffer) ∷ begun.socket.sent };
  message_queue = block x86 shared shared-IsOffer 0 ∷ [];
}

pub serving_first : is_serving x86 begun (BlockInfo.construct x86 sender.file_info 0) ≡ true
unfolding BlockServer.construct FileInfo.construct BlockInfo.construct to_unsigned get_block_count
    count_blocks
serving_first = refl

pub offers_first : offer_block x86 (BlockInfo.construct x86 sender.file_info 0) begun ≡ ok offered
unfolding BlockServer.construct
offers_first =
    ap (λ f. offer_block x86 (BlockInfo.construct x86 f 0) begun) serving.info
    ∙ offer_ok x86 shared shared-IsOffer 0 begun begun-Serves (omega (arith, two_blocks))
        (omega arith)

pub sends_first : select x86 (clear_round first.buffer) offered ≡ ok announced
unfolding BlockServer.construct
sends_first =
    clear_select x86 first (block x86 shared shared-IsOffer 0 ∷ []) offered first-Fits refl

-- The client's round with the announcement.
abbrev pub heard :
    Took x86 powerpc printed shared shared-IsOffer peer Datagram.announcement receiver
      (Client.select powerpc printed (hear_round peer fresh (info_packet x86 shared)) receiver)
heard =
    took x86 powerpc printed shared shared-IsOffer peer Datagram.announcement fresh receiver
      fresh-Clean tt (inl refl)
