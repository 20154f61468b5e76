-- ===== src/Examples/Programs.antt =====
-- `main` and its trial loops at concrete inputs.
use multisync.Base.{◌≡◌, ◌++◌, refl, false, true, some, [], ◌∷◌, ok}
use multisync.Platform.Hosts.{x86, powerpc}
use multisync.Stream.{file_at, bytes_eq}
use multisync.Socket.{positive, ReceiveReply, SendReply, select_status}
use multisync.BlockServer
use multisync.Session.Receiving.{announcement, block}
use multisync.Session.Serving.{clear_rounds, sent_after}
use multisync.Session.Starting.{group_address}
use multisync.Session.Completion.{hear_round, hear_rounds}
use multisync.Session.Farewell.{farewell}
use multisync.BlockClient.{BlockClient}
use multisync.Main.{Trial, Environment, served, group, main, test, test_round, listen, type_line}
use multisync.Main.Loops.{test_silent, listen_prints, read_rounds}
use multisync.Main.Runs.{main_serves}
use multisync.Examples.{file, name, peer, printed, socket}
use multisync.Examples.Network.{
  hex, shared, digest_name, shared-IsOffer, opened, opened-Opens, packets, fresh, mixed,
}

abbrev trial : Trial
trial = record { socket = socket; lines = [] }

-- A round in which the socket could be written.
abbrev writable_round : BlockServer.Event
writable_round = record {
  selected = positive 0;
  readable = false;
  writable = true;
  received = ReceiveReply.receive_failed;
  sent = SendReply.sent_bytes 33;
}

trial_goes_on : test x86 7 (writable_round ∷ []) trial ≡ ok trial
unfolding test test_round select_status
trial_goes_on = refl

test_silent_example : trial.socket.sent ≡ trial.socket.sent
test_silent_example = test_silent x86 7 (writable_round ∷ []) trial trial (refl, tt) trial_goes_on

listen_prints_example :
    (t' : Trial) × (listen powerpc (read_rounds x86 shared peer (announcement ∷ block 1 ∷ [])) trial
      ≡ ok t')
    × (t'.lines ≡ type_line 1 ∷ type_line 0 ∷ [])
listen_prints_example =
    listen_prints x86 powerpc shared digest_name peer (announcement ∷ block 1 ∷ []) trial
      shared-IsOffer

-- The file is on disk as "s".
abbrev environment : Environment
environment = record {
  disk = (b's' ∷ [], file) ∷ [];
  opened = opened;
  rounds = clear_rounds packets;
  client_rounds =
      hear_rounds x86 shared peer mixed
      ++ (hear_round peer fresh (farewell x86 shared (3 ∷ 4 ∷ [])) ∷ []);
  random = 9;
  pid = 70;
  junk = 3;
  unset = peer;
}

source_there : file_at (b's' ∷ []) environment.disk ≡ some file
unfolding file_at bytes_eq
source_there = refl

main_serves_example :
    (r : BlockServer.BlockServer) × (main x86 printed hex environment
        ((b'm' ∷ []) ∷ (b's' ∷ []) ∷ name ∷ [])
      ≡ served r [])
    × (r.socket.sent ≡ sent_after (group_address x86 printed group 9000) packets [])
    × (r.message_queue ≡ [])
main_serves_example =
    main_serves x86 printed hex environment (b'm' ∷ []) (b's' ∷ []) name file digest_name
      source_there shared-IsOffer opened-Opens refl
