-- ===== src/Main/Runs.antt =====
-- What `main` comes to with two arguments, and with none.
use multisync.Base.{◌≡◌, ap, ◌∙◌, some, [], ◌∷◌, ◌++◌, Bytes}
use multisync.Platform.{Platform}
use multisync.Stream.{file_at}
use multisync.HostInfo
use multisync.Message.{of_metadata, type_chello}
use multisync.Socket.{Inet, open_socket}
use multisync.BlockServer.{BlockServer}
use multisync.BlockServer
use multisync.BlockClient.{BlockClient}
use multisync.BlockClient as Client
use multisync.Session.{IsOffer, count, info_packet, packets_from}
use multisync.Session.Serving.{clear_rounds, sent_after}
use multisync.Session.Starting.{offer, Opens, group_address, start_sends}
use multisync.Main.{Environment, served, exit_of, server_exit, group, choose, start_choice, main}

-- With two arguments, whatever they are, `main` serves the file that the first one names, under the
-- path that the second one gives: where that file is there, the socket opens and can be written in
-- every round, and nothing is received, the server ends after one round for each packet, and has
-- sent to port 9000 of the group 228.5.6.7 the announcement and each block of the file, in their
-- order, and nothing else; its queue is empty. Throughout `IsOffer` holds: the path is not empty and
-- fits an announcement, the digest is a text of 33 bytes with its NUL, and the file has at most
-- 4 GiB.
pub main_serves :
    (p : Platform) (inet : Inet) (hex_digest : Bytes → Bytes) (env : Environment)
    (program source path file name : Bytes)
    → file_at source env.disk ≡ some file
    → IsOffer (offer hex_digest file path env.random) name
    → Opens env.opened
    → env.rounds ≡ (
        let o = offer hex_digest file path env.random in
        clear_rounds (info_packet p o ∷ packets_from p o 0 (count o)))
    → let o = offer hex_digest file path env.random in
      (r : BlockServer) × (main p inet hex_digest env (program ∷ source ∷ path ∷ []) ≡ served r [])
      × (r.socket.sent
          ≡ sent_after
              (group_address p inet group 9000)
              (info_packet p o ∷ packets_from p o 0 (count o))
              [])
      × (r.message_queue ≡ [])
unfolding main choose start_choice
main_serves p inet hex_digest env program source path file name there v ops rounds =
    let (r, ends, sent, empty) =
      start_sends p inet hex_digest file path group name 9000 env.random env.unset env.opened v
        ops in
    (
      r,
      ap
            (λ f. exit_of server_exit (
              BlockServer.start p env.opened env.rounds
                (BlockServer.construct p inet hex_digest f path group 9000 env.random env.unset)))
            there
          ∙ ap
              (λ rs. exit_of server_exit (
                BlockServer.start p env.opened rs (
                  BlockServer.construct p inet hex_digest (some file) path group 9000 env.random
                    env.unset)))
              rounds
          ∙ ap (exit_of server_exit) ends,
      sent,
      empty,
    )

-- The client of `main` when its `start` has come to the loop.
abbrev begun : Platform → Inet → Environment → BlockClient
begun p inet env =
    let c = Client.construct p inet group 9000 env.pid env.junk env.unset env.disk in
    record c {
      socket = (open_socket env.opened c.socket).1;
      message_queue =
          c.message_queue ++ (of_metadata p (HostInfo.pod p) c.id type_chello c.info ∷ []);
    }
