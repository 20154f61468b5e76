-- ===== src/Examples/Stalls.antt =====
-- Servers with messages in their queues, one of them at its own announcement while it cannot send.
use multisync.Base.{
  ◌≡◌, ◌≢◌, ◌⊎◌, inl, inr, true, Error, throw, subst, ok-injective, sym, refl, ap, ◌∙◌, none, some,
  List, [], ◌∷◌, Bytes, replicate, arith, ok,
}
use multisync.Platform.Hosts.{x86, powerpc}
use multisync.FileInfo.{count_blocks}
use multisync.Message.{Message, type_info, input}
use multisync.Message.Wire.{get_type-packet}
use multisync.Socket.{ReceiveReply}
use multisync.SyncStatus.{c_string}
use multisync.BlockServer.{
  Event, BlockServer, waiting, select, finished, start, serve_requests, find_handler,
}
use multisync.BlockServer
use multisync.Session.{Offer, IsOffer, count, info_packet, packets_from}
use multisync.Session.Packets.{info_packet-Fits}
use multisync.Session.Serving.{clear_round, clear_select, clear_rounds, sent_after}
use multisync.Session.Starting.{offer, group_address}
use multisync.Session.Stalling.{Ignored, busy_rounds}
use multisync.Session.Account.Runs.{Account, start_accounts}
use multisync.Session.Exchange.{Added, Written, select_exchanges}
use multisync.Session.Waiting.{Counted, Cause}
use multisync.Session.Waiting.Rounds.{serve_requests_waits}
use multisync.Session.Staying.{hello, request_bytes}
use multisync.Session.Draining.{serve_requests_drains}
use multisync.Session.Skipping.{start_skips}
use multisync.Examples.{server, name, peer, printed}
use multisync.Examples.Network.{hex, digest_name, opened, opened-Opens}

-- A file of six blocks.
abbrev large : Bytes
large = replicate 5121 7

abbrev large_offer : Offer
large_offer = offer hex large name 9

large-IsOffer : IsOffer large_offer digest_name
unfolding c_string
large-IsOffer = record {
  digest_size = refl;
  digest_text = refl;
  path-ne = λ e. cc;
  path_size = omega arith;
  file_size = omega arith;
}

six_blocks : count large_offer ≡ 6
unfolding count_blocks
six_blocks = refl

no_handler : find_handler type_info ≡ none
unfolding find_handler
no_handler = refl

announced-Ignored : Ignored x86 (info_packet x86 large_offer)
announced-Ignored = record {
  fits = info_packet-Fits x86 large_offer large-IsOffer;
  unhandled = λ m e.
      ap find_handler (get_type-packet x86 x86 9 type_info _ name m e (omega arith)) ∙ no_handler;
}

abbrev noise : List Bytes
noise = replicate 6 (info_packet x86 large_offer)

-- The rounds in which the queue is full, and then those in which it is sent.
abbrev skipping : List Event
skipping =
    busy_rounds peer noise
      (clear_rounds (info_packet x86 large_offer ∷ packets_from x86 large_offer 0 4))

skipped :
    (r : BlockServer) × (start x86 opened skipping
        (BlockServer.construct x86 printed hex (some large) name name 9000 9 peer)
      ≡ ok (finished r []))
    × (r.socket.sent
        ≡ sent_after
            (group_address x86 printed name 9000)
            (info_packet x86 large_offer ∷ packets_from x86 large_offer 0 4)
            [])
skipped =
    let g = announced-Ignored in
    start_skips x86 printed hex large name name digest_name 9000 9 peer peer opened noise
      large-IsOffer opened-Opens (g, (g, (g, (g, (g, (g, tt)))))) (omega (arith, six_blocks))
      (omega (arith, six_blocks))

start_accounts_example :
    Account x86 large_offer (group_address x86 printed name 9000) (finished skipped.0 [])
start_accounts_example =
    start_accounts x86 printed hex large name name digest_name 9000 9 peer opened skipping
      (finished skipped.0 []) large-IsOffer skipped.1

start_skips_example :
    let packets = info_packet x86 large_offer ∷ packets_from x86 large_offer 0 4 in
    (r : BlockServer) × (start x86 opened
        (busy_rounds peer noise (clear_rounds packets))
        (BlockServer.construct x86 printed hex (some large) name name 9000 9 peer)
      ≡ ok (finished r []))
    × (r.socket.sent ≡ sent_after (group_address x86 printed name 9000) packets [])
start_skips_example =
    let g = announced-Ignored in
    start_skips x86 printed hex large name name digest_name 9000 9 peer peer opened noise
      large-IsOffer opened-Opens (g, (g, (g, (g, (g, (g, tt)))))) (omega (arith, six_blocks))
      (omega (arith, six_blocks))

abbrev greeting : Message
greeting = record { buffer = info_packet x86 large_offer; direction = input }

-- The announcement twice in the queue.
abbrev loaded : BlockServer
loaded = record server { message_queue = greeting ∷ greeting ∷ [] }

serve_requests_drains_example :
    (r : BlockServer) × (serve_requests x86
        (clear_rounds (greeting.buffer ∷ greeting.buffer ∷ []))
        loaded
      ≡ ok (finished r []))
    × (r.socket.sent
        ≡ sent_after loaded.socket.to (greeting.buffer ∷ greeting.buffer ∷ []) loaded.socket.sent)
serve_requests_drains_example =
    let fits = info_packet-Fits x86 large_offer large-IsOffer in
    serve_requests_drains x86 (greeting ∷ greeting ∷ []) loaded (fits, (fits, tt)) refl refl

-- The first of two announcements is sent.
abbrev lighter : BlockServer
lighter = record loaded {
  socket = record loaded.socket { sent = (loaded.socket.to, greeting.buffer) ∷ loaded.socket.sent };
  message_queue = greeting ∷ [];
}

select_exchanges_example :
    (added : List Message) × Added x86 (clear_round greeting.buffer) loaded added
    × Written (clear_round greeting.buffer) loaded added lighter
select_exchanges_example = select_exchanges x86 (clear_round greeting.buffer) loaded lighter refl (
    clear_select x86 greeting (greeting ∷ []) loaded
      (info_packet-Fits x86 large_offer large-IsOffer) refl)

-- A server with a client in its set and the announcement in its queue.
abbrev joined_server : BlockServer
joined_server = record server {
  host_info = (record { id = 1 }, tt) ∷ [];
  message_queue = greeting ∷ [];
}

-- It has sent the announcement.
abbrev relieved : BlockServer
relieved = record joined_server {
  socket = record joined_server.socket {
    sent = (joined_server.socket.to, greeting.buffer) ∷ joined_server.socket.sent;
  };
  message_queue = [];
}

-- The hello of another client is received.
abbrev hello_round : Event
hello_round = record (clear_round []) {
  readable = true;
  received = ReceiveReply.datagram peer (request_bytes powerpc (hello 3 1));
}

abbrev busy_day : List Event
busy_day = clear_round greeting.buffer ∷ hello_round ∷ []

relieves : select x86 (clear_round greeting.buffer) joined_server ≡ ok relieved
relieves =
    clear_select x86 greeting [] joined_server (info_packet-Fits x86 large_offer large-IsOffer) refl

busy_day-Counted : Counted x86 busy_day joined_server
busy_day-Counted = (
  refl,
  λ s' e.
      subst (Counted x86 (hello_round ∷ [])) (ok-injective (sym relieves ∙ e)) (refl, λ t f. tt),
)

serve_requests_waits_example :
    ((s' : BlockServer) × (serve_requests x86 busy_day joined_server ≡ ok (waiting s'))
      × (s'.host_info ≢ []))
    ⊎ (Cause x86 powerpc busy_day joined_server
        × (message : Error) × (serve_requests x86 busy_day joined_server ≡ throw message))
serve_requests_waits_example =
    serve_requests_waits x86 powerpc busy_day joined_server
      (inl refl, (inr (peer, hello 3 1, refl), tt)) busy_day-Counted
      (info_packet-Fits x86 large_offer large-IsOffer, tt) (λ e. cc)
