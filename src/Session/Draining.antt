-- ===== src/Session/Draining.antt =====
-- The second loop of a server that no client has joined.
use multisync.Base.{suc, ◌≡◌, refl, true, List, [], ◌∷◌, Bytes, length, arith, ok, lt→ltb}
use multisync.Platform.{Platform}
use multisync.Message.{Message}
use multisync.BlockServer.{BlockServer, finished, serve_requests, is_busy}
use multisync.Session.Packets.{Fits}
use multisync.Session.Serving.{clear_rounds, sent_after, clear_select}

abbrev pub buffers : List Message → List Bytes
buffers [] = []
buffers (m ∷ ms) = m.buffer ∷ buffers ms

abbrev pub AllFit : List Message → Type 0
AllFit [] = Unit {0}
AllFit (m ∷ ms) = Fits m.buffer × AllFit ms

busy_queue :
    (m : Message) (queue : List Message) (s : BlockServer)
    → s.message_queue ≡ m ∷ queue
    → s.host_info ≡ []
    → is_busy s ≡ true
busy_queue m queue s e none_joined =
    simp (e, none_joined) (rw (lt→ltb 0 (suc (length queue)) (omega arith)) refl)

-- A queue is sent in as many rounds as it has messages. In its second loop a server that no client
-- has joined, whatever messages are in its queue, as long as each has 16 to 4112 bytes and its own
-- length in its header (`Fits`), hears nothing and can write in every round: it comes to the end of the loop, after exactly one round for
-- each message, and has sent all of them in their order.
pub serve_requests_drains :
    (p : Platform) (queue : List Message) (s : BlockServer)
    → AllFit queue
    → s.message_queue ≡ queue
    → s.host_info ≡ []
    → (r : BlockServer) × (serve_requests p (clear_rounds (buffers queue)) s ≡ ok (finished r []))
      × (r.socket.sent ≡ sent_after s.socket.to (buffers queue) s.socket.sent)
unfolding serve_requests
serve_requests_drains p [] s f e none_joined = (s, simp (e, none_joined), refl)
serve_requests_drains p (m ∷ queue) s (f, fs) e none_joined =
    let s' : BlockServer = record s {
      socket = record s.socket { sent = (s.socket.to, m.buffer) ∷ s.socket.sent };
      message_queue = queue;
    } in
    let (r, ends, sent) = serve_requests_drains p queue s' fs refl none_joined in
    (r, rw (busy_queue m queue s e none_joined, clear_select p m queue s f e) ends, sent)
