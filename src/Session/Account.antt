-- ===== src/Session/Account.antt =====
-- What a server sends, whatever reaches it: its queue loses nothing and changes no order.
pub mod Rounds
pub mod Runs
use multisync.Base.{
  ℕ, ◌+◌, ◌<◌, ◌≡◌, refl, sym, ap, subst, ◌∙◌, Bool, true, false, List, [], ◌∷◌, ◌++◌, Bytes,
  length, ltb, arith, ok, ◌>>=◌, >>=-eq-ok, ok-injective, inl, inr, if◌then◌else◌, Bool-cases,
  ltb→lt,
}
use multisync.Platform.{Platform}
use multisync.BlockInfo
use multisync.Message.{Message}
use multisync.Socket.{SocketAddress, select_status}
use multisync.Socket.Polling.{can_read, can_write}
use multisync.BlockServer.{BlockServer, Event, offer_block, send_front, select, process_message}
use multisync.BlockServer.Blocks.{file_of}
use multisync.Session.{Offer, IsOffer, count, info_packet, packet_of}
use multisync.Session.Serving.{sent_after, block, offer_ok}
use multisync.Session.Starting.{announcement, announcement_packet}
use multisync.Session.Server.{Keeps, Answers, process_message-Answers, process_message-Keeps}
use multisync.Session.Rounds.{skipped, send_front_cases}
use multisync.Session.Draining.{buffers}

-- One decision of a server about its queue: the next block goes in, it is left out, or a request
-- for the announcement is answered.
pub data Turn : Type 0 where
  queues skips answers : Turn

-- What goes into the queue, from block `i` on.
abbrev pub queued_by : Platform → Offer → ℕ → List Turn → List Bytes
queued_by p o i [] = []
queued_by p o i (queues ∷ turns) = packet_of p o i ∷ queued_by p o (i + 1) turns
queued_by p o i (skips ∷ turns) = queued_by p o (i + 1) turns
queued_by p o i (answers ∷ turns) = info_packet p o ∷ queued_by p o i turns

-- How many blocks have had their turn.
abbrev pub passed : List Turn → ℕ
passed [] = 0
passed (queues ∷ turns) = passed turns + 1
passed (skips ∷ turns) = passed turns + 1
passed (answers ∷ turns) = passed turns

passed-append : (ts us : List Turn) → passed (ts ++ us) ≡ passed ts + passed us
passed-append [] us = omega arith
passed-append (queues ∷ ts) us = omega (arith, passed-append ts us)
passed-append (skips ∷ ts) us = omega (arith, passed-append ts us)
passed-append (answers ∷ ts) us = passed-append ts us

queued_by-append :
    (p : Platform) (o : Offer) (i : ℕ) (ts us : List Turn)
    → queued_by p o i (ts ++ us) ≡ queued_by p o i ts ++ queued_by p o (i + passed ts) us
queued_by-append p o i [] us = ap (λ n. queued_by p o n us) (omega arith)
queued_by-append p o i (queues ∷ ts) us =
    ap (λ x. packet_of p o i ∷ x)
      (queued_by-append p o (i + 1) ts us
        ∙ ap (λ n. queued_by p o (i + 1) ts ++ queued_by p o n us) (omega arith))
queued_by-append p o i (skips ∷ ts) us =
    queued_by-append p o (i + 1) ts us
    ∙ ap (λ n. queued_by p o (i + 1) ts ++ queued_by p o n us) (omega arith)
queued_by-append p o i (answers ∷ ts) us =
    ap (λ x. info_packet p o ∷ x) (queued_by-append p o i ts us)

pub sent_after-append :
    (to : SocketAddress) (xs ys : List Bytes) (sent : List (SocketAddress × Bytes))
    → sent_after to (xs ++ ys) sent ≡ sent_after to ys (sent_after to xs sent)
sent_after-append to [] ys sent = refl
sent_after-append to (x ∷ xs) ys sent = sent_after-append to xs ys ((to, x) ∷ sent)

pub buffers-append : (ms ns : List Message) → buffers (ms ++ ns) ≡ buffers ms ++ buffers ns
buffers-append [] ns = refl
buffers-append (m ∷ ms) ns = ap (λ x. m.buffer ∷ x) (buffers-append ms ns)

append_none : (xs : List Bytes) → xs ++ [] ≡ xs
append_none [] = refl
append_none (x ∷ xs) = ap (λ n. x ∷ n) (append_none xs)

-- All that the server has sent, as if it had sent its queue too.
abbrev pub booked : SocketAddress → BlockServer → List (SocketAddress × Bytes)
booked to s = sent_after to (buffers s.message_queue) s.socket.sent

-- It is the announcement and what these turns queued, at a server that stands before block `i`.
pub record Book (p : Platform) (o : Offer) (to : SocketAddress) (i : ℕ) (s : BlockServer)
    : Type 0 where
  pub turns : List Turn
  pub at : passed turns ≡ i
  pub address : s.socket.to ≡ to
  pub account : booked to s ≡ sent_after to (info_packet p o ∷ queued_by p o 0 turns) []

module _ (p : Platform) (o : Offer) (to : SocketAddress) where
  -- A message goes to the end of the queue.
  pub Book-append :
      (i j : ℕ) (turn : Turn) (m : Message) (s s' : BlockServer)
      → Book p o to i s
      → s'.socket.sent ≡ s.socket.sent
      → s'.socket.to ≡ s.socket.to
      → s'.message_queue ≡ s.message_queue ++ (m ∷ [])
      → queued_by p o i (turn ∷ []) ≡ m.buffer ∷ []
      → i + passed (turn ∷ []) ≡ j
      → Book p o to j s'
  Book-append i j turn m s s' b sent address queue one next =
      let earlier = queued_by p o 0 b.turns in
      let more =
        queued_by-append p o 0 b.turns (turn ∷ [])
        ∙ ap (λ n. earlier ++ queued_by p o n (turn ∷ [])) {x = 0 + passed b.turns}
            {y = passed b.turns} (omega arith) in
      record {
        turns = b.turns ++ (turn ∷ []);
        at = passed-append b.turns (turn ∷ []) ∙ ap (λ n. n + passed (turn ∷ [])) b.at ∙ next;
        address = address ∙ b.address;
        account =
            ap (λ n. sent_after to (buffers n) s'.socket.sent) queue
            ∙ ap (λ n. sent_after to n s'.socket.sent) (buffers-append s.message_queue (m ∷ []))
            ∙ ap (λ n. sent_after to (buffers s.message_queue ++ (m.buffer ∷ [])) n) sent
            ∙ sent_after-append to (buffers s.message_queue) (m.buffer ∷ []) s.socket.sent
            ∙ ap (λ n. (to, m.buffer) ∷ n) b.account
            ∙ sym (sent_after-append to (info_packet p o ∷ earlier) (m.buffer ∷ []) [])
            ∙ ap (λ n. sent_after to (info_packet p o ∷ (earlier ++ n)) [])
                (sym one ∙ ap (λ n. queued_by p o n (turn ∷ [])) (sym b.at))
            ∙ ap (λ n. sent_after to (info_packet p o ∷ n) []) (sym more);
      }

  -- Nothing that the account is about has changed.
  pub Book-same :
      (i : ℕ) (s s' : BlockServer)
      → Book p o to i s
      → s'.socket.sent ≡ s.socket.sent
      → s'.socket.to ≡ s.socket.to
      → s'.message_queue ≡ s.message_queue
      → Book p o to i s'
  Book-same i s s' b sent address queue = record {
    turns = b.turns;
    at = b.at;
    address = address ∙ b.address;
    account =
        ap (λ n. sent_after to (buffers n) s'.socket.sent) queue
        ∙ ap (λ n. sent_after to (buffers s.message_queue) n) sent
        ∙ b.account;
  }

  -- A block is left out.
  pub Book-skip : (i : ℕ) (s : BlockServer) → Book p o to i s → Book p o to (i + 1) s
  Book-skip i s b = record {
    turns = b.turns ++ (skips ∷ []);
    at = omega (arith, passed-append b.turns (skips ∷ []), b.at);
    address = b.address;
    account =
        b.account
        ∙ ap (λ n. sent_after to (info_packet p o ∷ n) [])
            (sym (append_none (queued_by p o 0 b.turns))
              ∙ sym (queued_by-append p o 0 b.turns (skips ∷ [])));
  }
