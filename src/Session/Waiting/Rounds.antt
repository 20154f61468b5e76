-- ===== src/Session/Waiting/Rounds.antt =====
-- The rounds of the second loop, one by one.
use multisync.Base.{
  ◌≡◌, ◌≢◌, refl, sym, ap, subst, ◌∙◌, Bool, true, false, ◌&&◌, List, [], ◌∷◌, Result, Error, ok,
  throw, ◌>>=◌, ◌⊎◌, inl, inr, if◌then◌else◌, Bool-cases,
}
use multisync.Platform.{Platform}
use multisync.Message.{Message}
use multisync.Socket.{ReceiveReply}
use multisync.BlockServer.{
  BlockServer, Event, waiting, process_message, send_front, select, serve_requests, has_messages,
}
use multisync.BlockServer.Rounds.{Counts, select_lem}
use multisync.Session.Draining.{AllFit}
use multisync.Session.Staying.{request_bytes, FromClients, round_stays, busy}
use multisync.Session.Waiting.{
  Counted, ReadsGoodbye, FailsSend, Cause, Goes, send_front-Goes, request-Goes,
}

read-Goes :
    (p q : Platform) (e : Event) (events : List Event) (s : BlockServer)
    → FromClients q (e ∷ events)
    → Goes
        (ReadsGoodbye q e)
        s.message_queue
        (if e.readable then process_message p e.received s else ok s)
read-Goes p q e events s (from, later) = elim (Bool-cases e.readable) [
  | inr deaf ↦ inl (s, rw deaf refl, refl)
  | inl readable ↦ elim from [
    | inl deaf ↦ absurd (cc (readable, deaf))
    | inr (a, r, hears) ↦
        let here =
          ap (λ b. if b then process_message p e.received s else ok s) readable
          ∙ ap (λ z. process_message p z s) hears in
        elim (request-Goes p q a r s) [
          | inl (s', ends, same) ↦ inl (s', here ∙ ends, same)
          | inr ((sender, leaves), message, thrown) ↦ inr (
            (
              readable,
              (a, sender, hears ∙ ap (λ z. ReceiveReply.datagram a (request_bytes q z)) leaves),
            ),
            message,
            here ∙ thrown,
          )
        ]
  ]
]

-- What the second half of a round leaves in the queue.
abbrev left_over : Bool → List Message → List Message
left_over false queue = queue
left_over true [] = []
left_over true (m ∷ rest) = rest

left_over-AllFit : (b : Bool) (queue : List Message) → AllFit queue → AllFit (left_over b queue)
left_over-AllFit false queue fit = fit
left_over-AllFit true [] fit = tt
left_over-AllFit true (m ∷ rest) (f, fs) = fs

write-Goes :
    (p : Platform) (writable : Bool) (e : Event) (s : BlockServer) (queue : List Message)
    → s.message_queue ≡ queue
    → AllFit queue
    → writable ≡ e.writable
    → let b = has_messages queue && writable in
      Goes (FailsSend e queue) (left_over b queue) (if b then send_front p e.sent s else ok s)
write-Goes p writable e s [] there fit same = inl (s, refl, there)
write-Goes p false e s (m ∷ rest) there fit same = inl (s, refl, there)
write-Goes p true e s (m ∷ rest) there (f, fs) same =
    elim (send_front-Goes p e.sent s m rest there f) [
      | inl goes ↦ inl goes
      | inr (cause, message, thrown) ↦ inr ((m, rest, refl, sym same, cause), message, thrown)
    ]

-- A round returns, with a queue whose messages fit, or throws.
round_goes :
    (p q : Platform) (e : Event) (events : List Event) (s : BlockServer)
    → FromClients q (e ∷ events)
    → Counts s.message_queue e
    → AllFit s.message_queue
    → ((s' : BlockServer) × (select p e s ≡ ok s') × AllFit s'.message_queue)
      ⊎ ((ReadsGoodbye q e ⊎ FailsSend e s.message_queue)
          × (message : Error) × (select p e s ≡ throw message))
round_goes p q e events s from counts fit =
    let b = has_messages s.message_queue && e.writable in
    let next = λ (z : BlockServer). if b then send_front p e.sent z else ok z in
    let opens = select_lem p e s counts in
    elim (read-Goes p q e events s from) [
      | inr (cause, message, thrown) ↦ inr (inl cause, message, opens ∙ ap (λ r. r >>= next) thrown)
      | inl (s₁, reads, same) ↦ elim (write-Goes p e.writable e s₁ s.message_queue same fit refl) [
        | inr (cause, message, thrown) ↦
            inr (inr cause, message, opens ∙ ap (λ r. r >>= next) reads ∙ thrown)
        | inl (s₂, writes, left) ↦ inl (
          s₂,
          opens ∙ ap (λ r. r >>= next) reads ∙ writes,
          subst AllFit (sym left) (left_over-AllFit b s.message_queue fit),
        )
      ]
    ]

-- A server that a client has joined never ends: in its second loop, whatever the clients of this
-- program send it, on hosts of any byte order, it has come through all rounds that there were, and
-- still waits in a `select` with a client in its set; or it has thrown, and then in one of the
-- rounds that it reached it read a goodbye of a client, or the first message of its queue was not
-- sent as a whole. In each round `::select` counts the members that it left in the sets it was
-- handed, and each message that is in the queue at first has 16 to 4112 bytes and its own length in
-- its header (`Fits`).
pub serve_requests_waits :
    (p q : Platform) (events : List Event) (s : BlockServer)
    → FromClients q events
    → Counted p events s
    → AllFit s.message_queue
    → s.host_info ≢ []
    → ((s' : BlockServer) × (serve_requests p events s ≡ ok (waiting s')) × (s'.host_info ≢ []))
      ⊎ (Cause p q events s × (message : Error) × (serve_requests p events s ≡ throw message))
unfolding serve_requests
serve_requests_waits p q [] s from counted fit joined = inl (s, rw (busy s joined) refl, joined)
serve_requests_waits p q (e ∷ events) s from (counts, later) fit joined =
    let on = λ (r : Result BlockServer). r >>= λ z. serve_requests p events z in
    elim (round_goes p q e events s from counts fit) [
      | inr (cause, message, thrown) ↦ inr (inl cause, message, rw (busy s joined) (ap on thrown))
      | inl (s₁, ends, fit₁) ↦
          let stays = round_stays p q e events s s₁ from joined ends in
          elim (serve_requests_waits p q events s₁ from.1 (later s₁ ends) fit₁ stays) [
            | inl (s', waits, some_left) ↦
                inl (s', rw (busy s joined) (ap on ends ∙ waits), some_left)
            | inr (cause, message, thrown) ↦
                inr (inr (s₁, ends, cause), message, rw (busy s joined) (ap on ends ∙ thrown))
          ]
    ]
