-- ===== src/Session/Exchange.antt =====
-- What one round of the server reads, queues and sends.
use multisync.Base.{
  ◌≡◌, refl, sym, ap, subst, ◌∙◌, true, false, ◌&&◌, List, [], ◌∷◌, ◌++◌, ok, >>=-eq-ok,
  ok-injective, ◌⊎◌, inl, inr, if◌then◌else◌, Bool-cases,
}
use mathlib.Core.List.{append-nil}
use multisync.Platform.{Platform}
use multisync.Message.{Message}
use multisync.Socket.{BlockSocket}
use multisync.BlockServer.{BlockServer, Event, process_message, send_front, select, has_messages}
use multisync.BlockServer.Rounds.{Counts, select_lem}
use multisync.Session.Starting.{announcement}
use multisync.Session.Server.{process_message-Answers}
use multisync.Session.Rounds.{send_front_cases, queue_cases}

-- What a read may put at the end of the queue: nothing, or the announcement.
abbrev pub Added : Platform → Event → BlockServer → List Message → Type 0
Added p e s added = (added ≡ []) ⊎ ((e.readable ≡ true) × (added ≡ announcement p s ∷ []))

-- And what is sent: nothing where the queue was empty or the socket cannot be written, else the
-- first of the queue, which leaves it.
abbrev pub Written : Event → BlockServer → List Message → BlockServer → Type 0
Written e s added s' =
    (((has_messages s.message_queue && e.writable) ≡ false)
      × (s'.message_queue ≡ s.message_queue ++ added)
      × (s'.socket.sent ≡ s.socket.sent))
    ⊎ ((m : Message) × (rest : List Message) × (s.message_queue ≡ m ∷ rest)
        × (e.writable ≡ true)
        × (s'.message_queue ≡ rest ++ added)
        × (s'.socket.sent ≡ (s.socket.to, m.buffer) ∷ s.socket.sent))

-- The read, with what it adds.
abbrev AfterRead : Platform → Event → BlockServer → BlockServer → Type 0
AfterRead p e s s₁ =
    (added : List Message) × Added p e s added
    × (s₁.message_queue ≡ s.message_queue ++ added)
    × (s₁.socket.sent ≡ s.socket.sent)
    × (s₁.socket.to ≡ s.socket.to)

nothing_read : (p : Platform) (e : Event) (s s₁ : BlockServer) → s ≡ s₁ → AfterRead p e s s₁
nothing_read p e s s₁ same =
    subst (AfterRead p e s) same ([], inl refl, sym (append-nil s.message_queue), refl, refl)

message_read :
    (p : Platform) (e : Event) (s s₁ : BlockServer)
    → e.readable ≡ true
    → process_message p e.received s ≡ ok s₁
    → AfterRead p e s s₁
message_read p e s s₁ readable done =
    let (k, sent, to, a) = process_message-Answers p e.received s s₁ done in
    let sent' = ap (λ (n : BlockSocket). n.sent) a.socket ∙ sent in
    let to' = ap (λ (n : BlockSocket). n.to) a.socket ∙ to in
    elim a.queue [
      | inl same ↦ ([], inl refl, same ∙ sym (append-nil s.message_queue), sent', to')
      | inr more ↦ (announcement p s ∷ [], inr (readable, refl), more, sent', to')
    ]

written :
    (p : Platform) (e : Event) (s s₁ s' : BlockServer) (added : List Message)
    → s₁.message_queue ≡ s.message_queue ++ added
    → s₁.socket.sent ≡ s.socket.sent
    → s₁.socket.to ≡ s.socket.to
    → (if has_messages s.message_queue && e.writable then send_front p e.sent s₁ else ok s₁) ≡ ok s'
    → Written e s added s'
written p e s s₁ s' added queue sent to done = elim (queue_cases s.message_queue) [
  | inl empty ↦
      let same = ok-injective (rw empty at done) in
      inl (
        rw empty refl,
        ap (λ (x : BlockServer). x.message_queue) (sym same) ∙ queue,
        ap (λ (x : BlockServer). x.socket.sent) (sym same) ∙ sent,
      )
  | inr (m, rest, there) ↦ elim (Bool-cases e.writable) [
    | inl writes ↦
        let (m', rest', there', same) =
          send_front_cases p e.sent s₁ s' (rw (there, writes) at done) in
        let both : (m ∷ (rest ++ added)) ≡ (m' ∷ rest') =
          ap (λ ms. ms ++ added) (sym there) ∙ sym queue ∙ there' in
        inr (
          m,
          rest,
          there,
          writes,
          ap (λ (x : BlockServer). x.message_queue) same ∙ cc both,
          ap (λ (x : BlockServer). x.socket.sent) same ∙ cc (both, sent, to),
        )
    | inr mute ↦
        let same = ok-injective (rw (there, mute) at done) in
        inl (
          rw (there, mute) refl,
          ap (λ (x : BlockServer). x.message_queue) (sym same) ∙ queue,
          ap (λ (x : BlockServer). x.socket.sent) (sym same) ∙ sent,
        )
  ]
]

-- A round that returns, where `::select` counts the members that it left in the sets it was handed.
-- A read puts at most the announcement at the end of the queue, and nothing where the socket cannot
-- be read, whatever arrived. If the queue was not empty before and the socket can be written,
-- exactly the first of the queue is sent, to the address that is set, and leaves the queue; if not,
-- nothing is sent and nothing leaves it.
pub select_exchanges :
    (p : Platform) (e : Event) (s s' : BlockServer)
    → Counts s.message_queue e
    → select p e s ≡ ok s'
    → (added : List Message) × Added p e s added × Written e s added s'
select_exchanges p e s s' counts done =
    let (s₁, reads, writes) =
      >>=-eq-ok (if e.readable then process_message p e.received s else ok s) _
        (sym (select_lem p e s counts) ∙ done) in
    let (added, what, queue, sent, to) : AfterRead p e s s₁ = elim (Bool-cases e.readable) [
      | inl readable ↦ message_read p e s s₁ readable (cc (reads, readable))
      | inr deaf ↦ nothing_read p e s s₁ (ok-injective (cc (reads, deaf)))
    ] in
    (added, what, written p e s s₁ s' added queue sent to writes)
