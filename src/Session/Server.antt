-- ===== src/Session/Server.antt =====
-- Whatever requests reach the server, it queues and sends only its announcement and its blocks.
use multisync.Base.{
  ℕ, ◌≡◌, refl, sym, ap, subst, ◌∙◌, Option, none, some, List, [], ◌∷◌, ◌++◌, Bytes, arith, ok,
  >>=-eq-ok, ok-injective, ◌⊎◌, inl, inr,
}
use multisync.Platform.{Platform}
use multisync.Stream.{Ifstream, in_fails}
use multisync.HostInfo
use multisync.HostInfo.{HostInfo}
use multisync.OrderedMap.{OrderedMap}
use multisync.Message.{Message, for_input, get_type, get_metadata}
use multisync.Socket.{BlockSocket, SocketAddress, ReceiveReply, receive}
use multisync.BlockServer.{
  BlockServer, Handler, process_message, dispatch, find_handler, handle_chello, handle_getinfo,
  handle_cgoodbye,
}
use multisync.BlockServer.Hosts.{handle_getblock-fails}
use multisync.Session.{Offer, IsOffer}
use multisync.Session.Serving.{Serves}
use multisync.Session.Starting.{announcement, announcement_packet}
use multisync.Session.Receiving.{Datagram, bytes_of, IsOf}

-- The bytes are a datagram of the offer.
abbrev pub IsOffered : Platform → Offer → Bytes → Type 0
IsOffered p o bytes = (d : Datagram) × IsOf o d × (bytes ≡ bytes_of p o d)

abbrev pub AllQueued : Platform → Offer → List Message → Type 0
AllQueued p o [] = Unit {0}
AllQueued p o (m ∷ ms) = IsOffered p o m.buffer × AllQueued p o ms

abbrev pub AllSent : Platform → Offer → List (SocketAddress × Bytes) → Type 0
AllSent p o [] = Unit {0}
AllSent p o ((to, bytes) ∷ sent) = IsOffered p o bytes × AllSent p o sent

pub AllQueued-append :
    (p : Platform) (o : Offer) (ms : List Message) (m : Message)
    → AllQueued p o ms
    → IsOffered p o m.buffer
    → AllQueued p o (ms ++ (m ∷ []))
AllQueued-append p o [] m a h = (h, tt)
AllQueued-append p o (n ∷ ms) m (b, a) h = (b, AllQueued-append p o ms m a h)

-- The server stands before block `i`, with nothing else in its queue or on the network.
pub record Keeps (p : Platform) (o : Offer) (i : ℕ) (s : BlockServer) : Type 0 where
  pub serves : Serves p o i s
  pub path : s.path ≡ o.path
  pub queued : AllQueued p o s.message_queue
  pub sent : AllSent p o s.socket.sent

-- What a handler may do: add a host or drop one, and put the announcement into the queue.
pub record Answers (p : Platform) (s s' : BlockServer) : Type 0 where
  pub info : s'.file_info ≡ s.file_info
  pub id : s'.id ≡ s.id
  pub path : s'.path ≡ s.path
  pub input : s'.input ≡ s.input
  pub socket : s'.socket ≡ s.socket
  pub queue :
      (s'.message_queue ≡ s.message_queue)
      ⊎ (s'.message_queue ≡ s.message_queue ++ (announcement p s ∷ []))

-- Whatever becomes of the set of hosts.
hosts-Answers :
    (p : Platform) (s : BlockServer) (hosts : OrderedMap HostInfo (Unit {0}))
    → Answers p s (record s { host_info = hosts })
hosts-Answers p s hosts = record {
  info = refl;
  id = refl;
  path = refl;
  input = refl;
  socket = refl;
  queue = inl refl;
}

handle_chello-Answers :
    (p : Platform) (m : Message) (s s' : BlockServer) → handle_chello p m s ≡ ok s' → Answers p s s'
unfolding handle_chello
handle_chello-Answers p m s s' e =
    let (host, e₁, e₂) = >>=-eq-ok (get_metadata p (HostInfo.pod p) m) _ e in
    subst (Answers p s) (ok-injective e₂) (hosts-Answers p s _)

handle_getinfo-Answers :
    (p : Platform) (m : Message) (s s' : BlockServer)
    → handle_getinfo p m s ≡ ok s'
    → Answers p s s'
unfolding handle_getinfo
handle_getinfo-Answers p m s s' e =
    let (host, e₁, e₂) = >>=-eq-ok (get_metadata p (HostInfo.pod p) m) _ e in
    subst (Answers p s) (ok-injective e₂) (record {
      info = refl;
      id = refl;
      path = refl;
      input = refl;
      socket = refl;
      queue = inr refl;
    })

handle_cgoodbye-Answers :
    (p : Platform) (m : Message) (s s' : BlockServer)
    → handle_cgoodbye p m s ≡ ok s'
    → Answers p s s'
unfolding handle_cgoodbye
handle_cgoodbye-Answers p m s s' e =
    let (host, e₁, e₂) = >>=-eq-ok (get_metadata p (HostInfo.pod p) m) _ e in
    subst (Answers p s) (ok-injective e₂) (hosts-Answers p s _)

dispatch-Answers :
    (p : Platform) (h : Option Handler) (m : Message) (s s' : BlockServer)
    → dispatch p h m s ≡ ok s'
    → Answers p s s'
unfolding dispatch
dispatch-Answers p none m s s' e =
    subst (Answers p s) (ok-injective e) (hosts-Answers p s s.host_info)
dispatch-Answers p (some Handler.chello) m s s' e = handle_chello-Answers p m s s' e
dispatch-Answers p (some Handler.getinfo) m s s' e = handle_getinfo-Answers p m s s' e
dispatch-Answers p (some Handler.getblock) m s s' e = absurd (handle_getblock-fails p m s s' e)
dispatch-Answers p (some Handler.cgoodbye) m s s' e = handle_cgoodbye-Answers p m s s' e

pub receive_sent :
    (p : Platform) (r : ReceiveReply) (m m' : Message) (s s' : BlockSocket)
    → receive p r m s ≡ ok (m', s')
    → s'.sent ≡ s.sent
unfolding receive
receive_sent p r m m' s s' e = ground arith

pub receive_to :
    (p : Platform) (r : ReceiveReply) (m m' : Message) (s s' : BlockSocket)
    → receive p r m s ≡ ok (m', s')
    → s'.to ≡ s.to
unfolding receive
receive_to p r m m' s s' e = ground arith

-- A message is received, and answered.
pub process_message-Answers :
    (p : Platform) (r : ReceiveReply) (s s' : BlockServer)
    → process_message p r s ≡ ok s'
    → (k : BlockSocket) × (k.sent ≡ s.socket.sent)
      × (k.to ≡ s.socket.to)
      × Answers p (record s { socket = k }) s'
unfolding process_message
process_message-Answers p r s s' e =
    let (got, e₁, e₂) = >>=-eq-ok (receive p r (for_input p 4096) s.socket) _ e in
    (
      got.1,
      receive_sent p r (for_input p 4096) got.0 s.socket got.1 e₁,
      receive_to p r (for_input p 4096) got.0 s.socket got.1 e₁,
      dispatch-Answers p (find_handler (get_type p got.0)) got.0 (record s { socket = got.1 }) s'
          e₂,
    )

module _ (p : Platform) (o : Offer) {name : Bytes} (v : IsOffer o name) (i : ℕ) where
  Answers-Keeps : (s s' : BlockServer) → Keeps p o i s → Answers p s s' → Keeps p o i s'
  Answers-Keeps s s' k a = record {
    serves = record {
      info = a.info ∙ k.serves.info;
      contents = ap (λ (n : Ifstream). n.contents) a.input ∙ k.serves.contents;
      bad = ap (λ (n : Ifstream). n.badbit) a.input ∙ k.serves.bad;
      good = λ h. ap in_fails a.input ∙ k.serves.good h;
      named = a.id ∙ k.serves.named;
    };
    path = a.path ∙ k.path;
    queued = elim a.queue [
      | inl same ↦ subst (AllQueued p o) (sym same) k.queued
      | inr more ↦ subst (AllQueued p o) (sym more) (
          AllQueued-append p o s.message_queue (announcement p s) k.queued
            (Datagram.announcement, tt, announcement_packet p o s v k.serves k.path))
    ];
    sent = subst (λ (n : BlockSocket). AllSent p o n.sent) (sym a.socket) k.sent;
  }

  pub process_message-Keeps :
      (r : ReceiveReply) (s s' : BlockServer)
      → Keeps p o i s
      → process_message p r s ≡ ok s'
      → Keeps p o i s'
  process_message-Keeps r s s' k e =
      let (socket', sent, to, answers) = process_message-Answers p r s s' e in
      Answers-Keeps (record s { socket = socket' }) s'
        (record {
          serves = record {
            info = k.serves.info;
            contents = k.serves.contents;
            bad = k.serves.bad;
            good = k.serves.good;
            named = k.serves.named;
          };
          path = k.path;
          queued = k.queued;
          sent = subst (AllSent p o) (sym sent) k.sent;
        })
        answers
