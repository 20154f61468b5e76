-- ===== src/Main/Loops.antt =====
-- What the two trial loops send and print.
use multisync.Base.{
  ℕ, ◌+◌, ◌≡◌, refl, sym, ap, ◌∙◌, Bool, true, false, List, [], ◌∷◌, Bytes, arith, ok, ◌>>=◌,
  >>=-eq-ok, ok-injective, if◌then◌else◌,
}
use multisync.Platform.{Platform}
use multisync.Message.{Message, for_input, get_text, get_type, get_metadata, type_info, type_block}
use multisync.Message.Wire.{get_type-packet}
use multisync.Socket.{SocketAddress, positive, ReceiveReply, SendReply, receive, select_status}
use multisync.Socket.Polling.{bit, select_status-exact}
use multisync.Socket.Transport.{receive_ok, length-for_input}
use multisync.BlockServer
use multisync.Session.{Offer, IsOffer}
use multisync.Session.Server.{receive_sent}
use multisync.Session.Receiving.{Datagram, announcement, block, bytes_of}
use multisync.Session.Hearing.{bytes_of-Fits}
use multisync.Main.{
  Trial, Line, type_line, int_pod, test_read, test_round, test, listen_read, listen_round, listen,
}

-- `::select` returns the number of members that it left in the one set that it was handed.
abbrev pub CountsReads : List BlockServer.Event → Type 0
CountsReads [] = Unit {0}
CountsReads (e ∷ events) = (e.selected ≡ positive (bit e.readable)) × CountsReads events

test_read_sent :
    (p : Platform) (r : ReceiveReply) (t t' : Trial)
    → test_read p r t ≡ ok t'
    → t'.socket.sent ≡ t.socket.sent
unfolding test_read
test_read_sent p r t t' e =
    let (got, e₁, r₁) = >>=-eq-ok (receive p r (for_input p 1024) t.socket) _ e in
    let (text, e₂, r₂) = >>=-eq-ok (get_text p got.0) _ r₁ in
    let (pid, e₃, r₃) = >>=-eq-ok (get_metadata p (int_pod p) got.0) _ r₂ in
    ap (λ z. z.socket.sent) (sym (ok-injective r₃))
    ∙ receive_sent p r (for_input p 1024) got.0 t.socket got.1 e₁

-- A round in which `::select` counts what it was handed.
test_round_reads :
    (p : Platform) (pid : ℕ) (e : BlockServer.Event) (t : Trial)
    → e.selected ≡ positive (bit e.readable)
    → test_round p pid e t
      ≡ ((if e.readable then test_read p e.received t else ok t) >>= λ t'. ok t')
unfolding test_round
test_round_reads p pid e t c =
    let (st, ends, reads, writes) = select_status-exact false e.readable e.writable in
    rw (c ∙ ap positive {y = bit e.readable + 0} (omega arith), ends, reads, writes) refl

read_or_not :
    (p : Platform) (b : Bool) (r : ReceiveReply) (t t' : Trial)
    → (if b then test_read p r t else ok t) ≡ ok t'
    → t'.socket.sent ≡ t.socket.sent
read_or_not p true r t t' e = test_read_sent p r t t' e
read_or_not p false r t t' e = ap (λ z. z.socket.sent) (sym (ok-injective e))

-- `Test` sends nothing, however often its socket could be written, as long as `::select` counts the
-- members of the one set that it is handed: the rounds do not poll for writing.
pub test_silent :
    (p : Platform) (pid : ℕ) (events : List BlockServer.Event) (t t' : Trial)
    → CountsReads events
    → test p pid events t ≡ ok t'
    → t'.socket.sent ≡ t.socket.sent
unfolding test
test_silent p pid [] t t' c e = ap (λ z. z.socket.sent) (sym (ok-injective e))
test_silent p pid (ev ∷ events) t t' (c, cs) e =
    let (t₁, e₁, r₁) = >>=-eq-ok (test_round p pid ev t) _ e in
    let (t₂, e₂, r₂) =
      >>=-eq-ok (if ev.readable then test_read p ev.received t else ok t) _
        (sym (test_round_reads p pid ev t c) ∙ e₁) in
    test_silent p pid events t₁ t' cs r₁
    ∙ ap (λ z. z.socket.sent) (sym (ok-injective r₂))
    ∙ read_or_not p ev.readable ev.received t t₂ e₂

-- A round in which this packet is read.
abbrev pub read_round : SocketAddress → Bytes → BlockServer.Event
read_round a bytes = record {
  selected = positive 1;
  readable = true;
  writable = false;
  received = ReceiveReply.datagram a bytes;
  sent = SendReply.send_failed;
}

abbrev pub read_rounds : Platform → Offer → SocketAddress → List Datagram → List BlockServer.Event
read_rounds p o a [] = []
read_rounds p o a (d ∷ ds) = read_round a (bytes_of p o d) ∷ read_rounds p o a ds

abbrev pub type_of : Datagram → ℕ
type_of announcement = type_info
type_of (block b) = type_block

-- The lines for these datagrams, the last first, above those printed before.
abbrev pub type_lines : List Datagram → List Line → List Line
type_lines [] printed = printed
type_lines (d ∷ ds) printed = type_lines ds (type_line (type_of d) ∷ printed)

type_told :
    (p q : Platform) (o : Offer) (d : Datagram) (m : Message)
    → m.buffer ≡ bytes_of p o d
    → get_type q m ≡ type_of d
type_told p q o announcement m e = get_type-packet p q o.id type_info _ o.path m e (omega arith)
type_told p q o (block b) m e = get_type-packet p q o.id type_block _ _ m e (omega arith)

listen_heard :
    (p q : Platform) (o : Offer) {name : Bytes} (v : IsOffer o name) (a : SocketAddress)
    (d : Datagram) (t : Trial)
    → listen_round q (read_round a (bytes_of p o d)) t
      ≡ ok (record {
        socket = record t.socket { from = a };
        lines = type_line (type_of d) ∷ t.lines;
      })
unfolding listen_round listen_read select_status
listen_heard p q o v a d t =
    let f = bytes_of-Fits p o v d in
    ap (λ r. r >>= λ x. ok (record { socket = x.1; lines = type_line (get_type q x.0) ∷ t.lines }))
      (receive_ok q a (bytes_of p o d) (for_input q 4096) t.socket
        (omega (arith, f.at_most, length-for_input q 4096)) f.at_least (f.told q))
    ∙ ap (λ n. ok (record { socket = record t.socket { from = a }; lines = type_line n ∷ t.lines }))
        (type_told p q o d _ refl)

-- `Listen`, on a host of any byte order, that reads datagrams of a server returns from each round,
-- and prints for each of them one line, in their order, with the type that the server gave it.
-- Throughout `IsOffer` holds: the path is not empty and fits an announcement, the digest is a text
-- of 33 bytes with its NUL, and the file has at most 4 GiB.
pub listen_prints :
    (p q : Platform) (o : Offer) (name : Bytes) (a : SocketAddress) (ds : List Datagram) (t : Trial)
    → IsOffer o name
    → (t' : Trial) × (listen q (read_rounds p o a ds) t ≡ ok t')
      × (t'.lines ≡ type_lines ds t.lines)
unfolding listen
listen_prints p q o name a [] t v = (t, refl, refl)
listen_prints p q o name a (d ∷ ds) t v =
    let t₁ : Trial = record {
      socket = record t.socket { from = a };
      lines = type_line (type_of d) ∷ t.lines;
    } in
    let (t', r, printed) = listen_prints p q o name a ds t₁ v in
    (
      t',
      ap (λ z. z >>= λ x. listen q (read_rounds p o a ds) x) (listen_heard p q o v a d t) ∙ r,
      printed,
    )
