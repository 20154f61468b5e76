-- ===== src/Main.antt =====
-- src/main.cpp: the choice of a program by the number of arguments, and the two trial loops `Test`
-- and `Listen`. Each loop takes what the system calls of a round answer as an event, and ends where
-- the events do. What goes to the standard output is kept as lines, the last one first; after a
-- throw nothing of a loop is kept. The log lines are left out.
pub mod Loops
pub mod Runs
use multisync.Base.{
  ℕ, zero, suc, ◌+◌, ◌%◌, ◌^◌, ◌<◌, ◌≡◌, refl, Bool, true, false, ◌&&◌, Option, none, some, List,
  [], ◌∷◌, ◌++◌, Bytes, length, ltb, ◌==◌, if◌then◌else◌, Result, ok, throw, undefined, ◌>>=◌, ◌>>◌,
  Error,
}
use multisync.Platform.{Platform, store32}
use multisync.Platform.Memory.{Pod, load32}
use multisync.Stream.{bytes_eq, Disk, file_at}
use multisync.Message.{Message, for_input, of_metadata_text, get_text, get_type, get_metadata}
use multisync.Socket.{
  BlockSocket, SocketAddress, Inet, Signed, positive, OpenReply, ReceiveReply, SendReply,
  select_status, receive, send, open_socket, set_timeout,
}
use multisync.Socket
use multisync.Socket.Polling.{can_read, can_write}
use multisync.BlockServer
use multisync.BlockClient

-- A line of the standard output.
pub data Line : Type 0 where
  text_line : Bytes → Line
  pid_line : ℕ → Line
  sent_line : Line
  type_line : ℕ → Line

-- A socket and the lines printed.
pub record Trial : Type 0 where
  pub socket : BlockSocket
  pub lines : List Line

-- "228.5.6.7"
abbrev pub group : Bytes
group = b'2' ∷ b'2' ∷ b'8' ∷ b'.' ∷ b'5' ∷ b'.' ∷ b'6' ∷ b'.' ∷ b'7' ∷ []

-- "Hello, world!"
abbrev pub greeting : Bytes
greeting =
    b'H' ∷ b'e' ∷ b'l' ∷ b'l' ∷ b'o' ∷ b',' ∷ b' ' ∷ b'w' ∷ b'o' ∷ b'r' ∷ b'l' ∷ b'd' ∷ b'!' ∷ []

pub length-int : (p : Platform) (n : ℕ) → n < 2 ^ 32 → length (store32 p.endian n) ≡ 4
length-int p n h = refl

-- An `int` as metadata, by the word that it is in memory.
abbrev pub int_pod : Platform → Pod ℕ
int_pod p = record {
  sizeof = 4;
  object = λ n. store32 p.endian n;
  value = λ bs. load32 p.endian bs 0;
  IsValue = λ n. n < 2 ^ 32;
  length-object = length-int p;
}

module _ (p : Platform) (inet : Inet) where
  -- The socket of both loops, opened, with its timeout set.
  unfoldable pub trial_socket : OpenReply → SocketAddress → Result BlockSocket
  trial_socket opened unset = do
    let socket = Socket.construct p inet group 9000 unset
    (open_socket opened socket).0
    ok (set_timeout (positive 500) (open_socket opened socket).1)

module _ (p : Platform) where
  -- The message that `Test` has to send, from the process `pid`.
  abbrev pub out : ℕ → Message
  out pid = of_metadata_text p (int_pod p) 8768 1 pid greeting

  -- The two branches of a round of `Test`.
  unfoldable pub test_read : ReceiveReply → Trial → Result Trial
  test_read reply t = do
    (m, socket) ← receive p reply (for_input p 1024) t.socket
    text ← get_text p m
    pid ← get_metadata p (int_pod p) m
    ok (record { socket = socket; lines = pid_line pid ∷ text_line text ∷ t.lines })

  unfoldable pub test_write : SendReply → ℕ → Trial → Result Trial
  test_write reply pid t = do
    socket ← send p reply (out pid) t.socket
    ok (record { socket = socket; lines = sent_line ∷ t.lines })

  -- A round of `Test`: `select(500)` polls for reading only, by the default of its second parameter.
  unfoldable pub test_round : ℕ → BlockServer.Event → Trial → Result Trial
  test_round pid e t = do
    status ← select_status false e.selected e.readable e.writable
    t' ← if can_read status then test_read e.received t else ok t
    if can_write status then test_write e.sent pid t' else ok t'

  unfoldable pub test : ℕ → List BlockServer.Event → Trial → Result Trial
  test pid [] t = ok t
  test pid (e ∷ events) t = do t' ← test_round pid e t; test pid events t'

  unfoldable pub listen_read : ReceiveReply → Trial → Result Trial
  listen_read reply t = do
    (m, socket) ← receive p reply (for_input p 4096) t.socket
    ok (record { socket = socket; lines = type_line (get_type p m) ∷ t.lines })

  -- A round of `Listen`.
  unfoldable pub listen_round : BlockServer.Event → Trial → Result Trial
  listen_round e t = do
    status ← select_status false e.selected e.readable e.writable
    if can_read status then listen_read e.received t else ok t

  unfoldable pub listen : List BlockServer.Event → Trial → Result Trial
  listen [] t = ok t
  listen (e ∷ events) t = do t' ← listen_round e t; listen events t'

-- What `main` starts.
pub data Choice : Type 0 where
  serve : Bytes → Bytes → Choice
  sync : Choice
  listening : Choice
  nothing : Choice

-- "listen"
abbrev pub listen_word : Bytes
listen_word = b'l' ∷ b'i' ∷ b's' ∷ b't' ∷ b'e' ∷ b'n' ∷ []

-- The branches on `argc`; the arguments begin with the program's own name.
unfoldable pub choose : List Bytes → Choice
choose [] = nothing
choose (program ∷ []) = sync
choose (program ∷ first ∷ []) = if bytes_eq first listen_word then listening else nothing
choose (program ∷ source ∷ path ∷ []) = serve source path
choose (program ∷ first ∷ second ∷ third ∷ rest) =
    if bytes_eq first listen_word then listening else nothing

-- How far `main` has come, with the state of what it started: a server that has ended, with the
-- rounds that are left, or waits in a `select`; a client or `Listen` before the next round of its
-- endless loop, all rounds given having been taken; no program started; or a message caught.
pub data Exit : Type 0 where
  served : BlockServer.BlockServer → List BlockServer.Event → Exit
  serving : BlockServer.BlockServer → Exit
  syncing : BlockClient.BlockClient → Exit
  hearing : Trial → Exit
  idle : Exit
  caught : Error → Exit
  broken : Exit

-- The `catch` around the branches, for what is left of a result.
abbrev pub exit_of {ℓ} : {A : Type ℓ} → (A → Exit) → Result A → Exit
exit_of f (ok a) = f a
exit_of f (throw e) = caught e
exit_of f undefined = broken

abbrev pub server_exit : BlockServer.Progress → Exit
server_exit (BlockServer.finished s events) = served s events
server_exit (BlockServer.waiting s) = serving s

-- What the environment gives `main`.
pub record Environment : Type 0 where
  pub disk : Disk
  pub opened : OpenReply
  pub rounds : List BlockServer.Event
  pub client_rounds : List BlockClient.Event
  pub random : ℕ
  pub pid : ℕ
  pub junk : ℕ
  pub unset : SocketAddress

module _ (p : Platform) (inet : Inet) (hex_digest : Bytes → Bytes) where
  -- The branch for a choice.
  unfoldable pub start_choice : Environment → Choice → Exit
  start_choice env (serve source path) = exit_of server_exit (
      BlockServer.start p env.opened env.rounds (
        BlockServer.construct p inet hex_digest (file_at source env.disk) path group 9000 env.random
          env.unset))
  start_choice env sync = exit_of syncing (
      BlockClient.start p inet env.opened env.client_rounds
        (BlockClient.construct p inet group 9000 env.pid env.junk env.unset env.disk))
  start_choice env listening = exit_of hearing (do
    socket ← trial_socket p inet env.opened env.unset
    listen p env.rounds (record { socket = socket; lines = [] }))
  start_choice env nothing = idle

  unfoldable pub main : Environment → List Bytes → Exit
  main env args = start_choice env (choose args)
