-- ===== src/Lib.antt =====
-- multisync: one server multicasts the blocks of a file over UDP, and clients put the file together.
--
-- The parts and their files. A server (BlockServer, `src/blockserver.cpp`) announces its file in an
-- INFO message (`start`), then sends every block in a BLOCK message; the client (BlockClient,
-- `src/blockclient.cpp`) keeps a SyncStatus (`src/syncstatus.cpp`) for each file that it hears of,
-- writes the blocks to a temporary file in any order, and moves that file to its name when all are
-- there. Both are written over BlockSocket (`src/blocksocket.cpp`) and Message (`src/message.cpp`,
-- `include/message.hpp`), with HostInfo, FileInfo and BlockInfo (`src/hostinfo.cpp`,
-- `src/fileinfo.cpp`, `src/blockinfo.cpp`) as the metadata of messages. Logger is `src/logger.cpp`.
--   Platform: how numbers lie in memory, and the four byte-order functions with their documented
--     behaviour; Platform.Hosts has an x86 and a PowerPC host.
--   Message: buffers as lists of bytes, with the constructors `for_input`, `empty`, `reserved`,
--     `of_text`, `of_metadata`, `of_metadata_reserved` and `of_metadata_text`; its metadata are an
--     interface (`Pod` of Platform.Memory), which HostInfo, FileInfo and BlockInfo fill. Message.Packet
--     is the layout that all of the constructors give, Message.Wire and Message.Fill use it.
--   Socket: the class BlockSocket; `receive` and `send` are its operators on messages.
--   Stream and OrderedMap: what the sources use of the standard library's streams, files, maps and
--     sets.
--   SyncStatus: `write_block`, `transfer_complete` and `sync_complete`; below it the count of missing
--     blocks (Progress), what the output file holds (Transfer, Arrival) and a whole file (Delivery).
--   BlockServer, BlockClient: state passing, one function per member function; the handlers are
--     values that `find_handler` gives for a message type.
--   Session: servers and clients together. An `Offer` is what the server was constructed with; below it
--     are the packets of an offer (Packets), the server's first loop where the socket is clear
--     (Serving, Sending, Starting), the client at the datagrams of an offer (Receiving, Tracking,
--     Hearing, Completion, Publishing), both put together (Arrival), and a step relation of the two
--     over a network that loses, repeats and delays datagrams (System, over Server and Client), with
--     what it reaches (Safety). Station is a server's rounds there and in Crowd, the step relation of
--     any number of servers and clients on one network; Traffic is one client among any number of
--     servers, with an account of what it knows that counts datagrams only. Exchange is one round of
--     the server, Draining, Staying and Waiting are its second loop, Stalling and Skipping its first
--     one where the queue is full; Account is what it sends in both, whatever it receives, and
--     Replies what a client sends; Parting and Farewell are a server's goodbye.
--   BlockClient.Finish is the end of the client's handlers, BlockClient.Rounds a rule for what its
--     rounds keep, BlockClient.Invariant and BlockClient.Runs what every run of it keeps.
--   Main: `src/main.cpp`, the choice of a program, with the state of the program that it started, and
--     the two trial loops `Test` and `Listen`.
--   Examples: each result at a concrete input.
--
-- Errors. A `Result` is `ok`, a thrown message, or `undefined` where the C++ program would access
-- memory outside a vector or read uninitialised text past its end.
--
-- Parameters. The byte-order functions; inet_addr and inet_ntoa (`Inet`); the MD5 digest; what the
-- system calls of one round answer (`Event`, `OpenReply`, `ReceiveReply`, `SendReply`); rand, getpid
-- and tmpnam; and the bits that lie where a member is never initialised (`Fresh`, `junk`, `unset`).
--
-- The disk. A file is its bytes under a whole path. `write` and `close` on an open stream always
-- succeed, and so does `rename` of a file that is there: where one of them fails in the program, which
-- ignores the results of `rename` and `close`, the results about files on disk do not apply. The
-- sources pass `path.c_str()`, so those results are about paths without a NUL.
--
-- Bounds. Unsigned ints wrap at 2^32 and unsigned shorts at 2^16. A block has 1024 bytes, and
-- positions in the server's file are unsigned ints, which reach up to 4 GiB, 2^22 blocks. A receive
-- buffer has 4096 + 16 bytes. The loops take one event for each `select` and are structurally
-- recursive on the events, without fuel; with no event left they stand in a `select`.
--
-- Not modelled: `src/md5.cpp` (another project's code), the branches for Windows, the log lines
-- inside the classes and in `main`, the delay of `sleep`, and the generated build files. The step
-- relations of Session and Session.Crowd leave out the goodbyes of a server, which no code of this
-- repository sends; with them is one client alone (Session.Parting, Session.Farewell).
pub mod Base
pub mod Platform
pub mod OrderedMap
pub mod HostInfo
pub mod FileInfo
pub mod BlockInfo
pub mod Stream
pub mod Message
pub mod Socket
pub mod SyncStatus
pub mod BlockServer
pub mod BlockClient
pub mod Logger
pub mod Session
pub mod Main
pub mod Examples
