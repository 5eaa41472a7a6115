-- ===== src/Lib.antt =====
-- Tsunami: a file transfer over UDP with retransmission requests over TCP.
--
-- A server blasts the blocks of a file as numbered datagrams. A client marks what arrives in a
-- bitfield, hands each new datagram to a disk thread through a ring buffer, and asks the server to
-- send again what is missing.
--
-- Files
--   Base       names and lemmas that the other modules share; `Base.Strings` has the functions of the C
--              library on text
--   Ring       client/ring.c: the calls on the ring buffer (`ring_reserve`, `ring_confirm`, `ring_pop`
--              and the others). `Ring.Invariant` and `Ring.Refine` relate it to a queue of datagrams,
--              `Ring.Queue` shows that its calls return, `Ring.Threads` interleaves the network
--              thread (`command_get` in client/command.c) and the disk thread (`disk_thread`).
--   Wire       common/common.c: `htonll`, and numbers in network byte order
--   Bitmap     client/command.c: `got_block` and the bitfield `received`
--   Message    include/tsunami.h and common/common.c: `retransmission_t` on the control connection
--   Retransmit client/protocol.c: `ttp_request_retransmit` and `ttp_repeat_retransmit` over the table
--              of the blocks to ask for. `Retransmit.Sorting` has the sorted table of a build with
--              RETX_REQBLOCK_SORTING.
--   Receive    client/command.c: one round of the receive loop of `command_get`. `Receive.Stages` and
--              `Receive.Finish` follow a lossless round, `Receive.Recover` a terminate block,
--              `Receive.Asking` what a round writes to the control connection, `Receive.Zero` a datagram of
--              block 0.
--   Transfer   client/command.c: any sequence of rounds and of turns of the disk thread, from the start
--   Blocks     server/io.c: `build_datagram`; client/io.c: `accept_block`. `Blocks.Layout` has the
--              arithmetic of blocks, `Blocks.Reading` and `Blocks.Writing` the two sides, and
--              `Blocks.Received` puts the client's parts together.
--   Server     server/protocol.c: `ttp_accept_retransmit`; server/main.c: the transmission loop of
--              `client_handler`. `Server.Requests` has the effect of single requests and their
--              assembly from pieces, `Server.Rounds` an invariant, `Server.Blast` the undisturbed loop.
--   Closing    client/command.c: what `command_get` does after its loop; `ttp_request_stop`
--   Streams    common/common.c: `full_read`, `full_write`, `read_line`, `get_usec_since`,
--              `prepare_proof`, with the check of a proof in both `ttp_authenticate`. In
--              `Streams.Hosts` the digest of common/md5.c meets another implementation.
--   Md5        common/md5.c: `md5_digest` of a little-endian host. `Md5.Reference` is the MD5 of RFC 1321,
--              `Md5.Rounds`, `Md5.Padding` and `Md5.Agreement` relate the two. Messages are shorter
--              than 2 ^ 29 bytes, as the code says.
--   Commands   client/main.c: `parse_command`, the dispatch on the first word, and commands from the
--              arguments of the process
--   Settings   client/config.c: `reset_client`; client/command.c: `command_set` and `parse_fraction`. `Settings.Report`
--              has what `set` reports of a field.
--   Evn        rtserver/parse_evn_filename.c: `parse_evn_filename` and `get_aux_entry`, with
--              `parse_time` as an argument
--   Session    client/protocol.c and server/protocol.c: the numbers that `ttp_negotiate` and
--              `ttp_open_transfer` exchange; `Session.Opening` has all of `ttp_open_transfer` for a
--              single file, from its name on
--   Listing    server/protocol.c and client/command.c: the lists of shared files for `dir` and `get *`
--   Connect    client/command.c: `command_connect`; server/main.c: the start of `client_handler`, with
--              `ttp_negotiate` and `ttp_authenticate` of both sides, as programs that write and read.
--              `Connect.Orders` shows that the order of the two sides' calls makes no difference.
--              The calls of the sockets library succeed.
--   Link       server/main.c and client/command.c at the two ends of the control connection, the rounds
--              of both loops and the disk thread's turns in any order. `Link.Assembly` and
--              `Link.Pending` follow the requests from the client's `fwrite` to the server's inbox,
--              `Link.Copies` has the invariant of the two ends.
--
-- What the system gives in a round (the results of `recvfrom`, of `realloc`, of writes to the control
-- connection, of pthread calls, the clock) is an argument, `Env`. Floating-point figures stand in it
-- as the natural numbers that the code makes of them. The loop over `gapless_to_block` is given
-- `block_count - gapless_to_block` rounds, after which its second test fails.
--
-- The arithmetic of the inter-packet delay in numbers of type double is an argument, `Pace`.
--
-- Not modelled: sockets, the options and the main loop of both processes, the statistics that are only
-- printed, the transcript, the hooks that run programs, stand-alone test programs, the variants of client
-- and server for VSIB and Mark5 hardware.
--
-- Conventions. Numbers are natural numbers, and a C integer that can wrap has its `% 2 ^ w`. A call
-- that may exit the process or sleep returns an `Outcome`. What pthread calls return is an argument.
-- The slots of the ring stand for the addresses `datagrams + slot * datagram_size`.
pub mod Base
pub mod Bitmap
pub mod Blocks
pub mod Closing
pub mod Commands
pub mod Connect
pub mod Evn
pub mod Link
pub mod Listing
pub mod Md5
pub mod Message
pub mod Receive
pub mod Retransmit
pub mod Ring
pub mod Server
pub mod Session
pub mod Settings
pub mod Streams
pub mod Transfer
pub mod Wire
