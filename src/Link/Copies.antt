-- ===== src/Link/Copies.antt =====
-- server/main.c and client/command.c: a server and a client that run together copy the file.
use tsunami_udp.Base.{ℕ, ◌<◌, ◌≡◌, sym, subst, arith, some}
use tsunami_udp.Blocks.{File, Disk, save_all}
use tsunami_udp.Blocks.Received.{delivered_copy}
use tsunami_udp.Blocks.Writing.{IsWorking as DiskIsWorking}
use tsunami_udp.Link.{Link, linked, Reaches}
use tsunami_udp.Receive.{finished}
use tsunami_udp.Ring.{Datagram}
use tsunami_udp.Server.{Param, Pace, Handler}
use tsunami_udp.Server.Requests.{IsInbox}
use tsunami_udp.Server.Rounds.{Serving, Serves}
use tsunami_udp.Transfer.{start_client, started}
use tsunami_udp.Transfer.Delivery.{IsDelivered}
use tsunami_udp.Wire.{Host}
use tsunami_udp.Link.Invariant.{IsLinked, Reaches-IsLinked, started-IsLinked}

-- A server whose session has the right number of blocks for its file `src`, at least one and fewer than
-- 2 ^ 32 - 1, of a size that is not 0, and whose reader is in step, starts with an empty inbox, and a
-- client on either kind of host starts to receive. The server's rounds, the client's rounds and the
-- disk thread's turns follow in any order, where the server reads any pieces of what the client
-- wrote, the network loses, repeats and reorders the datagrams at will, and reads and writes of the control
-- connection, a write as a whole, may fail, but a `recvfrom` that fails leaves a datagram of the server in
-- the client's buffer, so that the first one does not fail; the transfer is lossless, the client's pthread calls succeed, and no
-- heartbeat is reported as lost while a part of a request is in the inbox. Then in every state that
-- is reached all the datagrams that the server has sent hold blocks of the file; each block that the
-- client has marked was delivered once, and each datagram delivered holds a block of the file; what
-- the server has read is, in order, whole requests that the client wrote and the bytes in its
-- inbox, with less than a request in the inbox; and the requests still to come are about blocks of
-- the file or error rates.
pub linked_lem :
    {R : Type 0} (client : Host) (p : Param) (m : Pace R) (src : File) (x : Handler R) (w : ℕ)
    (garbage : ℕ → Datagram) (l : Link R)
    → (v : Serves client p m src) → Serving client p m src x.server
    → IsInbox x.inbox
    → x.inbox.len ≡ 0
    → Reaches client p m (linked x (started (start_client p.block_size p.block_count w garbage))) l
    → IsLinked client p m src v l
linked_lem client p m src x w garbage l v s i empty r =
    Reaches-IsLinked client p m src v (started-IsLinked client p m src v x w garbage s i empty) r

-- The server and the client of the file `src` start as they should: the session has the right number of
-- blocks, at least one and fewer than 2 ^ 32 - 1, of a size that is not 0, the server's reader is in
-- step and its inbox is empty. Their rounds and the disk thread's turns follow in any order, the
-- server reads any pieces of what the client wrote, and datagrams are lost, repeated and reordered
-- at will; a `recvfrom` that fails leaves a datagram of the server in the client's buffer, and requests are written
-- whole or not at all; the transfer is lossless, the client's pthread calls succeed, and no heartbeat is
-- reported as lost while a part of a request is in the inbox. If the client's loop has finished and
-- the disk thread has emptied the ring, then the disk thread, on a disk that works, has made from an
-- empty file a file of the same size and the same bytes as `src`.
pub file_copied :
    {R : Type 0} (client : Host) (p : Param) (m : Pace R) (src empty : File) (disk : Disk)
    (x : Handler R) (w : ℕ) (garbage : ℕ → Datagram) (l : Link R)
    → Serves client p m src
    → Serving client p m src x.server
    → IsInbox x.inbox
    → x.inbox.len ≡ 0
    → Reaches client p m (linked x (started (start_client p.block_size p.block_count w garbage))) l
    → DiskIsWorking disk
    → empty.size ≡ 0
    → l.transfer.verdict ≡ finished
    → l.transfer.client.ring.count_data ≡ 0
    → (g : File) × (save_all client p.block_count src.size p.block_size disk l.transfer.saved empty
        ≡ some g)
      × (g.size ≡ src.size)
      × ((i : ℕ) → i < src.size → g.at i ≡ src.at i)
file_copied client p m src empty disk x w garbage l v s i none_read r works blank over idle =
    let k = linked_lem client p m src x w garbage l v s i none_read r in
    let copied =
      delivered_copy client p.block_size src empty disk l.transfer v.some_bytes
        (omega (arith, v.count, v.small)) works blank
        (subst (λ n. IsDelivered client n l.transfer) v.count k.transfer) k.from_file over idle in
    subst
      (λ n.
        (g : File) × (save_all client n src.size p.block_size disk l.transfer.saved empty ≡ some g)
        × (g.size ≡ src.size)
        × ((i : ℕ) → i < src.size → g.at i ≡ src.at i))
      (sym v.count) copied
