-- ===== src/Link.antt =====
-- server/main.c and client/command.c at the two ends of their connections: the rounds of the server's
-- loop, the rounds of the client's receive loop and the turns of its disk thread, in any order.
pub mod Connection
pub mod Assembly
pub mod Pending
pub mod Invariant
pub mod Copies
mod Tests
use tsunami_udp.Base.{ℕ, ◌+◌, ◌-◌, ◌<◌, ◌≤◌, ◌^◌, ◌≡◌, true, false, List, [], ◌∷◌, ◌++◌, length, In}
use tsunami_udp.Message.{Request, encode, request_size}
use tsunami_udp.Receive.{Env}
use tsunami_udp.Ring.{Datagram, Pthread}
use tsunami_udp.Ring.Queue.{IsWorking}
use tsunami_udp.Server.{
  Param, Pace, Read, no_data, chunk, failed, Inbox, Handler, Input, Next, goes_on, After, after,
  serve_round,
}
use tsunami_udp.Server.Rounds.{inbox_after}
use tsunami_udp.Transfer.{Transfer, started, net_step, disk_step}
use tsunami_udp.Wire.{Host}

-- The bytes of the requests on the control connection.
unfoldable pub wire : Host → List Request → List ℕ
wire h [] = []
wire h (q ∷ qs) = encode h q ++ wire h qs

-- `server` is the server after its last round. `taken` are the bytes that it has read from the control
-- connection so far.
pub record Link (R : Type 0) : Type 0 where
  pub server : After R
  pub transfer : Transfer
  pub taken : List ℕ

abbrev pub linked : {R : Type 0} → Handler R → Transfer → Link R
linked x t = record { server = after x goes_on; transfer = t; taken = [] }

-- What `read` may give: a piece of what the client wrote and the server has not read, at most as long
-- as the rest of the request.
pub data Gives {R : Type 0} (client : Host) (l : Link R) : Read → Type 0 where
  gives_none : Gives client l no_data
  gives_failure : Gives client l failed
  gives_chunk :
      {new : List ℕ} (rest : List ℕ)
      → (l.taken ++ new) ++ rest ≡ wire client l.transfer.client.requests
      → length new ≤ request_size - l.server.handler.inbox.len
      → Gives client l (chunk new)

abbrev pub bytes_of : Read → List ℕ
bytes_of no_data = []
bytes_of (chunk new) = new
bytes_of failed = []

-- A part of a request is in the inbox.
pub record IsPart (i : Inbox) : Type 0 where
  pub some_bytes : 0 < i.len
  pub not_all : i.len < request_size

-- A round of the receive loop in a lossless transfer whose pthread calls succeed.
pub record IsCalm (env : Env) : Type 0 where
  pub lossless : env.lossless ≡ true
  pub pthread : IsWorking env.pthread
  pub rate : env.error_rate < 2 ^ 32

-- The steps. A heartbeat is not reported as lost while a part of a request is in the inbox. The client
-- has in its buffer any of the datagrams that the server has sent: one that it receives, or one from before, if
-- `recvfrom` fails. That the first `recvfrom` fails, and leaves the cleared buffer, is left out; so is a
-- `fwrite` of requests that writes some of them.
pub data LinkStep {R : Type 0} (client : Host) (p : Param) (m : Pace R)
    : Link R → Link R → Type 0 where
  server_step :
      {l : Link R} (i : Input)
      → l.server.next ≡ goes_on
      → Gives client l i.read
      → (IsPart (inbox_after i.read l.server.handler.inbox) → i.report_due ≡ false)
      → LinkStep client p m l (record l {
        server = serve_round p m i l.server.handler;
        taken = l.taken ++ bytes_of i.read;
      })
  client_step :
      {l : Link R} (env : Env) (d : Datagram)
      → IsCalm env
      → In d l.server.handler.server.sent
      → LinkStep client p m l
          (record l { transfer = net_step client env d l.transfer l.transfer.verdict })
  disk_thread_step :
      {l : Link R} (q : Pthread)
      → IsWorking q
      → LinkStep client p m l (record l { transfer = disk_step q l.transfer })

pub data Reaches {R : Type 0} (client : Host) (p : Param) (m : Pace R) (l : Link R)
    : Link R → Type 0 where
  here : Reaches client p m l l
  step :
      {k k' : Link R} → Reaches client p m l k → LinkStep client p m k k' → Reaches client p m l k'
