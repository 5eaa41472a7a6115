-- ===== src/Server.antt =====
-- server/protocol.c and server/main.c: the requests of a client (`ttp_accept_retransmit`) and one round
-- of the transmission loop of `client_handler`. Numbers of type double are an argument, `Pace`.
pub mod Requests
pub mod Rounds
pub mod Blast
mod Tests
use tsunami_udp.Base.{
  ℕ, suc, ◌+◌, ◌-◌, ◌%◌, ◌^◌, min, Bool, true, false, not, ◌||◌, ◌&&◌, ◌==◌, ltb, if◌then◌else◌,
  List, [], ◌∷◌, ◌++◌, take, drop, length,
}
use tsunami_udp.Blocks.{Reader, build_datagram}
use tsunami_udp.Message.{
  Request, decode, encode, request_size, request_retransmit, request_restart, request_stop,
  request_error_rate,
}
use tsunami_udp.Receive.{ts_block_original, ts_block_terminate, ts_block_retransmission}
use tsunami_udp.Ring.{Datagram}
use tsunami_udp.Wire.{Host, load16, ntohs, store16, store32, htons, htonl}

-- The parameters of a session that the loop reads.
pub record Param : Type 0 where
  pub host : Host
  pub block_size : ℕ
  pub block_count : ℕ
  pub error_rate : ℕ

-- The inter-packet delay: how an error rate above the threshold makes it longer, how one at or below
-- makes it shorter, the comparison, `10000.0`, and `ipd_time` of the session.
pub record Pace (R : Type 0) : Type 0 where
  pub slower : ℕ → R → R
  pub faster : R → R
  pub less : R → R → Bool
  pub highest : R
  pub ipd_time : R

-- The state of the transfer. `datagram` is the buffer, `sent` what `sendto` took, in order.
pub record Server (R : Type 0) : Type 0 where
  pub block : ℕ
  pub ipd_current : R
  pub reader : Reader
  pub datagram : Datagram
  pub sent : List Datagram

-- A result, and whether the function returned 0.
pub record Handled (R : Type 0) : Type 0 where
  pub server : Server R
  pub ok : Bool

abbrev pub handled : {R : Type 0} → Server R → Bool → Handled R
handled s ok = record { server = s; ok = ok }

-- `build_datagram`, then `sendto`.
unfoldable pub send_block : {R : Type 0} → Param → Bool → (b t : ℕ) → Server R → Handled R
send_block {R} p send_works b t s =
    let built = build_datagram p.host p.block_size b t s.datagram s.reader in
    let s' : Server R = record s { datagram = built.0; reader = built.1 } in
    if send_works
    then handled (record s' { sent = s.sent ++ built.0 ∷ [] }) true
    else handled s' false

-- `max(min(ipd, 10000.0), ipd_time)`
abbrev pub clamped : {R : Type 0} → Pace R → R → R
clamped m x =
    let low = if m.less x m.highest then x else m.highest in
    if m.less m.ipd_time low then low else m.ipd_time

abbrev pub adjusted : {R : Type 0} → Param → Pace R → ℕ → R → R
adjusted p m rate x = if ltb p.error_rate rate then m.slower rate x else m.faster x

-- `r` is the request after the conversions to the byte order of the host.
unfoldable pub ttp_accept_retransmit :
    {R : Type 0} → Param → Pace R → (send_works : Bool) → Request → Server R → Handled R
ttp_accept_retransmit p m send_works r s =
    if r.request_type == request_error_rate
    then handled (record s { ipd_current = clamped m (adjusted p m r.error_rate s.ipd_current) })
        true
    else if r.request_type == request_restart
    then if r.block == 0 || ltb p.block_count r.block
      then handled s false
      else handled (record s { block = r.block }) true
    else if r.request_type == request_retransmit
    then send_block p send_works r.block ts_block_retransmission s
    else handled s false

-- What `read` gives from the control connection: no data yet, some bytes, or a failure.
pub data Read : Type 0 where
  no_data : Read
  chunk : List ℕ → Read
  failed : Read

-- The request as far as it was read: the twelve bytes of `retransmission`, and `retransmitlen`.
pub record Inbox : Type 0 where
  pub bytes : List ℕ
  pub len : ℕ

unfoldable pub add_bytes : List ℕ → Inbox → Inbox
add_bytes new i = record {
  bytes = take i.len i.bytes ++ (new ++ drop (i.len + length new) i.bytes);
  len = i.len + length new;
}

pub record Handler (R : Type 0) : Type 0 where
  pub server : Server R
  pub inbox : Inbox
  pub deadconnection_counter : ℕ

-- What the system gives in a round. The two tests on the clock are given as they turn out.
pub record Input : Type 0 where
  pub read : Read
  pub send_works : Bool
  pub report_due : Bool  -- at least 500 ms since the last report of a lost heartbeat
  pub timed_out : Bool  -- more than `hb_timeout` since the last feedback

-- The next round, the end of the transfer, or exit of the process.
pub data Next : Type 0 where
  goes_on stopped died : Next

pub record After (R : Type 0) : Type 0 where
  pub handler : Handler R
  pub next : Next

abbrev pub after : {R : Type 0} → Handler R → Next → After R
after x n = record { handler = x; next = n }

-- "throttle IPD with fake 100% loss report", built in the buffer of the requests, where
-- `ttp_accept_retransmit` leaves the numbers in the byte order of the host.
abbrev pub fake_report : Request
fake_report = record { request_type = request_error_rate; block = 0; error_rate = 100000 }

abbrev pub fake_bytes : Host → List ℕ → List ℕ
fake_bytes h old =
    store16 h (htons h request_error_rate)
    ++ (take 2 (drop 2 old) ++ (store32 h 0 ++ (store32 h 100000 ++ drop 12 old)))

-- "monitor client heartbeat and disconnect dead client"
unfoldable pub heartbeat : {R : Type 0} → Param → Pace R → Input → Handler R → After R
heartbeat p m i x =
    if ltb 2048 x.deadconnection_counter
    then if not i.report_due
      then after (record x { deadconnection_counter = 0 }) goes_on
      else (let server = (ttp_accept_retransmit p m i.send_works fake_report x.server).server in
          after
            (record {
              server = server;
              inbox = record { bytes = fake_bytes p.host x.inbox.bytes; len = x.inbox.len };
              deadconnection_counter = 0;
            })
            (if i.timed_out then stopped else goes_on))
    else after (record x { deadconnection_counter = x.deadconnection_counter + 1 }) goes_on

-- "if we have no retransmission": the next block.
abbrev pub next_block : Param → ℕ → ℕ
next_block p block = min ((block + 1) % 2 ^ 32) p.block_count

abbrev pub block_type : Param → ℕ → ℕ
block_type p b = if b == p.block_count then ts_block_terminate else ts_block_original

-- "build the block", "transmit the block": a failure to send goes to the next round at once.
unfoldable pub blast_block : {R : Type 0} → Param → Pace R → Input → Handler R → After R
blast_block {R} p m i x =
    let b = next_block p x.server.block in
    let h = send_block p i.send_works b (block_type p b) (record (x.server) { block = b }) in
    let x' : Handler R = record x { server = h.server } in
    if h.ok then heartbeat p m i x' else after x' goes_on

-- "if we have a retransmission"
unfoldable pub answer : {R : Type 0} → Param → Pace R → Input → Handler R → After R
answer p m i x =
    let r = decode p.host x.inbox.bytes in
    if r.request_type == request_stop
    then after (record x { deadconnection_counter = 0 }) stopped
    else heartbeat p m i (record {
      server = (ttp_accept_retransmit p m i.send_works r x.server).server;
      inbox = record (x.inbox) { len = 0 };
      deadconnection_counter = 0;
    })

-- The three cases of `retransmitlen`.
unfoldable pub serve : {R : Type 0} → Param → Pace R → Input → Handler R → After R
serve p m i x =
    if x.inbox.len == request_size
    then answer p m i x
    else if ltb x.inbox.len request_size
    then blast_block p m i x
    else heartbeat p m i (record x { inbox = record (x.inbox) { len = 0 } })

-- One round of the loop over `xfer->block`, from what `read` gave.
unfoldable pub serve_read : {R : Type 0} → Param → Pace R → Input → Handler R → Read → After R
serve_read p m i x no_data = serve p m i x
serve_read p m i x (chunk bytes) = serve p m i (record x { inbox = add_bytes bytes x.inbox })
serve_read p m i x failed = after x died

unfoldable pub serve_round : {R : Type 0} → Param → Pace R → Input → Handler R → After R
serve_round p m i x = serve_read p m i x i.read
