-- ===== src/Receive.antt =====
-- client/command.c: one round of the receive loop of `command_get`, from `recvfrom` to the end of the
-- loop's body. What the calls of the system give in the round is an argument, `Env`.
pub mod Ranges
pub mod Stages
pub mod Invariant
pub mod Finish
pub mod Zero
pub mod Recover
pub mod Asking
use tsunami_udp.Base.{
  ℕ, zero, suc, ◌+◌, ◌-◌, ◌%◌, ◌^◌, min, Bool, true, false, not, ◌&&◌, ◌||◌, ◌==◌, ltb, leb,
  if◌then◌else◌, Option, none, some, List, [], ◌∷◌, ◌++◌, drop,
}
use tsunami_udp.Bitmap.{got_block, mark_received}
use tsunami_udp.Message.{Request, request_error_rate}
use tsunami_udp.Retransmit.{
  Rexmit, ttp_request_retransmit, Progress, Control, Reply, ttp_repeat_retransmit,
}
use tsunami_udp.Ring.{
  Datagram, Ring, Pthread, Outcome, done, blocked, null, fatal, ring_full, queue_datagram,
}
use tsunami_udp.Wire.{Host, load16, load32, ntohs, ntohl}

-- The types of block, `'O'`, `'X'` and `'R'`.
abbrev pub ts_block_original : ℕ
ts_block_original = b'O'

abbrev pub ts_block_terminate : ℕ
ts_block_terminate = b'X'

abbrev pub ts_block_retransmission : ℕ
ts_block_retransmission = b'R'

abbrev pub update_period : ℕ
update_period = 350000

-- The state of the transfer that the loop works on. `requests` is what was written to the control
-- connection.
pub record Client : Type 0 where
  pub progress : Progress
  pub ring : Ring
  pub blocks_left : ℕ
  pub total_blocks : ℕ
  pub this_flow_originals : ℕ
  pub this_flow_retransmitteds : ℕ
  pub total_recvd_retransmits : ℕ
  pub requests : List Request

pub record Env : Type 0 where
  pub receive_works : Bool  -- `recvfrom` does not fail
  pub realloc_works : Bool
  pub control : Control
  pub pthread : Pthread
  pub lossless : Bool
  pub losswindow_ms : ℕ
  pub window_blocks : ℕ  -- the blocks inside the time window, a floating-point number rounded up
  pub elapsed : ℕ  -- microseconds since the last statistics
  pub error_rate : ℕ  -- the smoothed error rate, as it is sent

-- How a round ends: the next round, `break`, `goto abort`, exit of the process, or asleep for ever.
pub data Verdict : Type 0 where
  again finished aborted exited asleep : Verdict

pub record Round : Type 0 where
  pub client : Client
  pub verdict : Verdict

abbrev pub round : Client → Verdict → Round
round c v = record { client = c; verdict = v }

-- The header of the datagram.
abbrev pub this_block : Host → Datagram → ℕ
this_block h d = ntohl h (load32 h d)

abbrev pub this_type : Host → Datagram → ℕ
this_type h d = ntohs h (load16 h (drop 4 d))

abbrev pub got : Client → ℕ → Bool
got c b = got_block c.progress.block_count c.progress.received b

-- `for (block = from; block < to; ++block) ttp_request_retransmit(...)`, with `left = to - from`.
unfoldable pub request_range : Bool → (left from : ℕ) → Progress → Option Progress
request_range works zero from x = some x
request_range works (suc left) from x =
    elim (ttp_request_retransmit works x.block_count x.received from x.rexmit) [
      | none ↦ none
      | some r ↦ request_range works left (from + 1) (record x { rexmit = r })
    ]

-- `earliest_block`, of the semi-lossy mode.
abbrev pub earliest_block : Env → ℕ → Progress → ℕ
earliest_block env b x = b - min env.window_blocks ((b + 2 ^ 32 - x.gapless_to_block) % 2 ^ 32)

-- "queue any retransmits we need"
unfoldable pub queue_retransmits : Env → ℕ → Progress → Option Progress
queue_retransmits env b x =
    if ltb x.next_block b
    then if env.lossless
      then request_range env.realloc_works (b - x.next_block) x.next_block x
      else if env.losswindow_ms == 0
      then some (record x { gapless_to_block = b })
      else (let first = earliest_block env b x in
          elim (request_range env.realloc_works (b - first) first x) [
            | none ↦ none
            | some y ↦ some (record y { next_block = first; gapless_to_block = first })
          ])
    else some x

-- `while (got_block(gapless + 1) && gapless < block_count) gapless++`, with at most `left` rounds.
unfoldable pub advance_gapless : (block_count : ℕ) → List ℕ → (left gapless : ℕ) → ℕ
advance_gapless n received zero g = g
advance_gapless n received (suc left) g =
    elim (got_block n received ((g + 1) % 2 ^ 32) && ltb g n) [
      | true ↦ advance_gapless n received left (g + 1)
      | false ↦ g
    ]

-- The rounds that are left are `block_count - gapless`: then the second test fails.
abbrev pub advanced : Progress → Progress
advanced x = record x {
  gapless_to_block =
      advance_gapless x.block_count x.received (x.block_count - x.gapless_to_block)
        x.gapless_to_block;
}

-- `next_block` after an original block.
abbrev pub expect_next : ℕ → ℕ → Progress → Progress
expect_next t b x = record x {
  next_block = if t == ts_block_original then (b + 1) % 2 ^ 32 else x.next_block;
}

-- "already got out of the missing blocks range?"
abbrev pub end_restart : Progress → Progress
end_restart x = record x {
  restart_pending =
      if x.restart_pending && leb x.restart_lastidx x.next_block then false else x.restart_pending;
}

abbrev pub reply : Client → Reply → Client
reply c r = record c { progress = r.progress; requests = c.requests ++ r.requests }

-- `ttp_update_stats`, as far as it concerns the protocol: it sends the error rate, which no one
-- checks, and resets the counters of the interval, or leaves them if the control connection fails.
unfoldable pub update_stats : Env → Client → Client
update_stats env c =
    let report : Request = record {
      request_type = request_error_rate;
      block = 0;
      error_rate = env.error_rate;
    } in
    let sent : List Request = if env.control.write_works then report ∷ [] else [] in
    let x = c.progress in
    if env.control.write_works && env.control.flush_works
    then record c {
      progress = record x { this_retransmits = 0 };
      this_flow_originals = 0;
      this_flow_retransmitteds = 0;
      requests = c.requests ++ sent;
    }
    else record c { requests = c.requests ++ sent }

-- The label `send_stats`.
unfoldable pub send_stats : Env → Client → Round
send_stats env c =
    if c.total_blocks % 50 == 0 && ltb update_period env.elapsed
    then (let r = ttp_repeat_retransmit env.control c.progress in
        if r.ok then round (update_stats env (reply c r)) again else round (reply c r) aborted)
    else round c again

-- "are we at the end of the transmission?", after a terminate block.
unfoldable pub at_end : Env → Client → Round
at_end env c =
    if c.blocks_left == 0
      || (not env.lossless && (c.progress.rexmit.index_max == 0 && not c.progress.restart_pending))
    then round c finished
    else let x = c.progress in
      elim (request_range env.realloc_works (x.block_count - (x.gapless_to_block + 1))
        (x.gapless_to_block + 1) x) [
          | none ↦ round c aborted
          | some y ↦
              send_stats env
                (reply (record c { progress = y }) (ttp_repeat_retransmit env.control y))
        ]

-- From the queueing of retransmits to the end of the block's handling.
unfoldable pub follow_up : Env → (b t : ℕ) → Client → Round
follow_up env b t c = elim (queue_retransmits env b c.progress) [
  | none ↦ round c aborted
  | some x ↦
      let c' : Client = record c { progress = end_restart (expect_next t b (advanced x)) } in
      if t == ts_block_terminate then at_end env c' else send_stats env c'
]

-- "mark the block as received", and the count of the blocks to come.
abbrev pub marked : ℕ → Ring → Client → Client
marked b r c = record c {
  progress = record (c.progress) { received = mark_received c.progress.received b };
  ring = r;
  blocks_left = c.blocks_left - 1;
}

-- "avoid re-triggering on blocks still down the wire before server reacts"
abbrev pub still_on_wire : ℕ → ℕ → Progress → Bool
still_on_wire b t x =
    x.restart_pending
    && (not (t == ts_block_terminate) && (ltb x.restart_lastidx b && leb b x.restart_wireclearidx))

abbrev pub filter_stale : Env → (b t : ℕ) → Client → Round
filter_stale env b t c =
    if still_on_wire b t c.progress then send_stats env c else follow_up env b t c

-- "insert new blocks into disk write ringbuffer"
unfoldable pub insert_block : Env → (b t : ℕ) → Datagram → Client → Round
insert_block env b t d c =
    if got c b then filter_stale env b t c else elim (queue_datagram env.pthread d c.ring) [
      | done r ↦ filter_stale env b t (marked b r c)
      | blocked ↦ round c asleep
      | null ↦ round c exited
      | fatal ↦ round c exited
    ]

-- "keep statistics on received blocks"
abbrev pub counted : ℕ → Client → Client
counted t c =
    if t == ts_block_retransmission
    then record c {
      total_blocks = (c.total_blocks + 1) % 2 ^ 32;
      this_flow_retransmitteds = (c.this_flow_retransmitteds + 1) % 2 ^ 32;
      total_recvd_retransmits = (c.total_recvd_retransmits + 1) % 2 ^ 32;
    }
    else record c {
      total_blocks = (c.total_blocks + 1) % 2 ^ 32;
      this_flow_originals = (c.this_flow_originals + 1) % 2 ^ 32;
    }

-- "main transfer control logic": a datagram that meets a full ring is dropped.
unfoldable pub handle : Env → (b t : ℕ) → Datagram → Client → Round
handle env b t d c = elim (ring_full env.pthread c.ring) [
  | done full ↦
      if not full && (not (got c b) || (t == ts_block_terminate || c.progress.restart_pending))
      then insert_block env b t d c
      else send_stats env c
  | blocked ↦ round c asleep
  | null ↦ round c exited
  | fatal ↦ round c exited
]

-- One round, with what stands in `local_datagram` after `recvfrom`: after a failure, what stood
-- there before.
unfoldable pub receive_round : Host → Env → Datagram → Client → Round
receive_round h env d c =
    let b = this_block h d in
    let t = this_type h d in
    if env.receive_works
    then handle env b t d (counted t c)
    else let r = ttp_repeat_retransmit env.control c.progress in
      if r.ok then handle env b t d (counted t (reply c r)) else round (reply c r) aborted
