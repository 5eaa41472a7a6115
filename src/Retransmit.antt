-- ===== src/Retransmit.antt =====
-- client/protocol.c: the table of blocks to be asked for again. `ttp_request_retransmit` adds to it
-- and `ttp_repeat_retransmit` cleans it up and sends it.
pub mod Table
pub mod Compact
pub mod Repeat
pub mod Sorting
mod Tests
use tsunami_udp.Base.{
  ℕ, zero, suc, ◌+◌, ◌-◌, ◌*◌, ◌%◌, ◌^◌, min, Bool, true, false, not, ◌&&◌, ◌==◌, ltb, leb,
  if◌then◌else◌, Option, none, some, List, [], ◌∷◌, ◌++◌, map, length, get_or, set, replicate,
}
use tsunami_udp.Bitmap.{got_block}
use tsunami_udp.Message.{Request, request_retransmit, request_restart}

abbrev pub max_retransmission_buffer : ℕ
max_retransmission_buffer = 2048

abbrev pub default_table_size : ℕ
default_table_size = 4096

-- `retransmit_t`
pub record Rexmit : Type 0 where
  pub table : List ℕ
  pub table_size : ℕ
  pub index_max : ℕ

-- `calloc` and the two assignments of `command_get`.
unfoldable pub new_rexmit : Rexmit
new_rexmit = record {
  table = replicate default_table_size 0;
  table_size = default_table_size;
  index_max = 0;
}

-- `realloc` to twice the size, with the new half cleared.
abbrev pub grown : Rexmit → Rexmit
grown r = record r {
  table = r.table ++ replicate r.table_size 0;
  table_size = r.table_size * 2 % 2 ^ 32;
}

abbrev pub store_request : ℕ → Rexmit → Rexmit
store_request block r = record r {
  table = set r.table r.index_max block;
  index_max = (r.index_max + 1) % 2 ^ 32;
}

-- `none` is the return value -1, when `realloc` fails; the table is then as it was.
unfoldable pub ttp_request_retransmit :
    (realloc_works : Bool) → (block_count : ℕ) → List ℕ → ℕ → Rexmit → Option Rexmit
ttp_request_retransmit realloc_works block_count received block r =
    if got_block block_count received block
    then some r
    else if leb r.table_size r.index_max
    then if leb (32 * max_retransmission_buffer) r.index_max
      then some r
      else if realloc_works
      then some (store_request block (grown r))
      else none
    else some (store_request block r)

-- `block && !got_block(session, block)`
abbrev pub wanted : (block_count : ℕ) → List ℕ → ℕ → Bool
wanted block_count received block = not (block == 0) && not (got_block block_count received block)

-- What the loop of `ttp_repeat_retransmit` leaves: the table, and the blocks of the requests, which
-- are as many as `count`.
pub record Compacted : Type 0 where
  pub table : List ℕ
  pub count : ℕ
  pub blocks : List ℕ

-- The loop, with `left = index_max - entry` rounds to go. The result adds to `blocks` in front what
-- the earlier rounds have inserted.
unfoldable pub compact : (block_count : ℕ) → List ℕ → (left entry count : ℕ) → List ℕ → Compacted
compact block_count received zero entry count table = record {
  table = table;
  count = count;
  blocks = [];
}
compact block_count received (suc left) entry count table =
    elim (ltb count max_retransmission_buffer) [
      | false ↦ record { table = table; count = count; blocks = [] }
      | true ↦ elim (wanted block_count received (get_or table entry 0)) [
        | false ↦ compact block_count received left (entry + 1) count table
        | true ↦
            let block = get_or table entry 0 in
            let rest =
              compact block_count received left (entry + 1) (count + 1) (set table count block) in
            record rest { blocks = block ∷ rest.blocks }
      ]
    ]

-- The part of `ttp_transfer_t` and `statistics_t` that the function reads and writes.
pub record Progress : Type 0 where
  pub block_count : ℕ
  pub received : List ℕ
  pub next_block : ℕ
  pub gapless_to_block : ℕ
  pub rexmit : Rexmit
  pub restart_pending : Bool
  pub restart_lastidx : ℕ
  pub restart_wireclearidx : ℕ
  pub on_wire_estimate : ℕ
  pub this_retransmits : ℕ
  pub total_retransmits : ℕ

-- What the calls on the control connection give: whether `fwrite` and `fflush` succeed.
pub record Control : Type 0 where
  pub write_works : Bool
  pub flush_works : Bool

-- The new state, what was written to the control connection, and whether 0 was returned.
pub record Reply : Type 0 where
  pub progress : Progress
  pub requests : List Request
  pub ok : Bool

abbrev pub ask_again : ℕ → Request
ask_again b = record { request_type = request_retransmit; block = b; error_rate = 0 }

abbrev pub restart_at : ℕ → Request
restart_at b = record { request_type = request_restart; block = b; error_rate = 0 }

-- `min(xfer->block_count, xfer->gapless_to_block + 1)`
abbrev pub restart_block : Progress → ℕ
restart_block x = min x.block_count ((x.gapless_to_block + 1) % 2 ^ 32)

-- After the loop: too many entries, so that the transfer starts again from the first missing block.
abbrev pub restarted : Progress → Progress
restarted x =
    let last = get_or x.rexmit.table (x.rexmit.index_max - 1) 0 in
    record x {
      restart_pending = true;
      restart_lastidx = last;
      restart_wireclearidx = min x.block_count ((last + x.on_wire_estimate) % 2 ^ 32);
      rexmit = record { table = x.rexmit.table; table_size = x.rexmit.table_size; index_max = 0 };
      next_block = restart_block x;
      this_retransmits = max_retransmission_buffer;
    }

abbrev pub shrunk : ℕ → Progress → Progress
shrunk count x = record x {
  rexmit = record { table = x.rexmit.table; table_size = x.rexmit.table_size; index_max = count };
  this_retransmits = count;
  total_retransmits = (x.total_retransmits + count) % 2 ^ 32;
}

-- After the loop, with the table written back.
unfoldable pub send_requests : Control → Compacted → Progress → Reply
send_requests c k x =
    if leb max_retransmission_buffer k.count
    then if c.write_works
      then record {
        progress = restarted x;
        requests = restart_at (restart_block x) ∷ [];
        ok = c.flush_works;
      }
      else record { progress = x; requests = []; ok = false }
    else if k.count == 0
    then record { progress = shrunk 0 x; requests = []; ok = c.flush_works }
    else if c.write_works
    then record {
      progress = shrunk k.count x;
      requests = map ask_again k.blocks;
      ok = c.flush_works;
    }
    else record { progress = shrunk k.count x; requests = []; ok = false }

-- `memset`, `this_retransmits = 0` and the loop.
abbrev pub compacted : Progress → Compacted
compacted x = compact x.block_count x.received x.rexmit.index_max 0 0 x.rexmit.table

abbrev pub with_table : List ℕ → Progress → Progress
with_table t x = record x {
  rexmit = record { table = t; table_size = x.rexmit.table_size; index_max = x.rexmit.index_max };
  this_retransmits = 0;
}

unfoldable pub ttp_repeat_retransmit : Control → Progress → Reply
unfolding send_requests
ttp_repeat_retransmit c x = let k = compacted x in send_requests c k (with_table k.table x)
