-- ===== src/Retransmit/Sorting.antt =====
-- client/protocol.c: `ttp_request_retransmit` as RETX_REQBLOCK_SORTING builds it, with a sorted table.
pub mod Inserted
pub mod Arrays
pub mod Requests
mod Tests
use tsunami_udp.Base.{
  ℕ, zero, suc, ◌+◌, ◌-◌, ◌*◌, ◌%◌, ◌^◌, Bool, ◌==◌, ltb, leb, if◌then◌else◌, Option, none, some,
  List, get_or, set,
}
use tsunami_udp.Bitmap.{got_block}
use tsunami_udp.Retransmit.{Rexmit, max_retransmission_buffer, grown, store_request}

-- "seek to insertion point or end", with `left = index_max - idx` rounds to go.
unfoldable pub seek_entry : (left idx block : ℕ) → List ℕ → ℕ
seek_entry zero idx block table = idx
seek_entry (suc left) idx block table =
    let rest = seek_entry left (idx + 1) block table in
    if ltb (get_or table idx 0) block then rest else idx

-- "insert and shift remaining table upwards", with `left = index_max + 1 - idx` rounds to go.
unfoldable pub shift_up : (left idx tmp32_ins : ℕ) → List ℕ → List ℕ
shift_up zero idx tmp32_ins table = table
shift_up (suc left) idx tmp32_ins table =
    shift_up left (idx + 1) (get_or table idx 0) (set table idx tmp32_ins)

-- "insert the entry", where the loop has left `idx`.
unfoldable pub insert_at : (idx block : ℕ) → Rexmit → Rexmit
insert_at idx block r =
    if idx == r.index_max
    then store_request block r
    else if get_or r.table idx 0 == block
    then r
    else record r {
      table = shift_up (r.index_max + 1 - idx) idx block r.table;
      index_max = (r.index_max + 1) % 2 ^ 32;
    }

abbrev pub insert_request : ℕ → Rexmit → Rexmit
insert_request block r = insert_at (seek_entry r.index_max 0 block r.table) block r

-- `none` is the return value -1, when `realloc` fails; the table is then as it was.
unfoldable pub request_sorted :
    (realloc_works : Bool) → (block_count : ℕ) → List ℕ → ℕ → Rexmit → Option Rexmit
request_sorted realloc_works block_count received block r =
    if got_block block_count received block
    then some r
    else if leb r.table_size r.index_max
    then if leb (32 * max_retransmission_buffer) r.index_max
      then some r
      else if realloc_works
      then some (insert_request block (grown r))
      else none
    else some (insert_request block r)
