-- ===== src/Bitmap.antt =====
-- client/command.c: the bitfield of received blocks.
pub mod Bits
pub mod Laws
pub mod Lost
mod Tests
use tsunami_udp.Base.{
  ℕ, zero, suc, ◌+◌, ◌/◌, ◌%◌, ◌^◌, Bool, true, false, not, ◌==◌, ltb, if◌then◌else◌, List, get_or,
  set, replicate, bit_and, bit_or,
}

-- `calloc(block_count / 8 + 2, 1)`
unfoldable pub new_bitmap : ℕ → List ℕ
new_bitmap block_count = replicate (block_count / 8 + 2) 0

-- `got_block`: a number past the last block counts as received.
unfoldable pub got_block : (block_count : ℕ) → (received : List ℕ) → (blocknr : ℕ) → Bool
got_block block_count received blocknr =
    if ltb block_count blocknr
    then true
    else not (bit_and (get_or received (blocknr / 8) 0) (2 ^ (blocknr % 8)) == 0)

-- `received[this_block / 8] |= (1 << (this_block % 8))`
unfoldable pub mark_received : List ℕ → ℕ → List ℕ
mark_received received b = set received (b / 8) (bit_or (get_or received (b / 8) 0) (2 ^ (b % 8)))

-- `total_lost` over the blocks 1, …, n.
unfoldable pub count_lost : (block_count : ℕ) → List ℕ → ℕ → ℕ
count_lost block_count received zero = 0
count_lost block_count received (suc n) =
    count_lost block_count received n + (if got_block block_count received (suc n) then 0 else 1)
