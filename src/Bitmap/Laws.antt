-- ===== src/Bitmap/Laws.antt =====
-- client/command.c: the bitfield is the set of the blocks that were marked.
use tsunami_udp.Base.{
  ℕ, zero, suc, ◌+◌, ◌/◌, ◌%◌, ◌^◌, ◌≤◌, ◌<◌, ◌≡◌, refl, arith, ◌||◌, ◌==◌, ltb, if◌then◌else◌,
  List, [], ◌∷◌, length, get_or, set, replicate, bit_or, length-set, length-replicate, ◌∙◌,
}
use tsunami_udp.Bitmap.{new_bitmap, got_block, mark_received}
use tsunami_udp.Bitmap.Bits.{bit_or-lt, bit_and-bit_or, bit_and_zero, power-ne-zero}

-- A bitfield for `n` blocks: its size, and its elements are bytes.
pub record IsBitmap (n : ℕ) (received : List ℕ) : Type 0 where
  pub size : length received ≡ n / 8 + 2
  pub bytes : (i : ℕ) → get_or received i 0 < 256

get_or-replicate : (n i : ℕ) → get_or (replicate {A = ℕ} n 0) i 0 ≡ 0
get_or-replicate zero i = refl
get_or-replicate (suc n) zero = refl
get_or-replicate (suc n) (suc i) = get_or-replicate n i

get_or-set :
    (xs : List ℕ) (i v j : ℕ)
    → i < length xs
    → get_or (set xs i v) j 0 ≡ (if j == i then v else get_or xs j 0)
get_or-set [] i v j h = absurd (omega arith)
get_or-set (x ∷ xs) zero v zero h = refl
get_or-set (x ∷ xs) zero v (suc j) h = ground arith
get_or-set (x ∷ xs) (suc i) v zero h = ground arith
get_or-set (x ∷ xs) (suc i) v (suc j) h = ground (arith, get_or-set xs i v j (omega arith))

pub new_bitmap-IsBitmap : (n : ℕ) → IsBitmap n (new_bitmap n)
unfolding new_bitmap
new_bitmap-IsBitmap n = record {
  size = length-replicate (n / 8 + 2) 0;
  bytes = λ i. omega (arith, get_or-replicate (n / 8 + 2) i);
}

-- No block is received at the start.
pub got_block-new_bitmap : (n b : ℕ) → got_block n (new_bitmap n) b ≡ ltb n b
unfolding got_block new_bitmap
got_block-new_bitmap n b =
    ground (arith, get_or-replicate (n / 8 + 2) (b / 8), bit_and_zero (b % 8))

-- The byte of any block up to the last is inside the bitfield.
pub bitmap_index :
    (n : ℕ) (received : List ℕ) (b : ℕ) → IsBitmap n received → b ≤ n → b / 8 < length received
bitmap_index n received b m h = omega (arith, m.size)

pub mark_received-IsBitmap :
    (n : ℕ) (received : List ℕ) (b : ℕ)
    → IsBitmap n received
    → b ≤ n
    → IsBitmap n (mark_received received b)
unfolding mark_received
mark_received-IsBitmap n received b m h =
    let new : ℕ = bit_or (get_or received (b / 8) 0) (2 ^ (b % 8)) in
    record {
      size = length-set received (b / 8) new ∙ m.size;
      bytes = λ i. ground (
        arith,
        get_or-set received (b / 8) new i (bitmap_index n received b m h),
        bit_or-lt (get_or received (b / 8) 0) (b % 8) (m.bytes (b / 8)) (omega arith),
        m.bytes i,
      );
    }

-- Marking block `b` in the bitfield of a transfer of `n` blocks makes exactly `b` received besides the
-- blocks that were received before, if `b` is at most `n`.
pub got_block-mark_received :
    (n : ℕ) (received : List ℕ) (b c : ℕ)
    → IsBitmap n received
    → b ≤ n
    → got_block n (mark_received received b) c ≡ (c == b || got_block n received c)
unfolding got_block mark_received
got_block-mark_received n received b c m h =
    let old : ℕ = get_or received (b / 8) 0 in
    let new : ℕ = bit_or old (2 ^ (b % 8)) in
    ground (
      arith,
      get_or-set received (b / 8) new (c / 8) (bitmap_index n received b m h),
      bit_and-bit_or old (b % 8) (c % 8) (m.bytes (b / 8)) (omega arith) (omega arith),
      power-ne-zero (b % 8) (omega arith),
    )
