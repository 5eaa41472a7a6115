-- ===== src/Bitmap/Lost.antt =====
-- client/command.c: how many blocks are still missing.
use tsunami_udp.Base.{
  ℕ, zero, suc, ◌+◌, ◌≤◌, ◌<◌, ◌≡◌, refl, arith, true, false, List, ℕ_discrete, ◌⊎◌, inl, inr,
}
use tsunami_udp.Bitmap.{new_bitmap, got_block, mark_received, count_lost}
use tsunami_udp.Bitmap.Laws.{IsBitmap, got_block-mark_received, got_block-new_bitmap}

-- At the start every block is missing.
pub count_lost-new_bitmap : (n k : ℕ) → k ≤ n → count_lost n (new_bitmap n) k ≡ k
unfolding count_lost
count_lost-new_bitmap n zero h = refl
count_lost-new_bitmap n (suc k) h =
    ground (arith, got_block-new_bitmap n (suc k), count_lost-new_bitmap n k (omega arith))

pub count_lost-le : (n : ℕ) (received : List ℕ) (k : ℕ) → count_lost n received k ≤ k
unfolding count_lost
count_lost-le n received zero = omega arith
count_lost-le n received (suc k) = ground (arith, count_lost-le n received k)

-- Marking a block past the range does not change the count.
count_lost-mark_above :
    (n : ℕ) (received : List ℕ) (b k : ℕ)
    → IsBitmap n received
    → b ≤ n
    → (k < b) ⊎ (b ≡ 0)
    → count_lost n (mark_received received b) k ≡ count_lost n received k
unfolding count_lost
count_lost-mark_above n received b zero m h out = refl
count_lost-mark_above n received b (suc k) m h out = ground (
  arith,
  got_block-mark_received n received b (suc k) m h,
  count_lost-mark_above n received b k m h (omega arith),
)

-- Block 0 is none of the blocks that are counted.
pub count_lost-mark_zero :
    (n : ℕ) (received : List ℕ) (k : ℕ)
    → IsBitmap n received
    → count_lost n (mark_received received 0) k ≡ count_lost n received k
count_lost-mark_zero n received k m =
    count_lost-mark_above n received 0 k m (omega arith) (inr refl)

-- Marking a missing block takes one off the count.
pub count_lost-mark_received :
    (n : ℕ) (received : List ℕ) (b k : ℕ)
    → IsBitmap n received
    → 0 < b
    → b ≤ k
    → k ≤ n
    → got_block n received b ≡ false
    → count_lost n (mark_received received b) k + 1 ≡ count_lost n received k
unfolding count_lost
count_lost-mark_received n received b zero m pos bk kn new = absurd (omega arith)
count_lost-mark_received n received b (suc k) m pos bk kn new = elim (ℕ_discrete b (suc k)) [
  | yes e ↦ ground (
    arith,
    got_block-mark_received n received b (suc k) m (omega arith),
    count_lost-mark_above n received b k m (omega arith) (inl (omega arith)),
  )
  | no ne ↦ ground (
    arith,
    got_block-mark_received n received b (suc k) m (omega arith),
    count_lost-mark_received n received b k m pos (omega arith) (omega arith) new,
  )
]

-- A count of 0 means that every block of the range was received.
pub count_lost-zero :
    (n : ℕ) (received : List ℕ) (k b : ℕ)
    → count_lost n received k ≡ 0
    → 0 < b
    → b ≤ k
    → got_block n received b ≡ true
unfolding count_lost
count_lost-zero n received zero b e pos bk = absurd (omega arith)
count_lost-zero n received (suc k) b e pos bk = elim (ℕ_discrete b (suc k)) [
  | yes same ↦ ground arith
  | no ne ↦ count_lost-zero n received k b (ground arith) pos (omega arith)
]

-- Conversely, if every block of the range was received, none counts as lost.
pub count_lost_of_all :
    (n : ℕ) (received : List ℕ) (k : ℕ)
    → ((b : ℕ) → 0 < b → b ≤ k → got_block n received b ≡ true)
    → count_lost n received k ≡ 0
unfolding count_lost
count_lost_of_all n received zero all = refl
count_lost_of_all n received (suc k) all = ground (
  arith,
  all (suc k) (omega arith) (omega arith),
  count_lost_of_all n received k (λ b pos bk. all b pos (omega arith)),
)
