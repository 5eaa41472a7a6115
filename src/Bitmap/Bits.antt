-- ===== src/Bitmap/Bits.antt =====
-- Bits of a byte, by a table of all bytes.
use tsunami_udp.Base.{
  ℕ, zero, suc, ◌^◌, ◌<◌, ◌≡◌, ◌≢◌, refl, arith, ℕ_discrete, Bool, true, false, ◌&&◌, ◌==◌, ltb,
  ==_iff, bit_and, bit_or, if◌then◌else◌,
}

-- A test over 0, …, k - 1 by evaluation, and one number of the range taken out of it.
tests_pass : (ℕ → Bool) → ℕ → Bool
tests_pass test zero = true
tests_pass test (suc k) = if test k then tests_pass test k else false

test_passes : (test : ℕ → Bool) (k : ℕ) → tests_pass test k ≡ true → {i : ℕ} → i < k → test i ≡ true
unfolding tests_pass
test_passes test zero pass {i} below = elim below [ ]
test_passes test (suc k) pass {i} below = elim (ℕ_discrete i k) [
  | yes last ↦ ground arith
  | no other ↦ test_passes test k (ground arith) (omega arith)
]

-- What a byte says of bit `j` after bit `k` was set.
bit_ok : ℕ → ℕ → ℕ → Bool
bit_ok x k j =
    ltb (bit_or x (2 ^ k)) 256
    && bit_and (bit_or x (2 ^ k)) (2 ^ j) == (if k == j then 2 ^ k else bit_and x (2 ^ j))

abbrev all_bits : Bool
all_bits = tests_pass (λ x. tests_pass (λ k. tests_pass (bit_ok x k) 8) 8) 256

bit_table : all_bits ≡ true
unfolding tests_pass bit_ok
bit_table = refl

bit_ok_lem : (x k j : ℕ) → x < 256 → k < 8 → j < 8 → bit_ok x k j ≡ true
bit_ok_lem x k j hx hk hj =
    let row = test_passes (λ x. tests_pass (λ k. tests_pass (bit_ok x k) 8) 8) 256 bit_table hx in
    let column = test_passes (λ k. tests_pass (bit_ok x k) 8) 8 row hk in
    test_passes (bit_ok x k) 8 column hj

pub bit_or-lt : (x k : ℕ) → x < 256 → k < 8 → bit_or x (2 ^ k) < 256
unfolding bit_ok
bit_or-lt x k hx hk = ground (arith, bit_ok_lem x k 0 hx hk (omega arith))

pub bit_and-bit_or :
    (x k j : ℕ)
    → x < 256
    → k < 8
    → j < 8
    → bit_and (bit_or x (2 ^ k)) (2 ^ j) ≡ (if k == j then 2 ^ k else bit_and x (2 ^ j))
unfolding bit_ok
bit_and-bit_or x k j hx hk hj = ground (arith, bit_ok_lem x k j hx hk hj)

pub bit_and_zero : (k : ℕ) → k < 8 → bit_and 0 (2 ^ k) ≡ 0
unfolding tests_pass
bit_and_zero k h = (==_iff _ 0).0 (test_passes (λ k. bit_and 0 (2 ^ k) == 0) 8 refl h)

pub power-ne-zero : (k : ℕ) → k < 8 → 2 ^ k ≢ 0
unfolding tests_pass
power-ne-zero k h e = ground (arith, test_passes (λ k. ltb 0 (2 ^ k)) 8 refl h)
