-- ===== src/Blocks/Layout.antt =====
-- server/protocol.c and client/io.c: blocks tile the file.
use tsunami_udp.Base.{
  ℕ, suc, ◌+◌, ◌-◌, ◌*◌, ◌/◌, ◌%◌, ◌^◌, ◌≤◌, ◌<◌, ◌≡◌, ◌≢◌, arith, ap, dec_le, ℕ_discrete,
}
use tsunami_udp.Blocks.{block_count_of, offset_of, write_size}
use native.Mathlib.Nat.{mod-lt, div-add-mod, mul-le-mul_left, mul-suc}

-- A block number in range, with the file position that it has.
pub offset_lem : (s b : ℕ) → 0 < b → b < 2 ^ 32 → offset_of s b ≡ s * (b - 1)
offset_lem s b pos small = ap (λ k. s * k) {x = (b + 2 ^ 32 - 1) % 2 ^ 32} (omega arith)

pub mul_pred : (s b : ℕ) → 0 < b → s * (b - 1) + s ≡ s * b
mul_pred s b pos =
    omega (arith, mul-suc s (b - 1), ap (λ k. s * k) {x = suc (b - 1)} {y = b} (omega arith))

-- What the number of blocks is, with the position of the end.
record Counted (size s n : ℕ) : Type 0 where
  whole : (size % s ≡ 0) → (n ≡ size / s) × (s * n ≡ size)
  part : (size % s ≢ 0) → (n ≡ size / s + 1) × (s * (n - 1) + size % s ≡ size) × (size % s < s)

block_count_of-Counted : (size s : ℕ) → 0 < s → Counted size s (block_count_of size s)
block_count_of-Counted size s some_bytes =
    let n = block_count_of size s in
    record {
      whole = λ e.
          let n_whole : n ≡ size / s = ground arith in
          (n_whole, omega (arith, div-add-mod size s, ap (λ k. s * k) n_whole));
      part = λ ne.
          let n_part : n ≡ size / s + 1 = ground arith in
          (
            n_part,
            omega (
              arith,
              div-add-mod size s,
              ap (λ k. s * k) {x = n - 1} {y = size / s} (omega arith),
            ),
            mod-lt size some_bytes,
          );
    }

-- A block that is not the last is a whole one inside the file; the last one ends at the end.
pub block_fits :
    (size s b : ℕ)
    → 0 < s
    → 0 < b
    → b ≤ block_count_of size s
    → s * (b - 1) + write_size (block_count_of size s) size s b ≤ size
block_fits size s b some_bytes pos inside =
    let n = block_count_of size s in
    let c = block_count_of-Counted size s some_bytes in
    let here = mul_pred s b pos in
    elim (ℕ_discrete b n) [
      | yes last ↦
          let same = ap (λ k. s * (k - 1)) last in
          elim (ℕ_discrete (size % s) 0) [
            | yes whole ↦ ground (arith, c.whole whole, ap (λ k. s * k) last)
            | no part ↦ ground (arith, c.part part)
          ]
      | no inner ↦
          let below = mul-le-mul_left {m = b} {n = n - 1} s (omega arith) in
          let below' = mul-le-mul_left {m = b} {n = n} s inside in
          elim (ℕ_discrete (size % s) 0) [
            | yes whole ↦ ground (arith, c.whole whole)
            | no part ↦ ground (arith, c.part part)
          ]
    ]

pub some_blocks : (size s : ℕ) → 0 < s → 0 < size → 0 < block_count_of size s
some_blocks size s some_bytes some_size =
    let n = block_count_of size s in
    let c = block_count_of-Counted size s some_bytes in
    elim (ℕ_discrete (size % s) 0) [
      | no part ↦ omega (arith, c.part part)
      | yes whole ↦ elim (ℕ_discrete n 0) [
        | no more ↦ omega arith
        | yes empty ↦ absurd (omega (arith, c.whole whole, ap (λ k. s * k) empty))
      ]
    ]

pub last_block_ends :
    (size s : ℕ)
    → 0 < s
    → 0 < size
    → let n = block_count_of size s in s * (n - 1) + write_size n size s n ≡ size
last_block_ends size s some_bytes some_size =
    let n = block_count_of size s in
    let c = block_count_of-Counted size s some_bytes in
    elim (ℕ_discrete (size % s) 0) [
      | yes whole ↦
          ground (arith, c.whole whole, mul_pred s n (some_blocks size s some_bytes some_size))
      | no part ↦ ground (arith, c.part part)
    ]

-- The block of a position of the file.
pub record Holds (size s i b : ℕ) : Type 0 where
  pub pos : 0 < b
  pub inside : b ≤ block_count_of size s
  pub from : s * (b - 1) ≤ i
  pub to : i < s * (b - 1) + write_size (block_count_of size s) size s b

pub block_of : (size s i : ℕ) → 0 < s → i < size → Holds size s i (i / s + 1)
block_of size s i some_bytes inside =
    let n = block_count_of size s in
    let b = i / s + 1 in
    let c = block_count_of-Counted size s some_bytes in
    let first = some_blocks size s some_bytes (omega arith) in
    let start = ap (λ k. s * k) {x = b - 1} {y = i / s} (omega arith) in
    let split = div-add-mod i s in
    let rest = mod-lt i some_bytes in
    let b_in : b ≤ n = elim (dec_le b n) [
      | yes h ↦ h
      | no h ↦
          let past = mul-le-mul_left {m = n} {n = i / s} s (omega arith) in
          elim (ℕ_discrete (size % s) 0) [
            | yes whole ↦ absurd (omega (arith, c.whole whole))
            | no part ↦ absurd (omega (arith, c.part part, mul_pred s n first))
          ]
    ] in
    record {
      pos = omega arith;
      inside = b_in;
      from = omega arith;
      to = elim (ℕ_discrete b n) [
        | no inner ↦ ground arith
        | yes last ↦
            let same = ap (λ k. s * (k - 1)) last in
            elim (ℕ_discrete (size % s) 0) [
              | yes whole ↦ ground arith
              | no part ↦ ground (arith, c.part part)
            ]
      ];
    }
