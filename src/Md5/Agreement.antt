-- ===== src/Md5/Agreement.antt =====
-- common/md5.c: the digest against that of RFC 1321.
use tsunami_udp.Base.{
  ℕ, zero, suc, ◌+◌, ◌-◌, ◌*◌, ◌/◌, ◌%◌, ◌^◌, ◌<◌, ◌≤◌, ◌≡◌, ◌≢◌, refl, ap, sym, subst, ◌∙◌, arith,
  true, false, ltb, ◌==◌, List, ◌∷◌, ◌++◌, drop, replicate, get_or, length, length-append,
  length-replicate, drop-drop, dec_lt, ℕ_discrete,
}
use tsunami_udp.Md5.{
  step, first_state, t_array, md5_table, pad, md5_dispatch, md5_f, md5_g, md5_h, md5_i, words,
  blocks_of, part_block, with_size, block_x, steps, additions, md5_blocks, words_bytes, md5_digest,
}
use tsunami_udp.Md5.Padding.{block_x-filled, last_block, two_blocks, no_padding}
use tsunami_udp.Md5.Reference.{
  operation, auxiliary, sine_part, series, word_index, shift, Words, operations, incremented,
  process, start, output, bit_length, padded, digest_padded, digest,
}
use tsunami_udp.Wire.{load32}
use tsunami_udp.Md5.Rounds.{
  placed, steps_lem, additions-placed, words_bytes-placed, first_state-placed,
}

-- The blocks of the code are those of the bytes `p`.
record Reads (message p : List ℕ) : Type 0 where
  count : length p / 64 ≡ blocks_of (length message) + 1
  same : (i : ℕ) → i ≤ blocks_of (length message) → block_x message i ≡ words 16 (drop (64 * i) p)

md5_blocks-placed :
    (message p : List ℕ) (left i : ℕ) (w : Words)
    → Reads message p
    → i + left ≤ blocks_of (length message) + 1
    → md5_blocks message left i (placed 0 w) ≡ placed 0 (process left (drop (64 * i) p) w)
unfolding md5_blocks process
md5_blocks-placed message p zero i w r le = refl
md5_blocks-placed message p (suc left) i w r le =
    let x = words 16 (drop (64 * i) p) in
    let w' = incremented (operations x 64 0 w) w in
    let one : additions (steps (block_x message i) 64 0 (placed 0 w)) (placed 0 w) ≡ placed 0 w' =
      ap (λ x. additions (steps x 64 0 (placed 0 w)) (placed 0 w)) (r.same i (omega arith))
      ∙ ap (λ s. additions s (placed 0 w)) (steps_lem x w)
      ∙ additions-placed (operations x 64 0 w) w in
    ap (md5_blocks message left (i + 1)) one
    ∙ md5_blocks-placed message p left (i + 1) w' r (omega arith)
    ∙ ap (λ bytes. placed 0 (process left bytes w'))
        (ap (λ n. drop n p) {x = 64 * (i + 1)} (omega arith) ∙ sym (drop-drop 64 (64 * i) p))

md5_digest-Reads : (message p : List ℕ) → Reads message p → md5_digest message ≡ digest_padded p
unfolding md5_digest digest_padded
md5_digest-Reads message p r =
    let blocks = blocks_of (length message) + 1 in
    ap (λ s. words_bytes (md5_blocks message blocks 0 s)) first_state-placed
    ∙ ap words_bytes (md5_blocks-placed message p blocks 0 start r (omega arith))
    ∙ words_bytes-placed (process blocks p start)
    ∙ ap (λ n. output (process n p start)) (sym r.count)

padded-length :
    (message : List ℕ)
    → length (padded message) ≡ length message + 1 + (119 - length message % 64) % 64 + 8
unfolding padded
padded-length message =
    let n = (119 - length message % 64) % 64 in
    omega (
      arith,
      length-append message (0x80 ∷ (replicate n 0 ++ bit_length message)),
      length-append (replicate n 0) (bit_length message),
      length-replicate {A = ℕ} n 0,
    )

module _ (message : List ℕ) where
  abbrev size : ℕ
  size = length message

  abbrev full : ℕ
  full = size / 64

  -- The block behind the full ones, when it is the last.
  block_x-last :
      size % 64 ≤ 56
      → block_x message full
        ≡ with_size size (words 16 (part_block (drop (64 * full) message) size))
  unfolding block_x blocks_of
  block_x-last low =
      let not_early : ltb (full + 1) (blocks_of size) ≡ false = ground arith in
      let not_next : (full + 1 == blocks_of size) ≡ false = ground arith in
      let not_over : ltb size (64 * full) ≡ false = ground arith in
      rw (not_early, not_next, not_over) refl

  blocks_of-low : size % 64 ≤ 56 → blocks_of size ≡ full
  unfolding blocks_of
  blocks_of-low low = ground arith

  blocks_of-high : 56 < size % 64 → blocks_of size ≡ full + 1
  unfolding blocks_of
  blocks_of-high high = ground arith

  short-Reads : size * 8 < 2 ^ 32 → size % 64 < 56 → Reads message (padded message)
  unfolding padded
  short-Reads small low = record {
    count = omega (arith, padded-length message, blocks_of-low (omega arith));
    same = λ i le. elim (dec_lt i full) [
      | yes before ↦ block_x-filled message i _ before
      | no here ↦
          subst (λ i. block_x message i ≡ words 16 (drop (64 * i) (padded message))) {x = full}
            (omega (arith, blocks_of-low (omega arith)))
            (block_x-last (omega arith) ∙ last_block message small low)
    ];
  }

  -- The last two blocks of the code, when the padding does not fit into one.
  block_x-two :
      56 < size % 64
      → (block_x message full ≡ words 16 (part_block (drop (64 * full) message) size))
        × (block_x message (full + 1) ≡ with_size size (words 16 (replicate 64 0)))
  unfolding block_x
  block_x-two high =
      let count = blocks_of-high high in
      let not_early : ltb (full + 1) (blocks_of size) ≡ false = ground arith in
      let next : (full + 1 == blocks_of size) ≡ true = ground arith in
      let over : ltb size (64 * (full + 1)) ≡ true = ground arith in
      let last_not_early : ltb (full + 1 + 1) (blocks_of size) ≡ false = ground arith in
      let last_not_next : (full + 1 + 1 == blocks_of size) ≡ false = ground arith in
      (rw (not_early, next, over) refl, rw (last_not_early, last_not_next, over) refl)

  long-Reads : size * 8 < 2 ^ 32 → 56 < size % 64 → Reads message (padded message)
  unfolding padded
  long-Reads small high =
      let (first, second) = two_blocks message small high in
      let (code_first, code_second) = block_x-two high in
      record {
        count = omega (arith, padded-length message, blocks_of-high high);
        same = λ i le. elim (dec_lt i full) [
          | yes before ↦ block_x-filled message i _ before
          | no behind ↦ elim (ℕ_discrete i full) [
            | yes here ↦
                subst (λ i. block_x message i ≡ words 16 (drop (64 * i) (padded message)))
                  (sym here) (code_first ∙ first)
            | no last ↦
                subst (λ i. block_x message i ≡ words 16 (drop (64 * i) (padded message)))
                  {x = full + 1} (omega (arith, blocks_of-high high, last)) (code_second ∙ second)
          ]
        ];
      }

  bare-Reads : size * 8 < 2 ^ 32 → size % 64 ≡ 56 → Reads message (message ++ bit_length message)
  bare-Reads small exact = record {
    count = omega (arith, length-append message (bit_length message), blocks_of-low (omega arith));
    same = λ i le. elim (dec_lt i full) [
      | yes before ↦ block_x-filled message i (bit_length message) before
      | no here ↦
          subst (λ i. block_x message i ≡ words 16 (drop (64 * i) (message ++ bit_length message)))
            {x = full} (omega (arith, blocks_of-low (omega arith)))
            (block_x-last (omega arith) ∙ no_padding message small exact)
    ];
  }

-- The digest of a message of fewer than 2 ^ 29 bytes, unless its last block has exactly 56 bytes, is the one
-- that RFC 1321 describes: of the message padded with a 1 bit, 0 bits and its length.
pub md5_digest_lem :
    (message : List ℕ)
    → length message < 2 ^ 29
    → length message % 64 ≢ 56
    → md5_digest message ≡ digest message
unfolding digest
md5_digest_lem message small other = elim (dec_lt (length message % 64) 56) [
  | yes low ↦ md5_digest-Reads message (padded message) (short-Reads message (omega arith) low)
  | no high ↦
      md5_digest-Reads message (padded message)
        (long-Reads message (omega arith) (omega (arith, other)))
]

zeros_differ : md5_digest (replicate 56 0) ≢ digest (replicate 56 0)
unfolding md5_digest md5_blocks blocks_of block_x words steps step additions first_state words_bytes
    t_array md5_table pad md5_dispatch md5_f md5_g md5_h md5_i load32 digest digest_padded padded
    process operations operation incremented output auxiliary sine_part series word_index shift
zeros_differ e = let first = ap (λ bytes. get_or bytes 0 0) e in omega (arith, first)

-- The digest of a message of fewer than 2 ^ 29 bytes whose last block has exactly 56 bytes is what the operations of
-- RFC 1321 make of the message followed at once by its length: no padding stands between them, since the
-- code calculates one block too few. For 56 bytes of 0 it is not the digest of RFC 1321.
pub md5_digest_bare :
    (message : List ℕ)
    → length message < 2 ^ 29
    → length message % 64 ≡ 56
    → (md5_digest message ≡ digest_padded (message ++ bit_length message))
      × (md5_digest (replicate 56 0) ≢ digest (replicate 56 0))
md5_digest_bare message small exact = (
  md5_digest-Reads message (message ++ bit_length message) (bare-Reads message (omega arith) exact),
  zeros_differ,
)
