-- ===== src/Md5/Padding.antt =====
-- common/md5.c: what stands in `X` for each block, against the words of the padded message.
use tsunami_udp.Base.{
  ℕ, zero, suc, ◌+◌, ◌-◌, ◌*◌, ◌/◌, ◌%◌, ◌^◌, ◌<◌, ◌≡◌, refl, ap, ap₂, sym, ◌∙◌, arith, true, false,
  ltb, ◌==◌, List, [], ◌∷◌, ◌++◌, append-nil, append_assoc, take, drop, replicate, length, set,
  length-append, length-take, length-drop, length-replicate, take-append-drop, drop-append_left,
  drop-append_right, take-replicate, replicate-append, take_all, drop-drop, Bool-cases, inl, inr,
}
use tsunami_udp.Md5.{pad, words, blocks_of, part_block, with_size, block_x}
use tsunami_udp.Md5.Reference.{bit_length, padded}
use tsunami_udp.Wire.{little, byte, load32, store64}

-- The words are in the first `4 * k` bytes.
words-append :
    (k : ℕ) (xs ys zs : List ℕ) → length xs ≡ 4 * k → words k (xs ++ ys) ≡ words k (xs ++ zs)
unfolding words load32
words-append zero xs ys zs e = refl
words-append (suc k) (a ∷ b ∷ c ∷ d ∷ xs) ys zs e =
    ap (λ ws. (((d * 256 + c) * 256 + b) * 256 + a) ∷ ws) (words-append k xs ys zs (omega arith))
words-append (suc k) [] ys zs e = absurd (omega arith)
words-append (suc k) (a ∷ []) ys zs e = absurd (omega arith)
words-append (suc k) (a ∷ b ∷ []) ys zs e = absurd (omega arith)
words-append (suc k) (a ∷ b ∷ c ∷ []) ys zs e = absurd (omega arith)

-- A number written over the last two words, or stored behind the bytes of the others.
words-end :
    (k v : ℕ) (xs ys : List ℕ)
    → v < 2 ^ 32
    → length xs ≡ 4 * k
    → set (set (words (suc (suc k)) (xs ++ ys)) k v) (suc k) 0
      ≡ words (suc (suc k)) (xs ++ store64 little v)
unfolding words load32
words-end zero v [] ys small e =
    let low : v ≡ ((byte v 3 * 256 + byte v 2) * 256 + byte v 1) * 256 + byte v 0 = omega arith in
    let high : 0 ≡ ((byte v 7 * 256 + byte v 6) * 256 + byte v 5) * 256 + byte v 4 = omega arith in
    ap₂ (λ w w'. w ∷ w' ∷ []) low high
words-end zero v (x ∷ xs) ys small e = absurd (omega arith)
words-end (suc k) v (a ∷ b ∷ c ∷ d ∷ xs) ys small e =
    ap (λ ws. (((d * 256 + c) * 256 + b) * 256 + a) ∷ ws) (words-end k v xs ys small (omega arith))
words-end (suc k) v [] ys small e = absurd (omega arith)
words-end (suc k) v (a ∷ []) ys small e = absurd (omega arith)
words-end (suc k) v (a ∷ b ∷ []) ys small e = absurd (omega arith)
words-end (suc k) v (a ∷ b ∷ c ∷ []) ys small e = absurd (omega arith)

-- `n` bytes of padding.
abbrev padding : ℕ → List ℕ
padding n = 0x80 ∷ replicate n 0

take-pad : (n : ℕ) → n < 64 → take (suc n) pad ≡ padding n
unfolding pad
take-pad n lt = ap (λ t. 0x80 ∷ t) (take-replicate n 63 0 (omega arith))

padding-append : (m n : ℕ) → padding (m + n) ≡ padding m ++ replicate n 0
padding-append m n = ap (λ t. 0x80 ∷ t) (replicate-append m n 0)

module _ (message : List ℕ) where
  abbrev size : ℕ
  size = length message

  abbrev full : ℕ
  full = size / 64

  -- The part of the message behind its full blocks.
  abbrev rest : List ℕ
  rest = drop (64 * full) message

  rest-length : length rest ≡ size % 64
  rest-length = omega (arith, length-drop (64 * full) message)

  -- A block that the message fills.
  filled :
      (i : ℕ) (tail : List ℕ)
      → i < full
      → words 16 (take 64 (drop (64 * i) message)) ≡ words 16 (drop (64 * i) (message ++ tail))
  filled i tail lt =
      let bytes = drop (64 * i) message in
      let cut : bytes ++ tail ≡ take 64 bytes ++ (drop 64 bytes ++ tail) =
        ap (λ t. t ++ tail) (sym (take-append-drop 64 bytes))
        ∙ append_assoc (take 64 bytes) (drop 64 bytes) tail in
      ap (words 16) (sym (append-nil (take 64 bytes)))
      ∙ words-append 16 (take 64 bytes) [] (drop 64 bytes ++ tail)
          (omega (arith, length-take 64 bytes, length-drop (64 * i) message))
      ∙ ap (words 16) (sym cut ∙ sym (drop-append_left (64 * i) message tail (omega arith)))

  part_block-rest : part_block rest size ≡ rest ++ padding (63 - size % 64)
  part_block-rest =
      ap₂ ◌++◌ (ap (λ n. take n rest) {y = length rest} (sym rest-length) ∙ take_all rest) (
        ap (λ n. take n pad) {y = suc (63 - size % 64)} (omega arith)
        ∙ take-pad (63 - size % 64) (omega arith))

  -- The last block, when the padding and the size are in it.
  pub last_block :
      size * 8 < 2 ^ 32
      → size % 64 < 56
      → with_size size (words 16 (part_block rest size))
        ≡ words 16 (drop (64 * full) (padded message))
  unfolding padded
  last_block small room =
      let k = 55 - size % 64 in
      let tail = padding k ++ bit_length message in
      let before = rest ++ padding k in
      let zeros : (119 - size % 64) % 64 ≡ k = omega arith in
      let split : part_block rest size ≡ before ++ replicate 8 0 =
        part_block-rest
        ∙ ap (λ n. rest ++ padding n) {y = k + 8} (omega arith)
        ∙ ap (λ t. rest ++ t) (padding-append k 8)
        ∙ sym (append_assoc rest (padding k) (replicate 8 0)) in
      ap (λ t. with_size size (words 16 t)) split
      ∙ ap (λ v. set (set (words 16 (before ++ replicate 8 0)) 14 v) 15 0) {y = size * 8}
          (omega arith)
      ∙ words-end 14 (size * 8) before (replicate 8 0) small
          (omega (arith, length-append rest (padding k), length-replicate {A = ℕ} k 0, rest-length))
      ∙ ap (words 16) (
          append_assoc rest (padding k) (bit_length message)
          ∙ ap (λ n. rest ++ (padding n ++ bit_length message)) (sym zeros)
          ∙ sym (drop-append_left (64 * full) message _ (omega arith)))

  -- The last two blocks, when the padding is in the one and the size in the other.
  pub two_blocks :
      size * 8 < 2 ^ 32
      → 56 < size % 64
      → (words 16 (part_block rest size) ≡ words 16 (drop (64 * full) (padded message)))
        × (with_size size (words 16 (replicate 64 0))
            ≡ words 16 (drop (64 * (full + 1)) (padded message)))
  unfolding padded
  two_blocks small over =
      let k = 63 - size % 64 in
      let zeros : (119 - size % 64) % 64 ≡ k + 56 = omega arith in
      let end = replicate 56 0 ++ bit_length message in
      let tail : padding ((119 - size % 64) % 64) ++ bit_length message ≡ padding k ++ end =
        ap (λ n. padding n ++ bit_length message) zeros
        ∙ ap (λ t. t ++ bit_length message) (padding-append k 56)
        ∙ append_assoc (padding k) (replicate 56 0) (bit_length message) in
      let before = rest ++ padding k in
      let before-length : length before ≡ 64 =
        omega (arith, length-append rest (padding k), length-replicate {A = ℕ} k 0, rest-length) in
      let whole : drop (64 * full)
            (message ++ (padding ((119 - size % 64) % 64) ++ bit_length message))
          ≡ before ++ end =
        drop-append_left (64 * full) message _ (omega arith)
        ∙ ap (λ t. rest ++ t) tail
        ∙ sym (append_assoc rest (padding k) end) in
      (
        ap (words 16) (part_block-rest ∙ sym (append-nil before))
            ∙ words-append 16 before [] end before-length
            ∙ ap (words 16) (sym whole),
        ap (λ v. set (set (words 16 (replicate 64 0)) 14 v) 15 0) {y = size * 8} (omega arith)
            ∙ words-end 14 (size * 8) (replicate 56 0) (replicate 8 0) small refl
            ∙ ap (words 16) (
                sym (drop-append_right 64 0 before end (omega (arith, before-length)))
                ∙ ap (drop 64) (sym whole)
                ∙ drop-drop 64 (64 * full) _
                ∙ ap
                    (λ n.
                      drop n (message ++ (padding ((119 - size % 64) % 64) ++ bit_length message)))
                    {x = 64 * full + 64} (omega arith)),
      )

  -- With 56 bytes in the last block, the size stands over the padding.
  pub no_padding :
      size * 8 < 2 ^ 32
      → size % 64 ≡ 56
      → with_size size (words 16 (part_block rest size))
        ≡ words 16 (drop (64 * full) (message ++ bit_length message))
  no_padding small exact =
      ap (λ t. with_size size (words 16 t)) part_block-rest
      ∙ ap (λ v. set (set (words 16 (rest ++ padding (63 - size % 64))) 14 v) 15 0) {y = size * 8}
          (omega arith)
      ∙ words-end 14 (size * 8) rest (padding (63 - size % 64)) small (omega (arith, rest-length))
      ∙ ap (words 16)
          (sym (drop-append_left (64 * full) message (bit_length message) (omega arith)))

  -- `X` of a block that is filled, in either of the first two cases of the code.
  pub block_x-filled :
      (i : ℕ) (tail : List ℕ)
      → i < full
      → block_x message i ≡ words 16 (drop (64 * i) (message ++ tail))
  unfolding block_x blocks_of
  block_x-filled i tail lt = elim (Bool-cases (ltb (i + 1) (blocks_of size))) [
    | inl early ↦ rw early (filled i tail lt)
    | inr late ↦
        let next : (i + 1 == blocks_of size) ≡ true = ground arith in
        let whole : ltb size (64 * (i + 1)) ≡ false = ground arith in
        rw (late, next, whole) (filled i tail lt)
  ]
