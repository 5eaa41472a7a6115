-- ===== src/Md5.antt =====
-- common/md5.c: the digest on a little-endian host. Words of 32 bits are natural numbers below 2 ^ 32.
pub mod Reference
pub mod Rounds
pub mod Padding
pub mod Agreement
mod Tests
use tsunami_udp.Base.{
  ℕ, zero, suc, ◌+◌, ◌-◌, ◌*◌, ◌/◌, ◌%◌, ◌^◌, bit_and, bit_or, bit_xor, ltb, ◌==◌, if◌then◌else◌,
  List, [], ◌∷◌, ◌++◌, take, drop, replicate, length, get_or, set,
}
use tsunami_udp.Wire.{little, load32, store32}

-- `T`
unfoldable pub t_array : List ℕ
t_array =
    0xd76aa478 ∷ 0xe8c7b756 ∷ 0x242070db ∷ 0xc1bdceee ∷ 0xf57c0faf ∷ 0x4787c62a ∷ 0xa8304613
    ∷ 0xfd469501 ∷ 0x698098d8 ∷ 0x8b44f7af ∷ 0xffff5bb1 ∷ 0x895cd7be ∷ 0x6b901122 ∷ 0xfd987193
    ∷ 0xa679438e ∷ 0x49b40821 ∷ 0xf61e2562 ∷ 0xc040b340 ∷ 0x265e5a51 ∷ 0xe9b6c7aa ∷ 0xd62f105d
    ∷ 0x02441453 ∷ 0xd8a1e681 ∷ 0xe7d3fbc8 ∷ 0x21e1cde6 ∷ 0xc33707d6 ∷ 0xf4d50d87 ∷ 0x455a14ed
    ∷ 0xa9e3e905 ∷ 0xfcefa3f8 ∷ 0x676f02d9 ∷ 0x8d2a4c8a ∷ 0xfffa3942 ∷ 0x8771f681 ∷ 0x6d9d6122
    ∷ 0xfde5380c ∷ 0xa4beea44 ∷ 0x4bdecfa9 ∷ 0xf6bb4b60 ∷ 0xbebfbc70 ∷ 0x289b7ec6 ∷ 0xeaa127fa
    ∷ 0xd4ef3085 ∷ 0x04881d05 ∷ 0xd9d4d039 ∷ 0xe6db99e5 ∷ 0x1fa27cf8 ∷ 0xc4ac5665 ∷ 0xf4292244
    ∷ 0x432aff97 ∷ 0xab9423a7 ∷ 0xfc93a039 ∷ 0x655b59c3 ∷ 0x8f0ccc92 ∷ 0xffeff47d ∷ 0x85845dd1
    ∷ 0x6fa87e4f ∷ 0xfe2ce6e0 ∷ 0xa3014314 ∷ 0x4e0811a1 ∷ 0xf7537e82 ∷ 0xbd3af235 ∷ 0x2ad7d2bb
    ∷ 0xeb86d391 ∷ []

unfoldable pub pad : List ℕ
pad = 0x80 ∷ replicate 63 0

-- Of each step, the word of the block that it uses, and how far it rotates.
unfoldable pub md5_table : List (ℕ × ℕ)
md5_table =
    (0, 7)
    ∷ (1, 12)
    ∷ (2, 17)
    ∷ (3, 22)
    ∷ (4, 7)
    ∷ (5, 12)
    ∷ (6, 17)
    ∷ (7, 22)
    ∷ (8, 7)
    ∷ (9, 12)
    ∷ (10, 17)
    ∷ (11, 22)
    ∷ (12, 7)
    ∷ (13, 12)
    ∷ (14, 17)
    ∷ (15, 22)
    ∷ (1, 5)
    ∷ (6, 9)
    ∷ (11, 14)
    ∷ (0, 20)
    ∷ (5, 5)
    ∷ (10, 9)
    ∷ (15, 14)
    ∷ (4, 20)
    ∷ (9, 5)
    ∷ (14, 9)
    ∷ (3, 14)
    ∷ (8, 20)
    ∷ (13, 5)
    ∷ (2, 9)
    ∷ (7, 14)
    ∷ (12, 20)
    ∷ (5, 4)
    ∷ (8, 11)
    ∷ (11, 16)
    ∷ (14, 23)
    ∷ (1, 4)
    ∷ (4, 11)
    ∷ (7, 16)
    ∷ (10, 23)
    ∷ (13, 4)
    ∷ (0, 11)
    ∷ (3, 16)
    ∷ (6, 23)
    ∷ (9, 4)
    ∷ (12, 11)
    ∷ (15, 16)
    ∷ (2, 23)
    ∷ (0, 6)
    ∷ (7, 10)
    ∷ (14, 15)
    ∷ (5, 21)
    ∷ (12, 6)
    ∷ (3, 10)
    ∷ (10, 15)
    ∷ (1, 21)
    ∷ (8, 6)
    ∷ (15, 10)
    ∷ (6, 15)
    ∷ (13, 21)
    ∷ (4, 6)
    ∷ (11, 10)
    ∷ (2, 15)
    ∷ (9, 21)
    ∷ []

-- `~x`
abbrev pub complement : ℕ → ℕ
complement x = 2 ^ 32 - 1 - x

abbrev pub rotate : ℕ → ℕ → ℕ
rotate x bits = bit_or (x * 2 ^ bits % 2 ^ 32) (x / 2 ^ (32 - bits))

unfoldable pub md5_f : ℕ → ℕ → ℕ → ℕ
md5_f x y z = bit_or (bit_and x y) (bit_and (complement x) z)

unfoldable pub md5_g : ℕ → ℕ → ℕ → ℕ
md5_g x y z = bit_or (bit_and x z) (bit_and y (complement z))

unfoldable pub md5_h : ℕ → ℕ → ℕ → ℕ
md5_h x y z = bit_xor (bit_xor x y) z

unfoldable pub md5_i : ℕ → ℕ → ℕ → ℕ
md5_i x y z = bit_xor y (bit_or x (complement z))

unfoldable pub md5_dispatch : ℕ → ℕ → ℕ → ℕ → ℕ
md5_dispatch zero = md5_f
md5_dispatch (suc zero) = md5_g
md5_dispatch (suc (suc zero)) = md5_h
md5_dispatch (suc (suc (suc _))) = md5_i

-- An entry of one of the arrays `state`, `X` and `T`.
abbrev pub at : List ℕ → ℕ → ℕ
at xs i = get_or xs i 0

-- Step `j` of "do the computation".
unfoldable pub step : (x : List ℕ) → (j : ℕ) → List ℕ → List ℕ
step x j state =
    let i = (4 - j % 4) % 4 in
    let next = (4 - j % 4 + 1) % 4 in
    let func =
      md5_dispatch (j / 16) (at state next) (at state ((4 - j % 4 + 2) % 4))
        (at state ((4 - j % 4 + 3) % 4)) in
    let entry = get_or md5_table j (0, 0) in
    let sum = (at state i + func + at x entry.0 + at t_array j) % 2 ^ 32 in
    set state i ((at state next + rotate sum entry.1) % 2 ^ 32)

-- The steps `j`, …, `j + left - 1`.
unfoldable pub steps : (x : List ℕ) → (left j : ℕ) → List ℕ → List ℕ
steps x zero j state = state
steps x (suc left) j state = steps x left (j + 1) (step x j state)

-- "do the necessary additions", to the entries of the first array.
unfoldable pub additions : List ℕ → List ℕ → List ℕ
additions (a ∷ state) (b ∷ temp_state) = (a + b) % 2 ^ 32 ∷ additions state temp_state
additions _ _ = []

-- The first `k` words of the bytes that are copied into `X`.
unfoldable pub words : (k : ℕ) → List ℕ → List ℕ
words zero bytes = []
words (suc k) bytes = load32 little bytes ∷ words k (drop 4 bytes)

-- "calculate the number of blocks"
unfoldable pub blocks_of : (size : ℕ) → ℕ
blocks_of size = if ltb 56 (size % 64) then size / 64 + 1 else size / 64

-- The last bytes of the message and the padding, where `rest` is the message from the block on.
abbrev pub part_block : List ℕ → (size : ℕ) → List ℕ
part_block rest size = take (size % 64) rest ++ take (64 - size % 64) pad

-- "put the message size into X"
abbrev pub with_size : (size : ℕ) → List ℕ → List ℕ
with_size size x = set (set x 14 (size * 8 % 2 ^ 32)) 15 0

-- `X` for block `i`.
unfoldable pub block_x : List ℕ → (i : ℕ) → List ℕ
block_x buffer i =
    let size = length buffer in
    let rest = drop (64 * i) buffer in
    if ltb (i + 1) (blocks_of size)
    then words 16 (take 64 rest)
    else if i + 1 == blocks_of size
    then words 16 (if ltb size (64 * (i + 1)) then part_block rest size else take 64 rest)
    else with_size size
        (words 16 (if ltb size (64 * i) then replicate 64 0 else part_block rest size))

-- "for each block", from block `i` on.
unfoldable pub md5_blocks : List ℕ → (left i : ℕ) → List ℕ → List ℕ
md5_blocks buffer zero i state = state
md5_blocks buffer (suc left) i state =
    md5_blocks buffer left (i + 1) (additions (steps (block_x buffer i) 64 0 state) state)

unfoldable pub first_state : List ℕ
first_state = 0x67452301 ∷ 0xefcdab89 ∷ 0x98badcfe ∷ 0x10325476 ∷ []

-- The bytes of the words, on a little-endian host.
unfoldable pub words_bytes : List ℕ → List ℕ
words_bytes [] = []
words_bytes (w ∷ ws) = store32 little w ++ words_bytes ws

unfoldable pub md5_digest : List ℕ → List ℕ
md5_digest buffer = words_bytes (md5_blocks buffer (blocks_of (length buffer) + 1) 0 first_state)
