-- ===== src/Md5/Reference.antt =====
-- MD5 as RFC 1321 describes it, against which common/md5.c is checked: the message is padded as a whole, and
-- the four words change their places after each operation. Nothing of it is the code's but the reading of
-- words from bytes.
use tsunami_udp.Base.{
  ℕ, zero, suc, ◌+◌, ◌-◌, ◌*◌, ◌/◌, ◌%◌, ◌^◌, bit_and, bit_or, bit_xor, List, [], ◌∷◌, ◌++◌, drop,
  replicate, length,
}
use tsunami_udp.Md5.{at, words}
use tsunami_udp.Wire.{little, store32, store64}

-- The four words A, B, C and D.
pub record Words : Type 0 where
  pub a : ℕ
  pub b : ℕ
  pub c : ℕ
  pub d : ℕ

-- "k" in the operations of round 1, 2, 3 and 4.
unfoldable pub word_index : (round j : ℕ) → ℕ
word_index zero j = j % 16
word_index (suc zero) j = (5 * j + 1) % 16
word_index (suc (suc zero)) j = (3 * j + 5) % 16
word_index (suc (suc (suc _))) j = 7 * j % 16

-- "s" in the four operations of each row of a round.
unfoldable pub shift : (round j : ℕ) → ℕ
shift zero j = at (7 ∷ 12 ∷ 17 ∷ 22 ∷ []) (j % 4)
shift (suc zero) j = at (5 ∷ 9 ∷ 14 ∷ 20 ∷ []) (j % 4)
shift (suc (suc zero)) j = at (4 ∷ 11 ∷ 16 ∷ 23 ∷ []) (j % 4)
shift (suc (suc (suc _))) j = at (6 ∷ 10 ∷ 15 ∷ 21 ∷ []) (j % 4)

-- The terms of the series of the sine, x - x^3/3! + x^5/5! - …, in units of 2 ^ -256: `added` and `taken` are the sums of
-- the terms with either sign, `k` is how many factors the factorial in `term` has.
unfoldable pub series : (left x k term added taken : ℕ) → ℕ × ℕ
series zero x k term added taken = (added, taken)
series (suc left) x k term added taken =
    let second = term * x * x / ((k + 1) * (k + 2)) in
    series left x (k + 4) (second * x * x / ((k + 3) * (k + 4))) (added + term) (taken + second)

-- "the integer part of 4294967296 times abs(sin(i)), where i is in radians", up to 64
unfoldable pub sine_part : ℕ → ℕ
sine_part i =
    let sums = series 70 i 1 (i * 2 ^ 256) 0 0 in (sums.0 - sums.1 + (sums.1 - sums.0)) / 2 ^ 224

-- "not(X)"
abbrev pub not_word : ℕ → ℕ
not_word x = 0xffffffff - x

-- "F(X,Y,Z) = XY v not(X) Z", "G(X,Y,Z) = XZ v Y not(Z)", "H(X,Y,Z) = X xor Y xor Z" and
-- "I(X,Y,Z) = Y xor (X v not(Z))", in the rounds 1, 2, 3 and 4.
unfoldable pub auxiliary : (round : ℕ) → ℕ → ℕ → ℕ → ℕ
auxiliary zero x y z = bit_or (bit_and x y) (bit_and (not_word x) z)
auxiliary (suc zero) x y z = bit_or (bit_and x z) (bit_and y (not_word z))
auxiliary (suc (suc zero)) x y z = bit_xor (bit_xor x y) z
auxiliary (suc (suc (suc _))) x y z = bit_xor y (bit_or x (not_word z))

-- "X <<< s", the word shifted left by s places with the bits that fall out put in at the right.
abbrev pub shifted_around : ℕ → ℕ → ℕ
shifted_around x s = bit_or (x * 2 ^ s % 0x100000000) (x / 2 ^ (32 - s))

-- "a = b + ((a + F(b,c,d) + X[k] + T[i]) <<< s)"; then "a" takes the place of "b", "b" that of "c".
unfoldable pub operation : (x : List ℕ) → (j : ℕ) → Words → Words
operation x j w =
    let sum =
      (w.a + auxiliary (j / 16) w.b w.c w.d + at x (word_index (j / 16) j) + sine_part (j + 1))
      % 2 ^ 32 in
    record { a = w.d; b = (w.b + shifted_around sum (shift (j / 16) j)) % 2 ^ 32; c = w.b; d = w.c }

unfoldable pub operations : (x : List ℕ) → (left j : ℕ) → Words → Words
operations x zero j w = w
operations x (suc left) j w = operations x left (j + 1) (operation x j w)

-- "increment each of the four registers by the value it had before this block was started"
unfoldable pub incremented : Words → Words → Words
incremented w old = record {
  a = (w.a + old.a) % 2 ^ 32;
  b = (w.b + old.b) % 2 ^ 32;
  c = (w.c + old.c) % 2 ^ 32;
  d = (w.d + old.d) % 2 ^ 32;
}

-- "Process each 16-word block"
unfoldable pub process : (left : ℕ) → List ℕ → Words → Words
process zero bytes w = w
process (suc left) bytes w =
    process left (drop 64 bytes) (incremented (operations (words 16 bytes) 64 0 w) w)

abbrev pub start : Words
start = record { a = 0x67452301; b = 0xefcdab89; c = 0x98badcfe; d = 0x10325476 }

unfoldable pub output : Words → List ℕ
output w = store32 little w.a ++ (store32 little w.b ++ (store32 little w.c ++ store32 little w.d))

-- The length of the message in bits.
abbrev pub bit_length : List ℕ → List ℕ
bit_length message = store64 little (length message * 8)

-- "a single 1 bit is appended, and then 0 bits", up to 56 bytes of the last block, then the length.
unfoldable pub padded : List ℕ → List ℕ
padded message =
    message ++ (0x80 ∷ (replicate ((119 - length message % 64) % 64) 0 ++ bit_length message))

-- The digest of a message whose padding is there.
unfoldable pub digest_padded : List ℕ → List ℕ
digest_padded bytes = output (process (length bytes / 64) bytes start)

unfoldable pub digest : List ℕ → List ℕ
digest message = digest_padded (padded message)
