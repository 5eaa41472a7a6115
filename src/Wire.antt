-- ===== src/Wire.antt =====
-- common/common.c and the headers of datagrams and requests: byte order, and how numbers are
-- stored in memory and read back. htonl and its like are the C library's, on either kind of host.
pub mod Laws
mod Tests
use tsunami_udp.Base.{
  ℕ, ◌+◌, ◌*◌, ◌/◌, ◌%◌, ◌^◌, List, [], ◌∷◌, drop, Bool, true, false, not, ◌==◌, if◌then◌else◌,
}

pub data Host : Type 0 where
  little big : Host

abbrev pub byte : ℕ → ℕ → ℕ
byte x i = x / 2 ^ (8 * i) % 256

-- The bytes of a number, the most significant first.
abbrev pub be16 : ℕ → List ℕ
be16 x = byte x 1 ∷ byte x 0 ∷ []

abbrev pub be32 : ℕ → List ℕ
be32 x = byte x 3 ∷ byte x 2 ∷ byte x 1 ∷ byte x 0 ∷ []

abbrev pub be64 : ℕ → List ℕ
be64 x = byte x 7 ∷ byte x 6 ∷ byte x 5 ∷ byte x 4 ∷ byte x 3 ∷ byte x 2 ∷ byte x 1 ∷ byte x 0 ∷ []

-- A number in the memory of a host.
abbrev pub store16 : Host → ℕ → List ℕ
store16 big x = be16 x
store16 little x = byte x 0 ∷ byte x 1 ∷ []

abbrev pub store32 : Host → ℕ → List ℕ
store32 big x = be32 x
store32 little x = byte x 0 ∷ byte x 1 ∷ byte x 2 ∷ byte x 3 ∷ []

abbrev pub store64 : Host → ℕ → List ℕ
store64 big x = be64 x
store64 little x =
    byte x 0 ∷ byte x 1 ∷ byte x 2 ∷ byte x 3 ∷ byte x 4 ∷ byte x 5 ∷ byte x 6 ∷ byte x 7 ∷ []

unfoldable pub load16 : Host → List ℕ → ℕ
load16 big (a ∷ b ∷ _) = a * 256 + b
load16 little (a ∷ b ∷ _) = b * 256 + a
load16 _ _ = 0

unfoldable pub load32 : Host → List ℕ → ℕ
load32 big (a ∷ b ∷ c ∷ d ∷ _) = ((a * 256 + b) * 256 + c) * 256 + d
load32 little (a ∷ b ∷ c ∷ d ∷ _) = ((d * 256 + c) * 256 + b) * 256 + a
load32 _ _ = 0

-- A 64-bit number is stored as its two halves.
unfoldable pub load64 : Host → List ℕ → ℕ
load64 big bytes = load32 big bytes * 2 ^ 32 + load32 big (drop 4 bytes)
load64 little bytes = load32 little (drop 4 bytes) * 2 ^ 32 + load32 little bytes

unfoldable pub htons : Host → ℕ → ℕ
htons big x = x
htons little x = byte x 0 * 2 ^ 8 + byte x 1

unfoldable pub htonl : Host → ℕ → ℕ
htonl big x = x
htonl little x = byte x 0 * 2 ^ 24 + byte x 1 * 2 ^ 16 + byte x 2 * 2 ^ 8 + byte x 3

-- `necessary = (5 != htons(5))`
abbrev pub swap_necessary : Host → Bool
swap_necessary h = not (5 == htons h 5)

-- `|` joins the two halves, whose bits are apart, so it is `+`.
unfoldable pub htonll : Host → ℕ → ℕ
htonll h value =
    if swap_necessary h then htonl h (value % 2 ^ 32) * 2 ^ 32 + htonl h (value / 2 ^ 32) else value

unfoldable pub ntohll : Host → ℕ → ℕ
ntohll h value = htonll h value

-- The conversions back are the conversions.
abbrev pub ntohs : Host → ℕ → ℕ
ntohs = htons

abbrev pub ntohl : Host → ℕ → ℕ
ntohl = htonl
