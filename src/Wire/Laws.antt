-- ===== src/Wire/Laws.antt =====
-- common/common.c: what goes over the wire does not depend on the byte order of the host, and the
-- peer reads back the number that was sent.
use tsunami_udp.Base.{ℕ, ◌+◌, ◌*◌, ◌/◌, ◌%◌, ◌^◌, ◌<◌, ◌≡◌, refl, ap, sym, ◌∙◌, arith, List, ◌++◌}
use tsunami_udp.Wire.{
  Host, little, big, byte, be16, be32, be64, store16, store32, store64, load16, load32, load64,
  htons, htonl, htonll, ntohll, ntohs, ntohl,
}

htonl-lt : (x : ℕ) → htonl little x < 2 ^ 32
unfolding htonl
htonl-lt x = omega arith

-- Each byte of a swapped number, counted from the lowest.
htonl_bytes :
    (x : ℕ)
    → (byte (htonl little x) 0 ≡ byte x 3)
      × (byte (htonl little x) 1 ≡ byte x 2)
      × (byte (htonl little x) 2 ≡ byte x 1)
      × (byte (htonl little x) 3 ≡ byte x 0)
unfolding htonl
htonl_bytes x = (omega arith, omega arith, omega arith, omega arith)

htonl-htonl : (x : ℕ) → x < 2 ^ 32 → htonl little (htonl little x) ≡ x
unfolding htonl
htonl-htonl x b = omega arith

htonl_big : (x : ℕ) → htonl big x ≡ x
unfolding htonl
htonl_big x = refl

pub store32-htonl : (h : Host) (x : ℕ) → store32 h (htonl h x) ≡ be32 x
store32-htonl big x = rw htonl_big
store32-htonl little x = ground (arith, htonl_bytes x)

pub store16-htons : (h : Host) (x : ℕ) → x < 2 ^ 16 → store16 h (htons h x) ≡ be16 x
unfolding htons
store16-htons big x b = refl
store16-htons little x b = ground arith

pub ntohl-load32 :
    (h : Host) (x : ℕ) (rest : List ℕ) → x < 2 ^ 32 → ntohl h (load32 h (be32 x ++ rest)) ≡ x
unfolding htonl load32
ntohl-load32 big x rest b = omega arith
ntohl-load32 little x rest b = omega arith

pub ntohs-load16 :
    (h : Host) (x : ℕ) (rest : List ℕ) → x < 2 ^ 16 → ntohs h (load16 h (be16 x ++ rest)) ≡ x
unfolding htons load16
ntohs-load16 big x rest b = omega arith
ntohs-load16 little x rest b = omega arith

-- The two halves of a 64-bit number, each a 32-bit number.
join_bytes :
    (hi lo : ℕ)
    → lo < 2 ^ 32
    → (byte (hi * 2 ^ 32 + lo) 0 ≡ byte lo 0)
      × (byte (hi * 2 ^ 32 + lo) 1 ≡ byte lo 1)
      × (byte (hi * 2 ^ 32 + lo) 2 ≡ byte lo 2)
      × (byte (hi * 2 ^ 32 + lo) 3 ≡ byte lo 3)
      × (byte (hi * 2 ^ 32 + lo) 4 ≡ byte hi 0)
      × (byte (hi * 2 ^ 32 + lo) 5 ≡ byte hi 1)
      × (byte (hi * 2 ^ 32 + lo) 6 ≡ byte hi 2)
      × (byte (hi * 2 ^ 32 + lo) 7 ≡ byte hi 3)
join_bytes hi lo b = (
  omega arith,
  omega arith,
  omega arith,
  omega arith,
  omega arith,
  omega arith,
  omega arith,
  omega arith,
)

-- What a host writes of `htonll` of a 64-bit number are the eight bytes of the number, the most
-- significant first, whatever the byte order of the host.
pub store64-htonll : (h : Host) (x : ℕ) → store64 h (htonll h x) ≡ be64 x
unfolding htonll htons
store64-htonll big x = refl
store64-htonll little x = ground (
  arith,
  join_bytes (htonl little (x % 2 ^ 32)) (htonl little (x / 2 ^ 32)) (htonl-lt (x / 2 ^ 32)),
  htonl_bytes (x % 2 ^ 32),
  htonl_bytes (x / 2 ^ 32),
)

-- On a host of either byte order, `ntohll` takes `htonll` of a 64-bit number back to that number.
ntohll-htonll : (h : Host) (x : ℕ) → x < 2 ^ 64 → ntohll h (htonll h x) ≡ x
unfolding ntohll htonll htons
ntohll-htonll big x b = refl
ntohll-htonll little x b =
    let hi = htonl little (x % 2 ^ 32) in
    let lo = htonl little (x / 2 ^ 32) in
    let low : (hi * 2 ^ 32 + lo) % 2 ^ 32 ≡ lo = omega (arith, htonl-lt (x / 2 ^ 32)) in
    let high : (hi * 2 ^ 32 + lo) / 2 ^ 32 ≡ hi = omega (arith, htonl-lt (x / 2 ^ 32)) in
    rw (low, high)
      (omega
        (arith, htonl-htonl (x % 2 ^ 32) (omega arith), htonl-htonl (x / 2 ^ 32) (omega arith)))

be64-halves : (x : ℕ) → be64 x ≡ be32 (x / 2 ^ 32) ++ be32 (x % 2 ^ 32)
be64-halves x = ground arith

load32-lt : (x : ℕ) (rest : List ℕ) → load32 little (be32 x ++ rest) < 2 ^ 32
unfolding load32
load32-lt x rest = omega arith

htonll-halves :
    (hi lo : ℕ)
    → lo < 2 ^ 32
    → htonll little (hi * 2 ^ 32 + lo) ≡ htonl little lo * 2 ^ 32 + htonl little hi
unfolding htonll htons
htonll-halves hi lo b =
    let low : (hi * 2 ^ 32 + lo) % 2 ^ 32 ≡ lo = omega arith in
    let high : (hi * 2 ^ 32 + lo) / 2 ^ 32 ≡ hi = omega arith in rw (low, high) refl

-- The bytes of a 64-bit number, the most significant first, are read as the number.
pub ntohll-load64 :
    (h : Host) (x : ℕ) (rest : List ℕ) → x < 2 ^ 64 → ntohll h (load64 h (be64 x ++ rest)) ≡ x
unfolding ntohll htonll htons load64 load32
ntohll-load64 big x rest b =
    let hi = x / 2 ^ 32 in
    let lo = x % 2 ^ 32 in
    ap (λ l. load64 big (l ++ rest)) (be64-halves x)
    ∙ omega (
      arith,
      ntohl-load32 big hi (be32 lo ++ rest) (omega arith),
      ntohl-load32 big lo rest (omega arith),
    )
ntohll-load64 little x rest b =
    let hi = x / 2 ^ 32 in
    let lo = x % 2 ^ 32 in
    ap (λ l. ntohll little (load64 little (l ++ rest))) (be64-halves x)
    ∙ htonll-halves (load32 little (be32 lo ++ rest)) (load32 little (be32 hi ++ (be32 lo ++ rest)))
        (load32-lt hi (be32 lo ++ rest))
    ∙ omega (
      arith,
      ntohl-load32 little hi (be32 lo ++ rest) (omega arith),
      ntohl-load32 little lo rest (omega arith),
    )

-- What is read of a number in network byte order, before it is converted.
pub load32-be32 :
    (h : Host) (x : ℕ) (rest : List ℕ) → x < 2 ^ 32 → load32 h (be32 x ++ rest) ≡ htonl h x
unfolding load32 htonl
load32-be32 big x rest b = omega arith
load32-be32 little x rest b = omega arith

pub htonl-injective : (h : Host) (x y : ℕ) → x < 2 ^ 32 → y < 2 ^ 32 → htonl h x ≡ htonl h y → x ≡ y
htonl-injective big x y bx by e = sym (htonl_big x) ∙ e ∙ htonl_big y
htonl-injective little x y bx by e = sym (htonl-htonl x bx) ∙ ap (htonl little) e ∙ htonl-htonl y by
