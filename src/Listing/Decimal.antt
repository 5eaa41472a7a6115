-- ===== src/Listing/Decimal.antt =====
-- The digits of a number, printed and read back.
use native.Mathlib.Nat.{mul_assoc, pow-suc, mod-eq_of_lt}
use tsunami_udp.Base.{
  ℕ, zero, suc, ◌+◌, ◌-◌, ◌*◌, ◌/◌, ◌%◌, ◌^◌, ◌<◌, ◌≤◌, ◌≡◌, ap, sym, ◌∙◌, arith, true, ltb, [],
  ◌∷◌, ◌++◌, length, length-append, inl, inr, Bool-cases, all_none, all_more, All-append, Text,
  atol, to_unsigned, positional,
}
use tsunami_udp.Listing.{digits_of, decimal}
use tsunami_udp.Settings.Numbers.{IsDigits, Stops, to_unsigned-digits}

-- A digit behind the others.
positional_end : (ds : Text) (d : ℕ) → positional (ds ++ d ∷ []) ≡ positional ds * 10 + (d - b'0')
unfolding positional
positional_end [] d = omega arith
positional_end (c ∷ ds) d =
    let more : length (ds ++ d ∷ []) ≡ suc (length ds) = omega (arith, length-append ds (d ∷ [])) in
    let up : (c - b'0') * 10 ^ length (ds ++ d ∷ []) ≡ (c - b'0') * 10 ^ length ds * 10 =
      ap (λ m. (c - b'0') * 10 ^ m) more
      ∙ ap (λ q. (c - b'0') * q) (pow-suc 10 (length ds))
      ∙ sym (mul_assoc (c - b'0') (10 ^ length ds) 10) in
    let rest = positional_end ds d in omega (arith, up, rest)

digits_of-IsDigits : (left n : ℕ) → IsDigits (digits_of left n)
unfolding digits_of
digits_of-IsDigits zero n = all_more (ground arith) all_none
digits_of-IsDigits (suc left) n = elim (Bool-cases (ltb n 10)) [
  | inl short ↦ rw short (all_more (ground arith) all_none)
  | inr long ↦ rw long (
      All-append (digits_of left (n / 10)) ((b'0' + n % 10) ∷ []) (digits_of-IsDigits left (n / 10))
        (all_more (ground arith) all_none))
]

digits_of-length :
    (left n : ℕ) → (0 < length (digits_of left n)) × (length (digits_of left n) ≤ suc left)
unfolding digits_of
digits_of-length zero n = (omega arith, omega arith)
digits_of-length (suc left) n = elim (Bool-cases (ltb n 10)) [
  | inl short ↦ rw short (omega arith, omega arith)
  | inr long ↦
      let shorter = digits_of-length left (n / 10) in
      rw long (
        omega (arith, length-append (digits_of left (n / 10)) ((b'0' + n % 10) ∷ [])),
        omega (arith, length-append (digits_of left (n / 10)) ((b'0' + n % 10) ∷ []), shorter.1),
      )
]

positional-digits_of : (left n : ℕ) → n < 10 ^ suc left → positional (digits_of left n) ≡ n
unfolding digits_of positional
positional-digits_of zero n lt = omega (arith, lt)
positional-digits_of (suc left) n lt = elim (Bool-cases (ltb n 10)) [
  | inl short ↦ rw short (omega arith)
  | inr long ↦
      let below : n / 10 < 10 ^ suc left = omega (arith, lt, pow-suc 10 (suc left)) in
      let before = positional-digits_of left (n / 10) below in
      rw long (positional_end (digits_of left (n / 10)) (b'0' + n % 10) ∙ omega (arith, before))
]

digits_of-short : (left n k : ℕ) → n < 10 ^ suc k → length (digits_of left n) ≤ suc k
unfolding digits_of
digits_of-short zero n k lt = omega arith
digits_of-short (suc left) n zero lt =
    let short : ltb n 10 ≡ true = ground (arith, lt) in rw short (omega arith)
digits_of-short (suc left) n (suc k) lt = elim (Bool-cases (ltb n 10)) [
  | inl short ↦ rw short (omega arith)
  | inr long ↦
      let below : n / 10 < 10 ^ suc k = omega (arith, lt, pow-suc 10 (suc k)) in
      rw long (
        omega (
          arith,
          length-append (digits_of left (n / 10)) ((b'0' + n % 10) ∷ []),
          digits_of-short left (n / 10) k below,
        ))
]

pub decimal-short : (n : ℕ) → n < 10 ^ 9 → length (decimal n) ≤ 9
decimal-short n lt = digits_of-short 19 n 8 lt

pub decimal-IsDigits : (n : ℕ) → IsDigits (decimal n)
decimal-IsDigits n = digits_of-IsDigits 19 n

pub decimal-length : (n : ℕ) → (0 < length (decimal n)) × (length (decimal n) ≤ 20)
decimal-length n = digits_of-length 19 n

pub positional-decimal : (n : ℕ) → n < 10 ^ 20 → positional (decimal n) ≡ n
positional-decimal n lt = positional-digits_of 19 n lt

-- A number that is printed is read back, whatever text follows.
pub atol-decimal :
    (w n : ℕ) (rest : Text)
    → n < 2 ^ 63
    → n < 2 ^ w
    → Stops rest
    → to_unsigned w (atol (decimal n ++ rest)) ≡ n
atol-decimal w n rest lt fits s =
    to_unsigned-digits w (decimal n) rest (decimal-length n).0 (decimal-IsDigits n) s
      (omega (arith, lt, positional-digits_of 19 n (omega (arith, lt))))
    ∙ ap (λ v. v % 2 ^ w) (positional-digits_of 19 n (omega (arith, lt)))
    ∙ mod-eq_of_lt fits
