-- ===== src/Settings/Numbers.antt =====
-- client/command.c: numbers, rates and fractions that are set, against the values of their digits.
use native.Mathlib.Nat.{add-mul, mul_assoc, pow-succ'}
use tsunami_udp.Base.{
  ℕ, suc, ◌+◌, ◌-◌, ◌*◌, ◌%◌, ◌^◌, ◌<◌, ◌≡◌, refl, ap, sym, ◌∙◌, arith, true, false, ◌==◌, ltb, leb,
  min, some, [], ◌∷◌, ◌++◌, append-nil, length, length-append, take, get_or, take_exact, All,
  all_none, all_more, Text, is_space, is_digit, digits_value, atol, to_unsigned, upper, positional,
}
use tsunami_udp.Settings.{after_slash, parse_fraction, parse_rate, scaled}

abbrev pub IsDigits : Text → Type 0
IsDigits s = All (λ c. is_digit c ≡ true) s

-- A text that does not go on with a digit.
pub data Stops : Text → Type 0 where
  stops_end : Stops []
  stops : {c : ℕ} {cs : Text} → is_digit c ≡ false → Stops (c ∷ cs)

-- A digit more moves the value of those before it up one place.
one_place : (n d m s : ℕ) → (n * 10 + d) * 10 ^ m + s ≡ n * 10 ^ suc m + (d * 10 ^ m + s)
one_place n d m s =
    ap (λ x. x + s)
      (add-mul (n * 10) d (10 ^ m)
        ∙ ap (λ x. x + d * 10 ^ m)
            (mul_assoc n 10 (10 ^ m) ∙ ap (λ q. n * q) (sym (pow-succ' 10 m))))
    ∙ omega arith

digits_value-append :
    (ds rest : Text) (n : ℕ)
    → IsDigits ds
    → Stops rest
    → digits_value (ds ++ rest) n ≡ n * 10 ^ length ds + positional ds
unfolding positional
digits_value-append [] [] n all_none stops_end = omega arith
digits_value-append [] (c ∷ cs) n all_none (stops e) = rw e (omega arith)
digits_value-append (c ∷ ds) rest n (all_more d all) s = rw d (
    digits_value-append ds rest (n * 10 + (c - b'0')) all s
    ∙ one_place n (c - b'0') (length ds) (positional ds))

-- `atol` of digits, whatever stands behind them.
pub atol-digits :
    (ds rest : Text)
    → 0 < length ds
    → IsDigits ds
    → Stops rest
    → positional ds < 2 ^ 63
    → atol (ds ++ rest) ≡ record { negative = false; magnitude = positional ds }
unfolding atol
atol-digits [] rest some_digits all s fits = absurd (omega arith)
atol-digits (c ∷ ds) rest some_digits (all_more d all) s fits =
    let no_space : is_space c ≡ false = ground arith in
    let no_minus : (c == b'-') ≡ false = ground arith in
    let no_plus : (c == b'+') ≡ false = ground arith in
    let value = digits_value-append (c ∷ ds) rest 0 (all_more d all) s in
    rw (no_space, no_minus, no_plus)
      (ap (λ m. record { negative = false; magnitude = m })
        (ap (λ v. min v (2 ^ 63 - 1)) value ∙ omega (arith, fits)))

pub to_unsigned-digits :
    (w : ℕ) (ds rest : Text)
    → 0 < length ds
    → IsDigits ds
    → Stops rest
    → positional ds < 2 ^ 63
    → to_unsigned w (atol (ds ++ rest)) ≡ positional ds % 2 ^ w
to_unsigned-digits w ds rest some_digits all s fits =
    ap (to_unsigned w) (atol-digits ds rest some_digits all s fits)

scaled-digits :
    (m : ℕ) (ds : Text)
    → 0 < length ds
    → IsDigits ds
    → positional ds < 2 ^ 63
    → m * positional ds < 2 ^ 63
    → scaled m ds ≡ some (m * positional ds % 2 ^ 32)
scaled-digits m ds some_digits all fits product =
    let value : atol ds ≡ record { negative = false; magnitude = positional ds } =
      ap atol (sym (append-nil ds)) ∙ atol-digits ds [] some_digits all stops_end fits in
    let no_overflow : ltb (2 ^ 63 - 1) (m * positional ds) ≡ false = ground (arith, product) in
    rw (value, no_overflow) refl

get_or-append : (ds : Text) (c : ℕ) → get_or (ds ++ c ∷ []) (length ds) 0 ≡ c
get_or-append [] c = refl
get_or-append (d ∷ ds) c = get_or-append ds c

-- The last byte of a rate, and what stands before it.
suffix :
    (ds : Text) (c : ℕ)
    → let cmd = ds ++ c ∷ [] in
      (get_or cmd (length cmd - 1) 0 ≡ c) × (take (length cmd - 1) cmd ≡ ds)
suffix ds c =
    let at : length (ds ++ c ∷ []) - 1 ≡ length ds = omega (arith, length-append ds (c ∷ [])) in
    (
      ap (λ i. get_or (ds ++ c ∷ []) i 0) at ∙ get_or-append ds c,
      ap (λ i. take i (ds ++ c ∷ [])) at ∙ take_exact (length ds) ds (c ∷ []) refl,
    )

-- A rate in fewer than 255 digits with the suffix M or m is set to the product of their value with 1000000, with G or g
-- to the product with 1000000000, each modulo 2 ^ 32, if the product fits into a `long`.
pub parse_rate_lem :
    (ds : Text) (c : ℕ)
    → 0 < length ds
    → length ds < 255
    → IsDigits ds
    → ((upper c ≡ b'M')
        → 1000000 * positional ds < 2 ^ 63
        → parse_rate (ds ++ c ∷ []) ≡ some (1000000 * positional ds % 2 ^ 32))
      × ((upper c ≡ b'G')
          → 1000000000 * positional ds < 2 ^ 63
          → parse_rate (ds ++ c ∷ []) ≡ some (1000000000 * positional ds % 2 ^ 32))
unfolding parse_rate
parse_rate_lem ds c some_digits short all =
    let (last, before) = suffix ds c in
    let size = length-append ds (c ∷ []) in
    let room : leb 256 (length (ds ++ c ∷ [])) ≡ false = ground (arith, size, short) in
    let long : ltb 1 (length (ds ++ c ∷ [])) ≡ true = ground (arith, size, some_digits) in
    (
      λ m fits.
          let is_m : (upper c == b'M') ≡ true = ground (arith, m) in
          rw (room, last, before, long, is_m)
            (scaled-digits 1000000 ds some_digits all (omega (arith, fits)) fits),
      λ g fits.
          let other : (upper c == b'M') ≡ false = ground (arith, g) in
          let is_g : (upper c == b'G') ≡ true = ground (arith, g) in
          rw (room, last, before, long, other, is_g)
            (scaled-digits 1000000000 ds some_digits all (omega (arith, fits)) fits),
    )

after_slash-digits : (ds es : Text) → IsDigits ds → after_slash (ds ++ b'/' ∷ es) ≡ some es
unfolding after_slash
after_slash-digits [] es all_none = refl
after_slash-digits (c ∷ ds) es (all_more d all) =
    let no_slash : (c == b'/') ≡ false = ground arith in rw no_slash (after_slash-digits ds es all)

-- A fraction in digits whose values fit into a `long` is set to the values of its two parts, each modulo 2 ^ 16.
pub parse_fraction_lem :
    (ds es : Text)
    → 0 < length ds
    → 0 < length es
    → IsDigits ds
    → IsDigits es
    → positional ds < 2 ^ 63
    → positional es < 2 ^ 63
    → parse_fraction (ds ++ b'/' ∷ es) ≡ some (positional ds % 2 ^ 16, positional es % 2 ^ 16)
unfolding parse_fraction
parse_fraction_lem ds es some_ds some_es all_ds all_es fits fits' =
    let tail : after_slash (ds ++ b'/' ∷ es) ≡ some es = after_slash-digits ds es all_ds in
    let num = to_unsigned-digits 16 ds (b'/' ∷ es) some_ds all_ds (stops refl) fits in
    let den : to_unsigned 16 (atol es) ≡ positional es % 2 ^ 16 =
      ap (λ t. to_unsigned 16 (atol t)) (sym (append-nil es))
      ∙ to_unsigned-digits 16 es [] some_es all_es stops_end fits' in
    rw (tail, parse_fraction, num, den) refl
