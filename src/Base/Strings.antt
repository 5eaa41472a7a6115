-- ===== src/Base/Strings.antt =====
-- Text of C programs: bytes, and the functions of the C library on them in the C locale.
use Prim.Native.Char.{code}
use Prim.Native.Nat.{ℕ, ◌+◌, ◌-◌, ◌*◌, ◌%◌, ◌^◌, min}
use Prim.Native.String.{String}
use mathlib.Core.Bool.{Bool, true, false, ◌&&◌, ◌||◌}
use mathlib.Core.List.{List, [], ◌∷◌, map}
use tsunami_udp.Base.Lists.{length}
use tsunami_udp.Base.Tests.{◌==◌, leb, if◌then◌else◌}

-- A string without the byte 0 at its end.
abbrev pub Text : Type 0
Text = List ℕ

abbrev pub codes : String → Text
codes String.[] = []
codes (String.◌∷◌ c s) = code c ∷ codes s

-- `isspace`
abbrev pub is_space : ℕ → Bool
is_space c = c == 32 || (leb 9 c && leb c 13)

-- `tolower` and `toupper`
abbrev pub lower : ℕ → ℕ
lower c = if leb b'A' c && leb c b'Z' then c + 32 else c

abbrev pub upper : ℕ → ℕ
upper c = if leb b'a' c && leb c b'z' then c - 32 else c

-- `strcmp` gives 0.
abbrev pub same_text : Text → Text → Bool
same_text [] [] = true
same_text [] (c ∷ cs) = false
same_text (b ∷ bs) [] = false
same_text (b ∷ bs) (c ∷ cs) = b == c && same_text bs cs

-- `strcasecmp` gives 0.
abbrev pub same_word : Text → Text → Bool
same_word s t = same_text (map lower s) (map lower t)

abbrev pub is_digit : ℕ → Bool
is_digit c = leb b'0' c && leb c b'9'

abbrev pub skip_spaces : Text → Text
skip_spaces [] = []
skip_spaces (c ∷ cs) = if is_space c then skip_spaces cs else c ∷ cs

-- The digits that come first, with the value `n` of those before them.
abbrev pub digits_value : Text → ℕ → ℕ
digits_value [] n = n
digits_value (c ∷ cs) n = if is_digit c then digits_value cs (n * 10 + (c - b'0')) else n

-- A number with its sign.
pub record Long : Type 0 where
  pub negative : Bool
  pub magnitude : ℕ

abbrev signed : Text → Long
signed [] = record { negative = false; magnitude = 0 }
signed (c ∷ cs) =
    if c == b'-'
    then record { negative = true; magnitude = digits_value cs 0 }
    else if c == b'+'
    then record { negative = false; magnitude = digits_value cs 0 }
    else record { negative = false; magnitude = digits_value (c ∷ cs) 0 }

-- A `long` has 64 bits, and what does not fit becomes its least or its greatest value.
abbrev pub saturated : Long → Long
saturated l = record {
  negative = l.negative;
  magnitude = min l.magnitude (if l.negative then 2 ^ 63 else 2 ^ 63 - 1);
}

-- `atol`, and `atoi`, which converts its result to an `int`
unfoldable pub atol : Text → Long
atol s = saturated (signed (skip_spaces s))

-- A number converted to an unsigned type of `w` bits.
abbrev pub to_unsigned : (w : ℕ) → Long → ℕ
to_unsigned w l = if l.negative then (2 ^ w - l.magnitude % 2 ^ w) % 2 ^ w else l.magnitude % 2 ^ w

-- The value of digits by their places.
unfoldable pub positional : Text → ℕ
positional [] = 0
positional (c ∷ cs) = (c - b'0') * 10 ^ length cs + positional cs
