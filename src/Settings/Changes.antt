-- ===== src/Settings/Changes.antt =====
-- client/command.c: how `set` reads a rate, and the names of fields.
use tsunami_udp.Base.{
  ℕ, ◌*◌, ◌%◌, ◌^◌, ◌<◌, ◌++◌, ◌≡◌, refl, ap, ap₂, ◌∙◌, arith, Bool, true, some, [], ◌∷◌, map,
  length, Text, codes, lower, same_text, same_word, upper, positional,
}
use tsunami_udp.Commands.{parse_command}
use tsunami_udp.Commands.Words.{Spells, parse_command_lem}
use tsunami_udp.Settings.Numbers.{IsDigits, parse_rate_lem}
use tsunami_udp.Settings.{Parameter, set_rate, set_field, command_set}

pub same_text_sound : (s t : Text) → same_text s t ≡ true → s ≡ t
same_text_sound [] [] e = refl
same_text_sound [] (c ∷ cs) e = absurd (cc e)
same_text_sound (b ∷ bs) [] e = absurd (cc e)
same_text_sound (b ∷ bs) (c ∷ cs) e = ap₂ ◌∷◌ (ground arith) (same_text_sound bs cs (ground arith))

pub set_field-case :
    (thousandths : Text → ℕ) (works : Bool) (field field' value : Text) (p : Parameter)
    → same_word field field' ≡ true
    → set_field thousandths works field value p ≡ set_field thousandths works field' value p
unfolding set_field
set_field-case thousandths works field field' value p e =
    let same : map lower field ≡ map lower field' =
      same_text_sound (map lower field) (map lower field') e in
    rw same refl

-- A line of three words, of which the second is `rate` in upper or lower case, and the third fewer than 255
-- digits with the suffix M or m, sets the target rate to 1000000 times the value of the digits, modulo 2 ^ 32, and
-- changes no other parameter, if the product fits into a `long`.
pub set_rate_lem :
    (thousandths : Text → ℕ) (works : Bool) (b name field ds : Text) (c : ℕ) (p : Parameter)
    → Spells b (name ∷ field ∷ (ds ++ c ∷ []) ∷ [])
    → same_word field (codes "rate") ≡ true
    → 0 < length ds
    → length ds < 255
    → IsDigits ds
    → 1000000 * positional ds < 2 ^ 63
    → upper c ≡ b'M'
    → command_set thousandths works (parse_command b) p
      ≡ some (record p { target_rate = 1000000 * positional ds % 2 ^ 32 })
unfolding command_set set_field
set_rate_lem thousandths works b name field ds c p spells rate some_digits short all fits m =
    ap (λ words. command_set thousandths works words p)
      (parse_command_lem b (name ∷ field ∷ (ds ++ c ∷ []) ∷ []) spells)
    ∙ set_field-case thousandths works field (codes "rate") (ds ++ c ∷ []) p rate
    ∙ ap (λ r. set_rate r p) ((parse_rate_lem ds c some_digits short all).0 m fits)
