-- ===== src/Settings/Tests.antt =====
-- client/command.c: rates and fractions that are set.
use tsunami_udp.Base.{
  ℕ, ◌/◌, ◌*◌, ◌%◌, ◌^◌, ◌≡◌, refl, arith, true, none, some, [], ◌∷◌, ◌++◌, all_none, all_more,
  Text, codes, atol, positional,
}
use tsunami_udp.Commands.{parse_command}
use tsunami_udp.Commands.Words.{Spells, is_word, spells_last, spells_more}
use tsunami_udp.Settings.{
  reset_client, after_slash, parse_fraction, parse_rate, set_field, command_set,
}
use tsunami_udp.Listing.{decimal, digits_of}
use tsunami_udp.Settings.Report.{report}
use tsunami_udp.Settings.Changes.{set_rate_lem}
use tsunami_udp.Settings.Numbers.{IsDigits}

-- The number in front of the point, times 1000.
abbrev thousandths : Text → ℕ
thousandths s = (atol s).magnitude * 1000

abbrev digits : Text
digits = codes "65"

digits-IsDigits : IsDigits digits
digits-IsDigits = all_more refl (all_more refl all_none)

-- The rate does not fit its type.
rate_wraps : parse_rate (codes "5G") ≡ some 705032704
unfolding parse_rate atol
rate_wraps = refl

rate_overflows : parse_rate (codes "99999999999G") ≡ none
unfolding parse_rate atol
rate_overflows = refl

fraction_parsed : parse_fraction (codes "25/24") ≡ some (25, 24)
unfolding parse_fraction after_slash atol
fraction_parsed = refl

set_port :
    command_set thousandths true (codes "set" ∷ codes "PORT" ∷ codes "-1" ∷ []) reset_client
    ≡ some (record reset_client { server_port = 65535 })
unfolding command_set set_field atol
set_port = refl

rate_line-Spells :
    Spells (codes "set rate 65m") (codes "set" ∷ codes "rate" ∷ (digits ++ b'm' ∷ []) ∷ [])
rate_line-Spells =
    spells_more {s = []} all_none (is_word refl (all_more refl (all_more refl all_none))) refl (
      spells_more {s = codes " "} (all_more refl all_none)
        (is_word refl (all_more refl (all_more refl (all_more refl all_none)))) refl
        (spells_last {s = codes " "} (all_more refl all_none)
          (is_word refl (all_more refl (all_more refl all_none)))))

set_rate_lem_example :
    command_set thousandths true (parse_command (codes "set rate 65m")) reset_client
    ≡ some (record reset_client { target_rate = 1000000 * positional digits % 2 ^ 32 })
unfolding positional
set_rate_lem_example =
    set_rate_lem thousandths true (codes "set rate 65m") (codes "set") (codes "rate") digits b'm'
      reset_client rate_line-Spells refl (omega arith) (omega arith) digits-IsDigits (omega arith)
      refl

-- The error rate without its fraction.
abbrev percent : ℕ → Text
percent n = decimal (n / 1000) ++ codes "%"

port_shown : report percent (codes "port") reset_client ≡ codes "port = 51038" ++ b'\n' ∷ []
unfolding report reset_client digits_of
port_shown = refl
