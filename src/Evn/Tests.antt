-- ===== src/Evn/Tests.antt =====
-- rtserver/parse_evn_filename.c: one of the names that the file gives as examples.
use tsunami_udp.Base.{
  ℕ, ◌≡◌, refl, arith, true, false, Option, some, none, List, [], ◌∷◌, ◌++◌, All, all_none,
  all_more, Text, codes, is_digit, if◌then◌else◌, length,
}
use tsunami_udp.Evn.{
  EvnFilename, cut, get_token, last_dot, add_tokens, parse_evn_filename, value_of,
}
use tsunami_udp.Evn.Names.{parts, Mandatory, parse_evn_filename_lem}
use tsunami_udp.Evn.Tokens.{IsToken, is_token, join, add_tokens-ends}

-- A text that starts with a digit is a time.
abbrev parse_time : Text → Option ℕ
parse_time [] = none
parse_time (c ∷ cs) = if is_digit c then some (length (c ∷ cs)) else none

ef-IsToken : IsToken (codes "ef")
ef-IsToken = is_token (all_more refl (all_more refl all_none))

exp-IsToken : IsToken (codes "gre53")
exp-IsToken =
    is_token
      (all_more refl (all_more refl (all_more refl (all_more refl (all_more refl all_none)))))

time-IsToken : IsToken (codes "154d")
time-IsToken = is_token (all_more refl (all_more refl (all_more refl (all_more refl all_none))))

aux-IsToken : IsToken (codes "fl=9")
aux-IsToken = is_token (all_more refl (all_more refl (all_more refl (all_more refl all_none))))

type-IsToken : IsToken (codes "vsi")
type-IsToken = is_token (all_more refl (all_more refl (all_more refl all_none)))

parts-Mandatory : Mandatory (codes "gre53") (codes "ef") (codes "154d") (codes "vsi")
parts-Mandatory = record {
  exp_token = exp-IsToken;
  exp_short = omega arith;
  station_token = ef-IsToken;
  station_long = omega arith;
  scan_token = time-IsToken;
  scan_short = omega arith;
  type_token = type-IsToken;
  type_long = omega arith;
  type_plain = all_more refl (all_more refl (all_more refl all_none));
}

abbrev later_parts : List Text
later_parts = codes "154d" ∷ codes "fl=9" ∷ []

abbrev name : Text
name = join (codes "gre53" ∷ codes "ef" ∷ codes "154d" ∷ later_parts) ++ b'.' ∷ codes "vsi"

the_name : name ≡ codes "gre53_ef_154d_154d_fl=9.vsi"
unfolding join
the_name = refl

parse_evn_filename_lem_example : parse_evn_filename parse_time 0 name ≡ record {
  exp_name = some (codes "gre53");
  station_code = some (codes "ef");
  scan_name = some (codes "154d");
  data_start_time_ascii = some (codes "154d");
  data_start_time = 4;
  auxinfo = codes "fl=9" ∷ [];
  file_type = some (codes "vsi");
  valid = true;
}
parse_evn_filename_lem_example =
    parse_evn_filename_lem parse_time 0 (codes "gre53") (codes "ef") (codes "154d") (codes "vsi")
      later_parts parts-Mandatory (all_more time-IsToken (all_more aux-IsToken all_none))
      (parts (omega arith))

no_type : (parse_evn_filename parse_time 0 (codes "gre53_ef_scan.v")).valid ≡ false
unfolding parse_evn_filename last_dot get_token cut
no_type = refl

flen_missing : All (λ entry. value_of (codes "fl") entry ≡ none) (codes "flen=1" ∷ [])
unfolding value_of
flen_missing = all_more refl all_none

abbrev nothing : EvnFilename ℕ
nothing = record {
  exp_name = none;
  station_code = none;
  scan_name = none;
  data_start_time_ascii = none;
  data_start_time = 0;
  auxinfo = [];
  file_type = none;
  valid = true;
}

add_tokens-ends_example : get_token (add_tokens 5 (codes "a__b_") nothing).1 ≡ none
add_tokens-ends_example = add_tokens-ends 5 (codes "a__b_") nothing (omega arith)
