-- ===== src/Evn.antt =====
-- rtserver/parse_evn_filename.c: the parts of a file name of the EVN. What `parse_time` makes of a text is an
-- argument: none where it knows no format for it.
pub mod Tokens
pub mod Names
mod Tests
use tsunami_udp.Base.{
  ℕ, zero, suc, Bool, true, false, ◌&&◌, ◌==◌, ltb, if◌then◌else◌, Option, none, some, List, [],
  ◌∷◌, ◌++◌, drop, get_or, length, Text,
}

-- `evn_filename`. The entries of `auxinfo` are as many as `nr_auxinfo`.
pub record EvnFilename (R : Type 0) : Type 0 where
  pub exp_name : Option Text
  pub station_code : Option Text
  pub scan_name : Option Text
  pub data_start_time_ascii : Option Text
  pub data_start_time : R
  pub auxinfo : List Text
  pub file_type : Option Text
  pub valid : Bool

-- The text up to the first `_`, and the text behind it.
unfoldable pub cut : Text → Text × Text
cut [] = ([], [])
cut (c ∷ str) = let rest = cut str in if c == b'_' then ([], str) else (c ∷ rest.0, rest.1)

-- The token, and where the pointer is then; none is a null pointer.
unfoldable pub get_token : Text → Option (Text × Text)
get_token [] = none
get_token (c ∷ str) = some (cut (c ∷ str))

-- `strrchr(filename, '.')`: the text in front of the last dot, and the text behind it.
unfoldable pub last_dot : Text → Option (Text × Text)
last_dot [] = none
last_dot (c ∷ str) = elim (last_dot str) [
  | some (before, behind) ↦ some (c ∷ before, behind)
  | none ↦ if c == b'.' then some ([], str) else none
]

abbrev pub add_aux_entry : {R : Type 0} → Text → EvnFilename R → EvnFilename R
add_aux_entry auxentry ef = record ef { auxinfo = ef.auxinfo ++ auxentry ∷ [] }

-- `while ((auxentry = get_token(&parseptr)) != NULL)`, with at most `left` rounds, and where the pointer is
-- then. A round takes at least one byte.
unfoldable pub add_tokens : {R : Type 0} → (left : ℕ) → Text → EvnFilename R → EvnFilename R × Text
add_tokens zero str ef = (ef, str)
add_tokens (suc left) str ef = elim (get_token str) [
  | none ↦ (ef, str)
  | some (auxentry, rest) ↦ add_tokens left rest (add_aux_entry auxentry ef)
]

abbrev pub invalid : {R : Type 0} → EvnFilename R → EvnFilename R
invalid ef = record ef { valid = false }

module _ {R : Type 0} (parse_time : Text → Option R) where
  -- From `ef->data_start_time_ascii` on.
  unfoldable pub parse_rest : Text → EvnFilename R → EvnFilename R
  parse_rest str ef = elim (get_token str) [
    | none ↦ (add_tokens (length str) str ef).0
    | some (ascii, rest) ↦ if ltb (length ascii) 2 then invalid ef else elim (parse_time ascii) [
      | none ↦ (add_tokens (length rest) rest (add_aux_entry ascii ef)).0
      | some time ↦
          (add_tokens (length rest) rest
            (record ef { data_start_time_ascii = some ascii; data_start_time = time })).0
    ]
  ]

  unfoldable pub parse_scan : Text → EvnFilename R → EvnFilename R
  parse_scan str ef = elim (get_token str) [
    | none ↦ invalid ef
    | some (scan, rest) ↦
        let ef' : EvnFilename R = record ef { scan_name = some scan } in
        if ltb 16 (length scan) then invalid ef' else parse_rest rest ef'
  ]

  unfoldable pub parse_station : Text → EvnFilename R → EvnFilename R
  parse_station str ef = elim (get_token str) [
    | none ↦ invalid ef
    | some (station, rest) ↦
        let ef' : EvnFilename R = record ef { station_code = some station } in
        if ltb (length station) 2 then invalid ef' else parse_scan rest ef'
  ]

  unfoldable pub parse_experiment : Text → EvnFilename R → EvnFilename R
  parse_experiment str ef = elim (get_token str) [
    | none ↦ invalid ef
    | some (exp, rest) ↦
        let ef' : EvnFilename R = record ef { exp_name = some exp } in
        if ltb 6 (length exp) then invalid ef' else parse_station rest ef'
  ]

  -- "Extract filetype from parsebuf", then the other parts. `zero_time` is the time of the structure as it is
  -- allocated.
  unfoldable pub parse_evn_filename : (zero_time : R) → Text → EvnFilename R
  parse_evn_filename zero_time filename =
      let ef : EvnFilename R = record {
        exp_name = none;
        station_code = none;
        scan_name = none;
        data_start_time_ascii = none;
        data_start_time = zero_time;
        auxinfo = [];
        file_type = none;
        valid = true;
      } in
      elim (last_dot filename) [
        | none ↦ invalid ef
        | some (name, behind) ↦ elim (get_token behind) [
          | none ↦ invalid ef
          | some (type, _) ↦
              let ef' : EvnFilename R = record ef { file_type = some type } in
              if ltb (length type) 2 then invalid ef' else parse_experiment name ef'
        ]
      ]

-- The text behind `key` and `=`, if the entry starts with them.
unfoldable pub value_of : (key entry : Text) → Option Text
value_of [] [] = none
value_of [] (c ∷ entry) = if c == b'=' then some entry else none
value_of (k ∷ key) [] = none
value_of (k ∷ key) (c ∷ entry) = let rest = value_of key entry in if c == k then rest else none

unfoldable pub get_aux_entry : (key : Text) → (auxinfo : List Text) → Option Text
get_aux_entry key [] = none
get_aux_entry key (entry ∷ auxinfo) = elim (value_of key entry) [
  | some value ↦ some value
  | none ↦ get_aux_entry key auxinfo
]
