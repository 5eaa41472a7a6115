-- ===== src/Evn/Names.antt =====
-- rtserver/parse_evn_filename.c: a name that is made of the parts is parsed to them.
use tsunami_udp.Base.{
  ◌≤◌, ◌≡◌, refl, ap, ap₂, sym, ◌∙◌, arith, true, false, ◌==◌, ltb, Option, some, none, List, [],
  ◌∷◌, ◌++◌, length, inl, inr, Bool-cases, Option-cases, All, all_none, all_more, Text,
  append_assoc, In, first, later,
}
use tsunami_udp.Evn.{
  EvnFilename, add_aux_entry, parse_rest, parse_scan, parse_station, parse_experiment,
  parse_evn_filename, value_of, get_aux_entry, add_tokens, get_token,
}
use tsunami_udp.Evn.Tokens.{
  IsToken, join, get_token-tokens, get_token-last, each_token, last_dot-append,
}

-- The optional parts: none, or at least two bytes in the first.
pub data Optional : List Text → Type 0 where
  no_part : Optional []
  parts : {t : Text} {aux : List Text} → 2 ≤ length t → Optional (t ∷ aux)

-- The mandatory parts of a name, with the type of the file.
pub record Mandatory (exp station scan type : Text) : Type 0 where
  pub exp_token : IsToken exp
  pub exp_short : length exp ≤ 6
  pub station_token : IsToken station
  pub station_long : 2 ≤ length station
  pub scan_token : IsToken scan
  pub scan_short : length scan ≤ 16
  pub type_token : IsToken type
  pub type_long : 2 ≤ length type
  pub type_plain : All (λ d. (d == b'.') ≡ false) type

module _ {R : Type 0} (parse_time : Text → Option R) where
  -- The start time and the entries: the first part is a time if `parse_time` knows it.
  abbrev pub with_optional : List Text → EvnFilename R → EvnFilename R
  with_optional [] ef = ef
  with_optional (t ∷ aux) ef = elim (parse_time t) [
    | none ↦ record ef { auxinfo = ef.auxinfo ++ t ∷ aux }
    | some time ↦ record ef {
      data_start_time_ascii = some t;
      data_start_time = time;
      auxinfo = ef.auxinfo ++ aux;
    }
  ]

  rest_lem :
      (ts : List Text) (ef : EvnFilename R)
      → All IsToken ts
      → Optional ts
      → parse_rest parse_time (join ts) ef ≡ with_optional ts ef
  unfolding parse_rest join get_token add_tokens
  rest_lem [] ef all_none no_part = refl
  rest_lem (t ∷ aux) ef (all_more i all) (parts long) =
      let long_enough : ltb (length t) 2 ≡ false = ground arith in
      elim (Option-cases (parse_time t)) [
        | inl unknown ↦
            rw (get_token-tokens t aux i, parse_rest, long_enough, unknown, with_optional)
              (each_token aux (add_aux_entry t ef) all
                ∙ ap (λ l. record ef { auxinfo = l }) (append_assoc ef.auxinfo (t ∷ []) aux))
        | inr (time, known) ↦
            let ef' : EvnFilename R = record ef {
              data_start_time_ascii = some t;
              data_start_time = time;
            } in
            rw (get_token-tokens t aux i, parse_rest, long_enough, known, with_optional)
              (each_token aux ef' all)
      ]

  -- A name that is made of an experiment of at most 6 bytes, a station of at least 2, a scan of at most 16, parts
  -- that follow, and behind the last dot a type of at least 2, none of them empty or with a `_`, is valid
  -- and is parsed to just these parts; the first part that follows, of at least 2 bytes, is the start
  -- time if `parse_time` knows it, and the others are the entries, in order.
  pub parse_evn_filename_lem :
      (zero_time : R) (exp station scan type : Text) (ts : List Text)
      → Mandatory exp station scan type
      → All IsToken ts
      → Optional ts
      → parse_evn_filename parse_time zero_time (join (exp ∷ station ∷ scan ∷ ts) ++ b'.' ∷ type)
        ≡ with_optional ts (record {
          exp_name = some exp;
          station_code = some station;
          scan_name = some scan;
          data_start_time_ascii = none;
          data_start_time = zero_time;
          auxinfo = [];
          file_type = some type;
          valid = true;
        })
  unfolding parse_evn_filename parse_experiment parse_station parse_scan
  parse_evn_filename_lem zero_time exp station scan type ts m all opt =
      let exp_ok : ltb 6 (length exp) ≡ false = ground (arith, m.exp_short) in
      let station_ok : ltb (length station) 2 ≡ false = ground (arith, m.station_long) in
      let scan_ok : ltb 16 (length scan) ≡ false = ground (arith, m.scan_short) in
      let type_ok : ltb (length type) 2 ≡ false = ground (arith, m.type_long) in
      rw
        (
          last_dot-append (join (exp ∷ station ∷ scan ∷ ts)) type m.type_plain,
          parse_evn_filename,
          get_token-last type m.type_token,
          type_ok,
          parse_experiment,
          get_token-tokens exp (station ∷ scan ∷ ts) m.exp_token,
          exp_ok,
          parse_station,
          get_token-tokens station (scan ∷ ts) m.station_token,
          station_ok,
          parse_scan,
          get_token-tokens scan ts m.scan_token,
          scan_ok,
        )
        (rest_lem ts _ all opt)

value_of-append : (key v : Text) → value_of key (key ++ b'=' ∷ v) ≡ some v
unfolding value_of
value_of-append [] v = refl
value_of-append (k ∷ key) v =
    let same : (k == k) ≡ true = ground arith in rw same (value_of-append key v)

value_of-some : (key entry v : Text) → value_of key entry ≡ some v → entry ≡ key ++ b'=' ∷ v
unfolding value_of
value_of-some [] [] v e = absurd (cc e)
value_of-some [] (c ∷ entry) v e = elim (Bool-cases (c == b'=')) [
  | inl equals ↦
      let found : some entry ≡ some v = rw (equals, value_of) at e in
      ap₂ ◌∷◌ (ground arith) (cc found)
  | inr other ↦ let nothing : some v ≡ none = sym (rw (other, value_of) at e) in absurd (cc nothing)
]
value_of-some (k ∷ key) [] v e = absurd (cc e)
value_of-some (k ∷ key) (c ∷ entry) v e = elim (Bool-cases (c == k)) [
  | inl same ↦
      let found : value_of key entry ≡ some v = rw (same, value_of) at e in
      ap₂ ◌∷◌ (ground arith) (value_of-some key entry v found)
  | inr other ↦ let nothing : some v ≡ none = sym (rw (other, value_of) at e) in absurd (cc nothing)
]

aux_finds :
    (key v : Text) (before after : List Text)
    → All (λ entry. value_of key entry ≡ none) before
    → get_aux_entry key (before ++ (key ++ b'=' ∷ v) ∷ after) ≡ some v
unfolding get_aux_entry
aux_finds key v [] after all_none = rw (value_of-append key v, get_aux_entry) refl
aux_finds key v (entry ∷ before) after (all_more e es) =
    rw (e, get_aux_entry) (aux_finds key v before after es)

aux_found :
    (key v : Text) (auxinfo : List Text)
    → get_aux_entry key auxinfo ≡ some v
    → In (key ++ b'=' ∷ v) auxinfo
unfolding get_aux_entry
aux_found key v [] e = absurd (cc e)
aux_found key v (entry ∷ auxinfo) e = elim (Option-cases (value_of key entry)) [
  | inl nothing ↦
      let later_on : get_aux_entry key auxinfo ≡ some v = rw (nothing, get_aux_entry) at e in
      later (aux_found key v auxinfo later_on)
  | inr (w, found) ↦
      let same : some w ≡ some v = rw (found, get_aux_entry) at e in
      first (sym (value_of-some key entry v (found ∙ same)))
]

-- `get_aux_entry` gives the value of the first entry that is `key=value`, whatever entries of other forms stand
-- before it; and what it gives is the value of such an entry.
get_aux_entry_lem :
    (key v : Text) (before after auxinfo : List Text)
    → (All (λ entry. value_of key entry ≡ none) before
        → get_aux_entry key (before ++ (key ++ b'=' ∷ v) ∷ after) ≡ some v)
      × (get_aux_entry key auxinfo ≡ some v → In (key ++ b'=' ∷ v) auxinfo)
get_aux_entry_lem key v before after auxinfo =
    (aux_finds key v before after, aux_found key v auxinfo)
