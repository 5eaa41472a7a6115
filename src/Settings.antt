-- ===== src/Settings.antt =====
-- client/command.c and client/config.c: the parameters of the client, their defaults, and the command `set`.
pub mod Numbers
pub mod Changes
pub mod Report
pub mod Readback
mod Tests
use tsunami_udp.Base.{
  ℕ, ◌+◌, ◌-◌, ◌*◌, ◌%◌, ◌^◌, Bool, true, false, not, ◌&&◌, ◌==◌, ltb, leb, if◌then◌else◌, Option,
  none, some, List, [], ◌∷◌, take, length, get_or, Text, codes, same_text, same_word, upper, Long,
  atol, to_unsigned,
}

-- `SCREEN_MODE` and `LINE_MODE`
pub data OutputMode : Type 0 where
  screen line : OutputMode

-- `ttp_parameter_t`, without the pointer to the ring buffer.
pub record Parameter : Type 0 where
  pub server_name : Text
  pub server_port : ℕ
  pub client_port : ℕ
  pub udp_buffer : ℕ
  pub verbose_yn : Bool
  pub transcript_yn : Bool
  pub ipv6_yn : Bool
  pub output_mode : OutputMode
  pub block_size : ℕ
  pub target_rate : ℕ
  pub rate_adjust : Bool
  pub error_rate : ℕ
  pub slower_num : ℕ
  pub slower_den : ℕ
  pub faster_num : ℕ
  pub faster_den : ℕ
  pub history : ℕ
  pub lossless : Bool
  pub losswindow_ms : ℕ
  pub blockdump : Bool
  pub passphrase : Option Text

-- The defaults of client/config.c.
unfoldable pub reset_client : Parameter
reset_client = record {
  server_name = codes "localhost";
  server_port = 51038;
  client_port = 51038;
  udp_buffer = 20000000;
  verbose_yn = true;
  transcript_yn = false;
  ipv6_yn = false;
  output_mode = line;
  block_size = 1024;
  target_rate = 650000000;
  rate_adjust = false;
  error_rate = 7500;
  slower_num = 25;
  slower_den = 24;
  faster_num = 5;
  faster_den = 6;
  history = 25;
  lossless = true;
  losswindow_ms = 1000;
  blockdump = false;
  passphrase = none;
}

-- `strchr(fraction, '/')`, from the byte behind the slash on.
unfoldable pub after_slash : Text → Option Text
after_slash [] = none
after_slash (c ∷ cs) = let rest = after_slash cs in if c == b'/' then some cs else rest

-- The numerator and the denominator, or none where the function warns.
unfoldable pub parse_fraction : Text → Option (ℕ × ℕ)
parse_fraction fraction = elim (after_slash fraction) [
  | none ↦ none
  | some slash ↦ some (to_unsigned 16 (atol fraction), to_unsigned 16 (atol slash))
]

abbrev pub set_slower : Option (ℕ × ℕ) → Parameter → Parameter
set_slower none p = p
set_slower (some (num, den)) p = record p { slower_num = num; slower_den = den }

abbrev pub set_faster : Option (ℕ × ℕ) → Parameter → Parameter
set_faster none p = p
set_faster (some (num, den)) p = record p { faster_num = num; faster_den = den }

-- `multiplier * atol(cpy)` as an unsigned number of 32 bits, where the product of 64 bits does not overflow.
abbrev pub scaled : ℕ → Text → Option ℕ
scaled multiplier s =
    let l = atol s in
    if ltb (if l.negative then 2 ^ 63 else 2 ^ 63 - 1) (multiplier * l.magnitude)
    then none
    else some
        (to_unsigned 32 (record { negative = l.negative; magnitude = multiplier * l.magnitude }))

-- The rate, with the suffix M or G. None is undefined behaviour: the value is written past the 256 bytes of `cpy`, or the
-- product overflows.
unfoldable pub parse_rate : Text → Option ℕ
parse_rate cmd =
    let l = length cmd in
    let last = upper (get_or cmd (l - 1) 0) in
    if leb 256 l
    then none
    else if ltb 1 l && last == b'M'
    then scaled 1000000 (take (l - 1) cmd)
    else if ltb 1 l && last == b'G'
    then scaled 1000000000 (take (l - 1) cmd)
    else scaled 1 cmd

-- `strcmp(value, "yes") == 0`
abbrev pub is_yes : Text → Bool
is_yes value = same_text value (codes "yes")

abbrev pub set_rate : Option ℕ → Parameter → Option Parameter
set_rate none p = none
set_rate (some rate) p = some (record p { target_rate = rate })

-- "handle actual set operations first". `strdup_works` tells whether memory is given; none is an exit of the
-- process, or undefined behaviour. `thousandths` is the number of type double, times 1000.0, as an integer.
unfoldable pub set_field :
    (thousandths : Text → ℕ)
    → (strdup_works : Bool) → (field value : Text) → Parameter
    → Option Parameter
set_field thousandths strdup_works field value p =
    if same_word field (codes "server")
    then if strdup_works then some (record p { server_name = value }) else none
    else if same_word field (codes "port")
    then some (record p { server_port = to_unsigned 16 (atol value) })
    else if same_word field (codes "udpport")
    then some (record p { client_port = to_unsigned 16 (atol value) })
    else if same_word field (codes "buffer")
    then some (record p { udp_buffer = to_unsigned 32 (atol value) })
    else if same_word field (codes "blocksize")
    then some (record p { block_size = to_unsigned 32 (atol value) })
    else if same_word field (codes "verbose")
    then some (record p { verbose_yn = is_yes value })
    else if same_word field (codes "transcript")
    then some (record p { transcript_yn = is_yes value })
    else if same_word field (codes "ip")
    then some (record p { ipv6_yn = same_text value (codes "v6") })
    else if same_word field (codes "output")
    then some
        (record p { output_mode = if not (same_text value (codes "screen")) then line else screen })
    else if same_word field (codes "rateadjust")
    then some (record p { rate_adjust = is_yes value })
    else if same_word field (codes "rate")
    then set_rate (parse_rate value) p
    else if same_word field (codes "error")
    then some (record p { error_rate = thousandths value })
    else if same_word field (codes "slowdown")
    then some (set_slower (parse_fraction value) p)
    else if same_word field (codes "speedup")
    then some (set_faster (parse_fraction value) p)
    else if same_word field (codes "history")
    then some (record p { history = to_unsigned 16 (atol value) })
    else if same_word field (codes "lossless")
    then some (record p { lossless = is_yes value })
    else if same_word field (codes "losswindow")
    then some (record p { losswindow_ms = to_unsigned 32 (atol value) })
    else if same_word field (codes "blockdump")
    then some (record p { blockdump = is_yes value })
    else if same_word field (codes "passphrase")
    then if strdup_works then some (record p { passphrase = some value }) else none
    else some p

-- Only a command of three words changes something. The report of the current values is in `Settings.Report`.
unfoldable pub command_set :
    (thousandths : Text → ℕ) → (strdup_works : Bool) → List Text → Parameter → Option Parameter
command_set thousandths strdup_works (name ∷ field ∷ value ∷ []) p =
    set_field thousandths strdup_works field value p
command_set thousandths strdup_works _ p = some p
