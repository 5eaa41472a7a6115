-- ===== src/Settings/Report.antt =====
-- client/command.c: what `set` reports of a field, and which values of a field it shows unchanged.
use tsunami_udp.Base.{
  ℕ, ◌-◌, ◌*◌, ◌^◌, ◌<◌, Bool, leb, if◌then◌else◌, Option, none, some, [], ◌∷◌, ◌++◌, Text, codes,
  same_word,
}
use tsunami_udp.Listing.{decimal}
use tsunami_udp.Settings.{OutputMode, line, screen, Parameter}

abbrev pub yes_no : Bool → Text
yes_no b = if b then codes "yes" else codes "no"

abbrev pub ip_name : Bool → Text
ip_name ipv6_yn = if ipv6_yn then codes "v6" else codes "v4"

abbrev pub output_name : OutputMode → Text
output_name screen = codes "screen"
output_name line = codes "line"

-- `%d` of a number of 32 bits without a sign.
abbrev pub as_signed : ℕ → Text
as_signed n = if leb (2 ^ 31) n then b'-' ∷ decimal (2 ^ 32 - n) else decimal n

abbrev pub fraction : ℕ → ℕ → Text
fraction num den = decimal num ++ b'/' ∷ decimal den

abbrev pub passphrase_shown : Option Text → Text
passphrase_shown none = codes "default"
passphrase_shown (some passphrase) = codes "<user-specified>"

abbrev pub report_line : (name value : Text) → Text
report_line name value = name ++ (codes " = " ++ (value ++ b'\n' ∷ []))

abbrev pub reported : (field name value : Text) → Text
reported field name value = if same_word field name then report_line name value else []

-- "report on current values", of one field and without the empty line at the end. `percent` prints the error rate, a number
-- of type double.
unfoldable pub report : (percent : ℕ → Text) → (field : Text) → Parameter → Text
report percent field p =
    reported field (codes "server") p.server_name
    ++ (reported field (codes "port") (decimal p.server_port)
        ++ (reported field (codes "udpport") (decimal p.client_port)
            ++ (reported field (codes "buffer") (decimal p.udp_buffer)
                ++ (reported field (codes "blocksize") (decimal p.block_size)
                    ++ (reported field (codes "verbose") (yes_no p.verbose_yn)
                        ++ (reported field (codes "transcript") (yes_no p.transcript_yn)
                            ++ (reported field (codes "ip") (ip_name p.ipv6_yn)
                                ++ (reported field (codes "output") (output_name p.output_mode)
                                    ++ (reported field (codes "rate") (decimal p.target_rate)
                                        ++ (reported field (codes "rateadjust")
                                              (yes_no p.rate_adjust)
                                            ++ (reported field (codes "error")
                                                  (percent p.error_rate)
                                                ++ (reported field (codes "slowdown")
                                                      (fraction p.slower_num p.slower_den)
                                                    ++ (reported field (codes "speedup")
                                                          (fraction p.faster_num p.faster_den)
                                                        ++ (reported field (codes "history")
                                                            (decimal p.history ++ codes "%")
                                                            ++ (reported field (codes "lossless")
                                                            (yes_no p.lossless)
                                                            ++ (reported field (codes "losswindow")
                                                            (as_signed p.losswindow_ms
                                                            ++ codes " msec")
                                                            ++ (reported field (codes "blockdump")
                                                            (yes_no p.blockdump)
                                                            ++ reported field (codes "passphrase") (
                                                            passphrase_shown
                                                            p.passphrase))))))))))))))))))

-- A value that a field takes, and what the report shows for it.
pub data Shows (thousandths : Text → ℕ) (percent : ℕ → Text)
    : (name value shown : Text) → Type 0 where
  shows_server : (v : Text) → Shows thousandths percent (codes "server") v v
  shows_port :
      (n : ℕ) → n < 2 ^ 16 → Shows thousandths percent (codes "port") (decimal n) (decimal n)
  shows_udpport :
      (n : ℕ) → n < 2 ^ 16 → Shows thousandths percent (codes "udpport") (decimal n) (decimal n)
  shows_buffer :
      (n : ℕ) → n < 2 ^ 32 → Shows thousandths percent (codes "buffer") (decimal n) (decimal n)
  shows_blocksize :
      (n : ℕ) → n < 2 ^ 32 → Shows thousandths percent (codes "blocksize") (decimal n) (decimal n)
  shows_verbose : (b : Bool) → Shows thousandths percent (codes "verbose") (yes_no b) (yes_no b)
  shows_transcript :
      (b : Bool) → Shows thousandths percent (codes "transcript") (yes_no b) (yes_no b)
  shows_ip : (b : Bool) → Shows thousandths percent (codes "ip") (ip_name b) (ip_name b)
  shows_output :
      (m : OutputMode) → Shows thousandths percent (codes "output") (output_name m) (output_name m)
  shows_rate :
      (n : ℕ)
      → 1000000 * n < 2 ^ 32
      → Shows thousandths percent (codes "rate") (decimal n ++ b'M' ∷ []) (decimal (1000000 * n))
  shows_rateadjust :
      (b : Bool) → Shows thousandths percent (codes "rateadjust") (yes_no b) (yes_no b)
  shows_error : (v : Text) → Shows thousandths percent (codes "error") v (percent (thousandths v))
  shows_slowdown :
      (n d : ℕ)
      → n < 2 ^ 16
      → d < 2 ^ 16
      → Shows thousandths percent (codes "slowdown") (fraction n d) (fraction n d)
  shows_speedup :
      (n d : ℕ)
      → n < 2 ^ 16
      → d < 2 ^ 16
      → Shows thousandths percent (codes "speedup") (fraction n d) (fraction n d)
  shows_history :
      (n : ℕ)
      → n < 2 ^ 16
      → Shows thousandths percent (codes "history") (decimal n) (decimal n ++ codes "%")
  shows_lossless : (b : Bool) → Shows thousandths percent (codes "lossless") (yes_no b) (yes_no b)
  shows_losswindow :
      (n : ℕ)
      → n < 2 ^ 31
      → Shows thousandths percent (codes "losswindow") (decimal n) (decimal n ++ codes " msec")
  shows_blockdump : (b : Bool) → Shows thousandths percent (codes "blockdump") (yes_no b) (yes_no b)
  shows_passphrase :
      (v : Text) → Shows thousandths percent (codes "passphrase") v (codes "<user-specified>")
