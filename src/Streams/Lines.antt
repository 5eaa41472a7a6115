-- ===== src/Streams/Lines.antt =====
-- common/common.c: lines that fit the buffer come through, longer ones lose a byte at each cut.
use tsunami_udp.Base.{
  ℕ, zero, suc, ◌+◌, ◌-◌, ◌*◌, ◌%◌, ◌^◌, ◌≤◌, ◌<◌, ◌≡◌, ap, sym, ◌∙◌, arith, true, false, ◌||◌,
  ◌==◌, some, List, [], ◌∷◌, ◌++◌, length, append-nil, append_assoc, All, all_more,
}
use tsunami_udp.Streams.{read_line_from, read_line, add_seconds, get_usec_since}

-- A byte that does not end a line.
abbrev pub IsInner : ℕ → Type 0
IsInner c = (c == 0 || c == b'\n') ≡ false

read_line_from-line :
    (start line rest : List ℕ) (left c : ℕ)
    → All IsInner line
    → (c == 0 || c == b'\n') ≡ true
    → length line ≤ left
    → read_line_from start left (line ++ c ∷ rest) ≡ some (start ++ line, rest)
unfolding read_line_from
read_line_from-line start [] rest zero c inner end fits =
    ap (λ s. some (s, rest)) (sym (append-nil start))
read_line_from-line start [] rest (suc left) c inner end fits =
    rw end (ap (λ s. some (s, rest)) (sym (append-nil start)))
read_line_from-line start (x ∷ line) rest zero c inner end fits = absurd (omega arith)
read_line_from-line start (x ∷ line) rest (suc left) c (all_more ix inner) end fits = rw ix (
    read_line_from-line (start ++ x ∷ []) line rest left c inner end (omega arith)
    ∙ ap (λ s. some (s, rest)) (append_assoc start (x ∷ []) line))

-- A line that is shorter than the buffer, ended by a newline or a 0, is read as it is, and the stream
-- goes on behind its end.
pub read_line_lem :
    (line rest : List ℕ) (buffer_length c : ℕ)
    → All IsInner line
    → (c == 0 || c == b'\n') ≡ true
    → length line < buffer_length
    → read_line buffer_length (line ++ c ∷ rest) ≡ some (line, rest)
read_line_lem line rest buffer_length c inner end fits =
    read_line_from-line [] line rest (buffer_length - 1) c inner end (omega arith)

read_line_from-cut :
    (start line rest : List ℕ) (c : ℕ)
    → All IsInner line
    → read_line_from start (length line) (line ++ c ∷ rest) ≡ some (start ++ line, rest)
unfolding read_line_from
read_line_from-cut start [] rest c inner = ap (λ s. some (s, rest)) (sym (append-nil start))
read_line_from-cut start (x ∷ line) rest c (all_more ix inner) = rw ix (
    read_line_from-cut (start ++ x ∷ []) line rest c inner
    ∙ ap (λ s. some (s, rest)) (append_assoc start (x ∷ []) line))

-- Of a line that is as long as the buffer or longer, one byte less than the buffer holds is read, and the
-- byte after these is lost, whatever it is.
pub read_line_cut :
    (line rest : List ℕ) (c : ℕ)
    → All IsInner line
    → read_line (length line + 1) (line ++ c ∷ rest) ≡ some (line, rest)
read_line_cut line rest c inner =
    ap (λ n. read_line_from [] n (line ++ c ∷ rest)) {x = length line + 1 - 1} {y = length line}
      (omega arith)
    ∙ read_line_from-cut [] line rest c inner

add_seconds_lem :
    (sec result : ℕ)
    → result + sec * 1000000 < 2 ^ 64
    → add_seconds sec result ≡ result + sec * 1000000
unfolding add_seconds
add_seconds_lem zero result small = omega arith
add_seconds_lem (suc sec) result small =
    ap (add_seconds sec) {x = (result + 1000000) % 2 ^ 64} {y = result + 1000000} (omega arith)
    ∙ add_seconds_lem sec (result + 1000000) (omega arith)
    ∙ omega arith

-- Between two times of which the second is not earlier, `get_usec_since` gives the microseconds between
-- them, also where the microseconds of the second are fewer, if they fit 64 bits.
get_usec_since_lem :
    (now_sec now_usec old_sec old_usec : ℕ)
    → now_usec < 1000000
    → old_usec < 1000000
    → now_sec * 1000000 + now_usec < 2 ^ 64
    → old_sec * 1000000 + old_usec ≤ now_sec * 1000000 + now_usec
    → get_usec_since now_sec now_usec old_sec old_usec + (old_sec * 1000000 + old_usec)
      ≡ now_sec * 1000000 + now_usec
unfolding get_usec_since
get_usec_since_lem now_sec now_usec old_sec old_usec now_in old_in small later =
    omega (arith, add_seconds_lem (now_sec - old_sec) 0 (omega arith))
