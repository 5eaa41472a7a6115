-- ===== src/Streams/Whole.antt =====
-- common/common.c: when `full_write` and `full_read` return, and what.
use tsunami_udp.Base.{
  ℕ, ◌+◌, ◌-◌, ◌≤◌, ◌<◌, ◌≡◌, ap, sym, ◌∙◌, arith, true, false, ltb, some, List, [], ◌∷◌, ◌++◌,
  length, length-append, append-nil, append_assoc,
}
use tsunami_udp.Streams.{
  Write, wrote, full_write_from, full_write, Read, gave, full_read_from, full_read,
}

-- The bytes that a descriptor gives, each call of `read` at least one and at most what was asked for.
pub data Gives : (count : ℕ) → List Read → List ℕ → Type 0 where
  gives_all : Gives 0 [] []
  gives_some :
      {count : ℕ} {new rest : List ℕ} {more : List Read}
      → 0 < length new
      → length new ≤ count
      → Gives (count - length new) more rest
      → Gives count (gave new ∷ more) (new ++ rest)

full_read_from-Gives :
    (count : ℕ) (answers : List Read) (bytes buffer : List ℕ)
    → Gives count answers bytes
    → full_read_from answers (length buffer + count) buffer ≡ some (buffer ++ bytes)
unfolding full_read_from
full_read_from-Gives count answers bytes buffer gives_all =
    let over : ltb (length buffer) (length buffer + 0) ≡ false = ground arith in
    rw over (ap some (sym (append-nil buffer)))
full_read_from-Gives count answers bytes buffer
      (gives_some {new = new} {rest = rest} {more = more} pos fits more_gives) =
    let under : ltb (length buffer) (length buffer + count) ≡ true = ground arith in
    let total : length (buffer ++ new) + (count - length new) ≡ length buffer + count =
      omega (arith, length-append buffer new) in
    rw under (
      ap (λ n. full_read_from more n (buffer ++ new)) (sym total)
      ∙ full_read_from-Gives (count - length new) more rest (buffer ++ new) more_gives
      ∙ ap some (append_assoc buffer new rest))

-- However a descriptor cuts a stream into pieces, `full_read` returns with all the bytes that were asked
-- for, in order, if no call of `read` fails and the stream does not end before.
full_read_lem :
    (count : ℕ) (answers : List Read) (bytes : List ℕ)
    → Gives count answers bytes
    → full_read answers count ≡ some bytes
full_read_lem count answers bytes gives =
    ap (λ n. full_read_from answers n []) {x = count} {y = length {A = ℕ} [] + count} (omega arith)
    ∙ full_read_from-Gives count answers bytes [] gives

-- The bytes that `write` takes in all, each call at least one and at most what is left.
pub data Takes : (count : ℕ) → List Write → Type 0 where
  takes_all : Takes 0 []
  takes_some :
      {count n : ℕ} {more : List Write}
      → 0 < n
      → n ≤ count
      → Takes (count - n) more
      → Takes count (wrote n ∷ more)

full_write_from-Takes :
    (count written : ℕ) (answers : List Write)
    → Takes count answers
    → full_write_from answers (written + count) written ≡ some (written + count)
unfolding full_write_from
full_write_from-Takes count written answers takes_all =
    let over : ltb written (written + 0) ≡ false = ground arith in rw over (ap some (omega arith))
full_write_from-Takes count written answers (takes_some {n = n} {more = more} pos fits rest) =
    let under : ltb written (written + count) ≡ true = ground arith in
    let total : written + n + (count - n) ≡ written + count = omega arith in
    rw under (
      ap (λ c. full_write_from more c (written + n)) (sym total)
      ∙ full_write_from-Takes (count - n) (written + n) more rest
      ∙ ap some total)

-- However a descriptor takes a buffer, `full_write` returns the whole count, if no call of `write` fails.
full_write_lem :
    (count : ℕ) (answers : List Write) → Takes count answers → full_write answers count ≡ some count
full_write_lem count answers takes =
    ap (λ n. full_write_from answers n 0) {x = count} {y = 0 + count} (omega arith)
    ∙ full_write_from-Takes count 0 answers takes
    ∙ ap some (omega arith)
