-- ===== src/Commands/Words.antt =====
-- client/main.c: `parse_command` finds the words of a line.
use tsunami_udp.Base.{
  ℕ, zero, suc, ◌≡◌, refl, ap, sym, ◌∙◌, true, false, List, [], ◌∷◌, ◌++◌, take, All, all_none,
  all_more, Text, is_space, skip_spaces, append-nil, ap₂, take-nil, Bool-cases, inl, inr,
}
use tsunami_udp.Commands.{
  max_command_words, word_of, after_word, parse_words, parse_command, terminated,
}

abbrev pub IsSpaces : Text → Type 0
IsSpaces s = All (λ c. is_space c ≡ true) s

-- A text with no whitespace, and at least one byte.
pub data IsWord : Text → Type 0 where
  is_word :
      {c : ℕ} {cs : Text} → is_space c ≡ false → All (λ d. is_space d ≡ false) cs → IsWord (c ∷ cs)

-- A line that is made of words, with whitespace before, between and, possibly, behind them.
pub data Spells : Text → List Text → Type 0 where
  spells_end : {s : Text} → IsSpaces s → Spells s []
  spells_last : {s w : Text} → IsSpaces s → IsWord w → Spells (s ++ w) (w ∷ [])
  spells_more :
      {s w b : Text} {c : ℕ} {ws : List Text}
      → IsSpaces s
      → IsWord w
      → is_space c ≡ true
      → Spells (c ∷ b) ws
      → Spells (s ++ (w ++ c ∷ b)) (w ∷ ws)

skip_spaces-append : (s b : Text) → IsSpaces s → skip_spaces (s ++ b) ≡ skip_spaces b
skip_spaces-append [] b all_none = refl
skip_spaces-append (c ∷ s) b (all_more e es) = rw e (skip_spaces-append s b es)

skip_spaces-all : (s : Text) → IsSpaces s → skip_spaces s ≡ []
skip_spaces-all [] all_none = refl
skip_spaces-all (c ∷ s) (all_more e es) = rw e (skip_spaces-all s es)

skip_spaces-word : (w b : Text) → IsWord w → skip_spaces (w ++ b) ≡ w ++ b
skip_spaces-word [] b w = elim w [ ]
skip_spaces-word (c ∷ cs) b (is_word e es) = rw e refl

word_of-append :
    (w b : Text) (c : ℕ)
    → All (λ d. is_space d ≡ false) w
    → is_space c ≡ true
    → (word_of (w ++ c ∷ b) ≡ w) × (after_word (w ++ c ∷ b) ≡ c ∷ b)
unfolding word_of after_word
word_of-append [] b c all_none stop = rw stop (refl, refl)
word_of-append (d ∷ w) b c (all_more e es) stop =
    let (word, after) = word_of-append w b c es stop in rw e (ap (λ t. d ∷ t) word, after)

word_of-All : (w : Text) → All (λ d. is_space d ≡ false) w → (word_of w ≡ w) × (after_word w ≡ [])
unfolding word_of after_word
word_of-All [] all_none = (refl, refl)
word_of-All (d ∷ w) (all_more e es) =
    let (word, after) = word_of-All w es in rw e (ap (λ t. d ∷ t) word, after)

IsWord-All : {w : Text} → IsWord w → All (λ d. is_space d ≡ false) w
IsWord-All (is_word e es) = all_more e es

parse_words-nil : (left : ℕ) → parse_words left [] ≡ []
unfolding parse_words
parse_words-nil zero = refl
parse_words-nil (suc left) = refl

-- One word is taken off.
parse_words-word :
    (left : ℕ) (w b : Text)
    → IsWord w
    → parse_words (suc left) (w ++ b)
      ≡ word_of (w ++ b) ∷ parse_words left (skip_spaces (after_word (w ++ b)))
unfolding parse_words
parse_words-word left [] b w = elim w [ ]
parse_words-word left (c ∷ cs) b (is_word e es) = refl

parse_words-Spells :
    (left : ℕ) (b : Text) (ws : List Text)
    → Spells b ws
    → parse_words left (skip_spaces b) ≡ take left ws
unfolding parse_words
parse_words-Spells zero b ws s = refl
parse_words-Spells (suc left) _ _ (spells_end {s} spaces) =
    ap (parse_words (suc left)) (skip_spaces-all s spaces)
parse_words-Spells (suc left) _ _ (spells_last {s} {w} spaces word) =
    let (found, after) = word_of-All w (IsWord-All word) in
    ap (parse_words (suc left)) (
      skip_spaces-append s w spaces
      ∙ ap skip_spaces (sym (append-nil w))
      ∙ skip_spaces-word w [] word)
    ∙ parse_words-word left w [] word
    ∙ ap (λ t. word_of t ∷ parse_words left (skip_spaces (after_word t))) (append-nil w)
    ∙ ap₂ ◌∷◌ found (ap (λ t. parse_words left (skip_spaces t)) after ∙ parse_words-nil left)
    ∙ ap (λ t. w ∷ t) (sym (take-nil left))
parse_words-Spells (suc left) _ _ (spells_more {s} {w} {b} {c} {ws} spaces word stop rest) =
    let (found, after) = word_of-append w b c (IsWord-All word) stop in
    ap (parse_words (suc left))
      (skip_spaces-append s (w ++ c ∷ b) spaces ∙ skip_spaces-word w (c ∷ b) word)
    ∙ parse_words-word left w (c ∷ b) word
    ∙ ap₂ ◌∷◌ found
        (ap (λ t. parse_words left (skip_spaces t)) after ∙ parse_words-Spells left (c ∷ b) ws rest)

-- A line in which words stand, with whitespace before, between and, possibly, behind them, is parsed to its
-- first ten words, in order.
pub parse_command_lem :
    (b : Text) (ws : List Text) → Spells b ws → parse_command b ≡ take max_command_words ws
unfolding parse_command
parse_command_lem b ws s = parse_words-Spells max_command_words b ws s

word_of-word_of : (b : Text) → (word_of (word_of b) ≡ word_of b) × (after_word (word_of b) ≡ [])
unfolding word_of after_word
word_of-word_of [] = (refl, refl)
word_of-word_of (c ∷ b) =
    let (word, after) = word_of-word_of b in
    elim (Bool-cases (is_space c)) [
      | inl stop ↦ rw stop (refl, refl)
      | inr letter ↦ rw (letter, letter) (ap (λ t. c ∷ t) word, after)
    ]

-- What `parse_command` leaves in its buffer is parsed to the first word of the line alone.
pub parse_command-terminated : (b : Text) → parse_command (terminated b) ≡ take 1 (parse_command b)
unfolding parse_command terminated parse_words word_of after_word
parse_command-terminated [] = refl
parse_command-terminated (c ∷ b) =
    let (word, after) = word_of-word_of b in
    elim (Bool-cases (is_space c)) [
      | inl stop ↦ rw (stop, stop) (parse_command-terminated b)
      | inr letter ↦
          rw (letter, letter, letter)
            (ap₂ ◌∷◌ (ap (λ t. c ∷ t) word)
              (ap (λ t. parse_words 9 (skip_spaces t)) after ∙ parse_words-nil 9))
    ]
