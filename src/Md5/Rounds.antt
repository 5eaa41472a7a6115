-- ===== src/Md5/Rounds.antt =====
-- common/md5.c: the 64 steps on `state`, which stays where it is, against the operations of RFC 1321,
-- which move the words.
use tsunami_udp.Base.{
  ℕ, zero, suc, ◌+◌, ◌/◌, ◌%◌, ◌<◌, ◌≤◌, ◌≡◌, refl, ap, ◌∙◌, arith, Bool, true, ◌&&◌, ◌==◌, List,
  [], ◌∷◌, get_or,
}
use tsunami_udp.Md5.{
  at, t_array, md5_dispatch, md5_f, md5_g, md5_h, md5_i, md5_table, step, steps, additions,
  words_bytes, first_state,
}
use tsunami_udp.Md5.Reference.{
  Words, word_index, shift, auxiliary, sine_part, series, operation, operations, incremented, start,
  output,
}

-- The tables of the code have the words, the shifts and the sines of the RFC, at one step and at the first `n`.
abbrev agrees : ℕ → Bool
agrees j =
    ((get_or md5_table j (0, 0)).0 == word_index (j / 16) j)
    && ((get_or md5_table j (0, 0)).1 == shift (j / 16) j && at t_array j == sine_part (j + 1))

agree : ℕ → Bool
agree zero = true
agree (suc n) = agrees n && agree n

agree-agrees : (n j : ℕ) → agree n ≡ true → j < n → agrees j ≡ true
unfolding agree
agree-agrees zero j all lt = absurd (omega arith)
agree-agrees (suc n) j all lt = ground (arith, agree-agrees n j)

table_agrees : agree 64 ≡ true
unfolding agree md5_table word_index shift t_array sine_part series
table_agrees = refl

table_lem :
    (j : ℕ)
    → j < 64
    → ((get_or md5_table j (0, 0)).0 ≡ word_index (j / 16) j)
      × ((get_or md5_table j (0, 0)).1 ≡ shift (j / 16) j)
      × (at t_array j ≡ sine_part (j + 1))
table_lem j lt =
    let h : agrees j ≡ true = agree-agrees 64 j table_agrees lt in
    (ground arith, ground arith, ground arith)

dispatch_lem : (k : ℕ) → md5_dispatch k ≡ auxiliary k
unfolding md5_dispatch md5_f md5_g md5_h md5_i auxiliary
dispatch_lem zero = refl
dispatch_lem (suc zero) = refl
dispatch_lem (suc (suc zero)) = refl
dispatch_lem (suc (suc (suc _))) = refl

-- Where the words stand in `state` after a number of steps with remainder `r`.
abbrev pub placed : (r : ℕ) → Words → List ℕ
placed zero w = w.a ∷ w.b ∷ w.c ∷ w.d ∷ []
placed (suc zero) w = w.b ∷ w.c ∷ w.d ∷ w.a ∷ []
placed (suc (suc zero)) w = w.c ∷ w.d ∷ w.a ∷ w.b ∷ []
placed (suc (suc (suc _))) w = w.d ∷ w.a ∷ w.b ∷ w.c ∷ []

step-placed :
    (x : List ℕ) (j r : ℕ) (w : Words)
    → j < 64
    → j % 4 ≡ r
    → step x j (placed r w) ≡ placed ((r + 1) % 4) (operation x j w)
unfolding step operation
step-placed x j zero w lt e =
    let (k, s, t) = table_lem j lt in rw (e, k, s, t, dispatch_lem (j / 16)) refl
step-placed x j (suc zero) w lt e =
    let (k, s, t) = table_lem j lt in rw (e, k, s, t, dispatch_lem (j / 16)) refl
step-placed x j (suc (suc zero)) w lt e =
    let (k, s, t) = table_lem j lt in rw (e, k, s, t, dispatch_lem (j / 16)) refl
step-placed x j (suc (suc (suc zero))) w lt e =
    let (k, s, t) = table_lem j lt in rw (e, k, s, t, dispatch_lem (j / 16)) refl
step-placed x j (suc (suc (suc (suc _)))) w lt e = absurd (omega arith)

steps-placed :
    (x : List ℕ) (left j : ℕ) (w : Words)
    → j + left ≤ 64
    → steps x left j (placed (j % 4) w) ≡ placed ((j + left) % 4) (operations x left j w)
unfolding steps operations
steps-placed x zero j w le = ap (λ r. placed r w) {x = j % 4} (omega arith)
steps-placed x (suc left) j w le =
    ap (steps x left (j + 1)) (
      step-placed x j (j % 4) w (omega arith) refl
      ∙ ap (λ r. placed r (operation x j w)) {x = (j % 4 + 1) % 4} (omega arith))
    ∙ steps-placed x left (j + 1) (operation x j w) (omega arith)
    ∙ ap (λ r. placed r (operations x left (j + 1) (operation x j w))) {x = (j + 1 + left) % 4}
        (omega arith)

-- The 64 steps of the code on a block make of `state` the words that the RFC's operations make.
pub steps_lem :
    (x : List ℕ) (w : Words) → steps x 64 0 (placed 0 w) ≡ placed 0 (operations x 64 0 w)
steps_lem x w = steps-placed x 64 0 w (omega arith)

pub additions-placed :
    (w old : Words) → additions (placed 0 w) (placed 0 old) ≡ placed 0 (incremented w old)
unfolding additions incremented
additions-placed w old = refl

pub words_bytes-placed : (w : Words) → words_bytes (placed 0 w) ≡ output w
unfolding words_bytes output
words_bytes-placed w = refl

pub first_state-placed : first_state ≡ placed 0 start
unfolding first_state
first_state-placed = refl
