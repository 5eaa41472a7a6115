-- ===== src/Evn/Tokens.antt =====
-- rtserver/parse_evn_filename.c: `get_token` and its loop, on texts that are made of tokens.
use tsunami_udp.Base.{
  ℕ, zero, suc, ◌≤◌, ◌<◌, ◌≡◌, refl, ap, sym, ◌∙◌, arith, false, ◌==◌, some, none, List, [], ◌∷◌,
  ◌++◌, append-nil, append_assoc, length, length-append, inl, inr, Bool-cases, All, all_none,
  all_more, Text,
}
use tsunami_udp.Evn.{EvnFilename, cut, get_token, last_dot, add_aux_entry, add_tokens}

-- A part of a name: not empty, and without `_`.
pub data IsToken : Text → Type 0 where
  is_token : {c : ℕ} {cs : Text} → All (λ d. (d == b'_') ≡ false) (c ∷ cs) → IsToken (c ∷ cs)

-- Tokens with `_` between them.
unfoldable pub join : List Text → Text
join [] = []
join (t ∷ []) = t
join (t ∷ u ∷ ts) = t ++ b'_' ∷ join (u ∷ ts)

cut-shorter : (str : Text) → length (cut str).1 ≤ length str
unfolding cut
cut-shorter [] = omega arith
cut-shorter (c ∷ str) = elim (Bool-cases (c == b'_')) [
  | inl here ↦ rw here (omega arith)
  | inr later_on ↦ rw later_on (omega (arith, cut-shorter str))
]

cut_rest : (c : ℕ) (str : Text) → length (cut (c ∷ str)).1 ≤ length str
unfolding cut
cut_rest c str = elim (Bool-cases (c == b'_')) [
  | inl here ↦ rw here (omega arith)
  | inr later_on ↦ rw later_on (cut-shorter str)
]

-- With as many rounds as the text has bytes, the loop over the tokens ends as the code's does: at the end of the
-- text, where `get_token` gives a null pointer.
pub add_tokens-ends :
    {R : Type 0} (left : ℕ) (str : Text) (ef : EvnFilename R)
    → length str ≤ left
    → get_token (add_tokens left str ef).1 ≡ none
unfolding add_tokens get_token
add_tokens-ends zero [] ef le = refl
add_tokens-ends zero (c ∷ str) ef le = absurd (omega arith)
add_tokens-ends (suc left) [] ef le = refl
add_tokens-ends (suc left) (c ∷ str) ef le =
    add_tokens-ends left (cut (c ∷ str)).1 (add_aux_entry (cut (c ∷ str)).0 ef)
      (omega (arith, cut_rest c str))

cut-token : (t str : Text) → All (λ d. (d == b'_') ≡ false) t → cut (t ++ b'_' ∷ str) ≡ (t, str)
unfolding cut
cut-token [] str all_none = refl
cut-token (c ∷ t) str (all_more e es) = rw e (ap (λ r. (c ∷ r.0, r.1)) (cut-token t str es))

cut-last : (t : Text) → All (λ d. (d == b'_') ≡ false) t → cut t ≡ (t, [])
unfolding cut
cut-last [] all_none = refl
cut-last (c ∷ t) (all_more e es) = rw e (ap (λ r. (c ∷ r.0, r.1)) (cut-last t es))

-- The first of several tokens, and the last one.
pub get_token-join :
    (t u : Text) (ts : List Text)
    → IsToken t
    → get_token (join (t ∷ u ∷ ts)) ≡ some (t, join (u ∷ ts))
unfolding get_token join
get_token-join [] u ts i = elim i [ ]
get_token-join (c ∷ cs) u ts (is_token i) = ap some (cut-token (c ∷ cs) (join (u ∷ ts)) i)

pub get_token-last : (t : Text) → IsToken t → get_token t ≡ some (t, [])
unfolding get_token
get_token-last [] i = elim i [ ]
get_token-last (c ∷ cs) (is_token i) = ap some (cut-last (c ∷ cs) i)

-- The first token, whatever follows.
pub get_token-tokens :
    (t : Text) (ts : List Text) → IsToken t → get_token (join (t ∷ ts)) ≡ some (t, join ts)
unfolding join
get_token-tokens t [] i = get_token-last t i
get_token-tokens t (u ∷ ts) i = get_token-join t u ts i

IsToken-length : (t : Text) → IsToken t → 0 < length t
IsToken-length [] i = elim i [ ]
IsToken-length (c ∷ cs) i = omega arith

length-join : (ts : List Text) → All IsToken ts → length ts ≤ length (join ts)
unfolding join
length-join [] all_none = omega arith
length-join (t ∷ []) (all_more i all) = IsToken-length t i
length-join (t ∷ u ∷ ts) (all_more i all) =
    omega (arith, length-join (u ∷ ts) all, length-append t (b'_' ∷ join (u ∷ ts)))

add_tokens-join :
    {R : Type 0} (left : ℕ) (ts : List Text) (ef : EvnFilename R)
    → length ts ≤ left
    → All IsToken ts
    → (add_tokens left (join ts) ef).0 ≡ record ef { auxinfo = ef.auxinfo ++ ts }
unfolding add_tokens get_token join
add_tokens-join zero [] ef le all =
    ap (λ aux. record ef { auxinfo = aux }) (sym (append-nil ef.auxinfo))
add_tokens-join zero (t ∷ ts) ef le all = absurd (omega arith)
add_tokens-join (suc left) [] ef le all =
    ap (λ aux. record ef { auxinfo = aux }) (sym (append-nil ef.auxinfo))
add_tokens-join (suc left) (t ∷ ts) ef le (all_more i all) =
    rw (get_token-tokens t ts i, add_tokens)
      (add_tokens-join left ts (add_aux_entry t ef) (omega arith) all
        ∙ ap (λ aux. record ef { auxinfo = aux }) (append_assoc ef.auxinfo (t ∷ []) ts))

-- All tokens of a text become entries.
pub each_token :
    {R : Type 0} (ts : List Text) (ef : EvnFilename R)
    → All IsToken ts
    → (add_tokens (length (join ts)) (join ts) ef).0 ≡ record ef { auxinfo = ef.auxinfo ++ ts }
each_token ts ef all = add_tokens-join (length (join ts)) ts ef (length-join ts all) all

no_dot : (str : Text) → All (λ d. (d == b'.') ≡ false) str → last_dot str ≡ none
unfolding last_dot
no_dot [] all_none = refl
no_dot (c ∷ str) (all_more e es) = rw (no_dot str es, last_dot, e) refl

pub last_dot-append :
    (name type : Text)
    → All (λ d. (d == b'.') ≡ false) type
    → last_dot (name ++ b'.' ∷ type) ≡ some (name, type)
unfolding last_dot
last_dot-append [] type es = rw (no_dot type es, last_dot) refl
last_dot-append (c ∷ name) type es = rw (last_dot-append name type es, last_dot) refl
