-- ===== src/Base/Slices.antt =====
-- What is dropped from, and taken of, lists that were joined.
use Prim.Native.Nat.{ℕ, zero, suc, ◌+◌, ◌≤◌}
use mathlib.Core.Path.{◌≡◌, refl, ap, sym, ◌∙◌}
use mathlib.Core.List.{List, [], ◌∷◌, ◌++◌}
use native.Mathlib.Omega.{arith}
use tsunami_udp.Base.Lists.{length, take, drop, replicate}

module _ {ℓ} {A : Type ℓ} where
  pub drop-append_left :
      (n : ℕ) (xs ys : List A) → n ≤ length xs → drop n (xs ++ ys) ≡ drop n xs ++ ys
  drop-append_left zero xs ys h = refl
  drop-append_left (suc n) [] ys h = elim h [ ]
  drop-append_left (suc n) (x ∷ xs) ys h = drop-append_left n xs ys (omega arith)

  pub drop-append_right :
      (m n : ℕ) (xs ys : List A) → m ≡ length xs + n → drop m (xs ++ ys) ≡ drop n ys
  drop-append_right m n [] ys h = ap (λ k. drop k ys) {y = n} (omega arith)
  drop-append_right zero n (x ∷ xs) ys h = absurd (omega arith)
  drop-append_right (suc m) n (x ∷ xs) ys h = drop-append_right m n xs ys (omega arith)

  drop-nil : (n : ℕ) → drop {A = A} n [] ≡ []
  drop-nil zero = refl
  drop-nil (suc n) = refl

  pub drop-drop : (m n : ℕ) (xs : List A) → drop m (drop n xs) ≡ drop (n + m) xs
  drop-drop m zero xs = ap (λ k. drop k xs) {x = m} (omega arith)
  drop-drop m (suc n) [] = drop-nil m ∙ sym (drop-nil (suc n + m))
  drop-drop m (suc n) (x ∷ xs) =
      drop-drop m n xs ∙ ap (λ k. drop k (x ∷ xs)) {x = suc (n + m)} (omega arith)

  pub take-replicate : (m n : ℕ) (a : A) → m ≤ n → take m (replicate n a) ≡ replicate m a
  take-replicate zero n a h = refl
  take-replicate (suc m) zero a h = elim h [ ]
  take-replicate (suc m) (suc n) a h = ap (λ t. a ∷ t) (take-replicate m n a (omega arith))

  pub replicate-append : (m n : ℕ) (a : A) → replicate (m + n) a ≡ replicate m a ++ replicate n a
  replicate-append zero n a = ap (λ k. replicate k a) {y = n} (omega arith)
  replicate-append (suc m) n a =
      ap (λ k. replicate k a) {y = suc (m + n)} (omega arith)
      ∙ ap (λ t. a ∷ t) (replicate-append m n a)

  pub take_exact : (n : ℕ) (xs ys : List A) → n ≡ length xs → take n (xs ++ ys) ≡ xs
  take_exact zero [] ys e = refl
  take_exact zero (x ∷ xs) ys e = absurd (omega arith)
  take_exact (suc n) [] ys e = absurd (omega arith)
  take_exact (suc n) (x ∷ xs) ys e = ap (λ t. x ∷ t) (take_exact n xs ys (omega arith))

  pub take_all : (xs : List A) → take (length xs) xs ≡ xs
  take_all [] = refl
  take_all (x ∷ xs) = ap (λ t. x ∷ t) (take_all xs)

  pub take-nil : (n : ℕ) → take {A = A} n [] ≡ []
  take-nil zero = refl
  take-nil (suc n) = refl

  pub take_long : (m : ℕ) (xs : List A) → length xs ≤ m → take m xs ≡ xs
  take_long zero [] h = refl
  take_long zero (x ∷ xs) h = elim h [ ]
  take_long (suc m) [] h = refl
  take_long (suc m) (x ∷ xs) h = ap (λ t. x ∷ t) (take_long m xs (omega arith))

  pub drop_long : (m : ℕ) (xs : List A) → length xs ≤ m → drop m xs ≡ []
  drop_long zero [] h = refl
  drop_long zero (x ∷ xs) h = elim h [ ]
  drop_long (suc m) [] h = refl
  drop_long (suc m) (x ∷ xs) h = drop_long m xs (omega arith)
