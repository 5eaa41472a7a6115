-- ===== src/Base/Members.antt =====
-- Membership in a list and properties of all its elements, as data that can be matched.
use mathlib.Core.Path.{◌≡◌, ap, sym, subst}
use mathlib.Core.List.{List, [], ◌∷◌, ◌++◌, map}

pub data In {ℓ} {A : Type ℓ} (a : A) : List A → Type ℓ where
  first : {x : A} {xs : List A} → a ≡ x → In a (x ∷ xs)
  later : {x : A} {xs : List A} → In a xs → In a (x ∷ xs)

module _ {ℓ} {A : Type ℓ} where
  pub In-append_left : {a : A} (xs ys : List A) → In a xs → In a (xs ++ ys)
  In-append_left [] ys m = elim m [ ]
  In-append_left (x ∷ xs) ys (first e) = first e
  In-append_left (x ∷ xs) ys (later m) = later (In-append_left xs ys m)

  pub In-append_right : {a : A} (xs ys : List A) → In a ys → In a (xs ++ ys)
  In-append_right [] ys m = m
  In-append_right (x ∷ xs) ys m = later (In-append_right xs ys m)

  pub In-map {κ} : {B : Type κ} (f : A → B) {a : A} (xs : List A) → In a xs → In (f a) (map f xs)
  In-map f [] m = elim m [ ]
  In-map f (x ∷ xs) (first e) = first (ap f e)
  In-map f (x ∷ xs) (later m) = later (In-map f xs m)

-- All elements of a list have a property.
pub data All {ℓ κ} {A : Type ℓ} (P : A → Type κ) : List A → Type (ℓ ⊔ κ) where
  all_none : All P []
  all_more : {x : A} {xs : List A} → P x → All P xs → All P (x ∷ xs)

module _ {ℓ κ} {A : Type ℓ} {P : A → Type κ} where
  pub All-append : (xs ys : List A) → All P xs → All P ys → All P (xs ++ ys)
  All-append [] ys all_none p = p
  All-append (x ∷ xs) ys (all_more px pxs) p = all_more px (All-append xs ys pxs p)

  pub All-In : {a : A} {xs : List A} → All P xs → In a xs → P a
  All-In {xs = []} all m = elim m [ ]
  All-In {xs = x ∷ xs} (all_more px pxs) (first e) = subst P (sym e) px
  All-In {xs = x ∷ xs} (all_more px pxs) (later m) = All-In pxs m
