-- ===== src/Retransmit/Sorting/Inserted.antt =====
-- client/protocol.c: a block inserted into an increasing list, the description of the sorted table.
use tsunami_udp.Base.{
  ℕ, ◌<◌, ◌≡◌, ◌⊎◌, ◌↔◌, inl, inr, sym, subst, ◌∙◌, arith, ◌==◌, ltb, if◌then◌else◌, List, [], ◌∷◌,
  dec_lt, ℕ_discrete, In, first, later, All, all_none, all_more,
}

-- A block put into an increasing list, where it is not in it.
unfoldable pub inserted : ℕ → List ℕ → List ℕ
inserted b [] = b ∷ []
inserted b (x ∷ xs) =
    let rest = inserted b xs in if ltb x b then x ∷ rest else if x == b then x ∷ xs else b ∷ x ∷ xs

-- Strictly increasing.
pub data Increasing : List ℕ → Type 0 where
  nothing : Increasing []
  starts : {x : ℕ} {xs : List ℕ} → All (λ y. x < y) xs → Increasing xs → Increasing (x ∷ xs)

-- The block goes further in, is there, or goes to the front.
Places : (b x : ℕ) → List ℕ → Type 0
Places b x xs =
    ((x < b) × (inserted b (x ∷ xs) ≡ x ∷ inserted b xs))
    ⊎ ((x ≡ b) × (inserted b (x ∷ xs) ≡ x ∷ xs))
    ⊎ ((b < x) × (inserted b (x ∷ xs) ≡ b ∷ x ∷ xs))

inserted_cases : (b x : ℕ) (xs : List ℕ) → Places b x xs
unfolding inserted Places
inserted_cases b x xs = elim (dec_lt x b) [
  | yes s ↦ inl (s, ground arith)
  | no ge ↦ elim (ℕ_discrete x b) [
    | yes same ↦ inr (inl (same, ground arith))
    | no ne ↦ inr (inr (omega arith, ground arith))
  ]
]

inserted-All :
    (c b : ℕ) (xs : List ℕ) → c < b → All (λ y. c < y) xs → All (λ y. c < y) (inserted b xs)
unfolding inserted Places
inserted-All c b [] lt all = all_more lt all_none
inserted-All c b (x ∷ xs) lt (all_more less all) = elim (inserted_cases b x xs) [
  | inl (s, e) ↦ subst (All (λ y. c < y)) (sym e) (all_more less (inserted-All c b xs lt all))
  | inr (inl (s, e)) ↦ subst (All (λ y. c < y)) (sym e) (all_more less all)
  | inr (inr (s, e)) ↦ subst (All (λ y. c < y)) (sym e) (all_more lt (all_more less all))
]

larger-All : (b x : ℕ) (xs : List ℕ) → b < x → All (λ y. x < y) xs → All (λ y. b < y) xs
larger-All b x [] lt all = all_none
larger-All b x (y ∷ xs) lt (all_more less all) = all_more (omega arith) (larger-All b x xs lt all)

pub inserted-Increasing : (b : ℕ) (xs : List ℕ) → Increasing xs → Increasing (inserted b xs)
unfolding inserted Places
inserted-Increasing b [] inc = starts all_none nothing
inserted-Increasing b (x ∷ xs) (starts all inc) = elim (inserted_cases b x xs) [
  | inl (s, e) ↦
      subst Increasing (sym e) (starts (inserted-All x b xs s all) (inserted-Increasing b xs inc))
  | inr (inl (s, e)) ↦ subst Increasing (sym e) (starts all inc)
  | inr (inr (s, e)) ↦
      subst Increasing (sym e) (starts (all_more s (larger-All b x xs s all)) (starts all inc))
]

In-behind :
    {b c x : ℕ} {ys zs : List ℕ}
    → (In c ys ↔ ((c ≡ b) ⊎ In c zs))
    → (In c (x ∷ ys) ↔ ((c ≡ b) ⊎ In c (x ∷ zs)))
In-behind f = (
  λ m. elim m [
    | first e ↦ inr (first e)
    | later k ↦ elim (f.0 k) [ inl e ↦ inl e | inr i ↦ inr (later i) ]
  ],
  λ m. elim m [
    | inl e ↦ later (f.1 (inl e))
    | inr (first e) ↦ first e
    | inr (later k) ↦ later (f.1 (inr k))
  ],
)

In-front : {b c : ℕ} {xs : List ℕ} → In c (b ∷ xs) ↔ ((c ≡ b) ⊎ In c xs)
In-front = (
  λ m. elim m [ first e ↦ inl e | later k ↦ inr k ],
  λ m. elim m [ inl e ↦ first e | inr k ↦ later k ],
)

In-there : {b c x : ℕ} {xs : List ℕ} → x ≡ b → In c (x ∷ xs) ↔ ((c ≡ b) ⊎ In c (x ∷ xs))
In-there same = (λ m. inr m, λ m. elim m [ inl e ↦ first (e ∙ sym same) | inr k ↦ k ])

pub In-inserted : (b c : ℕ) (xs : List ℕ) → In c (inserted b xs) ↔ ((c ≡ b) ⊎ In c xs)
unfolding inserted Places
In-inserted b c [] = In-front
In-inserted b c (x ∷ xs) =
    let P : List ℕ → Type 0 = λ ys. In c ys ↔ ((c ≡ b) ⊎ In c (x ∷ xs)) in
    elim (inserted_cases b x xs) [
      | inl (s, e) ↦ subst P (sym e) (In-behind (In-inserted b c xs))
      | inr (inl (s, e)) ↦ subst P (sym e) (In-there s)
      | inr (inr (s, e)) ↦ subst P (sym e) In-front
    ]
