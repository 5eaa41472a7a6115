-- ===== src/Retransmit/Sorting/Arrays.antt =====
-- client/protocol.c: the two loops of the insertion, on the array and on the list of its entries.
use tsunami_udp.Base.{
  ℕ, zero, suc, ◌+◌, ◌-◌, ◌≤◌, ◌<◌, ◌≡◌, ◌≢◌, refl, sym, ap, subst, ◌∙◌, arith, List, [], ◌∷◌,
  length, take, set, get_or, dec_lt, length-set,
}
use tsunami_udp.Retransmit.Sorting.{seek_entry, shift_up}
use tsunami_udp.Retransmit.Sorting.Inserted.{inserted}

seek_entry-more :
    (n i b x : ℕ) (t : List ℕ) → seek_entry n (suc i) b (x ∷ t) ≡ suc (seek_entry n i b t)
unfolding seek_entry
seek_entry-more zero i b x t = refl
seek_entry-more (suc n) i b x t = elim (dec_lt (get_or t i 0) b) [
  | yes lt ↦
      let next =
        ap (λ k. seek_entry n k b (x ∷ t)) {x = suc i + 1} {y = suc (i + 1)} (omega arith) in
      let rest = seek_entry-more n (i + 1) b x t in ground arith
  | no ge ↦ ground arith
]

pub seek_small : (n i b : ℕ) (t : List ℕ) → seek_entry n i b t ≤ i + n
unfolding seek_entry
seek_small zero i b t = omega arith
seek_small (suc n) i b t = let rest = seek_small n (i + 1) b t in ground arith

shift_up-more : (n i b x : ℕ) (t : List ℕ) → shift_up n (suc i) b (x ∷ t) ≡ x ∷ shift_up n i b t
unfolding shift_up
shift_up-more zero i b x t = refl
shift_up-more (suc n) i b x t =
    ap (λ k. shift_up n k (get_or t i 0) (x ∷ set t i b)) {x = suc i + 1} {y = suc (i + 1)}
      (omega arith)
    ∙ shift_up-more n (i + 1) (get_or t i 0) x (set t i b)

-- The entries move up by one place.
shift_up_all :
    (n b : ℕ) (t : List ℕ) → n < length t → take (suc n) (shift_up (suc n) 0 b t) ≡ b ∷ take n t
unfolding shift_up
shift_up_all n b [] h = elim h [ ]
shift_up_all zero b (x ∷ t) h = refl
shift_up_all (suc n) b (x ∷ t) h =
    ap (take (suc (suc n))) {x = shift_up (suc n) (0 + 1) x (b ∷ t)} (shift_up-more (suc n) 0 x b t)
    ∙ ap (λ s. b ∷ s) (shift_up_all n x t (omega arith))

pub length-shift_up : (n i b : ℕ) (t : List ℕ) → length (shift_up n i b t) ≡ length t
unfolding shift_up
length-shift_up zero i b t = refl
length-shift_up (suc n) i b t =
    length-shift_up n (i + 1) (get_or t i 0) (set t i b) ∙ length-set t i b

-- What each of the three cases makes of the first `n` entries, when the search ends at `i`.
pub record Inserts (n b : ℕ) (t : List ℕ) (i : ℕ) : Type 0 where
  pub at_end : i ≡ n → take (suc n) (set t n b) ≡ inserted b (take n t)
  pub duplicate : i ≢ n → get_or t i 0 ≡ b → take n t ≡ inserted b (take n t)
  pub between :
      i ≢ n → get_or t i 0 ≢ b → take (suc n) (shift_up (n + 1 - i) i b t) ≡ inserted b (take n t)

Inserts-smaller :
    (m b x i : ℕ) (t : List ℕ) → x < b → Inserts m b t i → Inserts (suc m) b (x ∷ t) (suc i)
unfolding inserted
Inserts-smaller m b x i t lt r =
    let passes : inserted b (x ∷ take m t) ≡ x ∷ inserted b (take m t) = ground arith in
    record {
      at_end = λ e. ap (λ s. x ∷ s) (r.at_end (omega arith)) ∙ sym passes;
      duplicate = λ ne e. ap (λ s. x ∷ s) (r.duplicate (λ f. ne (ap suc f)) e) ∙ sym passes;
      between = λ ne d.
          ap (λ k. take (suc (suc m)) (shift_up k (suc i) b (x ∷ t))) {x = suc m + 1 - suc i}
            {y = m + 1 - i} (omega arith)
          ∙ ap (take (suc (suc m))) (shift_up-more (m + 1 - i) i b x t)
          ∙ ap (λ s. x ∷ s) (r.between (λ f. ne (ap suc f)) d)
          ∙ sym passes;
    }

Inserts-first : (m b x : ℕ) (t : List ℕ) → b ≤ x → m < length t → Inserts (suc m) b (x ∷ t) 0
unfolding inserted
Inserts-first m b x t ge h = record {
  at_end = λ e. absurd (omega arith);
  duplicate = λ ne e. ground arith;
  between = λ ne d.
      let before : inserted b (x ∷ take m t) ≡ b ∷ x ∷ take m t = ground arith in
      ap (λ k. take (suc (suc m)) (shift_up k 0 b (x ∷ t))) {x = suc m + 1 - 0} {y = suc (suc m)}
        (omega arith)
      ∙ shift_up_all (suc m) b (x ∷ t) (omega arith)
      ∙ sym before;
}

-- The place that the loop finds is the right one for each of the three cases.
pub seek_entry-Inserts : (n b : ℕ) (t : List ℕ) → n < length t → Inserts n b t (seek_entry n 0 b t)
unfolding seek_entry inserted
seek_entry-Inserts n b [] h = elim h [ ]
seek_entry-Inserts zero b (x ∷ t) h = record {
  at_end = λ e. refl;
  duplicate = λ ne e. absurd (ne refl);
  between = λ ne e. absurd (ne refl);
}
seek_entry-Inserts (suc m) b (x ∷ t) h = elim (dec_lt x b) [
  | yes lt ↦
      let found : seek_entry (suc m) 0 b (x ∷ t) ≡ suc (seek_entry m 0 b t) =
        let rest = seek_entry-more m 0 b x t in ground arith in
      subst (Inserts (suc m) b (x ∷ t)) (sym found)
        (Inserts-smaller m b x (seek_entry m 0 b t) t lt (seek_entry-Inserts m b t (omega arith)))
  | no ge ↦
      let found : seek_entry (suc m) 0 b (x ∷ t) ≡ 0 = ground arith in
      subst (Inserts (suc m) b (x ∷ t)) (sym found)
        (Inserts-first m b x t (omega arith) (omega arith))
]
