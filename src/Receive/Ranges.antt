-- ===== src/Receive/Ranges.antt =====
-- client/command.c: the two loops over block numbers.
use tsunami_udp.Base.{
  ℕ, zero, suc, ◌+◌, ◌*◌, ◌%◌, ◌^◌, ◌≤◌, ◌<◌, ◌≡◌, inl, inr, refl, sym, subst, ◌∙◌, arith, Bool,
  true, false, ◌&&◌, ltb, ◌||◌, if◌then◌else◌, none, some, List, [], ◌∷◌, ◌++◌, In, first,
  In-append_left, In-append_right, Bool-cases, Option-cases, ◌⊎◌, ℕ_discrete,
}
use tsunami_udp.Bitmap.{got_block}
use tsunami_udp.Receive.{request_range, advance_gapless}
use tsunami_udp.Retransmit.{Rexmit, max_retransmission_buffer, ttp_request_retransmit, Progress}
use tsunami_udp.Retransmit.Table.{IsValid, entries, is_full, ttp_request_retransmit_lem}

-- Whether `realloc` would have worked or not, a success is the same.
request_as_if :
    (works : Bool) (n : ℕ) (received : List ℕ) (b : ℕ) (r : Rexmit) {r' : Rexmit}
    → ttp_request_retransmit works n received b r ≡ some r'
    → ttp_request_retransmit true n received b r ≡ some r'
unfolding ttp_request_retransmit
request_as_if true n received b r e = e
request_as_if false n received b r e = ground arith

some-eq : {r r' : Rexmit} → some r ≡ some r' → r ≡ r'
some-eq e = cc

request-IsValid :
    (works : Bool) (n : ℕ) (received : List ℕ) (b : ℕ) (r : Rexmit) {r' : Rexmit}
    → IsValid r
    → ttp_request_retransmit works n received b r ≡ some r'
    → IsValid r'
request-IsValid works n received b r v e =
    let (made, done, valid, kept, count) = ttp_request_retransmit_lem n received b r v in
    subst IsValid (some-eq (sym done ∙ request_as_if works n received b r e)) valid

-- What a range of requests leaves: only the table of requests changes, and stays valid.
pub record Ranged (x y : Progress) : Type 0 where
  pub rexmit : Rexmit
  pub same : y ≡ record x { rexmit = rexmit }
  pub valid : IsValid rexmit

pub request_range-Ranged :
    (works : Bool) (left from : ℕ) (x : Progress) {y : Progress}
    → IsValid x.rexmit
    → request_range works left from x ≡ some y
    → Ranged x y
unfolding request_range
request_range-Ranged works zero from x v e = record { rexmit = x.rexmit; same = cc; valid = v }
request_range-Ranged works (suc left) from x {y} v e =
    elim (Option-cases (ttp_request_retransmit works x.block_count x.received from x.rexmit)) [
      | inl f ↦ let bad : none ≡ some y = rw (f, request_range) at e in cc
      | inr (r, f) ↦
          let e' : request_range works left (from + 1) (record x { rexmit = r }) ≡ some y =
            rw (f, request_range) at e in
          let rest =
            request_range-Ranged works left (from + 1) (record x { rexmit = r })
              (request-IsValid works x.block_count x.received from x.rexmit v f) e' in
          record { rexmit = rest.rexmit; same = rest.same; valid = rest.valid }
    ]

In-if : (b : ℕ) (c : Bool) (xs ys : List ℕ) → In b xs → In b (if c then xs else xs ++ ys)
In-if b true xs ys m = m
In-if b false xs ys m = In-append_left xs ys m

-- With `realloc` working the loop succeeds, and every block of the range that is missing is among
-- the entries, as are the old entries, if the table has room for the range.
pub record Requested (n : ℕ) (received : List ℕ) (left from : ℕ) (x y : Progress) : Type 0 where
  pub range : Ranged x y
  pub old : (b : ℕ) → In b (entries x.rexmit) → In b (entries y.rexmit)
  pub new :
      (b : ℕ)
      → from ≤ b
      → b < from + left
      → got_block n received b ≡ false
      → In b (entries y.rexmit)
  pub small : y.rexmit.index_max ≤ x.rexmit.index_max + left

pub request_range-Requested :
    (left from : ℕ) (x : Progress)
    → IsValid x.rexmit
    → x.rexmit.index_max + left ≤ 32 * max_retransmission_buffer
    → (y : Progress) × (request_range true left from x ≡ some y)
      × Requested x.block_count x.received left from x y
unfolding request_range
request_range-Requested zero from x v room = (
  x,
  refl,
  record {
    range = record { rexmit = x.rexmit; same = refl; valid = v };
    old = λ b m. m;
    new = λ b lo hi g. absurd (omega arith);
    small = omega arith;
  },
)
request_range-Requested (suc left) from x v room =
    let (r, made, valid, kept, count) =
      ttp_request_retransmit_lem x.block_count x.received from x.rexmit v in
    let x' : Progress = record x { rexmit = r } in
    let (y, ran, q) = request_range-Requested left (from + 1) x' valid (ground arith) in
    (
      y,
      rw (made, request_range) ran,
      record {
        range = record { rexmit = q.range.rexmit; same = q.range.same; valid = q.range.valid };
        old = λ b m. q.old b (subst (In b) (sym kept) (In-if b _ (entries x.rexmit) (from ∷ []) m));
        new = λ b lo hi g. elim (ℕ_discrete b from) [
          | yes same ↦
              let fresh : got_block x.block_count x.received from ≡ false =
                subst (λ k. got_block x.block_count x.received k ≡ false) same g in
              let adds : (got_block x.block_count x.received from || is_full x.rexmit) ≡ false =
                ground arith in
              q.old b (
                subst (In b) (sym (kept ∙ rw adds))
                  (In-append_right (entries x.rexmit) (from ∷ []) (first same)))
          | no other ↦ q.new b (omega arith) (omega arith) g
        ];
        small = ground (arith, q.small);
      },
    )

-- What the loop over `gapless_to_block` reaches.
pub record Advanced (n : ℕ) (received : List ℕ) (g g' : ℕ) : Type 0 where
  pub up : g ≤ g'
  pub bound : g' ≤ n
  pub all : (b : ℕ) → g < b → b ≤ g' → got_block n received b ≡ true
  pub stop : (g' ≡ n) ⊎ (got_block n received (g' + 1) ≡ false)

both-true : (p q : Bool) → (p && q) ≡ true → p ≡ true
both-true true q e = refl
both-true false q e = cc

first-false : (p q : Bool) → (p && q) ≡ false → q ≡ true → p ≡ false
first-false true q e f = cc
first-false false q e f = refl

pub advance_gapless-Advanced :
    (n : ℕ) (received : List ℕ) (left g : ℕ)
    → n < 2 ^ 32
    → g ≤ n
    → n ≤ g + left
    → Advanced n received g (advance_gapless n received left g)
unfolding advance_gapless
advance_gapless-Advanced n received zero g w h b = record {
  up = omega arith;
  bound = h;
  all = λ b lo hi. absurd (omega arith);
  stop = inl (omega arith);
}
advance_gapless-Advanced n received (suc left) g w h b =
    elim (Bool-cases (got_block n received ((g + 1) % 2 ^ 32) && ltb g n)) [
      | inl more ↦
          let rest =
            advance_gapless-Advanced n received left (g + 1) w (ground arith) (omega arith) in
          let here : (g + 1) % 2 ^ 32 ≡ g + 1 = ground arith in
          rw (more, advance_gapless)
            (record {
              up = omega (arith, rest.up);
              bound = rest.bound;
              all = λ b lo hi. elim (ℕ_discrete b (g + 1)) [
                | yes same ↦
                    subst (λ k. got_block n received k ≡ true) (here ∙ sym same)
                      (both-true _ _ more)
                | no other ↦ rest.all b (omega arith) hi
              ];
              stop = rest.stop;
            })
      | inr over ↦
          rw (over, advance_gapless)
            (record {
              up = omega arith;
              bound = h;
              all = λ b lo hi. absurd (omega arith);
              stop = elim (ℕ_discrete g n) [
                | yes end ↦ inl end
                | no inside ↦ inr (
                    subst (λ k. got_block n received k ≡ false) {x = (g + 1) % 2 ^ 32} (omega arith)
                      (first-false _ _ over (ground arith)))
              ];
            })
    ]
