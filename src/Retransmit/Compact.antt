-- ===== src/Retransmit/Compact.antt =====
-- client/protocol.c: the loop of `ttp_repeat_retransmit`, which works on the table in place, against
-- a filter of the entries.
use tsunami_udp.Base.{
  ℕ, zero, suc, ◌+◌, ◌-◌, ◌≤◌, ◌<◌, ◌≡◌, inl, inr, refl, take-nil, ap, ap₂, sym, ◌∙◌, arith, true,
  false, ltb, if◌then◌else◌, List, [], ◌∷◌, ◌++◌, append_assoc, append-nil, length, take, set,
  get_or, length-set, take-set_next, get_or-set_other, get_or-set_self, ℕ_discrete, Bool-cases,
}
use tsunami_udp.Retransmit.{max_retransmission_buffer, wanted, Compacted, compact}

-- The entries `entry`, …, `entry + left - 1`.
abbrev pub slice : List ℕ → ℕ → ℕ → List ℕ
slice table entry zero = []
slice table entry (suc left) = get_or table entry 0 ∷ slice table (entry + 1) left

module _ (n : ℕ) (received : List ℕ) where
  -- The entries that are still wanted, in their order.
  unfoldable pub keep_wanted : List ℕ → List ℕ
  keep_wanted [] = []
  keep_wanted (b ∷ bs) = let rest = keep_wanted bs in if wanted n received b then b ∷ rest else rest

  slice-set :
      (table : List ℕ) (i v entry left : ℕ)
      → i < entry
      → slice (set table i v) entry left ≡ slice table entry left
  slice-set table i v entry zero h = refl
  slice-set table i v entry (suc left) h =
      ap₂ ◌∷◌ (get_or-set_other table i entry v 0 (λ e. omega arith))
        (slice-set table i v (entry + 1) left (omega arith))

  -- What the rounds from `entry` on leave.
  pub record Loop (left entry count : ℕ) (table : List ℕ) (k : Compacted) : Type 0 where
    pub blocks :
        k.blocks ≡ take (max_retransmission_buffer - count) (keep_wanted (slice table entry left))
    pub counted : k.count ≡ count + length k.blocks
    pub prefix : take k.count k.table ≡ take count table ++ k.blocks
    pub size : length k.table ≡ length table
    pub rest : (i : ℕ) → entry + left ≤ suc i → get_or k.table i 0 ≡ get_or table i 0

  stopped-Loop :
      (left entry count : ℕ) (table : List ℕ)
      → take (max_retransmission_buffer - count) (keep_wanted (slice table entry left)) ≡ []
      → Loop left entry count table (record { table = table; count = count; blocks = [] })
  stopped-Loop left entry count table e = record {
    blocks = sym e;
    counted = omega arith;
    prefix = sym (append-nil (take count table));
    size = refl;
    rest = λ i h. refl;
  }

  skipped-Loop :
      (left entry count : ℕ) (table : List ℕ) {k : Compacted}
      → wanted n received (get_or table entry 0) ≡ false
      → Loop left (entry + 1) count table k
      → Loop (suc left) entry count table k
  unfolding keep_wanted
  skipped-Loop left entry count table w l = record {
    blocks = rw w l.blocks;
    counted = l.counted;
    prefix = l.prefix;
    size = l.size;
    rest = λ i h. l.rest i (omega arith);
  }

  -- The entry that is copied down is its own value where it is already in place.
  set-same :
      (table : List ℕ) (count entry i : ℕ)
      → count ≤ entry
      → entry < length table
      → entry ≤ i
      → get_or (set table count (get_or table entry 0)) i 0 ≡ get_or table i 0
  set-same table count entry i behind inside h = elim (ℕ_discrete count i) [
    | yes same ↦
        let e : entry ≡ i = omega arith in
        rw (same, e) (get_or-set_self table i (get_or table i 0) 0 (omega arith))
    | no other ↦ get_or-set_other table count i (get_or table entry 0) 0 other
  ]

  kept-Loop :
      (left entry count : ℕ) (table : List ℕ) {k : Compacted}
      → count < max_retransmission_buffer
      → count ≤ entry
      → entry < length table
      → wanted n received (get_or table entry 0) ≡ true
      → Loop left (entry + 1) (count + 1) (set table count (get_or table entry 0)) k
      → Loop
          (suc left)
          entry
          count
          table
          (record { table = k.table; count = k.count; blocks = get_or table entry 0 ∷ k.blocks })
  unfolding keep_wanted
  kept-Loop left entry count table {k} small behind inside w l =
      let b = get_or table entry 0 in
      record {
        blocks = rw w (
            ap (λ t. b ∷ t)
              (l.blocks
                ∙ ap (λ t. take (max_retransmission_buffer - (count + 1)) (keep_wanted t))
                    (slice-set table count b (entry + 1) left (omega arith)))
            ∙ ap (λ m. take m (b ∷ keep_wanted (slice table (entry + 1) left)))
                {x = suc (max_retransmission_buffer - (count + 1))} (omega arith));
        counted = omega (arith, l.counted);
        prefix =
            l.prefix
            ∙ ap (λ t. t ++ k.blocks)
                (ap (λ m. take m (set table count b)) {y = suc count} (omega arith)
                  ∙ take-set_next table count b (omega arith))
            ∙ append_assoc (take count table) (b ∷ []) k.blocks;
        size = l.size ∙ length-set table count b;
        rest = λ i h.
            l.rest i (omega arith) ∙ set-same table count entry i behind inside (omega arith);
      }

  pub compact-Loop :
      (left entry count : ℕ) (table : List ℕ)
      → count ≤ entry
      → entry + left ≤ length table
      → Loop left entry count table (compact n received left entry count table)
  unfolding compact keep_wanted
  compact-Loop zero entry count table h b =
      stopped-Loop zero entry count table (take-nil (max_retransmission_buffer - count))
  compact-Loop (suc left) entry count table h b =
      elim (Bool-cases (ltb count max_retransmission_buffer)) [
        | inr full ↦
            rw (full, compact)
              (stopped-Loop (suc left) entry count table (
                ap (λ m. take m (keep_wanted (slice table entry (suc left)))) {y = 0}
                  (ground arith)))
        | inl room ↦ elim (Bool-cases (wanted n received (get_or table entry 0))) [
          | inr unwanted ↦
              rw (room, unwanted, compact)
                (skipped-Loop left entry count table unwanted
                  (compact-Loop left (entry + 1) count table (omega arith) (omega arith)))
          | inl w ↦
              rw (room, w, compact)
                (kept-Loop left entry count table (ground arith) h (omega arith) w (
                  compact-Loop left (entry + 1) (count + 1) (set table count (get_or table entry 0))
                    (omega arith) (omega (arith, length-set table count (get_or table entry 0)))))
        ]
      ]
