-- ===== src/Receive/Invariant.antt =====
-- client/command.c: what a lossless transfer keeps true from round to round.
use tsunami_udp.Base.{
  ℕ, ◌-◌, ◌^◌, ◌≤◌, ◌<◌, ◌≡◌, ◌⊎◌, inl, inr, refl, ap, sym, subst, ◌∙◌, arith, true, false, ◌&&◌,
  ◌==◌, ltb, leb, some, List, Bool-cases, dec_le,
}
use tsunami_udp.Bitmap.{got_block, mark_received, count_lost}
use tsunami_udp.Bitmap.Laws.{IsBitmap, got_block-mark_received, mark_received-IsBitmap}
use tsunami_udp.Bitmap.Lost.{count_lost-mark_received}
use tsunami_udp.Receive.{
  Client, Env, request_range, queue_retransmits, advanced, reply, update_stats,
}
use tsunami_udp.Receive.Ranges.{Ranged, request_range-Ranged, advance_gapless-Advanced}
use tsunami_udp.Retransmit.{
  Rexmit, max_retransmission_buffer, compacted, Progress, Control, send_requests,
  ttp_repeat_retransmit,
}
use tsunami_udp.Retransmit.Repeat.{done-Loop}
use tsunami_udp.Retransmit.Table.{IsValid}
use tsunami_udp.Ring.Invariant.{IsValid as RingIsValid}

-- Of a transfer with `n` blocks: the bitfield is one, `left` counts the blocks that are missing, all
-- blocks up to `g` were received, and the table of requests is valid.
pub record Sound (n : ℕ) (received : List ℕ) (g : ℕ) (r : Rexmit) (left : ℕ) : Type 0 where
  pub small : n < 2 ^ 32
  pub bitmap : IsBitmap n received
  pub left_over : left ≡ count_lost n received n
  pub gap_bound : g ≤ n
  pub gapless : (b : ℕ) → 0 < b → b ≤ g → got_block n received b ≡ true
  pub table : IsValid r

abbrev pub ProgressSound : Progress → ℕ → Type 0
ProgressSound x left = Sound x.block_count x.received x.gapless_to_block x.rexmit left

abbrev pub IsSound : Client → Type 0
IsSound c =
    ProgressSound c.progress c.blocks_left × RingIsValid c.ring × (c.ring.count_reserved ≡ 0)

with_rexmit :
    {n : ℕ} {received : List ℕ} {g : ℕ} {r r' : Rexmit} {left : ℕ}
    → IsValid r'
    → Sound n received g r left
    → Sound n received g r' left
with_rexmit v s = record {
  small = s.small;
  bitmap = s.bitmap;
  left_over = s.left_over;
  gap_bound = s.gap_bound;
  gapless = s.gapless;
  table = v;
}

-- The table with its size, when fewer than 2048 entries, or as many as before, are left in use.
table-IsValid :
    (x : Progress) (m : ℕ)
    → IsValid x.rexmit
    → (m < max_retransmission_buffer) ⊎ (m ≡ x.rexmit.index_max)
    → IsValid
        (record { table = (compacted x).table; table_size = x.rexmit.table_size; index_max = m })
table-IsValid x m v h = record {
  size = (done-Loop x v).size ∙ v.size;
  fits = omega (arith, v.doubling, v.fits);
  doubling = v.doubling;
}

pub repeat-Sound :
    (c : Control) (x : Progress) {left : ℕ}
    → ProgressSound x left
    → ProgressSound (ttp_repeat_retransmit c x).progress left
unfolding ttp_repeat_retransmit send_requests
repeat-Sound c x s = elim (Bool-cases (leb max_retransmission_buffer (compacted x).count)) [
  | inl many ↦ elim (Bool-cases c.write_works) [
    | inl works ↦ rw (many, works) (with_rexmit (table-IsValid x 0 s.table (inl (omega arith))) s)
    | inr fails ↦
        rw (many, fails) (with_rexmit (table-IsValid x x.rexmit.index_max s.table (inr refl)) s)
  ]
  | inr few ↦ elim (Bool-cases ((compacted x).count == 0)) [
    | inl none_left ↦
        rw (few, none_left) (with_rexmit (table-IsValid x 0 s.table (inl (omega arith))) s)
    | inr some_left ↦
        let valid = table-IsValid x (compacted x).count s.table (inl (ground arith)) in
        elim (Bool-cases c.write_works) [
          | inl works ↦ rw (few, some_left, works) (with_rexmit valid s)
          | inr fails ↦ rw (few, some_left, fails) (with_rexmit valid s)
        ]
  ]
]

-- A new block of the file is marked and counted.
pub marked-Sound :
    {n : ℕ} {received : List ℕ} {g : ℕ} {r : Rexmit} {left : ℕ} (b : ℕ)
    → Sound n received g r left
    → 0 < b
    → b ≤ n
    → got_block n received b ≡ false
    → Sound n (mark_received received b) g r (left - 1)
marked-Sound {n} {received} {g} {r} {left} b s pos inside new = record {
  small = s.small;
  bitmap = mark_received-IsBitmap n received b s.bitmap inside;
  left_over = omega (
    arith,
    s.left_over,
    count_lost-mark_received n received b n s.bitmap pos inside (omega arith) new,
  );
  gap_bound = s.gap_bound;
  gapless = λ c lo hi.
      ground (arith, got_block-mark_received n received b c s.bitmap inside, s.gapless c lo hi);
  table = s.table;
}

pub advanced-Sound :
    (x : Progress) {left : ℕ} → ProgressSound x left → ProgressSound (advanced x) left
advanced-Sound x s =
    let a =
      advance_gapless-Advanced x.block_count x.received (x.block_count - x.gapless_to_block)
        x.gapless_to_block s.small s.gap_bound (omega arith) in
    record {
      small = s.small;
      bitmap = s.bitmap;
      left_over = s.left_over;
      gap_bound = a.bound;
      gapless = λ b lo hi. elim (dec_le b x.gapless_to_block) [
        | yes below ↦ s.gapless b lo below
        | no above ↦ a.all b (omega arith) hi
      ];
      table = s.table;
    }

pub Ranged-Sound :
    {x y : Progress} {left : ℕ} → Ranged x y → ProgressSound x left → ProgressSound y left
Ranged-Sound {x} {y} {left} r s =
    subst (λ z. ProgressSound z left) (sym r.same) (with_rexmit r.valid s)

some-progress : {x y : Progress} → some x ≡ some y → x ≡ y
some-progress e = cc

pub queue_retransmits-Sound :
    (env : Env) (b : ℕ) (x : Progress) {y : Progress} {left : ℕ}
    → env.lossless ≡ true
    → ProgressSound x left
    → queue_retransmits env b x ≡ some y
    → ProgressSound y left × (y.received ≡ x.received) × (y.block_count ≡ x.block_count)
unfolding queue_retransmits
queue_retransmits-Sound env b x {y} {left} keep s e = elim (Bool-cases (ltb x.next_block b)) [
  | inl ahead ↦
      let e' : request_range env.realloc_works (b - x.next_block) x.next_block x ≡ some y =
        rw (ahead, keep, queue_retransmits) at e in
      let r = request_range-Ranged env.realloc_works (b - x.next_block) x.next_block x s.table e' in
      (Ranged-Sound r s, ap (λ z. z.received) r.same, ap (λ z. z.block_count) r.same)
  | inr near ↦
      let e' : some x ≡ some y = rw (near, queue_retransmits) at e in
      subst
        (λ z. ProgressSound z left × (z.received ≡ x.received) × (z.block_count ≡ x.block_count))
        (some-progress e') (s, refl, refl)
]

pub update_stats-IsSound : (env : Env) (c : Client) → IsSound c → IsSound (update_stats env c)
unfolding update_stats
update_stats-IsSound env c s =
    elim (Bool-cases (env.control.write_works && env.control.flush_works)) [
      | inl works ↦ rw works s
      | inr fails ↦ rw fails s
    ]

pub reply-IsSound :
    (env : Control) (c : Client)
    → IsSound c
    → IsSound (reply c (ttp_repeat_retransmit env c.progress))
reply-IsSound env c s = (repeat-Sound env c.progress s.0, s.1, s.2)
