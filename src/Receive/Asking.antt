-- ===== src/Receive/Asking.antt =====
-- client/command.c and client/protocol.c: what a round of the receive loop writes to the control
-- connection is whole requests for blocks of the file, and error rates.
pub mod Rounds
use tsunami_udp.Base.{
  ℕ, zero, suc, ◌+◌, ◌-◌, ◌%◌, ◌^◌, ◌≤◌, ◌<◌, ◌≡◌, ◌⊎◌, inl, inr, refl, ap, sym, subst, ◌∙◌, arith,
  true, false, not, ◌&&◌, ◌||◌, ◌==◌, ltb, leb, List, [], ◌∷◌, ◌++◌, map, append-nil, append_assoc,
  get_or, set, Bool-cases, Option-cases, All, all_none, all_more, All-append, if_by,
}
use tsunami_udp.Bitmap.{got_block}
use tsunami_udp.Message.{Request, request_restart, request_error_rate}
use tsunami_udp.Message.Laws.{Fits}
use tsunami_udp.Receive.{
  Client, Env, Round, got, reply, request_range, queue_retransmits, advanced, expect_next,
  end_restart, update_stats, send_stats, update_period, at_end, follow_up, ts_block_terminate,
  still_on_wire, filter_stale, marked, insert_block, counted, handle, receive_round, this_block,
  this_type, ts_block_retransmission,
}
use tsunami_udp.Receive.Finish.{got_past_end}
use tsunami_udp.Receive.Invariant.{
  ProgressSound, advanced-Sound, Ranged-Sound, queue_retransmits-Sound, repeat-Sound, marked-Sound,
}
use tsunami_udp.Receive.Ranges.{request_range-Ranged}
use tsunami_udp.Receive.Stages.{repeat-same}
use tsunami_udp.Retransmit.{
  max_retransmission_buffer, wanted, Compacted, compact, compacted, Progress, Control, ask_again,
  restart_at, restart_block, send_requests, with_table, ttp_repeat_retransmit,
}
use tsunami_udp.Ring.{Datagram, Outcome, done, blocked, null, fatal, ring_full, queue_datagram}
use tsunami_udp.Wire.{Host}

-- A request of a transfer of `n` blocks: its fields fit their types, and it is an error rate or is
-- about a block of the file.
pub record IsProper (n : ℕ) (q : Request) : Type 0 where
  pub fits : Fits q
  pub about :
      (q.request_type ≡ request_error_rate)
      ⊎ ((q.request_type ≤ request_restart) × (0 < q.block) × (q.block ≤ n))

-- More requests, all of them proper.
pub record Grows (n : ℕ) (old new : List Request) : Type 0 where
  pub more : List Request
  pub grown : new ≡ old ++ more
  pub proper : All (IsProper n) more

pub Grows-refl : (n : ℕ) (old : List Request) → Grows n old old
Grows-refl n old = record { more = []; grown = sym (append-nil old); proper = all_none }

pub Grows-trans : {n : ℕ} {xs ys zs : List Request} → Grows n xs ys → Grows n ys zs → Grows n xs zs
Grows-trans {n} {xs} f g = record {
  more = f.more ++ g.more;
  grown = g.grown ∙ ap (λ l. l ++ g.more) f.grown ∙ append_assoc xs f.more g.more;
  proper = All-append f.more g.more f.proper g.proper;
}

pub outcome_by :
    {A : Type 0} {B : Type 0} (P : B → Type 0) (o : Outcome A) {f : A → B} {x y z : B}
    → ((a : A) → P (f a))
    → P x
    → P y
    → P z
    → P (elim o [ done a ↦ f a | blocked ↦ x | null ↦ y | fatal ↦ z ])
outcome_by P (done a) p q r s = p a
outcome_by P blocked p q r s = q
outcome_by P null p q r s = r
outcome_by P fatal p q r s = s

-- The loop takes only entries that are wanted.
compact-All :
    (n : ℕ) (received : List ℕ) (left entry count : ℕ) (table : List ℕ)
    → All (λ b. wanted n received b ≡ true) (compact n received left entry count table).blocks
unfolding compact
compact-All n received zero entry count table = all_none
compact-All n received (suc left) entry count table =
    elim (Bool-cases (ltb count max_retransmission_buffer)) [
      | inr full ↦ rw (full, compact) all_none
      | inl room ↦ elim (Bool-cases (wanted n received (get_or table entry 0))) [
        | inr unwanted ↦
            rw (room, unwanted, compact) (compact-All n received left (entry + 1) count table)
        | inl w ↦
            rw (room, w, compact)
              (all_more w (
                compact-All n received left (entry + 1) (count + 1)
                  (set table count (get_or table entry 0))))
      ]
    ]

module _ (n : ℕ) (some_blocks : 0 < n) (small : n + 1 < 2 ^ 32) where
  wanted-IsProper :
      (received : List ℕ) (b : ℕ) → wanted n received b ≡ true → IsProper n (ask_again b)
  wanted-IsProper received b w =
      let new : got_block n received b ≡ false = ground arith in
      let inside = got_past_end n received b new in
      record {
        fits = record {
          type_fits = omega arith;
          block_fits = omega arith;
          error_rate_fits = omega arith;
        };
        about = inr (omega arith, ground arith, inside);
      }

  map-IsProper :
      (received bs : List ℕ)
      → All (λ b. wanted n received b ≡ true) bs
      → All (IsProper n) (map ask_again bs)
  map-IsProper received [] all_none = all_none
  map-IsProper received (b ∷ bs) (all_more w ws) =
      all_more (wanted-IsProper received b w) (map-IsProper received bs ws)

  restart-IsProper :
      (x : Progress)
      → x.block_count ≡ n
      → x.gapless_to_block ≤ n
      → IsProper n (restart_at (restart_block x))
  restart-IsProper x count gap = record {
    fits = record {
      type_fits = omega arith;
      block_fits = omega (arith, count);
      error_rate_fits = omega arith;
    };
    about = inr (omega arith, omega (arith, count, gap), omega (arith, count));
  }

  send_requests-All :
      (c : Control) (k : Compacted) (x : Progress)
      → x.block_count ≡ n
      → x.gapless_to_block ≤ n
      → All (IsProper n) (map ask_again k.blocks)
      → All (IsProper n) (send_requests c k x).requests
  unfolding send_requests
  send_requests-All c k x count gap asks =
      elim (Bool-cases (leb max_retransmission_buffer k.count)) [
        | inl many ↦ elim (Bool-cases c.write_works) [
          | inl works ↦ rw (many, works) (all_more (restart-IsProper x count gap) all_none)
          | inr fails ↦ rw (many, fails) all_none
        ]
        | inr few ↦ elim (Bool-cases (k.count == 0)) [
          | inl none_left ↦ rw (few, none_left) all_none
          | inr some_left ↦ elim (Bool-cases c.write_works) [
            | inl works ↦ rw (few, some_left, works) asks
            | inr fails ↦ rw (few, some_left, fails) all_none
          ]
        ]
      ]

  pub repeat-All :
      (c : Control) (x : Progress)
      → x.block_count ≡ n
      → x.gapless_to_block ≤ n
      → All (IsProper n) (ttp_repeat_retransmit c x).requests
  unfolding ttp_repeat_retransmit
  repeat-All c x count gap =
      send_requests-All c (compacted x) (with_table (compacted x).table x) count gap (
        map-IsProper x.received (compacted x).blocks (
          subst (λ m. All (λ b. wanted m x.received b ≡ true) (compacted x).blocks) count
            (compact-All x.block_count x.received x.rexmit.index_max 0 0 x.rexmit.table)))
