-- ===== src/Receive/Recover.antt =====
-- client/command.c: a terminate block that finds blocks missing asks for all of them.
use tsunami_udp.Base.{
  ℕ, ◌+◌, ◌-◌, ◌*◌, ◌%◌, ◌^◌, ◌≤◌, ◌<◌, ◌≡◌, ◌⊎◌, inl, inr, refl, sym, subst, arith, true, false,
  not, ◌&&◌, ◌||◌, ◌==◌, ltb, min, some, List, [], ◌∷◌, ◌++◌, length, In, first, later,
  In-append_left, In-append_right, In-map, dec_lt, Bool-cases,
}
use tsunami_udp.Bitmap.{got_block}
use tsunami_udp.Message.{Request}
use tsunami_udp.Receive.{
  Client, Env, request_range, reply, update_stats, send_stats, update_period, at_end,
}
use tsunami_udp.Receive.Invariant.{IsSound}
use tsunami_udp.Receive.Ranges.{Ranged, request_range-Requested}
use tsunami_udp.Retransmit.{
  max_retransmission_buffer, wanted, Progress, ask_again, restart_at, ttp_repeat_retransmit,
}
use tsunami_udp.Retransmit.Compact.{keep_wanted}
use tsunami_udp.Retransmit.Repeat.{missing_entries, working, repeat_few, repeat_many}
use tsunami_udp.Retransmit.Table.{IsValid, entries}

keep_wanted-In :
    (n : ℕ) (received : List ℕ) (b : ℕ) (xs : List ℕ)
    → 0 < b
    → got_block n received b ≡ false
    → In b xs
    → In b (keep_wanted n received xs)
unfolding keep_wanted
keep_wanted-In n received b [] pos missing m = elim m [ ]
keep_wanted-In n received b (x ∷ xs) pos missing (first e) =
    let kept : wanted n received x ≡ true =
      subst (λ y. wanted n received y ≡ true) e (ground arith) in
    rw kept (first e)
keep_wanted-In n received b (x ∷ xs) pos missing (later m) =
    let rest = keep_wanted-In n received b xs pos missing m in
    elim (Bool-cases (wanted n received x)) [
      | inl kept ↦ rw kept (later rest)
      | inr dropped ↦ rw dropped rest
    ]

-- Block `b` is asked for: itself, or the server shall restart at the first missing block.
abbrev pub Asked : Progress → ℕ → List Request → Type 0
Asked x b requests =
    In (ask_again b) requests
    ⊎ In (restart_at (min x.block_count ((x.gapless_to_block + 1) % 2 ^ 32))) requests

repeat-Asked :
    (x : Progress) (b : ℕ)
    → IsValid x.rexmit
    → 0 < b
    → got_block x.block_count x.received b ≡ false
    → In b (entries x.rexmit)
    → Asked x b (ttp_repeat_retransmit working x).requests
repeat-Asked x b v pos missing m =
    elim (dec_lt (length (missing_entries x)) max_retransmission_buffer) [
      | yes few ↦
          let requests = (repeat_few x v few).1 in
          inl (
            subst (In (ask_again b)) (sym requests) (
              In-map ask_again (missing_entries x)
                (keep_wanted-In x.block_count x.received b (entries x.rexmit) pos missing m)))
      | no many ↦
          let requests = (repeat_many x v (omega arith)).1 in
          inr (
            subst (In (restart_at (min x.block_count ((x.gapless_to_block + 1) % 2 ^ 32))))
              (sym requests) (first refl))
    ]

update_stats-In :
    (env : Env) (c : Client) {q : Request} → In q c.requests → In q (update_stats env c).requests
unfolding update_stats
update_stats-In env c m = elim (Bool-cases (env.control.write_works && env.control.flush_works)) [
  | inl works ↦ rw works (In-append_left c.requests _ m)
  | inr fails ↦ rw fails (In-append_left c.requests _ m)
]

-- What was asked stays asked.
send_stats-In :
    (env : Env) (c : Client) {q : Request}
    → In q c.requests
    → In q (send_stats env c).client.requests
unfolding send_stats
send_stats-In env c m =
    let r = ttp_repeat_retransmit env.control c.progress in
    elim (Bool-cases (c.total_blocks % 50 == 0 && ltb update_period env.elapsed)) [
      | inl due ↦ elim (Bool-cases r.ok) [
        | inl ok ↦
            rw (due, ok) (update_stats-In env (reply c r) (In-append_left c.requests r.requests m))
        | inr failed ↦ rw (due, failed) (In-append_left c.requests r.requests m)
      ]
      | inr early ↦ rw early m
    ]

send_stats-Asked :
    (env : Env) (x : Progress) (b : ℕ) (c : Client)
    → Asked x b c.requests
    → Asked x b (send_stats env c).client.requests
send_stats-Asked env x b c (inl m) = inl (send_stats-In env c m)
send_stats-Asked env x b c (inr m) = inr (send_stats-In env c m)

append-Asked :
    (x : Progress) (b : ℕ) (old new : List Request) → Asked x b new → Asked x b (old ++ new)
append-Asked x b old new (inl m) = inl (In-append_right old new m)
append-Asked x b old new (inr m) = inr (In-append_right old new m)

-- A range of requests changes only the table.
Ranged-Asked :
    {x y : Progress} (b : ℕ)
    → Ranged x y
    → 0 < b
    → got_block x.block_count x.received b ≡ false
    → In b (entries y.rexmit)
    → Asked x b (ttp_repeat_retransmit working y).requests
Ranged-Asked {x} {y} b q pos missing m =
    let z : Progress = record x { rexmit = q.rexmit } in
    let m' : In b (entries q.rexmit) = subst (λ y. In b (entries y.rexmit)) q.same m in
    subst (λ y. Asked x b (ttp_repeat_retransmit working y).requests) (sym q.same)
      (repeat-Asked z b q.valid pos missing m')

-- In a lossless transfer, a terminate block that finds blocks missing leaves every missing block before
-- the last one asked for: by a request for the block itself, or by a request to restart at the first
-- missing block; if memory and the control connection work, and the table has room.
pub at_end_asks :
    (env : Env) (c : Client) (b : ℕ)
    → env.lossless ≡ true
    → env.realloc_works ≡ true
    → env.control ≡ working
    → IsSound c
    → 0 < c.blocks_left
    → c.progress.rexmit.index_max + c.progress.block_count ≤ 32 * max_retransmission_buffer
    → 0 < b
    → b < c.progress.block_count
    → got_block c.progress.block_count c.progress.received b ≡ false
    → Asked c.progress b (at_end env c).client.requests
unfolding at_end
at_end_asks env c b keep memory control s more room pos inside missing =
    let x = c.progress in
    let from = x.gapless_to_block + 1 in
    let left = x.block_count - (x.gapless_to_block + 1) in
    let (y, ran', q) = request_range-Requested left from x s.0.table (omega arith) in
    let ran : request_range env.realloc_works left from x ≡ some y =
      subst (λ works. request_range works left from x ≡ some y) (sym memory) ran' in
    let above : x.gapless_to_block < b = elim (dec_lt x.gapless_to_block b) [
      | yes h ↦ h
      | no h ↦ absurd (cc (s.0.gapless b pos (omega arith), missing))
    ] in
    let unfinished : (c.blocks_left == 0
          || (not env.lossless && (x.rexmit.index_max == 0 && not x.restart_pending)))
        ≡ false =
      ground arith in
    let asked = Ranged-Asked b q.range pos missing (q.new b (omega arith) (omega arith) missing) in
    let asked' : Asked x b (ttp_repeat_retransmit env.control y).requests =
      subst (λ k. Asked x b (ttp_repeat_retransmit k y).requests) (sym control) asked in
    rw (unfinished, ran)
      (send_stats-Asked env x b
        (reply (record c { progress = y }) (ttp_repeat_retransmit env.control y))
        (append-Asked x b c.requests _ asked'))
