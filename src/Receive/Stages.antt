-- ===== src/Receive/Stages.antt =====
-- client/command.c: what each stage of a round keeps, in a lossless transfer.
use tsunami_udp.Base.{
  ℕ, ◌+◌, ◌-◌, ◌%◌, leb, ◌≡◌, inl, inr, refl, ap, ◌∙◌, arith, true, ◌&&◌, ◌==◌, ltb, Bool-cases,
  Option-cases,
}
use tsunami_udp.Receive.{
  Client, Env, Verdict, again, finished, aborted, Round, round, request_range, queue_retransmits,
  advanced, expect_next, end_restart, reply, update_stats, send_stats, update_period, at_end,
  follow_up, ts_block_terminate, filter_stale, still_on_wire,
}
use tsunami_udp.Receive.Invariant.{
  IsSound, advanced-Sound, Ranged-Sound, queue_retransmits-Sound, update_stats-IsSound,
  reply-IsSound,
}
use tsunami_udp.Receive.Ranges.{request_range-Ranged}
use tsunami_udp.Retransmit.{
  max_retransmission_buffer, compacted, Progress, Control, send_requests, ttp_repeat_retransmit,
}

-- The ring and the blocks received are the same.
pub record Same (c c' : Client) : Type 0 where
  pub ring : c'.ring ≡ c.ring
  pub received : c'.progress.received ≡ c.progress.received
  pub block_count : c'.progress.block_count ≡ c.progress.block_count

pub Same-refl : (c : Client) → Same c c
Same-refl c = record { ring = refl; received = refl; block_count = refl }

pub Same-trans : {c c' c'' : Client} → Same c c' → Same c' c'' → Same c c''
Same-trans s t = record {
  ring = t.ring ∙ s.ring;
  received = t.received ∙ s.received;
  block_count = t.block_count ∙ s.block_count;
}

-- A round that goes on, that gives up, or that ends with no block missing.
pub data Ending (left : ℕ) : Verdict → Type 0 where
  goes_on : Ending left again
  gives_up : Ending left aborted
  complete : left ≡ 0 → Ending left finished

pub record Kept (c : Client) (r : Round) : Type 0 where
  pub sound : IsSound r.client
  pub same : Same c r.client
  pub ending : Ending r.client.blocks_left r.verdict

pub Kept-after : {c c' : Client} {r : Round} → Same c c' → Kept c' r → Kept c r
Kept-after s k = record { sound = k.sound; same = Same-trans s k.same; ending = k.ending }

pub Kept-stays :
    (c : Client) {v : Verdict} → IsSound c → Ending c.blocks_left v → Kept c (round c v)
Kept-stays c s e = record { sound = s; same = Same-refl c; ending = e }

pub repeat-same :
    (k : Control) (x : Progress)
    → ((ttp_repeat_retransmit k x).progress.received ≡ x.received)
      × ((ttp_repeat_retransmit k x).progress.block_count ≡ x.block_count)
unfolding ttp_repeat_retransmit send_requests
repeat-same k x = elim (Bool-cases (leb max_retransmission_buffer (compacted x).count)) [
  | inl many ↦ elim (Bool-cases k.write_works) [
    | inl works ↦ rw (many, works) (refl, refl)
    | inr fails ↦ rw (many, fails) (refl, refl)
  ]
  | inr few ↦ elim (Bool-cases ((compacted x).count == 0)) [
    | inl none_left ↦ rw (few, none_left) (refl, refl)
    | inr some_left ↦ elim (Bool-cases k.write_works) [
      | inl works ↦ rw (few, some_left, works) (refl, refl)
      | inr fails ↦ rw (few, some_left, fails) (refl, refl)
    ]
  ]
]

pub reply-Same : (k : Control) (c : Client) → Same c (reply c (ttp_repeat_retransmit k c.progress))
reply-Same k c =
    let (received, count) = repeat-same k c.progress in
    record { ring = refl; received = received; block_count = count }

pub update_stats-Same : (env : Env) (c : Client) → Same c (update_stats env c)
unfolding update_stats
update_stats-Same env c = elim (Bool-cases (env.control.write_works && env.control.flush_works)) [
  | inl works ↦ rw works (record { ring = refl; received = refl; block_count = refl })
  | inr fails ↦ rw fails (record { ring = refl; received = refl; block_count = refl })
]

pub send_stats-Kept : (env : Env) (c : Client) → IsSound c → Kept c (send_stats env c)
unfolding send_stats
send_stats-Kept env c s =
    let r = ttp_repeat_retransmit env.control c.progress in
    let c' = reply c r in
    let s' = reply-IsSound env.control c s in
    elim (Bool-cases (c.total_blocks % 50 == 0 && ltb update_period env.elapsed)) [
      | inl due ↦ elim (Bool-cases r.ok) [
        | inl ok ↦
            rw (due, ok)
              (record {
                sound = update_stats-IsSound env c' s';
                same = Same-trans (reply-Same env.control c) (update_stats-Same env c');
                ending = goes_on;
              })
        | inr failed ↦
            rw (due, failed) (Kept-after (reply-Same env.control c) (Kept-stays c' s' gives_up))
      ]
      | inr early ↦ rw early (Kept-stays c s goes_on)
    ]

-- Progress of the same transfer, with the same blocks received.
with_progress-Same :
    (c : Client) (x : Progress)
    → x.received ≡ c.progress.received
    → x.block_count ≡ c.progress.block_count
    → Same c (record c { progress = x })
with_progress-Same c x r n = record { ring = refl; received = r; block_count = n }

at_end-Kept : (env : Env) (c : Client) → env.lossless ≡ true → IsSound c → Kept c (at_end env c)
unfolding at_end
at_end-Kept env c keep s =
    let x = c.progress in
    let from = x.gapless_to_block + 1 in
    elim (Bool-cases (c.blocks_left == 0)) [
      | inl over ↦ rw over (Kept-stays c s (complete (ground arith)))
      | inr more ↦
          elim (Option-cases (
            request_range env.realloc_works (x.block_count - (x.gapless_to_block + 1))
              (x.gapless_to_block + 1) x)) [
                | inl failed ↦ rw (more, keep, failed) (Kept-stays c s gives_up)
                | inr (y, ran) ↦
                    let q =
                      request_range-Ranged env.realloc_works
                        (x.block_count - (x.gapless_to_block + 1)) (x.gapless_to_block + 1) x
                        s.0.table ran in
                    let c' : Client = record c { progress = y } in
                    let s' : IsSound c' = (Ranged-Sound q s.0, s.1, s.2) in
                    let same : Same c c' =
                      with_progress-Same c y (ap (λ z. z.received) q.same)
                        (ap (λ z. z.block_count) q.same) in
                    rw (more, keep, ran)
                      (Kept-after (Same-trans same (reply-Same env.control c'))
                        (send_stats-Kept env _ (reply-IsSound env.control c' s')))
              ]
    ]

pub follow_up-Kept :
    (env : Env) (b t : ℕ) (c : Client)
    → env.lossless ≡ true
    → IsSound c
    → Kept c (follow_up env b t c)
unfolding follow_up
follow_up-Kept env b t c keep s = elim (Option-cases (queue_retransmits env b c.progress)) [
  | inl failed ↦ rw (failed, follow_up) (Kept-stays c s gives_up)
  | inr (x, queued) ↦
      let q = queue_retransmits-Sound env b c.progress keep s.0 queued in
      let c' : Client = record c { progress = end_restart (expect_next t b (advanced x)) } in
      let s' : IsSound c' = (advanced-Sound x q.0, s.1, s.2) in
      let same : Same c c' = with_progress-Same c c'.progress q.1 q.2 in
      elim (Bool-cases (t == ts_block_terminate)) [
        | inl last ↦ rw (queued, follow_up, last) (Kept-after same (at_end-Kept env c' keep s'))
        | inr other ↦ rw (queued, follow_up, other) (Kept-after same (send_stats-Kept env c' s'))
      ]
]

pub filter_stale-Kept :
    (env : Env) (b t : ℕ) (c : Client)
    → env.lossless ≡ true
    → IsSound c
    → Kept c (filter_stale env b t c)
filter_stale-Kept env b t c keep s = elim (Bool-cases (still_on_wire b t c.progress)) [
  | inl stale ↦ rw stale (send_stats-Kept env c s)
  | inr fresh ↦ rw fresh (follow_up-Kept env b t c keep s)
]
