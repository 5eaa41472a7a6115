-- ===== src/Receive/Asking/Rounds.antt =====
-- client/command.c: what a whole round of the receive loop writes to the control connection.
use tsunami_udp.Base.{
  ℕ, ◌+◌, ◌-◌, ◌%◌, ◌^◌, ◌<◌, ◌≡◌, inl, inr, refl, ap, ◌∙◌, arith, true, not, ◌&&◌, ◌||◌, ◌==◌, ltb,
  [], ◌∷◌, Bool-cases, Option-cases, all_none, all_more, if_by,
}
use tsunami_udp.Message.{Request, request_error_rate}
use tsunami_udp.Receive.{
  Client, Env, Round, got, reply, request_range, queue_retransmits, advanced, expect_next,
  end_restart, update_stats, send_stats, update_period, at_end, follow_up, ts_block_terminate,
  still_on_wire, filter_stale, marked, insert_block, counted, handle, receive_round, this_block,
  this_type, ts_block_retransmission,
}
use tsunami_udp.Receive.Finish.{got_past_end}
use tsunami_udp.Receive.Invariant.{
  ProgressSound, advanced-Sound, Ranged-Sound, queue_retransmits-Sound, repeat-Sound, marked-Sound,
}
use tsunami_udp.Receive.Ranges.{request_range-Ranged}
use tsunami_udp.Receive.Stages.{repeat-same}
use tsunami_udp.Retransmit.{Control, ttp_repeat_retransmit}
use tsunami_udp.Ring.{Datagram, ring_full, queue_datagram}
use tsunami_udp.Wire.{Host}
use tsunami_udp.Receive.Asking.{IsProper, Grows, Grows-refl, Grows-trans, repeat-All, outcome_by}

module _ (n : ℕ) (some_blocks : 0 < n) (small : n + 1 < 2 ^ 32) where
  -- What a stage of the round needs of the client.
  pub record Ready (c : Client) : Type 0 where
    pub sound : ProgressSound c.progress c.blocks_left
    pub block_count : c.progress.block_count ≡ n

  reply_lem :
      (k : Control) (c : Client)
      → Ready c
      → let c' = reply c (ttp_repeat_retransmit k c.progress) in
        Ready c' × Grows n c.requests c'.requests
  reply_lem k c s = (
    record {
      sound = repeat-Sound k c.progress s.sound;
      block_count = (repeat-same k c.progress).1 ∙ s.block_count;
    },
    record {
      more = (ttp_repeat_retransmit k c.progress).requests;
      grown = refl;
      proper =
          repeat-All n some_blocks small k c.progress s.block_count
            (omega (arith, s.sound.gap_bound, s.block_count));
    },
  )

  module _ (env : Env) (rate : env.error_rate < 2 ^ 32) where
    abbrev Leaves : Client → Round → Type 0
    Leaves c r = Grows n c.requests r.client.requests

    update_stats-Grows : (c : Client) → Grows n c.requests (update_stats env c).requests
    unfolding update_stats
    update_stats-Grows c =
        let report : Request = record {
          request_type = request_error_rate;
          block = 0;
          error_rate = env.error_rate;
        } in
        let proper : IsProper n report = record {
          fits = record {
            type_fits = omega arith;
            block_fits = omega arith;
            error_rate_fits = rate;
          };
          about = inl refl;
        } in
        elim (Bool-cases env.control.write_works) [
          | inr fails ↦ rw fails (record { more = []; grown = refl; proper = all_none })
          | inl works ↦ elim (Bool-cases env.control.flush_works) [
            | inl flushed ↦
                rw (works, flushed)
                  (record { more = report ∷ []; grown = refl; proper = all_more proper all_none })
            | inr kept ↦
                rw (works, kept)
                  (record { more = report ∷ []; grown = refl; proper = all_more proper all_none })
          ]
        ]

    send_stats-Grows : (c : Client) → Ready c → Leaves c (send_stats env c)
    unfolding send_stats
    send_stats-Grows c s =
        let r = ttp_repeat_retransmit env.control c.progress in
        let (_, grows) = reply_lem env.control c s in
        elim (Bool-cases (c.total_blocks % 50 == 0 && ltb update_period env.elapsed)) [
          | inr early ↦ rw early (Grows-refl n c.requests)
          | inl due ↦ elim (Bool-cases r.ok) [
            | inl ok ↦ rw (due, ok) (Grows-trans grows (update_stats-Grows (reply c r)))
            | inr failed ↦ rw (due, failed) grows
          ]
        ]

    at_end-Grows : (c : Client) → env.lossless ≡ true → Ready c → Leaves c (at_end env c)
    unfolding at_end
    at_end-Grows c keep s =
        let x = c.progress in
        let left = x.block_count - (x.gapless_to_block + 1) in
        let from = x.gapless_to_block + 1 in
        elim (Bool-cases (c.blocks_left == 0)) [
          | inl over ↦ rw over (Grows-refl n c.requests)
          | inr more ↦ elim (Option-cases (request_range env.realloc_works left from x)) [
            | inl failed ↦ rw (more, keep, failed) (Grows-refl n c.requests)
            | inr (y, ran) ↦
                let q = request_range-Ranged env.realloc_works left from x s.sound.table ran in
                let (s', grows) =
                  reply_lem env.control (record c { progress = y })
                    (record {
                      sound = Ranged-Sound q s.sound;
                      block_count = ap (λ z. z.block_count) q.same ∙ s.block_count;
                    }) in
                rw (more, keep, ran) (Grows-trans grows (send_stats-Grows _ s'))
          ]
        ]

    follow_up-Grows :
        (b t : ℕ) (c : Client) → env.lossless ≡ true → Ready c → Leaves c (follow_up env b t c)
    unfolding follow_up
    follow_up-Grows b t c keep s = elim (Option-cases (queue_retransmits env b c.progress)) [
      | inl failed ↦ rw (failed, follow_up) (Grows-refl n c.requests)
      | inr (x, queued) ↦
          let (sound, _, count) = queue_retransmits-Sound env b c.progress keep s.sound queued in
          let c' : Client = record c { progress = end_restart (expect_next t b (advanced x)) } in
          let s' : Ready c' = record {
            sound = advanced-Sound x sound;
            block_count = count ∙ s.block_count;
          } in
          elim (Bool-cases (t == ts_block_terminate)) [
            | inl last ↦ rw (queued, follow_up, last) (at_end-Grows c' keep s')
            | inr other ↦ rw (queued, follow_up, other) (send_stats-Grows c' s')
          ]
    ]

    filter_stale-Grows :
        (b t : ℕ) (c : Client) → env.lossless ≡ true → Ready c → Leaves c (filter_stale env b t c)
    filter_stale-Grows b t c keep s = elim (Bool-cases (still_on_wire b t c.progress)) [
      | inl stale ↦ rw stale (send_stats-Grows c s)
      | inr fresh ↦ rw fresh (follow_up-Grows b t c keep s)
    ]

    insert_block-Grows :
        (b t : ℕ) (d : Datagram) (c : Client)
        → env.lossless ≡ true
        → 0 < b
        → Ready c
        → Leaves c (insert_block env b t d c)
    unfolding insert_block
    insert_block-Grows b t d c keep pos s = elim (Bool-cases (got c b)) [
      | inl old ↦ rw old (filter_stale-Grows b t c keep s)
      | inr new ↦
          let inside = got_past_end c.progress.block_count c.progress.received b new in
          rw new (
            outcome_by (Leaves c) (queue_datagram env.pthread d c.ring)
              (λ r. filter_stale-Grows b t (marked b r c) keep (record {
                sound = marked-Sound b s.sound pos inside new;
                block_count = s.block_count;
              }))
              (Grows-refl n c.requests) (Grows-refl n c.requests) (Grows-refl n c.requests))
    ]

    handle-Grows :
        (b t : ℕ) (d : Datagram) (c : Client)
        → env.lossless ≡ true
        → 0 < b
        → Ready c
        → Leaves c (handle env b t d c)
    unfolding handle
    handle-Grows b t d c keep pos s =
        outcome_by (Leaves c) (ring_full env.pthread c.ring)
          (λ full.
            if_by (Leaves c)
              (not full
                && (not (got c b) || (t == ts_block_terminate || c.progress.restart_pending)))
              (λ _. insert_block-Grows b t d c keep pos s) (λ _. send_stats-Grows c s))
          (Grows-refl n c.requests) (Grows-refl n c.requests) (Grows-refl n c.requests)

    counted_handle-Grows :
        (b t : ℕ) (d : Datagram) (c : Client)
        → env.lossless ≡ true
        → 0 < b
        → Ready c
        → Leaves c (handle env b t d (counted t c))
    counted_handle-Grows b t d c keep pos s = elim (Bool-cases (t == ts_block_retransmission)) [
      | inl resent ↦
          rw resent (
            handle-Grows b t d _ keep pos (record { sound = s.sound; block_count = s.block_count }))
      | inr first ↦
          rw first (
            handle-Grows b t d _ keep pos (record { sound = s.sound; block_count = s.block_count }))
    ]

    pub receive_round-Grows :
        (h : Host) (d : Datagram) (c : Client)
        → env.lossless ≡ true
        → 0 < this_block h d
        → Ready c
        → Leaves c (receive_round h env d c)
    unfolding receive_round
    receive_round-Grows h d c keep pos s =
        let b = this_block h d in
        let t = this_type h d in
        let r = ttp_repeat_retransmit env.control c.progress in
        let (s', grows) = reply_lem env.control c s in
        if_by (Leaves c) env.receive_works (λ works. counted_handle-Grows b t d c keep pos s)
          (λ fails.
            if_by (Leaves c) r.ok
              (λ ok. Grows-trans grows (counted_handle-Grows b t d (reply c r) keep pos s'))
              (λ failed. grows))
