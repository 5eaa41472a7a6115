-- ===== src/Receive/Zero.antt =====
-- client/command.c: a round with a datagram whose block number is 0, as the buffer has it before the first datagram
-- arrives.
use tsunami_udp.Base.{
  ℕ, ◌+◌, ◌%◌, ◌<◌, ◌≡◌, ◌≢◌, inl, inr, refl, ap, ◌∙◌, arith, true, false, ltb, ◌&&◌, ◌==◌,
  Bool-cases, if_by,
}
use tsunami_udp.Bitmap.{count_lost}
use tsunami_udp.Bitmap.Lost.{count_lost-mark_zero}
use tsunami_udp.Receive.{
  Client, Env, Round, got, reply, this_block, this_type, counted, marked, update_period,
  update_stats, send_stats, queue_retransmits, follow_up, filter_stale, still_on_wire, insert_block,
  handle, receive_round, ts_block_terminate, ts_block_retransmission,
}
use tsunami_udp.Receive.Finish.{counted-Same, counted-IsSound}
use tsunami_udp.Receive.Invariant.{IsSound, reply-IsSound}
use tsunami_udp.Receive.Stages.{Same, Same-trans, reply-Same, update_stats-Same}
use tsunami_udp.Retransmit.{ttp_repeat_retransmit}
use tsunami_udp.Ring.{Datagram, max_blocks_queued}
use tsunami_udp.Ring.Queue.{IsWorking, queue_datagram_lem, ring_full_lem}
use tsunami_udp.Wire.{Host}

-- The bitfield and the count of the blocks to come are the same.
record Holds (c c' : Client) : Type 0 where
  same : Same c c'
  left : c'.blocks_left ≡ c.blocks_left

reply-Holds :
    (env : Env) (c : Client) → Holds c (reply c (ttp_repeat_retransmit env.control c.progress))
reply-Holds env c = record { same = reply-Same env.control c; left = refl }

counted-Holds : (t : ℕ) (c : Client) → Holds c (counted t c)
counted-Holds t c = record {
  same = counted-Same t c;
  left = elim (Bool-cases (t == ts_block_retransmission)) [
    | inl resent ↦ rw resent refl
    | inr first ↦ rw first refl
  ];
}

Holds-trans : {c c' c'' : Client} → Holds c c' → Holds c' c'' → Holds c c''
Holds-trans s t = record { same = Same-trans s.same t.same; left = t.left ∙ s.left }

update_stats-Holds : (env : Env) (c : Client) → Holds c (update_stats env c)
unfolding update_stats
update_stats-Holds env c = record {
  same = update_stats-Same env c;
  left = elim (Bool-cases (env.control.write_works && env.control.flush_works)) [
    | inl works ↦ rw works refl
    | inr fails ↦ rw fails refl
  ];
}

Holds-refl : (c : Client) → Holds c c
Holds-refl c = record {
  same = record { ring = refl; received = refl; block_count = refl };
  left = refl;
}

send_stats-Holds : (env : Env) (c : Client) → Holds c (send_stats env c).client
unfolding send_stats
send_stats-Holds env c =
    let r = ttp_repeat_retransmit env.control c.progress in
    elim (Bool-cases (c.total_blocks % 50 == 0 && ltb update_period env.elapsed)) [
      | inl due ↦ elim (Bool-cases r.ok) [
        | inl ok ↦
            rw (due, ok) (Holds-trans (reply-Holds env c) (update_stats-Holds env (reply c r)))
        | inr failed ↦ rw (due, failed) (reply-Holds env c)
      ]
      | inr early ↦ rw early (Holds-refl c)
    ]

-- No request is queued, and the rest of the round leaves the count alone.
filter_stale-Holds :
    (env : Env) (t : ℕ) (c : Client)
    → t ≢ ts_block_terminate
    → Holds c (filter_stale env 0 t c).client
unfolding follow_up queue_retransmits
filter_stale-Holds env t c other =
    let fresh : still_on_wire 0 t c.progress ≡ false = ground arith in
    let none_due : ltb c.progress.next_block 0 ≡ false = ground arith in
    let no_end : (t == ts_block_terminate) ≡ false = ground (arith, other) in
    rw (fresh, none_due, follow_up, no_end)
      (Holds-trans
        (record { same = record { ring = refl; received = refl; block_count = refl }; left = refl })
        (send_stats-Holds env _))

-- One block fewer is to come than are missing.
IsShort : Client → Type 0
IsShort c =
    let x = c.progress in c.blocks_left + 1 ≡ count_lost x.block_count x.received x.block_count

IsShort-Holds : {c c' : Client} → Holds c c' → IsShort c → IsShort c'
unfolding IsShort
IsShort-Holds s short = cc (s.left, s.same.received, s.same.block_count, short)

handle-IsShort :
    (env : Env) (t : ℕ) (d : Datagram) (c : Client)
    → IsWorking env.pthread
    → IsSound c
    → t ≢ ts_block_terminate
    → got c 0 ≡ false
    → 0 < c.blocks_left
    → c.ring.count_data < max_blocks_queued
    → IsShort (handle env 0 t d c).client
unfolding handle insert_block IsShort
handle-IsShort env t d c w s other new more room =
    let full = ring_full_lem env.pthread w c.ring s.1 s.2 in
    let not_full : (c.ring.count_data == max_blocks_queued) ≡ false = ground (arith, room) in
    let (r, queued, j) = queue_datagram_lem env.pthread c.ring d w s.1 s.2 room in
    let x = c.progress in
    let short : IsShort (marked 0 r c) = omega (
      arith,
      more,
      s.0.left_over,
      count_lost-mark_zero x.block_count x.received x.block_count s.0.bitmap,
    ) in
    rw (full, handle, not_full, new, queued)
      (IsShort-Holds (filter_stale-Holds env t (marked 0 r c) other) short)

-- In a sound state with blocks still to come, with pthread calls that succeed and room in the ring: a round with a datagram of block 0 that is
-- new and does not end the transmission breaks the count. After the round, `blocks_left` is one less than the number of
-- blocks that are missing, whether `recvfrom` has worked, or has failed and the requests could be
-- repeated.
pub zero_block_lem :
    (h : Host) (env : Env) (d : Datagram) (c : Client)
    → IsWorking env.pthread
    → IsSound c
    → this_block h d ≡ 0
    → this_type h d ≢ ts_block_terminate
    → got c 0 ≡ false
    → 0 < c.blocks_left
    → c.ring.count_data < max_blocks_queued
    → (env.receive_works ≡ false → (ttp_repeat_retransmit env.control c.progress).ok ≡ true)
    → let c' = (receive_round h env d c).client in
      let x = c'.progress in c'.blocks_left + 1 ≡ count_lost x.block_count x.received x.block_count
unfolding receive_round IsShort
zero_block_lem h env d c w s zero other new more room repeated =
    let t = this_type h d in
    let result = λ (c' : Client) (k : Holds c c') (s' : IsSound c').
      handle-IsShort env t d c' w s' other (cc (k.same.received, k.same.block_count, new))
        (omega (arith, k.left, more)) (omega (arith, room, ap (λ r. r.count_data) k.same.ring)) in
    let r = ttp_repeat_retransmit env.control c.progress in
    let x = reply c r in
    let P : Round → Type 0 = λ y. IsShort y.client in
    rw zero (
      if_by P env.receive_works
        (λ works. result (counted t c) (counted-Holds t c) (counted-IsSound t c s))
        (λ fails.
          if_by P r.ok
            (λ ok.
              result (counted t x) (Holds-trans (reply-Holds env c) (counted-Holds t x))
                (counted-IsSound t x (reply-IsSound env.control c s)))
            (λ failed. absurd (cc (repeated fails, failed)))))
