-- ===== src/Receive/Finish.antt =====
-- client/command.c: a whole round of a lossless transfer.
use tsunami_udp.Base.{
  ℕ, ◌≤◌, ◌<◌, ◌≡◌, ◌≢◌, ◌⊎◌, inl, inr, refl, ap, sym, ◌∙◌, arith, Bool, true, false, not, ◌||◌,
  ◌==◌, Bool-cases, if_by, List, ◌++◌, ◌∷◌, [],
}
use tsunami_udp.Bitmap.{got_block, mark_received, count_lost}
use tsunami_udp.Bitmap.Lost.{count_lost-zero}
use tsunami_udp.Receive.{
  Client, Env, Verdict, finished, exited, asleep, Round, got, reply, this_block, this_type, counted,
  marked, insert_block, handle, receive_round, ts_block_terminate, ts_block_retransmission,
}
use tsunami_udp.Receive.Invariant.{IsSound, marked-Sound, reply-IsSound}
use tsunami_udp.Receive.Stages.{
  Same, Same-trans, reply-Same, Ending, goes_on, gives_up, complete, Kept, Kept-after, Kept-stays,
  filter_stale-Kept, send_stats-Kept,
}
use tsunami_udp.Retransmit.{ttp_repeat_retransmit}
use tsunami_udp.Ring.{Datagram, max_blocks_queued}
use tsunami_udp.Ring.Queue.{IsWorking, queue_datagram_lem, ring_full_lem}
use tsunami_udp.Ring.Refine.{contents}
use tsunami_udp.Wire.{Host}

-- The datagram of block `b` was new: it is behind the others in the ring, and marked.
pub record Stored (b : ℕ) (d : Datagram) (c : Client) (r : Round) : Type 0 where
  pub new : got c b ≡ false
  pub sound : IsSound r.client
  pub order : contents r.client.ring ≡ contents c.ring ++ d ∷ []
  pub received : r.client.progress.received ≡ mark_received c.progress.received b
  pub block_count : r.client.progress.block_count ≡ c.progress.block_count
  pub ending : Ending r.client.blocks_left r.verdict

-- A datagram that did arrive is dropped for one of two reasons.
pub record Dropped (arrived : Bool) (b : ℕ) (c : Client) (r : Round) : Type 0 where
  pub kept : Kept c r
  pub why : arrived ≡ true → (got c b ≡ true) ⊎ (c.ring.count_data ≡ max_blocks_queued)

pub counted-Same : (t : ℕ) (c : Client) → Same c (counted t c)
counted-Same t c = elim (Bool-cases (t == ts_block_retransmission)) [
  | inl resent ↦ rw resent (record { ring = refl; received = refl; block_count = refl })
  | inr first ↦ rw first (record { ring = refl; received = refl; block_count = refl })
]

pub counted-IsSound : (t : ℕ) (c : Client) → IsSound c → IsSound (counted t c)
counted-IsSound t c s = elim (Bool-cases (t == ts_block_retransmission)) [
  | inl resent ↦ rw resent s
  | inr first ↦ rw first s
]

pub got_past_end : (n : ℕ) (received : List ℕ) (b : ℕ) → got_block n received b ≡ false → b ≤ n
unfolding got_block
got_past_end n received b e = ground arith

module _ (env : Env) (keep : env.lossless ≡ true) (w : IsWorking env.pthread) where
  insert_block_lem :
      (b t : ℕ) (d : Datagram) (c : Client)
      → 0 < b
      → IsSound c
      → c.ring.count_data < max_blocks_queued
      → Dropped true b c (insert_block env b t d c) ⊎ Stored b d c (insert_block env b t d c)
  unfolding insert_block
  insert_block_lem b t d c pos s room = elim (Bool-cases (got c b)) [
    | inl old ↦
        rw old (inl (record { kept = filter_stale-Kept env b t c keep s; why = λ _. inl old }))
    | inr new ↦
        let (r, queued, j) = queue_datagram_lem env.pthread c.ring d w s.1 s.2 room in
        let s' : IsSound (marked b r c) = (
          marked-Sound b s.0 pos (got_past_end c.progress.block_count c.progress.received b new)
              new,
          j.valid,
          j.unreserved,
        ) in
        let k = filter_stale-Kept env b t (marked b r c) keep s' in
        rw (new, queued)
          (inr (record {
            new = new;
            sound = k.sound;
            order = ap contents k.same.ring ∙ j.order;
            received = k.same.received;
            block_count = k.same.block_count;
            ending = k.ending;
          }))
  ]

  handle_lem :
      (b t : ℕ) (d : Datagram) (c : Client)
      → 0 < b
      → IsSound c
      → Dropped true b c (handle env b t d c) ⊎ Stored b d c (handle env b t d c)
  unfolding handle
  handle_lem b t d c pos s =
      let full = ring_full_lem env.pthread w c.ring s.1 s.2 in
      elim (Bool-cases (c.ring.count_data == max_blocks_queued)) [
        | inl no_room ↦
            rw (full, handle, no_room)
              (inl (record { kept = send_stats-Kept env c s; why = λ _. inr (ground arith) }))
        | inr room ↦
            elim (Bool-cases
              (not (got c b) || (t == ts_block_terminate || c.progress.restart_pending))) [
                | inl wanted ↦
                    rw (full, handle, room, wanted)
                      (insert_block_lem b t d c pos s (ground (arith, s.1)))
                | inr unwanted ↦
                    rw (full, handle, room, unwanted)
                      (inl
                        (record { kept = send_stats-Kept env c s; why = λ _. inl (ground arith) }))
              ]
      ]

got-Same : (b : ℕ) {c c' : Client} → Same c c' → got c' b ≡ got c b
got-Same b s = cc (s.received, s.block_count)

-- Counters changed, or requests were sent, before the datagram was handled.
settled-Same :
    {arrived : Bool} {b : ℕ} {d : Datagram} {c c' : Client} {r : Round}
    → Same c c'
    → Dropped true b c' r ⊎ Stored b d c' r
    → Dropped arrived b c r ⊎ Stored b d c r
settled-Same {arrived} {b} {d} s (inl k) = inl (record {
  kept = Kept-after s k.kept;
  why = λ _. elim (k.why refl) [
    | inl old ↦ inl (sym (got-Same b s) ∙ old)
    | inr full ↦ inr (sym (ap (λ r. r.count_data) s.ring) ∙ full)
  ];
})
settled-Same {arrived} {b} {d} s (inr k) = inr (record {
  new = sym (got-Same b s) ∙ k.new;
  sound = k.sound;
  order = k.order ∙ ap (λ r. contents r ++ d ∷ []) s.ring;
  received = k.received ∙ ap (λ x. mark_received x b) s.received;
  block_count = k.block_count ∙ s.block_count;
  ending = k.ending;
})

pub settled-Ending :
    {arrived : Bool} {b : ℕ} {d : Datagram} {c : Client} {r : Round}
    → Dropped arrived b c r ⊎ Stored b d c r
    → IsSound r.client × Ending r.client.blocks_left r.verdict
settled-Ending (inl k) = (k.kept.sound, k.kept.ending)
settled-Ending (inr k) = (k.sound, k.ending)

-- One round of a lossless transfer whose pthread calls succeed, from a client in a sound state, with
-- a datagram whose block number is not 0, neither ends the process nor sleeps: it leaves a sound
-- state, and it goes on, or gives up, or finishes with no block missing. Either the datagram's
-- block was new, and the datagram is now behind the others in the ring and its block marked, or ring
-- and bitfield are as before, and if `recvfrom` worked, the block was there or the ring full.
pub receive_round_lem :
    (h : Host) (env : Env) (d : Datagram) (c : Client)
    → env.lossless ≡ true
    → IsWorking env.pthread
    → 0 < this_block h d
    → IsSound c
    → let r = receive_round h env d c in
      Dropped env.receive_works (this_block h d) c r ⊎ Stored (this_block h d) d c r
unfolding receive_round
receive_round_lem h env d c keep w pos s =
    let b = this_block h d in
    let t = this_type h d in
    let r = ttp_repeat_retransmit env.control c.progress in
    let x = reply c r in
    let x-sound = reply-IsSound env.control c s in
    let Leaves : Round → Type 0 = λ y. Dropped env.receive_works b c y ⊎ Stored b d c y in
    if_by Leaves env.receive_works
      (λ works.
        settled-Same (counted-Same t c)
          (handle_lem env keep w b t d (counted t c) pos (counted-IsSound t c s)))
      (λ fails.
        if_by Leaves r.ok
          (λ ok.
            settled-Same (Same-trans (reply-Same env.control c) (counted-Same t x))
              (handle_lem env keep w b t d (counted t x) pos (counted-IsSound t x x-sound)))
          (λ failed. inl (record {
            kept = Kept-after (reply-Same env.control c) (Kept-stays x x-sound gives_up);
            why = λ works. absurd cc;
          })))

pub Ending-finished : {left : ℕ} {v : Verdict} → v ≡ finished → Ending left v → left ≡ 0
Ending-finished e goes_on = absurd cc
Ending-finished e gives_up = absurd cc
Ending-finished e (complete h) = h

pub Ending-runs : {left : ℕ} {v : Verdict} → Ending left v → (v ≢ exited) × (v ≢ asleep)
Ending-runs goes_on = (λ e. cc, λ e. cc)
Ending-runs gives_up = (λ e. cc, λ e. cc)
Ending-runs (complete h) = (λ e. cc, λ e. cc)

-- When a round of such a transfer leaves the loop as finished, every block of the file is marked as
-- received, and the count of lost blocks that follows the loop is 0.
finished_lem :
    (h : Host) (env : Env) (d : Datagram) (c : Client)
    → env.lossless ≡ true
    → IsWorking env.pthread
    → 0 < this_block h d
    → IsSound c
    → (receive_round h env d c).verdict ≡ finished
    → let x = (receive_round h env d c).client.progress in
      ((b : ℕ) → 0 < b → b ≤ x.block_count → got_block x.block_count x.received b ≡ true)
      × (count_lost x.block_count x.received x.block_count ≡ 0)
finished_lem h env d c keep w pos s over =
    let (sound, ending) = settled-Ending (receive_round_lem h env d c keep w pos s) in
    let x = (receive_round h env d c).client.progress in
    let lost : count_lost x.block_count x.received x.block_count ≡ 0 =
      sym sound.0.left_over ∙ Ending-finished over ending in
    (λ b lo hi. count_lost-zero x.block_count x.received x.block_count b lost lo hi, lost)
