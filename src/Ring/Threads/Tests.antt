-- ===== src/Ring/Threads/Tests.antt =====
-- client/command.c and client/ring.c: runs of the two threads, and the theorems at them.
use tsunami_udp.Base.{
  ℕ, zero, suc, ◌+◌, ◌≤◌, ◌<◌, ◌≡◌, ◌≢◌, refl, arith, List, [], ◌∷◌, ◌++◌, length, ap, sym, subst,
  ◌∙◌, ℕ_discrete, true, false,
}
use tsunami_udp.Ring.{
  Datagram, max_blocks_queued, Ring, Pthread, done, ring_confirm, ring_reserve, ring_create,
  reserved, confirmed, write_slot, ring_peek, ring_pop, next_slot,
}
use tsunami_udp.Ring.Queue.{IsWorking, ring_reserve-done, ring_confirm-done, ring_reserve-full}
use tsunami_udp.Ring.Refine.{tail_slot}
use tsunami_udp.Ring.Threads.{
  System, receiving, waiting, written, DiskPc, looking, ended, Step, reserve, sleep, copy, confirm,
  peek, accept, quit, pop, Reach, here, next, start,
}
use tsunami_udp.Ring.Threads.Facts.{NetworkFacts}
use tsunami_udp.Ring.Threads.Invariant.{Reach-Inv}
use tsunami_udp.Ring.Threads.Safety.{saved_in_order, no_deadlock, ended_disk_hangs}
use tsunami_udp.Wire.{little, load32, htonl}

abbrev working : Pthread
working = record { lock = 0; unlock = 0; signal = 0; wait = 0 }

working-IsWorking : IsWorking working
working-IsWorking = omega arith

-- Block 7, of two bytes.
abbrev block_seven : Datagram
block_seven = 0 ∷ 0 ∷ 0 ∷ 7 ∷ 0 ∷ b'O' ∷ 5 ∷ 6 ∷ []

abbrev stop_block : Datagram
stop_block = 0 ∷ 0 ∷ 0 ∷ 0 ∷ 0 ∷ 0 ∷ 0 ∷ 0 ∷ []

abbrev blank : ℕ → Datagram
blank i = []

-- A reachable state in which the network thread is ready for the next datagram, the disk thread
-- stands at `pc`, and `n` datagrams are queued.
record Ready (n : ℕ) (pc : DiskPc) : Type 0 where
  state : System
  reach : Reach little 2 blank state
  net : state.network ≡ receiving
  disk : state.disk ≡ pc
  count : state.ring.count_data ≡ n

-- One datagram more, given that there is room.
queue_one : {n : ℕ} {pc : DiskPc} → n < max_blocks_queued → Datagram → Ready n pc → Ready (n + 1) pc
queue_one {n} room d s = record {
  state = _;
  reach =
      next (next (next s.reach (reserve working d s.net got)) (copy refl))
        (confirm working refl kept);
  net = refl;
  disk = s.disk;
  count = ap (λ k. k + 1) s.count;
}
  where
    open s.state use {ring}

    free : ring.count_reserved ≡ 0
    free = subst (NetworkFacts ring) s.net (Reach-Inv s.reach).net

    got : ring_reserve working ring ≡ done (tail_slot ring, reserved (tail_slot ring) ring)
    got =
        ring_reserve-done working working-IsWorking ring (Reach-Inv s.reach).valid free
          (omega (arith, s.count))

    filled : Ring
    filled = write_slot (tail_slot ring) d (reserved (tail_slot ring) ring)

    kept : ring_confirm working filled ≡ done (confirmed filled)
    kept = ring_confirm-done working working-IsWorking filled (omega arith)

fresh : Ready 0 looking
unfolding ring_create
fresh = record { state = _; reach = here; net = refl; disk = refl; count = refl }

-- The disk thread reads a stop block, and returns.
stopped : Ready 1 ended
unfolding ring_create ring_reserve ring_confirm ring_peek load32 htonl ℕ_discrete
stopped = record {
  state = _;
  reach =
      next
        (next
          (next (next (next here (reserve working stop_block refl refl)) (copy refl))
            (confirm working refl refl))
          (peek working refl refl))
        (quit refl refl);
  net = refl;
  disk = refl;
  count = refl;
}

-- After that the network thread fills the ring.
fill : {pc : DiskPc} (k : ℕ) {n : ℕ} → n + k ≤ max_blocks_queued → Ready n pc → Ready (n + k) pc
fill {pc} zero {n} h s = subst (λ m. Ready m pc) (omega arith) s
fill {pc} (suc k) {n} h s =
    subst (λ m. Ready m pc) {x = n + k + 1} (omega arith)
      (queue_one (omega arith) block_seven (fill k (omega arith) s))

full : Ready 4096 ended
full = fill 4095 {n = 1} (omega arith) stopped

full_reach : Reach little 2 blank (record full.state {
  network = waiting full.state.ring.space_signals (next_slot full.state.ring) block_seven;
})
full_reach = next full.reach (
    sleep working block_seven full.net (
      ring_reserve-full working working-IsWorking full.state.ring (Reach-Inv full.reach).valid
        (subst (NetworkFacts full.state.ring) full.net (Reach-Inv full.reach).net) full.count))

ended_disk_hangs_example :
    ¬ Step little false
      (record full.state {
        network = waiting full.state.ring.space_signals (next_slot full.state.ring) block_seven;
      })
      (start 2 blank)
ended_disk_hangs_example =
    ended_disk_hangs full_reach full.state.ring.space_signals (next_slot full.state.ring)
      block_seven refl full.disk full.count (start 2 blank)

-- A datagram that has been copied, not confirmed.
one_copied : (s : System) × Reach little 2 blank s × (s.network ≡ written 0 block_seven)
unfolding ring_create ring_reserve
one_copied = (_, next (next here (reserve working block_seven refl refl)) (copy refl), refl)

-- One datagram queued, and handed to `accept_block`.
one_saved : (s : System) × Reach little 2 blank s × (s.saved ≡ block_seven ∷ [])
unfolding ring_create ring_reserve ring_confirm ring_peek load32 htonl
one_saved = (
  _,
  next
      (next
        (next (next (next here (reserve working block_seven refl refl)) (copy refl))
          (confirm working refl refl))
        (peek working refl refl))
      (accept refl (λ e. omega arith)),
  refl,
)

saved_in_order_example :
    (rest : List Datagram) × (one_saved.0.sent ≡ one_saved.0.saved ++ rest)
    × (length rest ≤ max_blocks_queued)
saved_in_order_example = saved_in_order one_saved.1

one_popped : (s : System) × Reach little 2 blank s × (s.ring.count_data ≡ 0)
unfolding ring_create ring_reserve ring_confirm ring_peek ring_pop load32 htonl
one_popped = (
  _,
  next
      (next
        (next
          (next (next (next here (reserve working block_seven refl refl)) (copy refl))
            (confirm working refl refl))
          (peek working refl refl))
        (accept refl (λ e. omega arith)))
      (pop working refl refl),
  refl,
)

full_looking : Ready 4096 looking
full_looking = fill 4096 {n = 0} (omega arith) fresh

sleeping_reach : Reach little 2 blank (record full_looking.state {
  network =
      waiting full_looking.state.ring.space_signals (next_slot full_looking.state.ring) block_seven;
})
sleeping_reach = next full_looking.reach (
    sleep working block_seven full_looking.net (
      ring_reserve-full working working-IsWorking full_looking.state.ring
        (Reach-Inv full_looking.reach).valid
        (subst (NetworkFacts full_looking.state.ring) full_looking.net
          (Reach-Inv full_looking.reach).net)
        full_looking.count))

full_looking_alive : full_looking.state.disk ≢ ended
full_looking_alive e = let p : looking ≡ ended = sym full_looking.disk ∙ e in cc

no_deadlock_example :
    (t : System) × Step little true
      (record full_looking.state {
        network =
            waiting full_looking.state.ring.space_signals
              (next_slot full_looking.state.ring)
              block_seven;
      })
      t
no_deadlock_example =
    no_deadlock sleeping_reach working working-IsWorking full_looking.state.ring.space_signals
      (next_slot full_looking.state.ring) block_seven refl full_looking_alive
