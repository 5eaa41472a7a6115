-- ===== src/Ring/Threads/Safety.antt =====
-- client/command.c and client/ring.c: what holds in every interleaving of the two threads.
use tsunami_udp.Base.{
  Bool, true, false, inr, inl, ◌⊎◌, ℕ, zero, suc, ◌+◌, ◌-◌, ◌%◌, ◌≤◌, ◌<◌, ◌≡◌, ◌≢◌, refl, ap, sym,
  subst, ◌∙◌, arith, List, [], ◌++◌, append-nil, length, ℕ_discrete, dec_lt,
}
use tsunami_udp.Ring.{
  blocked, reserved, ring_reserve, Datagram, max_blocks_queued, Ring, Pthread, done, ring_confirm,
  confirmed,
}
use tsunami_udp.Ring.Queue.{
  ring_reserve-full, ring_reserve-done, IsWorking, ring_confirm-done, reserve_from-done,
  ring_peek-done, ring_pop-done,
}
use tsunami_udp.Ring.Refine.{tail_slot, window, reserve_from_inv}
use tsunami_udp.Ring.Threads.{
  receiving, waiting, written, DiskPc, looking, dozing, peeked, stored, ended, System, Step,
  reserve, sleep, wake, copy, confirm, peek, doze, rouse, accept, quit, refuse, pop, Reach,
  block_index,
}
use tsunami_udp.Ring.Threads.Facts.{NetworkFacts, DiskFacts, EmptySince, unsaved}
use tsunami_udp.Ring.Threads.Invariant.{Reach-Inv}
use tsunami_udp.Wire.{Host}

length-window : (m : ℕ → Datagram) (h n : ℕ) → length (window m h n) ≡ n
length-window m h zero = refl
length-window m h (suc n) = ap suc (length-window m ((h + 1) % max_blocks_queued) n)

length-unsaved : (r : Ring) (pc : DiskPc) → length (unsaved r pc) ≤ r.count_data
length-unsaved r (stored slot) = omega (arith, length-window r.datagrams _ (r.count_data - 1))
length-unsaved r (dozing seen) = omega (arith, length-window r.datagrams r.base_data r.count_data)
length-unsaved r looking = omega (arith, length-window r.datagrams r.base_data r.count_data)
length-unsaved r (peeked slot) = omega (arith, length-window r.datagrams r.base_data r.count_data)
length-unsaved r ended = omega (arith, length-window r.datagrams r.base_data r.count_data)

unsaved-empty : (r : Ring) (pc : DiskPc) → r.count_data ≡ 0 → DiskFacts r pc → unsaved r pc ≡ []
unsaved-empty r (stored slot) e f = absurd (omega arith)
unsaved-empty r (dozing seen) e f = ap (window r.datagrams r.base_data) e
unsaved-empty r looking e f = ap (window r.datagrams r.base_data) e
unsaved-empty r (peeked slot) e f = absurd (omega arith)
unsaved-empty r ended e f = ap (window r.datagrams r.base_data) e

module _ {h : Host} {b : ℕ} {g : ℕ → Datagram} {s : System} (reach : Reach h b g s) where
  -- In every interleaving of the network thread and the disk thread, the datagrams handed to
  -- `accept_block` are the first of those confirmed, unaltered, in the same order and each once;
  -- and the ones still to be handed over are no more than the ring has slots.
  pub saved_in_order :
      (rest : List Datagram) × (s.sent ≡ s.saved ++ rest) × (length rest ≤ max_blocks_queued)
  saved_in_order =
      let inv = Reach-Inv reach in
      (unsaved s.ring s.disk, inv.kept, omega (arith, length-unsaved s.ring s.disk, inv.valid.room))

  -- In every reachable state in which the ring is empty, every datagram that was confirmed has been handed over.
  saved_all : s.ring.count_data ≡ 0 → s.saved ≡ s.sent
  saved_all empty =
      let inv = Reach-Inv reach in
      sym (
        inv.kept
        ∙ ap (λ u. s.saved ++ u) (unsaved-empty s.ring s.disk empty inv.disk)
        ∙ append-nil s.saved)

  -- In every reachable state in which the network thread confirms, the slot is reserved, so that
  -- `ring_confirm` returns and does not exit the process, if the pthread calls succeed.
  pub confirm_returns :
      (p : Pthread)
      → IsWorking p
      → (slot : ℕ) (d : Datagram) → s.network ≡ written slot d
      → ring_confirm p s.ring ≡ done (confirmed s.ring)
  confirm_returns p w slot d e =
      let f : NetworkFacts s.ring (written slot d) =
        subst (NetworkFacts s.ring) e (Reach-Inv reach).net in
      ring_confirm-done p w s.ring (omega arith)

  -- In every reachable state in which the network thread reserves, no slot is reserved, so that
  -- `ring_reserve` does not exit the process: it returns the slot after the data, or it sleeps on a
  -- full ring, if the pthread calls succeed.
  reserve_returns :
      (p : Pthread)
      → IsWorking p
      → s.network ≡ receiving
      → (ring_reserve p s.ring ≡ done (tail_slot s.ring, reserved (tail_slot s.ring) s.ring))
        ⊎ ((ring_reserve p s.ring ≡ blocked) × (s.ring.count_data ≡ max_blocks_queued))
  reserve_returns p w e =
      let inv = Reach-Inv reach in
      let f : s.ring.count_reserved ≡ 0 = subst (NetworkFacts s.ring) e inv.net in
      elim (dec_lt s.ring.count_data max_blocks_queued) [
        | yes room ↦ inl (ring_reserve-done p w s.ring inv.valid f room)
        | no full ↦
            let all : s.ring.count_data ≡ max_blocks_queued = omega (arith, inv.valid.room) in
            inr (ring_reserve-full p w s.ring inv.valid f all, all)
      ]

  -- The disk thread has a step to make wherever there is data, until it returns; if it sleeps, it was signalled.
  disk-Step :
      (p : Pthread)
      → IsWorking p
      → 0 < s.ring.count_data
      → (pc : DiskPc) → s.disk ≡ pc
      → pc ≢ ended
      → (t : System) × Step h true s t
  disk-Step p w some_data looking e ne =
      let inv = Reach-Inv reach in (_, peek p e (ring_peek-done p w s.ring inv.valid some_data))
  disk-Step p w some_data (dozing seen) e ne =
      let inv = Reach-Inv reach in
      let f : EmptySince s.ring seen = subst (DiskFacts s.ring) e inv.disk in
      (
        _,
        rouse p (λ _. grind (arith, f.before, f.unsignalled)) e
            (ring_peek-done p w s.ring inv.valid some_data),
      )
  disk-Step p w some_data (peeked slot) e ne =
      elim (ℕ_discrete (block_index h (s.ring.datagrams slot)) 0) [
        | yes stop ↦ (_, quit e stop)
        | no more ↦ (_, accept e more)
      ]
  disk-Step p w some_data (stored slot) e ne =
      let inv = Reach-Inv reach in (_, pop p e (ring_pop-done p w s.ring inv.valid some_data))
  disk-Step p w some_data ended e ne = absurd (ne refl)

  -- In every reachable state in which the network thread sleeps in `ring_reserve` and the disk
  -- thread has not returned, one of the two can go on, if the pthread calls succeed; and no thread has to
  -- wake for no reason for that: one that sleeps and is to go on was signalled since it sleeps.
  pub no_deadlock :
      (p : Pthread)
      → IsWorking p
      → (seen n : ℕ) (d : Datagram) → s.network ≡ waiting seen n d
      → s.disk ≢ ended
      → (t : System) × Step h true s t
  no_deadlock p w seen n d e alive =
      let inv = Reach-Inv reach in
      let f : NetworkFacts s.ring (waiting seen n d) = subst (NetworkFacts s.ring) e inv.net in
      elim (dec_lt seen s.ring.space_signals) [
        | yes woken ↦ (
          _,
          wake p (λ _. woken) e
              (reserve_from-done p w n s.ring inv.valid f.0 (f.2.signalled woken)),
        )
        | no asleep ↦
            let full = f.2.unsignalled (omega (arith, f.2.before)) in
            disk-Step p w (omega (arith, full)) s.disk refl alive
      ]

  stuck :
      {strict : Bool} {seen n : ℕ} {d : Datagram} {t : System}
      → Step h strict s t
      → s.network ≡ waiting seen n d
      → s.disk ≡ ended
      → s.ring.count_data ≡ max_blocks_queued
      → ⊥
  stuck (reserve p _ e' c) e gone full = cc
  stuck (sleep p _ e' c) e gone full = cc
  stuck (wake p woken e' c) e gone full =
      omega (arith, (reserve_from_inv p (Reach-Inv reach).valid c).3)
  stuck (copy e') e gone full = cc
  stuck (confirm p e' c) e gone full = cc
  stuck (peek p e' c) e gone full = cc
  stuck (doze p e' c) e gone full = cc
  stuck (rouse p woken e' c) e gone full = cc
  stuck (accept e' ne) e gone full = cc
  stuck (quit e' z) e gone full = cc
  stuck (refuse e' ne) e gone full = cc
  stuck (pop p e' c) e gone full = cc

  -- In a reachable state in which the disk thread has returned, after a refused block or the stop
  -- block, and the network thread sleeps on a full ring, there is no next step, not
  -- even of a thread that wakes for no reason: it sleeps forever.
  pub ended_disk_hangs :
      (seen n : ℕ) (d : Datagram)
      → s.network ≡ waiting seen n d
      → s.disk ≡ ended
      → s.ring.count_data ≡ max_blocks_queued
      → (t : System) → ¬ Step h false s t
  ended_disk_hangs seen n d e gone full t st = stuck st e gone full
