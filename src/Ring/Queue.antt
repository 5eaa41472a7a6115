-- ===== src/Ring/Queue.antt =====
-- client/ring.c: with one writer the ring is a bounded queue, and its calls are total.
use tsunami_udp.Base.{
  ℕ, ◌+◌, ◌<◌, ◌≡◌, refl, ap₂, true, false, not, ◌==◌, ◌∙◌, arith, [], ◌∷◌, ◌++◌,
}
use tsunami_udp.Ring.{
  Datagram, max_blocks_queued, Ring, Pthread, done, blocked, ring_confirm, ring_peek, ring_pop,
  ring_reserve, reserve_from, queue_datagram, take_datagram, write_slot, reserved, popped,
  confirmed, ring_full,
}
use tsunami_udp.Ring.Invariant.{IsValid}
use tsunami_udp.Ring.Refine.{
  contents, tail_slot, contents-popped, contents-confirmed, contents-write_slot,
}

-- The calls of the pthreads library succeed.
pub record IsWorking (p : Pthread) : Type 0 where
  pub lock : p.lock ≡ 0
  pub unlock : p.unlock ≡ 0
  pub signal : p.signal ≡ 0
  pub wait : p.wait ≡ 0

-- What a queue of datagrams looks like once one has joined it.
pub record Joined (r : Ring) (d : Datagram) (r' : Ring) : Type 0 where
  pub valid : IsValid r'
  pub unreserved : r'.count_reserved ≡ 0
  pub count : r'.count_data ≡ r.count_data + 1
  pub order : contents r' ≡ contents r ++ d ∷ []

abbrev pub joined : Ring → Datagram → Ring
joined r d = confirmed (write_slot (tail_slot r) d (reserved (tail_slot r) r))

module _ (p : Pthread) (w : IsWorking p) where
  pub ring_reserve-done :
      (r : Ring)
      → IsValid r
      → r.count_reserved ≡ 0
      → r.count_data < max_blocks_queued
      → ring_reserve p r ≡ done (tail_slot r, reserved (tail_slot r) r)
  unfolding ring_reserve
  ring_reserve-done r v e h =
      let here : r.base_data + r.count_data + r.count_reserved ≡ r.base_data + r.count_data =
        omega arith in
      let ready : r.space_ready ≡ true = ground arith in rw (here, w.lock, ready, e, w.unlock)

  pub reserve_from-done :
      (n : ℕ) (r : Ring)
      → IsValid r
      → r.count_reserved ≡ 0
      → r.count_data < max_blocks_queued
      → reserve_from p n r ≡ done (n, reserved n r)
  unfolding reserve_from
  reserve_from-done n r v e h =
      let ready : r.space_ready ≡ true = ground arith in rw (ready, e, w.unlock)

  pub ring_reserve-full :
      (r : Ring)
      → IsValid r
      → r.count_reserved ≡ 0
      → r.count_data ≡ max_blocks_queued
      → ring_reserve p r ≡ blocked
  unfolding ring_reserve
  ring_reserve-full r v e h = ground arith

  pub ring_confirm-done : (r : Ring) → 0 < r.count_reserved → ring_confirm p r ≡ done (confirmed r)
  unfolding ring_confirm
  ring_confirm-done r h =
      let some_reserved : (r.count_reserved == 0) ≡ false = ground arith in
      rw (w.lock, some_reserved, w.signal, w.unlock)

  pub ring_peek-done : (r : Ring) → IsValid r → 0 < r.count_data → ring_peek p r ≡ done r.base_data
  unfolding ring_peek
  ring_peek-done r v h =
      let ready : r.data_ready ≡ true = ground arith in rw (w.lock, ready, w.unlock)

  pub ring_pop-done : (r : Ring) → IsValid r → 0 < r.count_data → ring_pop p r ≡ done (popped r)
  unfolding ring_pop
  ring_pop-done r v h =
      let ready : r.data_ready ≡ true = ground arith in rw (w.lock, ready, w.signal, w.unlock)

  -- In a valid ring with no reservation open, `ring_full` says exactly whether all slots hold data,
  -- if the pthread calls succeed.
  pub ring_full_lem :
      (r : Ring)
      → IsValid r
      → r.count_reserved ≡ 0
      → ring_full p r ≡ done (r.count_data == max_blocks_queued)
  unfolding ring_full
  ring_full_lem r v e =
      let same : not r.space_ready ≡ (r.count_data == max_blocks_queued) = ground arith in
      rw (w.lock, w.unlock, same)

  queue_datagram-joined :
      (r : Ring) (d : Datagram)
      → IsValid r
      → r.count_reserved ≡ 0
      → r.count_data < max_blocks_queued
      → queue_datagram p d r ≡ done (joined r d)
  unfolding queue_datagram
  queue_datagram-joined r d v e h =
      rw (ring_reserve-done r v e h)
        (ring_confirm-done (write_slot (tail_slot r) d (reserved (tail_slot r) r)) (omega arith))

joined-Joined :
    (r : Ring) (d : Datagram)
    → IsValid r
    → r.count_reserved ≡ 0
    → r.count_data < max_blocks_queued
    → Joined r d (joined r d)
joined-Joined r d v e h = record {
  valid = ground arith;
  unreserved = omega arith;
  count = refl;
  order =
      contents-confirmed (write_slot (tail_slot r) d (reserved (tail_slot r) r)) v.base_in
      ∙ ap₂ (λ w x. w ++ x ∷ []) (contents-write_slot d r v.base_in h) (ground arith);
}

-- With room in the ring and no reservation open, reserving a slot, copying a datagram in and
-- confirming returns a valid ring with no reservation, which holds the same datagrams as before in
-- the same order and the new one behind them, if the pthread calls succeed.
pub queue_datagram_lem :
    (p : Pthread) (r : Ring) (d : Datagram)
    → IsWorking p
    → IsValid r
    → r.count_reserved ≡ 0
    → r.count_data < max_blocks_queued
    → (r' : Ring) × (queue_datagram p d r ≡ done r') × Joined r d r'
queue_datagram_lem p r d w v e h =
    (joined r d, queue_datagram-joined p w r d v e h, joined-Joined r d v e h)

pub take_datagram-popped :
    (p : Pthread) (r : Ring)
    → IsWorking p
    → IsValid r
    → 0 < r.count_data
    → take_datagram p r ≡ done (r.datagrams r.base_data, popped r)
unfolding take_datagram
take_datagram-popped p r w v h = rw (ring_peek-done p w r v h, ring_pop-done p w r v h) refl

pub take_datagram-empty :
    (p : Pthread) (r : Ring)
    → IsWorking p
    → IsValid r
    → r.count_data ≡ 0
    → take_datagram p r ≡ blocked
unfolding take_datagram ring_peek
take_datagram-empty p r w v e =
    let not_ready : r.data_ready ≡ false = ground arith in rw (w.lock, not_ready, w.wait) refl

-- With data in the ring, peeking and popping returns the oldest datagram and a valid ring that
-- holds the others in the same order, if the pthread calls succeed.
take_datagram_lem :
    (p : Pthread) (r : Ring)
    → IsWorking p
    → IsValid r
    → 0 < r.count_data
    → (d : Datagram) × (r' : Ring) × (take_datagram p r ≡ done (d, r'))
      × (contents r ≡ d ∷ contents r')
      × IsValid r'
take_datagram_lem p r w v h = (
  r.datagrams r.base_data,
  popped r,
  take_datagram-popped p r w v h,
  contents-popped r h,
  ground arith,
)
