-- ===== src/Ring/Refine.antt =====
-- client/ring.c: the ring buffer as a queue of datagrams, oldest first.
use tsunami_udp.Base.{
  ℕ, zero, suc, ◌+◌, ◌-◌, ◌%◌, ◌≤◌, ◌<◌, ◌≡◌, ◌≢◌, refl, ap, ap₂, ◌∙◌, arith, List, [], ◌∷◌, ◌++◌,
  ◌==◌, if◌then◌else◌,
}
use tsunami_udp.Ring.{
  Datagram, max_blocks_queued, Ring, Pthread, done, ring_confirm, ring_peek, ring_pop, ring_reserve,
  reserve_from, next_slot, write_slot, popped, confirmed, reserved,
}
use tsunami_udp.Ring.Invariant.{IsValid}

-- The `n` datagrams from slot `h` on, going round at the end of the buffer.
abbrev pub window : (ℕ → Datagram) → ℕ → ℕ → List Datagram
window m h zero = []
window m h (suc n) = m h ∷ window m ((h + 1) % max_blocks_queued) n

abbrev pub contents : Ring → List Datagram
contents r = window r.datagrams r.base_data r.count_data

-- The slot after the data: the one that is reserved, or that will be.
abbrev pub tail_slot : Ring → ℕ
tail_slot r = (r.base_data + r.count_data) % max_blocks_queued

window-cons :
    (m : ℕ → Datagram) (h n : ℕ)
    → n ≢ 0
    → window m h n ≡ m h ∷ window m ((h + 1) % max_blocks_queued) (n - 1)
window-cons m h zero p = absurd (p refl)
window-cons m h (suc n) p = ap (λ k. window m h (suc k)) (omega arith)

window-append :
    (m : ℕ → Datagram) (h n : ℕ)
    → h < max_blocks_queued
    → window m h (suc n) ≡ window m h n ++ m ((h + n) % max_blocks_queued) ∷ []
window-append m h zero b = ap (λ k. m k ∷ []) (omega arith)
window-append m h (suc n) b =
    ap (λ w. m h ∷ w)
      (window-append m ((h + 1) % max_blocks_queued) n (omega arith)
        ∙ ap (λ k. window m ((h + 1) % max_blocks_queued) n ++ m k ∷ []) (omega arith))

-- A write to a slot outside the window leaves the window alone.
window-write :
    (m : ℕ → Datagram) (slot : ℕ) (d : Datagram) (h n k : ℕ)
    → h < max_blocks_queued
    → n ≤ k
    → k < max_blocks_queued
    → slot ≡ (h + k) % max_blocks_queued
    → window (λ i. if i == slot then d else m i) h n ≡ window m h n
window-write m slot d h zero k b le kb e = refl
window-write m slot d h (suc n) zero b le kb e = absurd (omega arith)
window-write m slot d h (suc n) (suc k) b le kb e = ap₂ ◌∷◌ (ground arith) (
    window-write m slot d ((h + 1) % max_blocks_queued) n k (omega arith) (omega arith)
      (omega arith) (omega arith))

-- What a call that returns has done, and that it was allowed to.
pub ring_pop_inv :
    (p : Pthread) {r r' : Ring}
    → IsValid r
    → ring_pop p r ≡ done r'
    → (r' ≡ popped r) × (0 < r.count_data)
unfolding ring_pop
ring_pop_inv p v e = ground arith

pub ring_confirm_inv :
    (p : Pthread) (r : Ring) {r' : Ring}
    → ring_confirm p r ≡ done r'
    → (r' ≡ confirmed r) × (0 < r.count_reserved)
unfolding ring_confirm
ring_confirm_inv p r e = ground arith

pub ring_peek_inv :
    (p : Pthread) {r : Ring} {slot : ℕ}
    → IsValid r
    → ring_peek p r ≡ done slot
    → (slot ≡ r.base_data) × (0 < r.count_data)
unfolding ring_peek
ring_peek_inv p v e = ground arith

pub reserve_from_inv :
    (p : Pthread) {next slot : ℕ} {r r' : Ring}
    → IsValid r
    → reserve_from p next r ≡ done (slot, r')
    → (slot ≡ next)
      × (r' ≡ reserved next r)
      × (r.count_reserved ≡ 0)
      × (r.count_data < max_blocks_queued)
unfolding reserve_from
reserve_from_inv p v e = ground arith

pub ring_reserve_inv :
    (p : Pthread) {slot : ℕ} {r r' : Ring}
    → IsValid r
    → ring_reserve p r ≡ done (slot, r')
    → (slot ≡ tail_slot r)
      × (r' ≡ reserved (tail_slot r) r)
      × (r.count_reserved ≡ 0)
      × (r.count_data < max_blocks_queued)
unfolding ring_reserve
ring_reserve_inv p v e = ground arith

-- The oldest datagram leaves, and the others stay in their order.
pub contents-popped :
    (r : Ring) → 0 < r.count_data → contents r ≡ r.datagrams r.base_data ∷ contents (popped r)
contents-popped r h = window-cons r.datagrams r.base_data r.count_data (omega arith)

-- A confirmation appends what stands in the slot after the data.
pub contents-confirmed :
    (r : Ring)
    → r.base_data < max_blocks_queued
    → contents (confirmed r) ≡ contents r ++ r.datagrams (tail_slot r) ∷ []
contents-confirmed r b =
    ap (window r.datagrams r.base_data) {y = suc r.count_data} (omega arith)
    ∙ window-append r.datagrams r.base_data r.count_data b

-- Writing through the pointer to the reserved slot touches none of the data.
pub contents-write_slot :
    (d : Datagram) (r : Ring)
    → r.base_data < max_blocks_queued
    → r.count_data < max_blocks_queued
    → contents (write_slot (tail_slot r) d r) ≡ contents r
contents-write_slot d r b h =
    window-write r.datagrams (tail_slot r) d r.base_data r.count_data r.count_data b (omega arith) h
      refl

-- While a writer waits for space the slot that it has computed stays the right one.
pub next_slot-popped :
    (r : Ring) → IsValid r → 0 < r.count_data → next_slot (popped r) ≡ next_slot r
next_slot-popped r v h = omega arith
