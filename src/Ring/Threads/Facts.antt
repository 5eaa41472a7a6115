-- ===== src/Ring/Threads/Facts.antt =====
-- client/command.c and client/ring.c: what the place of each thread says of the ring.
use tsunami_udp.Base.{
  ℕ, ◌+◌, ◌-◌, ◌≤◌, ◌<◌, ◌≡◌, refl, ap, sym, ◌∙◌, arith, List, [], ◌∷◌, ◌++◌, ◌%◌,
}
use tsunami_udp.Ring.{
  Datagram, max_blocks_queued, Ring, write_slot, popped, confirmed, reserved, Pthread, blocked,
  ring_reserve, ring_peek,
}
use tsunami_udp.Ring.Invariant.{IsValid}
use tsunami_udp.Ring.Refine.{window, contents, tail_slot, contents-confirmed, contents-write_slot}
use tsunami_udp.Ring.Threads.{
  NetworkPc, receiving, waiting, holding, written, DiskPc, looking, dozing, peeked, stored, ended,
}

-- No signal since the network thread sleeps: the ring is full. Since a signal there is room.
pub record FullSince (r : Ring) (seen : ℕ) : Type 0 where
  pub before : seen ≤ r.space_signals
  pub unsignalled : r.space_signals ≡ seen → r.count_data ≡ max_blocks_queued
  pub signalled : seen < r.space_signals → r.count_data < max_blocks_queued

-- No signal since the disk thread sleeps: the ring is empty.
pub record EmptySince (r : Ring) (seen : ℕ) : Type 0 where
  pub before : seen ≤ r.data_signals
  pub unsignalled : r.data_signals ≡ seen → r.count_data ≡ 0

-- What the network thread's place says of the ring.
abbrev pub NetworkFacts : Ring → NetworkPc → Type 0
NetworkFacts r receiving = r.count_reserved ≡ 0
NetworkFacts r (waiting seen n d) = (r.count_reserved ≡ 0) × (n ≡ tail_slot r) × FullSince r seen
NetworkFacts r (holding slot d) =
    (r.count_reserved ≡ 1) × (r.count_data < max_blocks_queued) × (slot ≡ tail_slot r)
NetworkFacts r (written slot d) =
    (r.count_reserved ≡ 1) × (slot ≡ tail_slot r) × (r.datagrams slot ≡ d)

-- What the disk thread's place says of the ring, and which datagrams are still to be saved.
abbrev pub unsaved : Ring → DiskPc → List Datagram
unsaved r (stored slot) = contents (popped r)
unsaved r _ = contents r

abbrev pub DiskFacts : Ring → DiskPc → Type 0
DiskFacts r (peeked slot) = (slot ≡ r.base_data) × (0 < r.count_data)
DiskFacts r (stored slot) = (slot ≡ r.base_data) × (0 < r.count_data)
DiskFacts r (dozing seen) = EmptySince r seen
DiskFacts r _ = Unit

module _ (r : Ring) (b : r.base_data < max_blocks_queued) where
  pub unsaved-confirmed :
      (pc : DiskPc)
      → DiskFacts r pc
      → unsaved (confirmed r) pc ≡ unsaved r pc ++ r.datagrams (tail_slot r) ∷ []
  unsaved-confirmed (stored slot) f =
      let there : tail_slot (popped r) ≡ tail_slot r = omega arith in
      let count : r.count_data + 1 - 1 ≡ r.count_data - 1 + 1 = omega arith in
      ap (window r.datagrams ((r.base_data + 1) % max_blocks_queued)) count
      ∙ contents-confirmed (popped r) (omega arith)
      ∙ ap (λ k. contents (popped r) ++ r.datagrams k ∷ []) there
  unsaved-confirmed _ f = contents-confirmed r b

  pub unsaved-write_slot :
      (d : Datagram) (pc : DiskPc)
      → DiskFacts r pc
      → r.count_data < max_blocks_queued
      → unsaved (write_slot (tail_slot r) d r) pc ≡ unsaved r pc
  unsaved-write_slot d (stored slot) f h =
      let there : tail_slot (popped r) ≡ tail_slot r = omega arith in
      ap (λ k. contents (write_slot k d (popped r))) (sym there)
      ∙ contents-write_slot d (popped r) (omega arith) (omega arith)
  unsaved-write_slot d _ f h = contents-write_slot d r b h

pub unsaved-reserved : (n : ℕ) (r : Ring) (pc : DiskPc) → unsaved (reserved n r) pc ≡ unsaved r pc
unsaved-reserved n r (stored slot) = refl
unsaved-reserved n r _ = refl

-- The network thread leaves the head alone and does not make data disappear.
pub DiskFacts-keep :
    (r r' : Ring) (pc : DiskPc)
    → r'.base_data ≡ r.base_data
    → r.count_data ≤ r'.count_data
    → ((seen : ℕ) → EmptySince r seen → EmptySince r' seen)
    → DiskFacts r pc
    → DiskFacts r' pc
DiskFacts-keep r r' looking e h k f = tt
DiskFacts-keep r r' (dozing seen) e h k f = k seen f
DiskFacts-keep r r' ended e h k f = tt
DiskFacts-keep r r' (peeked slot) e h k f = omega arith
DiskFacts-keep r r' (stored slot) e h k f = omega arith

pub reserved-IsValid :
    (r : Ring)
    → IsValid r
    → r.count_reserved ≡ 0
    → r.count_data < max_blocks_queued
    → IsValid (reserved (tail_slot r) r)
reserved-IsValid r v e h = ground arith

pub confirmed-IsValid : (r : Ring) → IsValid r → 0 < r.count_reserved → IsValid (confirmed r)
confirmed-IsValid r v h = ground arith

pub popped-IsValid : (r : Ring) → IsValid r → 0 < r.count_data → IsValid (popped r)
popped-IsValid r v h = ground arith

pub NetworkFacts-popped :
    (r : Ring) (pc : NetworkPc)
    → 0 < r.count_data
    → r.count_data ≤ max_blocks_queued
    → NetworkFacts r pc
    → NetworkFacts (popped r) pc
NetworkFacts-popped r receiving h le f = f
NetworkFacts-popped r (waiting seen n d) h le f = (
  f.0,
  omega arith,
  record {
    before = omega (arith, f.2.before);
    unsignalled = λ e. absurd (omega (arith, f.2.before));
    signalled = λ lt. omega arith;
  },
)
NetworkFacts-popped r (holding slot d) h le f = (f.0, omega arith, omega arith)
NetworkFacts-popped r (written slot d) h le f = (f.0, omega arith, f.2)

pub blocked-full :
    (p : Pthread) (r : Ring)
    → IsValid r
    → r.count_reserved ≡ 0
    → ring_reserve p r ≡ blocked
    → r.count_data ≡ max_blocks_queued
unfolding ring_reserve
blocked-full p r v free e = ground arith

pub blocked-empty :
    (p : Pthread) (r : Ring) → IsValid r → ring_peek p r ≡ blocked → r.count_data ≡ 0
unfolding ring_peek
blocked-empty p r v e = ground arith
