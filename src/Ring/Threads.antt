-- ===== src/Ring/Threads.antt =====
-- client/command.c and client/ring.c: the network thread, which fills the ring, and the disk
-- thread, which empties it, interleaved in any order at the calls on the ring.
pub mod Facts
pub mod Invariant
pub mod Safety
mod Tests
use tsunami_udp.Base.{ℕ, ◌<◌, Bool, true, false, ◌≡◌, ◌≢◌, List, [], ◌∷◌, ◌++◌}
use tsunami_udp.Ring.{
  Datagram, Ring, Pthread, done, blocked, ring_create, ring_confirm, ring_peek, ring_pop,
  ring_reserve, reserve_from, next_slot, write_slot,
}
use tsunami_udp.Wire.{Host, load32, ntohl}

-- Where `command_get` stands, with the datagram to be queued: asleep in `ring_reserve` since
-- the condition had been signalled `seen` times, holding the pointer that it returned, or past the `memcpy`.
pub data NetworkPc : Type 0 where
  receiving : NetworkPc
  waiting : (seen next : ℕ) → Datagram → NetworkPc
  holding : (slot : ℕ) → Datagram → NetworkPc
  written : (slot : ℕ) → Datagram → NetworkPc

-- Where `disk_thread` stands: before `ring_peek`, asleep in it since the condition had been signalled
-- `seen` times, with the pointer that it returned, past `accept_block`, or returned.
pub data DiskPc : Type 0 where
  looking : DiskPc
  dozing : (seen : ℕ) → DiskPc
  peeked : (slot : ℕ) → DiskPc
  stored : (slot : ℕ) → DiskPc
  ended : DiskPc

-- `confirmed` is the datagrams queued so far, and `saved` those handed to `accept_block`.
pub record System : Type 0 where
  pub ring : Ring
  pub network : NetworkPc
  pub disk : DiskPc
  pub sent : List Datagram
  pub saved : List Datagram

-- `ntohl(*((u_int32_t *) datagram))`
abbrev pub block_index : Host → Datagram → ℕ
block_index h d = ntohl h (load32 h d)

-- A thread that sleeps wakes once its condition is signalled, or for no reason, which pthreads allow; `strict` excludes
-- the latter. It then tests the flag again; that it finds it down and sleeps on changes nothing.
pub data Step (h : Host) (strict : Bool) (s : System) : System → Type 0 where
  reserve :
      (p : Pthread) (d : Datagram) {slot : ℕ} {r : Ring}
      → s.network ≡ receiving
      → ring_reserve p s.ring ≡ done (slot, r)
      → Step h strict s (record s { ring = r; network = holding slot d })
  sleep :
      (p : Pthread) (d : Datagram)
      → s.network ≡ receiving
      → ring_reserve p s.ring ≡ blocked
      → Step h strict s (record s { network = waiting s.ring.space_signals (next_slot s.ring) d })
  wake :
      (p : Pthread) {d : Datagram} {seen next slot : ℕ} {r : Ring}
      → (strict ≡ true → seen < s.ring.space_signals)
      → s.network ≡ waiting seen next d
      → reserve_from p next s.ring ≡ done (slot, r)
      → Step h strict s (record s { ring = r; network = holding slot d })
  copy :
      {d : Datagram} {slot : ℕ}
      → s.network ≡ holding slot d
      → Step h strict s (record s { ring = write_slot slot d s.ring; network = written slot d })
  confirm :
      (p : Pthread) {d : Datagram} {slot : ℕ} {r : Ring}
      → s.network ≡ written slot d
      → ring_confirm p s.ring ≡ done r
      → Step h strict s (record s { ring = r; network = receiving; sent = s.sent ++ d ∷ [] })
  peek :
      (p : Pthread) {slot : ℕ}
      → s.disk ≡ looking
      → ring_peek p s.ring ≡ done slot
      → Step h strict s (record s { disk = peeked slot })
  doze :
      (p : Pthread)
      → s.disk ≡ looking
      → ring_peek p s.ring ≡ blocked
      → Step h strict s (record s { disk = dozing s.ring.data_signals })
  rouse :
      (p : Pthread) {seen slot : ℕ}
      → (strict ≡ true → seen < s.ring.data_signals)
      → s.disk ≡ dozing seen
      → ring_peek p s.ring ≡ done slot
      → Step h strict s (record s { disk = peeked slot })
  accept :
      {slot : ℕ}
      → s.disk ≡ peeked slot
      → block_index h (s.ring.datagrams slot) ≢ 0
      → Step h strict s
          (record s { disk = stored slot; saved = s.saved ++ s.ring.datagrams slot ∷ [] })
  quit :
      {slot : ℕ}
      → s.disk ≡ peeked slot
      → block_index h (s.ring.datagrams slot) ≡ 0
      → Step h strict s (record s { disk = ended })
  -- `accept_block` fails: the thread returns.
  refuse :
      {slot : ℕ}
      → s.disk ≡ peeked slot
      → block_index h (s.ring.datagrams slot) ≢ 0
      → Step h strict s (record s { disk = ended })
  pop :
      (p : Pthread) {slot : ℕ} {r : Ring}
      → s.disk ≡ stored slot
      → ring_pop p s.ring ≡ done r
      → Step h strict s (record s { ring = r; disk = looking })

-- The threads start on a fresh ring.
abbrev pub start : (block_size : ℕ) → (ℕ → Datagram) → System
start b g = record {
  ring = ring_create b g;
  network = receiving;
  disk = looking;
  sent = [];
  saved = [];
}

pub data Reach (h : Host) (b : ℕ) (g : ℕ → Datagram) : System → Type 0 where
  here : Reach h b g (start b g)
  next : {s t : System} → Reach h b g s → Step h false s t → Reach h b g t
