-- ===== src/Ring.antt =====
-- client/ring.c: the ring buffer between the network thread and the disk thread.
-- `done` is a call that returns, `blocked` one that sleeps on its condition variable, `null` one
-- that warns and returns NULL, `fatal` one that calls error() and so exits the process.
pub mod Invariant
pub mod Refine
pub mod Queue
pub mod Threads
mod Tests
use tsunami_udp.Base.{ℕ, ◌+◌, ◌-◌, ◌*◌, ◌%◌, Bool, true, false, not, ◌==◌, if◌then◌else◌, List, leb}

-- A datagram is its bytes: six of header, then the block.
abbrev pub Datagram : Type 0
Datagram = List ℕ

abbrev pub max_blocks_queued : ℕ
max_blocks_queued = 4096

-- `ring_buffer_t`. The buffer is addressed by slots: slot `i` starts at byte `i * datagram_size`.
-- The last two fields are the state of the two condition variables: how often each was signalled.
pub record Ring : Type 0 where
  pub datagrams : ℕ → Datagram
  pub datagram_size : ℕ
  pub base_data : ℕ
  pub count_data : ℕ
  pub count_reserved : ℕ
  pub data_ready : Bool
  pub space_ready : Bool
  pub data_signals : ℕ
  pub space_signals : ℕ

-- What the calls of the pthreads library return; 0 is success.
pub record Pthread : Type 0 where
  pub lock : ℕ
  pub unlock : ℕ
  pub signal : ℕ
  pub wait : ℕ

pub data Outcome {ℓ} (A : Type ℓ) : Type ℓ where
  done : A → Outcome A
  blocked : Outcome A
  null : Outcome A
  fatal : Outcome A

-- `if (status != 0) error(...)`
abbrev pub or_error {ℓ} : {A : Type ℓ} → ℕ → Outcome A → Outcome A
or_error status k = if status == 0 then k else fatal

-- `if (status != 0) { warn(...); return NULL; }`
abbrev pub or_null {ℓ} : {A : Type ℓ} → ℕ → Outcome A → Outcome A
or_null status k = if status == 0 then k else null

unfoldable pub ring_full : Pthread → Ring → Outcome Bool
ring_full p r = or_error p.lock (or_error p.unlock (done (not r.space_ready)))

-- `--count_reserved < 0` is the test that there is nothing to cancel.
unfoldable pub ring_cancel : Pthread → Ring → Outcome Ring
ring_cancel p r = or_error p.lock (
    if r.count_reserved == 0
    then fatal
    else or_error p.signal (
        or_error p.unlock (
          done (record r {
            count_reserved = r.count_reserved - 1;
            space_ready = true;
            space_signals = r.space_signals + 1;
          }))))

abbrev pub confirmed : Ring → Ring
confirmed r = record r {
  count_data = r.count_data + 1;
  count_reserved = r.count_reserved - 1;
  data_ready = true;
  data_signals = r.data_signals + 1;
}

unfoldable pub ring_confirm : Pthread → Ring → Outcome Ring
ring_confirm p r = or_error p.lock (
    if r.count_reserved == 0
    then fatal
    else or_error p.signal (or_error p.unlock (done (confirmed r))))

-- `ring_create`, with the block size of the session and what malloc left in the buffer. The
-- calls that allocate and initialise succeed: each one that fails is an error().
unfoldable pub ring_create : (block_size : ℕ) → (ℕ → Datagram) → Ring
ring_create block_size garbage = record {
  datagrams = garbage;
  datagram_size = 6 + block_size;
  base_data = 0;
  count_data = 0;
  count_reserved = 0;
  data_ready = false;
  space_ready = true;
  data_signals = 0;
  space_signals = 0;
}

-- The slot of the datagram at the head.
unfoldable pub ring_peek : Pthread → Ring → Outcome ℕ
ring_peek p r =
    or_null p.lock
      (if r.data_ready then or_null p.unlock (done r.base_data) else or_null p.wait blocked)

-- The code decrements `count_data` and tests it for 0, so the flag falls from a count of 1.
abbrev pub popped : Ring → Ring
popped r = record r {
  base_data = (r.base_data + 1) % max_blocks_queued;
  count_data = r.count_data - 1;
  data_ready = if r.count_data == 1 then false else r.data_ready;
  space_ready = true;
  space_signals = r.space_signals + 1;
}

unfoldable pub ring_pop : Pthread → Ring → Outcome Ring
ring_pop p r = or_error p.lock (
    if r.data_ready
    then or_error p.signal (or_error p.unlock (done (popped r)))
    else or_error p.wait blocked)

-- The slot that `ring_reserve` computes before it waits.
abbrev pub next_slot : Ring → ℕ
next_slot r = (r.base_data + r.count_data + r.count_reserved) % max_blocks_queued

abbrev pub reserved : ℕ → Ring → Ring
reserved next r = record r {
  count_reserved = r.count_reserved + 1;
  space_ready = if (next + 1) % max_blocks_queued == r.base_data then false else r.space_ready;
}

-- The part of `ring_reserve` from its `while` on, run with the mutex held.
unfoldable pub reserve_from : Pthread → ℕ → Ring → Outcome (ℕ × Ring)
reserve_from p next r =
    if r.space_ready
    then if r.count_reserved == 0 then or_error p.unlock (done (next, reserved next r)) else fatal
    else or_error p.wait blocked

unfoldable pub ring_reserve : Pthread → Ring → Outcome (ℕ × Ring)
unfolding reserve_from
ring_reserve p r = or_error p.lock (reserve_from p (next_slot r) r)

-- The writes through the pointer that `ring_reserve` returned.
abbrev pub write_slot : ℕ → Datagram → Ring → Ring
write_slot slot d r = record r { datagrams = λ i. if i == slot then d else r.datagrams i }

-- One statement after another: what does not return ends the sequence.
infixl 5 ◌>>=◌
abbrev pub ◌>>=◌ {ℓ κ} : {A : Type ℓ} {B : Type κ} → Outcome A → (A → Outcome B) → Outcome B
done a >>= f = f a
blocked >>= f = blocked
null >>= f = null
fatal >>= f = fatal

-- `command_get`: reserve ring space, copy the datagram in, confirm the reservation.
unfoldable pub queue_datagram : Pthread → Datagram → Ring → Outcome Ring
queue_datagram p d r = do (slot, r') ← ring_reserve p r; ring_confirm p (write_slot slot d r')

-- `disk_thread`, when its block was accepted: the datagram at the head, and the ring without it.
unfoldable pub take_datagram : Pthread → Ring → Outcome (Datagram × Ring)
take_datagram p r = do slot ← ring_peek p r; r' ← ring_pop p r; done (r.datagrams slot, r')
