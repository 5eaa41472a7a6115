-- ===== src/Closing.antt =====
-- client/command.c: what `command_get` does after its loop, up to the count of the lost blocks.
pub mod Stop
mod Tests
use tsunami_udp.Base.{ℕ, ◌+◌, ◌&&◌, Bool, true, false, if◌then◌else◌, List, [], ◌∷◌, ◌++◌, drop}
use tsunami_udp.Bitmap.{count_lost}
use tsunami_udp.Message.{Request, request_stop}
use tsunami_udp.Receive.{Client}
use tsunami_udp.Retransmit.{Control}
use tsunami_udp.Ring.{
  Datagram, Ring, Pthread, Outcome, ◌>>=◌, done, blocked, null, fatal, ring_reserve, ring_confirm,
  write_slot,
}

abbrev pub stop_request : Request
stop_request = record { request_type = request_stop; block = 0; error_rate = 0 }

-- `ttp_request_stop`: the client with what was sent, and whether the call returned 0.
unfoldable pub ttp_request_stop : Control → Client → Client × Bool
ttp_request_stop k c =
    if k.write_works
    then (record c { requests = c.requests ++ stop_request ∷ [] }, k.flush_works)
    else (c, false)

-- "add a stop block to the ring buffer": only the block number of the slot is written.
abbrev pub stop_datagram : Datagram → Datagram
stop_datagram old = 0 ∷ 0 ∷ 0 ∷ 0 ∷ drop 4 old

unfoldable pub queue_stop : Pthread → Ring → Outcome Ring
queue_stop p r = do
  (slot, r') ← ring_reserve p r
  ring_confirm p (write_slot slot (stop_datagram (r'.datagrams slot)) r')

-- How the end goes: the client with the number of lost blocks, `goto abort`, or a call on the ring that
-- does not return.
pub data Closed : Type 0 where
  closed : Client → (total_lost : ℕ) → Closed
  gave_up : Client → Closed
  stuck : Closed

unfoldable pub close_transfer : Control → Pthread → Client → Closed
close_transfer k p c =
    let (c', ok) = ttp_request_stop k c in
    if ok
    then (elim (queue_stop p c'.ring) [
      | done r ↦
          let x = c'.progress in
          closed (record c' { ring = r }) (count_lost x.block_count x.received x.block_count)
      | blocked ↦ stuck
      | null ↦ stuck
      | fatal ↦ stuck
    ])
    else gave_up c'
