-- ===== src/Transfer.antt =====
-- client/command.c: a transfer from its start through any sequence of rounds of the receive loop and
-- turns of the disk thread.
pub mod Delivery
pub mod Exact
pub mod Origin
mod Tests
use tsunami_udp.Base.{ℕ, ◌+◌, List, [], ◌∷◌, ◌++◌, false}
use tsunami_udp.Bitmap.{new_bitmap}
use tsunami_udp.Receive.{
  Client, Env, Verdict, again, finished, aborted, exited, asleep, receive_round,
}
use tsunami_udp.Retransmit.{new_rexmit}
use tsunami_udp.Ring.{Datagram, Pthread, done, blocked, null, fatal, ring_create, take_datagram}
use tsunami_udp.Wire.{Host}

-- The client when it starts to receive a file of `n` blocks.
unfoldable pub start_client : (block_size n on_wire_estimate : ℕ) → (ℕ → Datagram) → Client
start_client block_size n on_wire_estimate garbage = record {
  progress = record {
    block_count = n;
    received = new_bitmap n;
    next_block = 1;
    gapless_to_block = 0;
    rexmit = new_rexmit;
    restart_pending = false;
    restart_lastidx = 0;
    restart_wireclearidx = 0;
    on_wire_estimate = on_wire_estimate;
    this_retransmits = 0;
    total_retransmits = 0;
  };
  ring = ring_create block_size garbage;
  blocks_left = n;
  total_blocks = 0;
  this_flow_originals = 0;
  this_flow_retransmitteds = 0;
  total_recvd_retransmits = 0;
  requests = [];
}

-- `saved` is what the disk thread took from the ring, in order.
pub record Transfer : Type 0 where
  pub client : Client
  pub saved : List Datagram
  pub verdict : Verdict

-- The disk thread takes a datagram, or the receive loop runs once with one.
pub data Event : Type 0 where
  disk_turn : Pthread → Event
  net_turn : Env → Datagram → Event

-- One more round, unless the loop has ended with the verdict.
unfoldable pub net_step : Host → Env → Datagram → Transfer → Verdict → Transfer
net_step h env d t again =
    let r = receive_round h env d t.client in record t { client = r.client; verdict = r.verdict }
net_step h env d t finished = t
net_step h env d t aborted = t
net_step h env d t exited = t
net_step h env d t asleep = t

-- On an empty ring the disk thread sleeps.
unfoldable pub disk_step : Pthread → Transfer → Transfer
disk_step p t = elim (take_datagram p t.client.ring) [
  | done (d, r) ↦ record t { client = record (t.client) { ring = r }; saved = t.saved ++ d ∷ [] }
  | blocked ↦ t
  | null ↦ t
  | fatal ↦ record t { verdict = exited }
]

unfoldable pub turn : Host → Event → Transfer → Transfer
turn h (disk_turn p) t = disk_step p t
turn h (net_turn env d) t = net_step h env d t t.verdict

unfoldable pub turns : Host → List Event → Transfer → Transfer
turns h [] t = t
turns h (e ∷ es) t = turns h es (turn h e t)

abbrev pub started : Client → Transfer
started c = record { client = c; saved = []; verdict = again }
