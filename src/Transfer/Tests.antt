-- ===== src/Transfer/Tests.antt =====
-- client/command.c: a transfer of two blocks, and the theorems at its rounds.
use tsunami_udp.Base.{
  All, all_none, all_more, ℕ, ◌+◌, ◌≤◌, ◌<◌, ◌≡◌, ◌≢◌, ◌⊎◌, refl, arith, true, false, List, [], ◌∷◌,
  ◌++◌,
}
use tsunami_udp.Bitmap.{new_bitmap, got_block, mark_received, count_lost}
use tsunami_udp.Receive.{
  Client, Env, finished, exited, asleep, ts_block_original, ts_block_terminate,
  ts_block_retransmission, this_block, receive_round, handle, insert_block, follow_up,
  queue_retransmits, request_range, advance_gapless, at_end, send_stats,
}
use tsunami_udp.Receive.Finish.{Dropped, Stored, receive_round_lem}
use tsunami_udp.Receive.Zero.{zero_block_lem}
use tsunami_udp.Receive.Invariant.{IsSound}
use tsunami_udp.Receive.Recover.{Asked, at_end_asks}
use tsunami_udp.Retransmit.{new_rexmit, compact, ttp_repeat_retransmit, ttp_request_retransmit}
use tsunami_udp.Retransmit.Repeat.{working}
use tsunami_udp.Ring.{
  Datagram, ring_create, ring_full, queue_datagram, ring_reserve, reserve_from, ring_confirm,
  take_datagram, ring_peek, ring_pop,
}
use tsunami_udp.Transfer.{
  start_client, Transfer, Event, disk_turn, net_turn, turn, turns, net_step, disk_step, started,
}
use tsunami_udp.Transfer.Delivery.{occurrences, delivered, IsFair, started-IsDelivered}
use tsunami_udp.Transfer.Exact.{finished_delivered}
use tsunami_udp.Wire.{little, be16, be32, load32, load16, htonl, htons}

abbrev env : Env
env = record {
  receive_works = true;
  realloc_works = true;
  control = working;
  pthread = record { lock = 0; unlock = 0; signal = 0; wait = 0 };
  lossless = true;
  losswindow_ms = 0;
  window_blocks = 0;
  elapsed = 0;
  error_rate = 0;
}

-- A datagram with one byte of data.
abbrev datagram : (block type byte : ℕ) → Datagram
datagram block type byte = be32 block ++ be16 type ++ byte ∷ []

abbrev client : ℕ → Client
client n = start_client 1 n 0 (λ i. [])

client-IsSound : (n : ℕ) → n < 100 → IsSound (client n)
client-IsSound n h = (started-IsDelivered little 1 n 0 (λ i. []) (omega arith)).sound

block_read : this_block little (datagram 1 ts_block_terminate 7) ≡ 1
unfolding load32 htonl
block_read = refl

receive_round_lem_example :
    let d = datagram 1 ts_block_terminate 7 in
    let r = receive_round little env d (client 1) in
    Dropped true (this_block little d) (client 1) r ⊎ Stored (this_block little d) d (client 1) r
receive_round_lem_example =
    receive_round_lem little env (datagram 1 ts_block_terminate 7) (client 1) refl (omega arith)
      (omega (arith, block_read)) (client-IsSound 1 (omega arith))

only_round :
    (receive_round little env (datagram 1 ts_block_terminate 7) (client 1)).verdict ≡ finished
unfolding receive_round handle insert_block follow_up queue_retransmits advance_gapless at_end
    start_client ring_create ring_full queue_datagram ring_reserve reserve_from ring_confirm load32
    load16 htonl htons got_block mark_received new_bitmap
only_round = refl

missing_two : got_block 3 (new_bitmap 3) 2 ≡ false
unfolding got_block new_bitmap
missing_two = refl

at_end_asks_example : Asked (client 3).progress 2 (at_end env (client 3)).client.requests
unfolding start_client new_rexmit
at_end_asks_example =
    at_end_asks env (client 3) 2 refl refl refl (client-IsSound 3 (omega arith)) (omega arith)
      (omega arith) (omega arith) (omega arith) missing_two

-- Block 2 comes first, the disk thread takes it, block 1 is sent again, the last block comes again.
abbrev events : List Event
events =
    net_turn env (datagram 2 ts_block_original 8)
    ∷ disk_turn env.pthread
    ∷ net_turn env (datagram 1 ts_block_retransmission 7)
    ∷ net_turn env (datagram 2 ts_block_terminate 8)
    ∷ []

events-AllFair : All (IsFair little) events
unfolding IsFair load32 htonl
events-AllFair =
    all_more (refl, omega arith, omega arith)
      (all_more (omega arith) (
        all_more (refl, omega arith, omega arith)
          (all_more (refl, omega arith, omega arith) all_none)))

abbrev ended : Transfer
ended = turns little events (started (client 2))

events_finish : (ended.verdict ≡ finished) × (ended.saved ≡ datagram 2 ts_block_original 8 ∷ [])
unfolding turns turn net_step disk_step take_datagram ring_peek ring_pop receive_round handle
    insert_block follow_up queue_retransmits request_range ttp_request_retransmit send_stats
    advance_gapless at_end start_client ring_create ring_full queue_datagram ring_reserve
    reserve_from ring_confirm load32 load16 htonl htons got_block mark_received new_bitmap
    new_rexmit
events_finish = (refl, refl)

finished_delivered_example :
    (ended.verdict ≡ finished
      → (b : ℕ) → 0 < b
      → b ≤ 2
      → occurrences little b (delivered ended) ≡ 1)
    × (ended.verdict ≢ exited)
    × (ended.verdict ≢ asleep)
finished_delivered_example =
    finished_delivered little 1 2 0 (λ i. []) events (omega arith) events-AllFair

-- The buffer before the first datagram arrives.
abbrev cleared : Datagram
cleared = 0 ∷ 0 ∷ 0 ∷ 0 ∷ 0 ∷ 0 ∷ 0 ∷ []

zero_block_lem_example :
    let c' =
      (receive_round little (record env { receive_works = false }) cleared (client 2)).client in
    let x = c'.progress in c'.blocks_left + 1 ≡ count_lost x.block_count x.received x.block_count
unfolding start_client got_block new_bitmap load32 load16 htonl htons ring_create
    ttp_repeat_retransmit compact new_rexmit
zero_block_lem_example =
    zero_block_lem little (record env { receive_works = false }) cleared (client 2) (omega arith)
      (client-IsSound 2 (omega arith)) refl (omega arith) refl (omega arith) (omega arith)
      (λ fails. refl)
