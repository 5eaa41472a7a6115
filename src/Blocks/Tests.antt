-- ===== src/Blocks/Tests.antt =====
-- server/io.c and client/io.c: a file of three bytes in blocks of two.
use tsunami_udp.Base.{
  ℕ, ◌+◌, ◌<◌, ◌≤◌, ◌≡◌, sym, subst, ℕ_discrete, refl, inl, arith, true, some, List, [], ◌∷◌, All,
  all_none, all_more,
}
use tsunami_udp.Bitmap.{new_bitmap, got_block, mark_received}
use tsunami_udp.Blocks.{
  File, bytes_from, Reader, seek, offset_of, read_block, build_datagram, Disk, save_all,
}
use tsunami_udp.Blocks.Reading.{IsSynced, build_datagram_lem, build_datagram-IsBlock}
use tsunami_udp.Blocks.Writing.{IsWorking, IsFileBlock, file_block, save_all_lem}
use tsunami_udp.Receive.{
  Env, finished, ts_block_original, ts_block_terminate, receive_round, handle, insert_block,
  follow_up, queue_retransmits, request_range, send_stats, advance_gapless, at_end,
}
use tsunami_udp.Retransmit.{new_rexmit}
use tsunami_udp.Retransmit.Repeat.{working}
use tsunami_udp.Ring.{
  Datagram, ring_create, ring_full, queue_datagram, ring_reserve, reserve_from, ring_confirm,
  take_datagram, ring_peek, ring_pop,
}
use tsunami_udp.Transfer.{
  start_client, Transfer, Event, disk_turn, net_turn, turn, turns, net_step, disk_step, started,
}
use tsunami_udp.Transfer.Delivery.{occurrences, IsFair}
use tsunami_udp.Transfer.Origin.{Brings, brings_none, brings}
use tsunami_udp.Wire.{little, big, load32, load16, htonl, htons}

abbrev source : File
source = record { at = λ i. i + 1; size = 3 }

abbrev blank : Datagram
blank = 0 ∷ 0 ∷ 0 ∷ 0 ∷ 0 ∷ 0 ∷ 0 ∷ 0 ∷ []

abbrev reader : Reader
reader = record { file = source; pos = 0; last_block = 0 }

reader-IsSynced : IsSynced 2 reader
reader-IsSynced = record { place = inl refl; small = omega arith }

abbrev first_block : Datagram
first_block = (build_datagram big 2 1 ts_block_original blank reader).0

-- Built out of turn.
abbrev last_block : Datagram
last_block = (build_datagram big 2 2 ts_block_terminate blank reader).0

last_bytes : last_block ≡ 0 ∷ 0 ∷ 0 ∷ 2 ∷ 0 ∷ b'X' ∷ 3 ∷ 0 ∷ []
unfolding build_datagram read_block bytes_from htonl htons
last_bytes = refl

build_datagram_lem_example :
    let built = build_datagram big 2 1 ts_block_original blank reader in
    (built.0 ≡ (read_block big 2 1 ts_block_original blank (seek (offset_of 2 1) reader)).0)
    × IsSynced 2 built.1
    × (built.1.file ≡ source)
build_datagram_lem_example =
    build_datagram_lem big 2 1 ts_block_original blank reader (omega arith) (omega arith)
      reader-IsSynced

first-IsFileBlock : IsFileBlock little 2 source first_block
first-IsFileBlock =
    file_block little 2 source 1
      (build_datagram-IsBlock big little 2 1 ts_block_original blank reader (omega arith)
        (omega arith) (omega arith) (omega arith) (omega arith) reader-IsSynced)
      (omega arith) (omega arith)

last-IsFileBlock : IsFileBlock little 2 source last_block
last-IsFileBlock =
    file_block little 2 source 2
      (build_datagram-IsBlock big little 2 2 ts_block_terminate blank reader (omega arith)
        (omega arith) (omega arith) (omega arith) (omega arith) reader-IsSynced)
      (omega arith) (omega arith)

abbrev disk : Disk
disk = record { seek_works = true; write_works = true }

abbrev empty : File
empty = record { at = λ i. 0; size = 0 }

both_blocks :
    (occurrences little 1 (last_block ∷ first_block ∷ []) ≡ 1)
    × (occurrences little 2 (last_block ∷ first_block ∷ []) ≡ 1)
unfolding occurrences build_datagram read_block bytes_from htonl htons load32
both_blocks = (refl, refl)

each_block : (b : ℕ) → 0 < b → b ≤ 2 → 0 < occurrences little b (last_block ∷ first_block ∷ [])
each_block b lo hi = elim (ℕ_discrete b 1) [
  | yes e ↦
      subst (λ k. 0 < occurrences little k (last_block ∷ first_block ∷ [])) (sym e)
        (omega (arith, both_blocks))
  | no ne ↦
      subst (λ k. 0 < occurrences little k (last_block ∷ first_block ∷ [])) {x = 2} (omega arith)
        (omega (arith, both_blocks))
]

disk-IsWorking : IsWorking disk
disk-IsWorking = record { seek = refl; write = refl }

save_all_lem_example :
    (g : File) × (save_all little 2 3 2 disk (last_block ∷ first_block ∷ []) empty ≡ some g)
    × (g.size ≡ 3)
    × ((i : ℕ) → i < 3 → g.at i ≡ i + 1)
save_all_lem_example =
    save_all_lem little 2 source disk (last_block ∷ first_block ∷ []) empty (omega arith)
      (omega arith) disk-IsWorking (all_more last-IsFileBlock (all_more first-IsFileBlock all_none))
      each_block refl

abbrev env : Env
env = record {
  receive_works = true;
  realloc_works = true;
  control = working;
  pthread = record { lock = 0; unlock = 0; signal = 0; wait = 0 };
  lossless = true;
  losswindow_ms = 0;
  window_blocks = 0;
  elapsed = 0;
  error_rate = 0;
}

abbrev events : List Event
events =
    net_turn env first_block
    ∷ disk_turn env.pthread
    ∷ net_turn env last_block
    ∷ disk_turn env.pthread
    ∷ []

events-IsFair : All (IsFair little) events
unfolding IsFair
events-IsFair =
    all_more (refl, omega arith, first-IsFileBlock.pos)
      (all_more (omega arith)
        (all_more (refl, omega arith, last-IsFileBlock.pos) (all_more (omega arith) all_none)))

events-Brings : All (Brings (IsFileBlock little 2 source)) events
events-Brings =
    all_more (brings first-IsFileBlock)
      (all_more brings_none (all_more (brings last-IsFileBlock) (all_more brings_none all_none)))

abbrev ended : Transfer
ended = turns little events (started (start_client 2 2 0 (λ i. [])))

events_end : (ended.verdict ≡ finished) × (ended.client.ring.count_data ≡ 0)
unfolding turns turn net_step disk_step take_datagram ring_peek ring_pop receive_round handle
    insert_block follow_up queue_retransmits request_range send_stats advance_gapless at_end
    start_client ring_create ring_full queue_datagram ring_reserve reserve_from ring_confirm load32
    load16 htonl htons got_block mark_received new_bitmap new_rexmit build_datagram read_block
    bytes_from
events_end = (refl, refl)
