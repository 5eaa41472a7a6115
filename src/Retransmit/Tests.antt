-- ===== src/Retransmit/Tests.antt =====
-- client/protocol.c: small tables, and the theorems at them.
use tsunami_udp.Base.{
  ℕ, ◌+◌, ◌%◌, ◌^◌, min, ◌<◌, ◌≡◌, refl, arith, true, false, inl, List, [], ◌∷◌, map, length,
  length-replicate, replicate, get_or,
}
use tsunami_udp.Bitmap.{new_bitmap, got_block}
use tsunami_udp.Retransmit.{
  Rexmit, max_retransmission_buffer, new_rexmit, store_request, Progress, ask_again, restart_at,
  compact, ttp_repeat_retransmit,
}
use tsunami_udp.Retransmit.Compact.{keep_wanted}
use tsunami_udp.Retransmit.Repeat.{missing_entries, working, repeat_few, repeat_many}
use tsunami_udp.Retransmit.Table.{IsValid, entries, new_rexmit-IsValid, store_request-IsValid}

abbrev blank : List ℕ
blank = new_bitmap 20000

-- Block 3 twice, 7 in between.
abbrev short_table : Rexmit
short_table = store_request 3 (store_request 7 (store_request 3 new_rexmit))

short_table-IsValid : IsValid short_table
unfolding new_rexmit
short_table-IsValid =
    store_request-IsValid 3 _
      (store_request-IsValid 7 _ (store_request-IsValid 3 _ new_rexmit-IsValid (omega arith))
        (omega arith))
      (omega arith)

abbrev progress : Rexmit → List ℕ → Progress
progress r received = record {
  block_count = 8;
  received = received;
  next_block = 9;
  gapless_to_block = 2;
  rexmit = r;
  restart_pending = false;
  restart_lastidx = 0;
  restart_wireclearidx = 0;
  on_wire_estimate = 8;
  this_retransmits = 0;
  total_retransmits = 0;
}

-- Blocks 1, 2, 4, 5, 6 and 8 were received.
abbrev some_received : List ℕ
some_received = 0x76 ∷ 1 ∷ 0 ∷ []

short_requests :
    (ttp_repeat_retransmit working (progress short_table some_received)).requests
    ≡ ask_again 3 ∷ ask_again 7 ∷ ask_again 3 ∷ []
unfolding ttp_repeat_retransmit compact new_rexmit got_block
short_requests = refl

few : length (missing_entries (progress short_table some_received)) < max_retransmission_buffer
unfolding keep_wanted got_block new_rexmit
few = omega arith

repeat_few_example :
    let x = progress short_table some_received in
    let r = ttp_repeat_retransmit working x in
    (r.ok ≡ true)
    × (r.requests ≡ map ask_again (missing_entries x))
    × (entries r.progress.rexmit ≡ missing_entries x)
    × IsValid r.progress.rexmit
    × (r.progress.this_retransmits ≡ length (missing_entries x))
    × (r.progress.restart_pending ≡ false)
    × (r.progress.next_block ≡ 9)
repeat_few_example = repeat_few (progress short_table some_received) short_table-IsValid few

abbrev long_table : Rexmit
long_table = record { table = replicate 4096 3; table_size = 4096; index_max = 2048 }

long_table-IsValid : IsValid long_table
long_table-IsValid = record {
  size = length-replicate {A = ℕ} 4096 3;
  fits = omega arith;
  doubling = inl refl;
}

long_count : length (missing_entries (progress long_table some_received)) ≡ 2048
unfolding keep_wanted got_block
long_count = refl

repeat_many_example :
    let x = progress long_table some_received in
    let r = ttp_repeat_retransmit working x in
    (r.ok ≡ true)
    × (r.requests ≡ restart_at 3 ∷ [])
    × (r.progress.rexmit.index_max ≡ 0)
    × IsValid r.progress.rexmit
    × (r.progress.next_block ≡ 3)
    × (r.progress.restart_pending ≡ true)
    × (r.progress.restart_lastidx ≡ get_or long_table.table 2047 0)
    × (r.progress.restart_wireclearidx ≡ min 8 ((get_or long_table.table 2047 0 + 8) % 2 ^ 32))
repeat_many_example =
    repeat_many (progress long_table some_received) long_table-IsValid (omega (arith, long_count))
