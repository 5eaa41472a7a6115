-- ===== src/Retransmit/Sorting/Tests.antt =====
-- client/protocol.c: a block is inserted between two others.
use tsunami_udp.Base.{
  ℕ, ◌≡◌, ◌⊎◌, ◌↔◌, refl, arith, true, false, some, [], ◌∷◌, all_none, all_more, In,
}
use tsunami_udp.Bitmap.{new_bitmap, got_block}
use tsunami_udp.Retransmit.{Rexmit, new_rexmit, store_request}
use tsunami_udp.Retransmit.Sorting.{seek_entry, shift_up, insert_at, insert_request, request_sorted}
use tsunami_udp.Retransmit.Sorting.Inserted.{Increasing, nothing, starts}
use tsunami_udp.Retransmit.Sorting.Requests.{request_sorted_lem}
use tsunami_udp.Retransmit.Table.{IsValid, entries, new_rexmit-IsValid, store_request-IsValid}

abbrev sorted_table : Rexmit
sorted_table = store_request 7 (store_request 3 new_rexmit)

sorted_table-IsValid : IsValid sorted_table
unfolding new_rexmit
sorted_table-IsValid =
    store_request-IsValid 7 _ (store_request-IsValid 3 _ new_rexmit-IsValid (omega arith))
      (omega arith)

sorted_table-Increasing : Increasing (entries sorted_table)
unfolding new_rexmit
sorted_table-Increasing = starts (all_more (omega arith) all_none) (starts all_none nothing)

between : entries (insert_request 5 sorted_table) ≡ 3 ∷ 5 ∷ 7 ∷ []
unfolding new_rexmit seek_entry shift_up insert_at
between = refl

twice : entries (insert_request 3 sorted_table) ≡ 3 ∷ 7 ∷ []
unfolding new_rexmit seek_entry shift_up insert_at
twice = refl

request_sorted_lem_example :
    (r' : Rexmit) × (request_sorted true 8 (new_bitmap 8) 5 sorted_table ≡ some r')
    × IsValid r'
    × Increasing (entries r')
    × ((c : ℕ)
        → In c (entries r')
          ↔ (((c ≡ 5) × (got_block 8 (new_bitmap 8) 5 ≡ false)) ⊎ In c (entries sorted_table)))
unfolding new_rexmit
request_sorted_lem_example =
    request_sorted_lem 8 (new_bitmap 8) 5 sorted_table sorted_table-IsValid sorted_table-Increasing
      (omega arith)
