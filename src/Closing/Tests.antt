-- ===== src/Closing/Tests.antt =====
-- client/command.c: the end of a transfer of one block.
use tsunami_udp.Base.{ℕ, ◌<◌, ◌≡◌, refl, arith, true, List, [], ◌∷◌, ◌++◌, All}
use tsunami_udp.Bitmap.{new_bitmap, got_block, mark_received}
use tsunami_udp.Blocks.{Disk, File, save_all}
use tsunami_udp.Closing.{stop_request, closed, close_transfer}
use tsunami_udp.Closing.Stop.{close_transfer_lem}
use tsunami_udp.Receive.{
  Client, Env, ts_block_terminate, this_block, receive_round, handle, insert_block, follow_up,
  queue_retransmits, advance_gapless, at_end,
}
use tsunami_udp.Receive.Finish.{receive_round_lem, settled-Ending}
use tsunami_udp.Receive.Invariant.{IsSound}
use tsunami_udp.Retransmit.Repeat.{working}
use tsunami_udp.Ring.{
  Datagram, ring_create, ring_full, queue_datagram, ring_reserve, reserve_from, ring_confirm,
}
use tsunami_udp.Ring.Refine.{contents}
use tsunami_udp.Transfer.{start_client}
use tsunami_udp.Transfer.Delivery.{started-IsDelivered}
use tsunami_udp.Wire.{little, load32, load16, htonl, htons}

abbrev env : Env
env = record {
  receive_works = true;
  realloc_works = true;
  control = working;
  pthread = record { lock = 0; unlock = 0; signal = 0; wait = 0 };
  lossless = true;
  losswindow_ms = 0;
  window_blocks = 0;
  elapsed = 0;
  error_rate = 0;
}

abbrev only_block : Datagram
only_block = 0 ∷ 0 ∷ 0 ∷ 1 ∷ 0 ∷ ts_block_terminate ∷ 9 ∷ []

abbrev client : Client
client = (receive_round little env only_block (start_client 1 1 0 (λ i. []))).client

only_number : this_block little only_block ≡ 1
unfolding load32 htonl
only_number = refl

client-IsSound : IsSound client
client-IsSound =
    (settled-Ending (
      receive_round_lem little env only_block (start_client 1 1 0 (λ i. [])) refl (omega arith)
        (omega (arith, only_number))
        (started-IsDelivered little 1 1 0 (λ i. []) (omega arith)).sound)).0

client_done : (client.blocks_left ≡ 0) × (client.ring.count_data ≡ 1)
unfolding receive_round handle insert_block follow_up queue_retransmits advance_gapless at_end
    start_client ring_create ring_full queue_datagram ring_reserve reserve_from ring_confirm load32
    load16 htonl htons got_block mark_received new_bitmap
client_done = (refl, refl)

close_transfer_lem_example :
    (c' : Client) × (d : Datagram) × (close_transfer working env.pthread client ≡ closed c' 0)
    × (c'.requests ≡ client.requests ++ stop_request ∷ [])
    × (contents c'.ring ≡ contents client.ring ++ d ∷ [])
    × ((n size s : ℕ) (disk : Disk) (ds rest : List Datagram) (f : File)
        → All (λ e. 0 < this_block little e) ds
        → save_all little n size s disk (ds ++ d ∷ rest) f ≡ save_all little n size s disk ds f)
close_transfer_lem_example =
    close_transfer_lem little env.pthread client (omega arith) client-IsSound client_done.0
      (omega (arith, client_done.1))
