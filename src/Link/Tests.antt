-- ===== src/Link/Tests.antt =====
-- A file of three bytes on its way from a big-endian server to a little-endian client: the first block is
-- lost, the client asks for it, and the request reaches the server in two pieces.
use tsunami_udp.Base.{
  ℕ, ◌+◌, ◌%◌, ◌<◌, ◌≡◌, refl, sym, subst, inl, arith, true, false, some, ltb, List, [], ◌∷◌, ◌++◌,
  all_none, In, first, later,
}
use tsunami_udp.Bitmap.{new_bitmap, got_block, mark_received}
use tsunami_udp.Blocks.{File, Disk, save_all, bytes_from, read_block, build_datagram}
use tsunami_udp.Blocks.Writing.{IsWorking}
use tsunami_udp.Receive.{
  Env, finished, receive_round, handle, insert_block, follow_up, queue_retransmits, request_range,
  send_stats, advance_gapless, at_end,
}
use tsunami_udp.Retransmit.{
  new_rexmit, ttp_repeat_retransmit, send_requests, compact, ttp_request_retransmit,
}
use tsunami_udp.Retransmit.Repeat.{working}
use tsunami_udp.Ring.{
  Datagram, ring_create, ring_full, queue_datagram, ring_reserve, reserve_from, ring_confirm,
  take_datagram, ring_peek, ring_pop,
}
use tsunami_udp.Server.{
  Param, Pace, Input, Handler, send_block, heartbeat, blast_block, serve, serve_read, serve_round,
  ttp_accept_retransmit, answer, add_bytes, chunk,
}
use tsunami_udp.Server.Blast.{quiet}
use tsunami_udp.Server.Rounds.{Serving, Serves}
use tsunami_udp.Link.{
  wire, Link, linked, gives_none, gives_chunk, bytes_of, IsCalm, server_step, client_step,
  disk_thread_step, Reaches, here, step,
}
use tsunami_udp.Link.Invariant.{IsLinked}
use tsunami_udp.Link.Copies.{linked_lem, file_copied}
use tsunami_udp.Message.{encode, decode}
use tsunami_udp.Server.Requests.{IsInbox}
use tsunami_udp.Transfer.{start_client, net_step, disk_step, started}
use tsunami_udp.Wire.{little, big, load32, load16, htonl, htons}

abbrev source : File
source = record { at = λ i. i + 5; size = 3 }

abbrev param : Param
param = record { host = big; block_size = 2; block_count = 2; error_rate = 7500 }

abbrev pace : Pace ℕ
pace = record {
  slower = λ rate ipd. ipd + 100;
  faster = λ ipd. ipd % 100;
  less = ltb;
  highest = 10000;
  ipd_time = 50;
}

abbrev handler : Handler ℕ
handler = record {
  server = record {
    block = 0;
    ipd_current = 60;
    reader = record { file = source; pos = 0; last_block = 0 };
    datagram = 0 ∷ 0 ∷ 0 ∷ 0 ∷ 0 ∷ 0 ∷ 0 ∷ 0 ∷ [];
    sent = [];
  };
  inbox = record { bytes = 0 ∷ 0 ∷ 0 ∷ 0 ∷ 0 ∷ 0 ∷ 0 ∷ 0 ∷ 0 ∷ 0 ∷ 0 ∷ 0 ∷ []; len = 0 };
  deadconnection_counter = 0;
}

param-Serves : Serves {R = ℕ} little param pace source
param-Serves = record {
  some_bytes = omega arith;
  count = refl;
  some_blocks = omega arith;
  small = omega arith;
}

handler-Serving : Serving little param pace source handler.server
handler-Serving = record {
  block_in = omega arith;
  file = refl;
  synced = record { place = inl refl; small = omega arith };
  sent = all_none;
}

abbrev env : Env
env = record {
  receive_works = true;
  realloc_works = true;
  control = working;
  pthread = record { lock = 0; unlock = 0; signal = 0; wait = 0 };
  lossless = true;
  losswindow_ms = 0;
  window_blocks = 0;
  elapsed = 0;
  error_rate = 0;
}

abbrev disk : Disk
disk = record { seek_works = true; write_works = true }

disk-IsWorking : IsWorking disk
disk-IsWorking = record { seek = refl; write = refl }

abbrev empty : File
empty = record { at = λ i. 0; size = 0 }

abbrev piece : List ℕ → Input
piece bytes = record {
  read = chunk bytes;
  send_works = true;
  report_due = false;
  timed_out = false;
}

abbrev served : Input → Link ℕ → Link ℕ
served i l = record l {
  server = serve_round param pace i l.server.handler;
  taken = l.taken ++ bytes_of i.read;
}

abbrev received : Datagram → Link ℕ → Link ℕ
received d l = record l { transfer = net_step little env d l.transfer l.transfer.verdict }

abbrev saved : Link ℕ → Link ℕ
saved l = record l { transfer = disk_step env.pthread l.transfer }

abbrev block_1 : Datagram
block_1 = 0 ∷ 0 ∷ 0 ∷ 1 ∷ 0 ∷ b'R' ∷ 5 ∷ 6 ∷ []

abbrev block_2 : Datagram
block_2 = 0 ∷ 0 ∷ 0 ∷ 2 ∷ 0 ∷ b'X' ∷ 7 ∷ 6 ∷ []

abbrev at_start : Link ℕ
at_start = linked handler (started (start_client 2 2 0 (λ i. [])))

abbrev both_sent : Link ℕ
both_sent = served quiet (served quiet at_start)

abbrev asked : Link ℕ
asked = received block_2 both_sent

abbrev answered : Link ℕ
answered =
    served (piece (0 ∷ 0 ∷ 1 ∷ 0 ∷ 0 ∷ 0 ∷ 0 ∷ [])) (served (piece (0 ∷ 0 ∷ 0 ∷ 0 ∷ 0 ∷ [])) asked)

abbrev ended : Link ℕ
ended = saved (saved (received block_2 (received block_1 answered)))

-- The client asks for block 1 twice: when block 2 comes, and since block 2 is the last.
abbrev asks : List ℕ
asks = 0 ∷ 0 ∷ 0 ∷ 0 ∷ 0 ∷ 0 ∷ 0 ∷ 1 ∷ 0 ∷ 0 ∷ 0 ∷ 0 ∷ []

asked_bytes : wire little asked.transfer.client.requests ≡ asks ++ asks
unfolding serve_round serve_read serve answer ttp_accept_retransmit add_bytes blast_block send_block
    heartbeat build_datagram read_block bytes_from net_step disk_step take_datagram ring_peek
    ring_pop receive_round handle insert_block follow_up queue_retransmits request_range send_stats
    advance_gapless at_end start_client ring_create ring_full queue_datagram ring_reserve
    reserve_from ring_confirm load32 load16 htonl htons got_block mark_received new_bitmap
    new_rexmit wire encode decode ttp_repeat_retransmit send_requests compact ttp_request_retransmit
asked_bytes = refl

both_sent_sent :
    both_sent.server.handler.server.sent ≡ (0 ∷ 0 ∷ 0 ∷ 1 ∷ 0 ∷ b'O' ∷ 5 ∷ 6 ∷ []) ∷ block_2 ∷ []
unfolding serve_round serve_read serve answer ttp_accept_retransmit add_bytes blast_block send_block
    heartbeat build_datagram read_block bytes_from net_step disk_step take_datagram ring_peek
    ring_pop receive_round handle insert_block follow_up queue_retransmits request_range send_stats
    advance_gapless at_end start_client ring_create ring_full queue_datagram ring_reserve
    reserve_from ring_confirm load32 load16 htonl htons got_block mark_received new_bitmap
    new_rexmit wire encode decode ttp_repeat_retransmit send_requests compact ttp_request_retransmit
both_sent_sent = refl

answered_sent :
    answered.server.handler.server.sent
    ≡ (0 ∷ 0 ∷ 0 ∷ 1 ∷ 0 ∷ b'O' ∷ 5 ∷ 6 ∷ []) ∷ block_2 ∷ block_2 ∷ block_1 ∷ []
unfolding serve_round serve_read serve answer ttp_accept_retransmit add_bytes blast_block send_block
    heartbeat build_datagram read_block bytes_from net_step disk_step take_datagram ring_peek
    ring_pop receive_round handle insert_block follow_up queue_retransmits request_range send_stats
    advance_gapless at_end start_client ring_create ring_full queue_datagram ring_reserve
    reserve_from ring_confirm load32 load16 htonl htons got_block mark_received new_bitmap
    new_rexmit wire encode decode ttp_repeat_retransmit send_requests compact ttp_request_retransmit
answered_sent = refl

ended_end : (ended.transfer.verdict ≡ finished) × (ended.transfer.client.ring.count_data ≡ 0)
unfolding serve_round serve_read serve answer ttp_accept_retransmit add_bytes blast_block send_block
    heartbeat build_datagram read_block bytes_from net_step disk_step take_datagram ring_peek
    ring_pop receive_round handle insert_block follow_up queue_retransmits request_range send_stats
    advance_gapless at_end start_client ring_create ring_full queue_datagram ring_reserve
    reserve_from ring_confirm load32 load16 htonl htons got_block mark_received new_bitmap
    new_rexmit wire encode decode ttp_repeat_retransmit send_requests compact ttp_request_retransmit
ended_end = (refl, refl)

at_both : Reaches little param pace at_start both_sent
unfolding serve_round serve_read serve blast_block send_block heartbeat
at_both =
    step (step here (server_step quiet refl gives_none (λ part. refl)))
      (server_step quiet refl gives_none (λ part. refl))

env-IsCalm : IsCalm env
env-IsCalm = record { lossless = refl; pthread = omega arith; rate = omega arith }

block_2-In : In block_2 both_sent.server.handler.server.sent
block_2-In = subst (In block_2) (sym both_sent_sent) (later (first refl))

at_asked : Reaches little param pace at_start asked
at_asked = step at_both (client_step env block_2 env-IsCalm block_2-In)

at_answered : Reaches little param pace at_start answered
unfolding serve_round serve_read serve answer ttp_accept_retransmit add_bytes blast_block send_block
    heartbeat decode load32 load16 htonl htons
at_answered =
    step
      (step at_asked (
        server_step (piece (0 ∷ 0 ∷ 0 ∷ 0 ∷ 0 ∷ [])) refl
          (gives_chunk (0 ∷ 0 ∷ 1 ∷ 0 ∷ 0 ∷ 0 ∷ 0 ∷ asks) (sym asked_bytes) (omega arith))
          (λ part. refl)))
      (server_step (piece (0 ∷ 0 ∷ 1 ∷ 0 ∷ 0 ∷ 0 ∷ 0 ∷ [])) refl
        (gives_chunk asks (sym asked_bytes) (omega arith)) (λ part. refl))

at_ended : Reaches little param pace at_start ended
at_ended =
    step
      (step
        (step
          (step at_answered (
            client_step env block_1 env-IsCalm
              (subst (In block_1) (sym answered_sent) (later (later (later (first refl)))))))
          (client_step env block_2 env-IsCalm
            (subst (In block_2) (sym answered_sent) (later (first refl)))))
        (disk_thread_step env.pthread (omega arith)))
      (disk_thread_step env.pthread (omega arith))

inbox-IsInbox : IsInbox handler.inbox
inbox-IsInbox = omega arith

linked_lem_example : IsLinked little param pace source param-Serves ended
linked_lem_example =
    linked_lem little param pace source handler 0 (λ i. []) ended param-Serves handler-Serving
      inbox-IsInbox refl at_ended

file_copied_example :
    (g : File) × (save_all little 2 3 2 disk ended.transfer.saved empty ≡ some g)
    × (g.size ≡ 3)
    × ((i : ℕ) → i < 3 → g.at i ≡ i + 5)
file_copied_example =
    file_copied little param pace source empty disk handler 0 (λ i. []) ended param-Serves
      handler-Serving inbox-IsInbox refl at_ended disk-IsWorking refl ended_end.0 ended_end.1
