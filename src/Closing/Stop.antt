-- ===== src/Closing/Stop.antt =====
-- client/command.c: the end of a transfer stops the server and the disk thread.
use tsunami_udp.Base.{
  ℕ, ◌<◌, ◌≡◌, ◌==◌, refl, ap, sym, ◌∙◌, arith, true, false, List, [], ◌∷◌, ◌++◌, drop, All,
  all_more, Option-cases, inl, inr,
}
use tsunami_udp.Blocks.{Disk, File, accept_block, save_all}
use tsunami_udp.Closing.{
  stop_request, ttp_request_stop, stop_datagram, queue_stop, closed, close_transfer,
}
use tsunami_udp.Receive.{Client, this_block}
use tsunami_udp.Receive.Invariant.{IsSound}
use tsunami_udp.Retransmit.Repeat.{working}
use tsunami_udp.Ring.{Datagram, Ring, Pthread, done, max_blocks_queued, queue_datagram}
use tsunami_udp.Ring.Invariant.{IsValid}
use tsunami_udp.Ring.Queue.{IsWorking, ring_reserve-done, queue_datagram_lem}
use tsunami_udp.Ring.Refine.{contents, tail_slot}
use tsunami_udp.Wire.{Host, little, big, load32, htonl}

-- A stop block is queued as any datagram is.
queue_stop-queue_datagram :
    (p : Pthread) (r : Ring)
    → IsWorking p
    → IsValid r
    → r.count_reserved ≡ 0
    → r.count_data < max_blocks_queued
    → queue_stop p r ≡ queue_datagram p (stop_datagram (r.datagrams (tail_slot r))) r
unfolding queue_stop queue_datagram
queue_stop-queue_datagram p r w v e h = rw (ring_reserve-done p w r v e h) refl

stop_number : (h : Host) (old : Datagram) → this_block h (stop_datagram old) ≡ 0
unfolding load32 htonl
stop_number little old = omega arith
stop_number big old = omega arith

-- At a stop block the disk thread ends, with what it has saved.
save_all-stop :
    (h : Host) (n size s : ℕ) (disk : Disk) (ds rest : List Datagram) (d : Datagram) (f : File)
    → All (λ e. 0 < this_block h e) ds
    → this_block h d ≡ 0
    → save_all h n size s disk (ds ++ d ∷ rest) f ≡ save_all h n size s disk ds f
unfolding save_all
save_all-stop h n size s disk [] rest d f all stop =
    let is_stop : (this_block h d == 0) ≡ true = ground arith in rw is_stop refl
save_all-stop h n size s disk (e ∷ ds) rest d f (all_more pos all) stop =
    let not_stop : (this_block h e == 0) ≡ false = ground arith in
    elim (Option-cases (accept_block n size s disk (this_block h e) (drop 6 e) f)) [
      | inl failed ↦ rw (not_stop, failed) refl
      | inr (g, saved) ↦ rw (not_stop, saved) (save_all-stop h n size s disk ds rest d g all stop)
    ]

-- After the loop of a lossless transfer that has finished, if there is room in the ring and the control
-- connection and the pthread calls work: the client asks the server to stop, counts no lost block, and
-- queues one more datagram behind the others, at which the disk thread ends with what it has saved of
-- the datagrams before it.
pub close_transfer_lem :
    (h : Host) (p : Pthread) (c : Client)
    → IsWorking p
    → IsSound c
    → c.blocks_left ≡ 0
    → c.ring.count_data < max_blocks_queued
    → (c' : Client) × (d : Datagram) × (close_transfer working p c ≡ closed c' 0)
      × (c'.requests ≡ c.requests ++ stop_request ∷ [])
      × (contents c'.ring ≡ contents c.ring ++ d ∷ [])
      × ((n size s : ℕ) (disk : Disk) (ds rest : List Datagram) (f : File)
          → All (λ e. 0 < this_block h e) ds
          → save_all h n size s disk (ds ++ d ∷ rest) f ≡ save_all h n size s disk ds f)
unfolding close_transfer ttp_request_stop
close_transfer_lem h p c w s over room =
    let d = stop_datagram (c.ring.datagrams (tail_slot c.ring)) in
    let (r, queued, j) = queue_datagram_lem p c.ring d w s.1 s.2 room in
    let stop : queue_stop p c.ring ≡ done r =
      queue_stop-queue_datagram p c.ring w s.1 s.2 room ∙ queued in
    let none_lost = sym s.0.left_over ∙ over in
    (
      record c { requests = c.requests ++ stop_request ∷ []; ring = r },
      d,
      rw stop (
          ap (closed (record c { requests = c.requests ++ stop_request ∷ []; ring = r }))
            none_lost),
      refl,
      j.order,
      λ n size s' disk ds rest f all.
          save_all-stop h n size s' disk ds rest d f all
            (stop_number h (c.ring.datagrams (tail_slot c.ring))),
    )
