-- ===== src/Blocks/Received.antt =====
-- The client's receive loop, disk thread and `accept_block` together: a lossless transfer that finishes
-- copies the file.
use tsunami_udp.Base.{
  ℕ, ◌<◌, ◌^◌, ◌≡◌, ap, subst, ◌∙◌, arith, some, List, ◌++◌, append-nil, All, all_none,
}
use tsunami_udp.Blocks.{File, block_count_of, Disk, save_all}
use tsunami_udp.Blocks.Writing.{IsWorking, IsFileBlock, save_all_lem}
use tsunami_udp.Receive.{finished}
use tsunami_udp.Ring.{Datagram, ring_create}
use tsunami_udp.Ring.Refine.{window}
use tsunami_udp.Transfer.{start_client, Transfer, Event, turns, started}
use tsunami_udp.Transfer.Delivery.{occurrences, delivered, IsDelivered, IsFair, started-IsDelivered}
use tsunami_udp.Transfer.Exact.{turns-IsDelivered, finished-once}
use tsunami_udp.Transfer.Origin.{Brings, turns-All}
use tsunami_udp.Wire.{Host}

drained : (t : Transfer) → t.client.ring.count_data ≡ 0 → delivered t ≡ t.saved
drained t e =
    let r = t.client.ring in
    ap (λ k. t.saved ++ window r.datagrams r.base_data k) e ∙ append-nil t.saved

-- Nothing is delivered at the start.
pub started-All :
    (P : Datagram → Type 0) (s n w : ℕ) (garbage : ℕ → Datagram)
    → All P (delivered (started (start_client s n w garbage)))
unfolding start_client ring_create
started-All P s n w garbage = all_none

-- A transfer that has finished, with the ring emptied, made a copy of the file.
pub delivered_copy :
    (h : Host) (s : ℕ) (src empty : File) (disk : Disk) (t : Transfer)
    → 0 < s
    → block_count_of src.size s < 2 ^ 32
    → IsWorking disk
    → empty.size ≡ 0
    → IsDelivered h (block_count_of src.size s) t
    → All (IsFileBlock h s src) (delivered t)
    → t.verdict ≡ finished
    → t.client.ring.count_data ≡ 0
    → (g : File) × (save_all h (block_count_of src.size s) src.size s disk t.saved empty ≡ some g)
      × (g.size ≡ src.size)
      × ((i : ℕ) → i < src.size → g.at i ≡ src.at i)
delivered_copy h s src empty disk t some_bytes small works blank i all over idle =
    let same = drained t idle in
    let once = finished-once h (block_count_of src.size s) t i over in
    save_all_lem h s src disk t.saved empty some_bytes small works
      (subst (All (IsFileBlock h s src)) same all)
      (λ b lo hi. subst (λ ds. 0 < occurrences h b ds) same (omega (arith, once b lo hi))) blank

-- A lossless transfer from its start, through any sequence of rounds of the receive loop and turns of the
-- disk thread, with pthread calls that succeed, in which each datagram that arrives holds a block of the
-- file `src`: if the loop finishes and the disk thread has emptied the ring, then the disk thread, on
-- a disk that works, has made from an empty file a file of the same size and the same bytes as `src`.
file_received :
    (h : Host) (s w : ℕ) (src empty : File) (disk : Disk) (garbage : ℕ → Datagram) (es : List Event)
    → 0 < s
    → block_count_of src.size s < 2 ^ 32
    → All (IsFair h) es
    → All (Brings (IsFileBlock h s src)) es
    → IsWorking disk
    → empty.size ≡ 0
    → let n = block_count_of src.size s in
      let t = turns h es (started (start_client s n w garbage)) in
      t.verdict ≡ finished
      → t.client.ring.count_data ≡ 0
      → (g : File) × (save_all h n src.size s disk t.saved empty ≡ some g)
        × (g.size ≡ src.size)
        × ((i : ℕ) → i < src.size → g.at i ≡ src.at i)
file_received h s w src empty disk garbage es some_bytes small fair blocks works blank over idle =
    let n = block_count_of src.size s in
    let start = started (start_client s n w garbage) in
    let start-IsDelivered = started-IsDelivered h s n w garbage small in
    delivered_copy h s src empty disk (turns h es start) some_bytes small works blank
      (turns-IsDelivered h n es start fair start-IsDelivered)
      (turns-All h n (IsFileBlock h s src) es start fair blocks start-IsDelivered
        (started-All (IsFileBlock h s src) s n w garbage))
      over idle
