-- ===== src/Transfer/Exact.antt =====
-- client/command.c: what a whole transfer delivers.
use tsunami_udp.Base.{
  All, all_more, ℕ, ◌≤◌, ◌<◌, ◌^◌, ◌≡◌, ◌≢◌, ap, sym, subst, ◌∙◌, arith, true, if◌then◌else◌, List,
  [], ◌∷◌,
}
use tsunami_udp.Bitmap.{got_block}
use tsunami_udp.Bitmap.Lost.{count_lost-zero}
use tsunami_udp.Receive.{finished, exited, asleep}
use tsunami_udp.Receive.Finish.{Ending-finished, Ending-runs}
use tsunami_udp.Ring.{Datagram}
use tsunami_udp.Transfer.{start_client, Transfer, Event, disk_turn, net_turn, turn, turns, started}
use tsunami_udp.Transfer.Delivery.{
  occurrences, delivered, is_taken, IsDelivered, IsFair, started-IsDelivered, disk_step-IsDelivered,
  net_step-IsDelivered,
}
use tsunami_udp.Wire.{Host}

pub turns-IsDelivered :
    (h : Host) (n : ℕ) (es : List Event) (t : Transfer)
    → All (IsFair h) es
    → IsDelivered h n t
    → IsDelivered h n (turns h es t)
unfolding turns turn IsFair
turns-IsDelivered h n [] t f i = i
turns-IsDelivered h n (disk_turn p ∷ es) t (all_more f fs) i =
    turns-IsDelivered h n es _ fs (disk_step-IsDelivered h n p t f i)
turns-IsDelivered h n (net_turn env d ∷ es) t (all_more f fs) i =
    turns-IsDelivered h n es _ fs (net_step-IsDelivered h n env d t t.verdict f i)

-- Of a lossless transfer of `n` blocks from its start, through any sequence of rounds of the receive
-- loop and turns of the disk thread, with pthread calls that succeed and without a block number 0:
-- what the disk thread took together with what is in the ring holds every block of the file that is
-- marked as received exactly once, and no other block.
delivered_once_lem :
    (h : Host) (block_size n w : ℕ) (garbage : ℕ → Datagram) (es : List Event)
    → n < 2 ^ 32
    → All (IsFair h) es
    → (b : ℕ)
    → let t = turns h es (started (start_client block_size n w garbage)) in
      occurrences h b (delivered t) ≡ (if is_taken n t.client.progress.received b then 1 else 0)
delivered_once_lem h block_size n w garbage es small fair b =
    let i = turns-IsDelivered h n es _ fair (started-IsDelivered h block_size n w garbage small) in
    i.once b

-- A transfer that has finished has delivered each block once.
pub finished-once :
    (h : Host) (n : ℕ) (t : Transfer)
    → IsDelivered h n t
    → t.verdict ≡ finished
    → (b : ℕ) → 0 < b
    → b ≤ n
    → occurrences h b (delivered t) ≡ 1
finished-once h n t i over b lo hi =
    let x = t.client.progress in
    let lost = sym i.sound.0.left_over ∙ Ending-finished over i.ending in
    let in_file : b ≤ x.block_count = omega (arith, i.block_count) in
    let here : got_block x.block_count x.received b ≡ true =
      count_lost-zero x.block_count x.received x.block_count b lost lo in_file in
    let here_n : got_block n x.received b ≡ true =
      subst (λ m. got_block m x.received b ≡ true) i.block_count here in
    let taken : is_taken n x.received b ≡ true = ground arith in
    i.once b ∙ ap (λ c. if c then 1 else 0) taken

-- Of a lossless transfer of `n` blocks from its start, through any sequence of rounds of the
-- receive loop and turns of the disk thread, with pthread calls that succeed and without a block
-- number 0: if the loop has finished, each block from 1 to `n` was delivered exactly once,
-- counting what is still in the ring; and however it goes, the process does not exit in the loop,
-- nor sleep for ever.
pub finished_delivered :
    (h : Host) (block_size n w : ℕ) (garbage : ℕ → Datagram) (es : List Event)
    → n < 2 ^ 32
    → All (IsFair h) es
    → let t = turns h es (started (start_client block_size n w garbage)) in
      (t.verdict ≡ finished → (b : ℕ) → 0 < b → b ≤ n → occurrences h b (delivered t) ≡ 1)
      × (t.verdict ≢ exited)
      × (t.verdict ≢ asleep)
finished_delivered h block_size n w garbage es small fair =
    let i = turns-IsDelivered h n es _ fair (started-IsDelivered h block_size n w garbage small) in
    let t = turns h es (started (start_client block_size n w garbage)) in
    (finished-once h n t i, (Ending-runs i.ending).0, (Ending-runs i.ending).1)
