-- ===== src/Transfer/Delivery.antt =====
-- client/command.c: each block reaches the disk thread exactly once.
use tsunami_udp.Base.{
  ℕ, ◌+◌, ◌<◌, ◌^◌, ◌≡◌, inl, inr, refl, ap, sym, subst, ◌∙◌, arith, Bool, true, false, ◌&&◌, ◌==◌,
  ltb, leb, if◌then◌else◌, List, [], ◌∷◌, ◌++◌, append_assoc, dec_lt,
}
use tsunami_udp.Bitmap.{new_bitmap, got_block, mark_received}
use tsunami_udp.Bitmap.Laws.{
  IsBitmap, new_bitmap-IsBitmap, got_block-new_bitmap, got_block-mark_received,
}
use tsunami_udp.Bitmap.Lost.{count_lost-new_bitmap}
use tsunami_udp.Receive.{Env, Verdict, again, finished, aborted, exited, asleep, Round, this_block}
use tsunami_udp.Receive.Finish.{Stored, receive_round_lem, got_past_end}
use tsunami_udp.Receive.Invariant.{IsSound}
use tsunami_udp.Receive.Stages.{Ending, goes_on}
use tsunami_udp.Retransmit.Table.{new_rexmit-IsValid}
use tsunami_udp.Ring.{Datagram, Pthread, popped, ring_create}
use tsunami_udp.Ring.Invariant.{ring_create-IsValid}
use tsunami_udp.Ring.Queue.{IsWorking, take_datagram-popped, take_datagram-empty}
use tsunami_udp.Ring.Refine.{contents, contents-popped}
use tsunami_udp.Transfer.{
  start_client, Transfer, Event, disk_turn, net_turn, net_step, disk_step, started,
}
use tsunami_udp.Wire.{Host}

-- How often a block is in a list of datagrams.
unfoldable pub occurrences : Host → ℕ → List Datagram → ℕ
occurrences h b [] = 0
occurrences h b (d ∷ ds) =
    if this_block h d == b then 1 + occurrences h b ds else occurrences h b ds

occurrences-append :
    (h : Host) (b : ℕ) (xs ys : List Datagram)
    → occurrences h b (xs ++ ys) ≡ occurrences h b xs + occurrences h b ys
unfolding occurrences
occurrences-append h b [] ys = omega arith
occurrences-append h b (x ∷ xs) ys = ground (arith, occurrences-append h b xs ys)

-- The datagrams that left the receive loop: saved, or in the ring.
abbrev pub delivered : Transfer → List Datagram
delivered t = t.saved ++ contents t.client.ring

-- Block `b` is one of the file's, and is marked.
abbrev pub is_taken : (n : ℕ) → List ℕ → ℕ → Bool
is_taken n received b = ltb 0 b && (leb b n && got_block n received b)

pub record IsDelivered (h : Host) (n : ℕ) (t : Transfer) : Type 0 where
  pub sound : IsSound t.client
  pub block_count : t.client.progress.block_count ≡ n
  pub once :
      (b : ℕ)
      → occurrences h b (delivered t) ≡ (if is_taken n t.client.progress.received b then 1 else 0)
  pub ending : Ending t.client.blocks_left t.verdict

-- What a turn needs: a lossless transfer, pthread calls that succeed, a block number that is not 0.
unfoldable pub IsFair : Host → Event → Type 0
IsFair h (disk_turn p) = IsWorking p
IsFair h (net_turn env d) = (env.lossless ≡ true) × IsWorking env.pthread × (0 < this_block h d)

none_taken : (n b : ℕ) → is_taken n (new_bitmap n) b ≡ false
none_taken n b = ground (arith, got_block-new_bitmap n b)

pub started-IsDelivered :
    (h : Host) (block_size n w : ℕ) (garbage : ℕ → Datagram)
    → n < 2 ^ 32
    → IsDelivered h n (started (start_client block_size n w garbage))
unfolding start_client ring_create occurrences
started-IsDelivered h block_size n w garbage small = record {
  sound = (
    record {
      small = small;
      bitmap = new_bitmap-IsBitmap n;
      left_over = sym (count_lost-new_bitmap n n (omega arith));
      gap_bound = omega arith;
      gapless = λ b lo hi. absurd (omega arith);
      table = new_rexmit-IsValid;
    },
    ring_create-IsValid block_size garbage,
    refl,
  );
  block_count = refl;
  once = λ b. rw (none_taken n b) refl;
  ending = goes_on;
}

delivered_once :
    (h : Host) (b : ℕ) (saved ring : List Datagram) (d : Datagram)
    → occurrences h b (saved ++ (ring ++ d ∷ []))
      ≡ occurrences h b (saved ++ ring) + (if this_block h d == b then 1 else 0)
unfolding occurrences
delivered_once h b saved ring d =
    occurrences-append h b saved (ring ++ d ∷ [])
    ∙ ground (arith, occurrences-append h b ring (d ∷ []), occurrences-append h b saved ring)

-- The blocks that are taken after one that was missing is marked.
taken_new :
    (n : ℕ) (received : List ℕ) (a b : ℕ)
    → IsBitmap n received
    → 0 < a
    → got_block n received a ≡ false
    → (if is_taken n received b then 1 else 0) + (if a == b then 1 else 0)
      ≡ (if is_taken n (mark_received received a) b then 1 else 0)
taken_new n received a b m pos new = ground (
  arith,
  got_past_end n received a new,
  got_block-mark_received n received a b m (got_past_end n received a new),
)

pub disk_step-IsDelivered :
    (h : Host) (n : ℕ) (p : Pthread) (t : Transfer)
    → IsWorking p
    → IsDelivered h n t
    → IsDelivered h n (disk_step p t)
unfolding disk_step
disk_step-IsDelivered h n p t w i =
    let r = t.client.ring in
    let v = i.sound.1 in
    elim (dec_lt 0 r.count_data) [
      | yes some_data ↦
          let moved : (t.saved ++ r.datagrams r.base_data ∷ []) ++ contents (popped r)
              ≡ delivered t =
            append_assoc t.saved (r.datagrams r.base_data ∷ []) (contents (popped r))
            ∙ ap (λ ds. t.saved ++ ds) (sym (contents-popped r some_data)) in
          rw (take_datagram-popped p r w v some_data, disk_step)
            (record {
              sound = (i.sound.0, ground arith, i.sound.2);
              block_count = i.block_count;
              once = λ b. ap (occurrences h b) moved ∙ i.once b;
              ending = i.ending;
            })
      | no empty ↦ rw (take_datagram-empty p r w v (omega arith), disk_step) i
    ]

Stored-IsDelivered :
    (h : Host) (n : ℕ) (d : Datagram) (t : Transfer) (r : Round)
    → 0 < this_block h d
    → IsDelivered h n t
    → Stored (this_block h d) d t.client r
    → IsDelivered h n (record t { client = r.client; verdict = r.verdict })
Stored-IsDelivered h n d t r pos i k =
    let a = this_block h d in
    let x = t.client.progress in
    let new : got_block n x.received a ≡ false =
      subst (λ m. got_block m x.received a ≡ false) i.block_count k.new in
    let bitmap : IsBitmap n x.received =
      subst (λ m. IsBitmap m x.received) i.block_count i.sound.0.bitmap in
    record {
      sound = k.sound;
      block_count = k.block_count ∙ i.block_count;
      once = λ b.
          ap (λ ds. occurrences h b (t.saved ++ ds)) k.order
          ∙ delivered_once h b t.saved (contents t.client.ring) d
          ∙ ap (λ m. m + (if a == b then 1 else 0)) (i.once b)
          ∙ taken_new n x.received a b bitmap pos new
          ∙ ap (λ z. if is_taken n z b then 1 else 0) (sym k.received);
      ending = k.ending;
    }

pub net_step-IsDelivered :
    (h : Host) (n : ℕ) (env : Env) (d : Datagram) (t : Transfer) (v : Verdict)
    → IsFair h (net_turn env d)
    → IsDelivered h n t
    → IsDelivered h n (net_step h env d t v)
unfolding net_step IsFair
net_step-IsDelivered h n env d t again f i =
    elim (receive_round_lem h env d t.client f.0 f.1 f.2 i.sound) [
      | inl k ↦ record {
        sound = k.kept.sound;
        block_count = k.kept.same.block_count ∙ i.block_count;
        once = λ b.
            ap (λ g. occurrences h b (t.saved ++ contents g)) k.kept.same.ring
            ∙ i.once b
            ∙ ap (λ z. if is_taken n z b then 1 else 0) (sym k.kept.same.received);
        ending = k.kept.ending;
      }
      | inr k ↦ Stored-IsDelivered h n d t _ f.2 i k
    ]
net_step-IsDelivered h n env d t finished f i = i
net_step-IsDelivered h n env d t aborted f i = i
net_step-IsDelivered h n env d t exited f i = i
net_step-IsDelivered h n env d t asleep f i = i
