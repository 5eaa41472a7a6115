-- ===== src/Ring/Threads/Invariant.antt =====
-- client/command.c and client/ring.c: what holds in every interleaving of the two threads.
use tsunami_udp.Base.{
  ℕ, ◌<◌, ◌≡◌, refl, ap, sym, subst, ◌∙◌, arith, [], ◌∷◌, ◌++◌, append_assoc, Bool, ◌⊎◌, inl, inr,
}
use tsunami_udp.Ring.{
  Datagram, max_blocks_queued, ring_create, next_slot, write_slot, popped, confirmed, reserved,
  Pthread, blocked, ring_reserve, ring_peek,
}
use tsunami_udp.Ring.Invariant.{IsValid, ring_create-IsValid}
use tsunami_udp.Ring.Refine.{
  contents, tail_slot, ring_pop_inv, ring_confirm_inv, ring_peek_inv, reserve_from_inv,
  ring_reserve_inv, contents-popped,
}
use tsunami_udp.Ring.Threads.{
  receiving, waiting, holding, written, looking, dozing, peeked, stored, ended, System, Step,
  reserve, sleep, wake, copy, confirm, peek, doze, rouse, accept, quit, refuse, pop, start, Reach,
  here, next,
}
use tsunami_udp.Ring.Threads.Facts.{
  NetworkFacts, unsaved, DiskFacts, unsaved-confirmed, unsaved-write_slot, DiskFacts-keep,
  reserved-IsValid, NetworkFacts-popped, blocked-full, unsaved-reserved, confirmed-IsValid,
  popped-IsValid, blocked-empty,
}
use tsunami_udp.Wire.{Host}

pub record Inv (s : System) : Type 0 where
  pub valid : IsValid s.ring
  pub net : NetworkFacts s.ring s.network
  pub disk : DiskFacts s.ring s.disk
  pub kept : s.sent ≡ s.saved ++ unsaved s.ring s.disk

start-Inv : (b : ℕ) (g : ℕ → Datagram) → Inv (start b g)
unfolding ring_create
start-Inv b g = ground (arith, ring_create-IsValid b g)

-- A reservation, at once or after a wait, leads to the place that holds the slot.
Inv-reserved :
    (s : System) (d : Datagram)
    → Inv s
    → s.ring.count_reserved ≡ 0
    → s.ring.count_data < max_blocks_queued
    → Inv (record s {
      ring = reserved (tail_slot s.ring) s.ring;
      network = holding (tail_slot s.ring) d;
    })
Inv-reserved s d inv e h = record {
  valid = reserved-IsValid s.ring inv.valid e h;
  net = (omega arith, h, refl);
  disk =
      DiskFacts-keep s.ring (reserved (tail_slot s.ring) s.ring) s.disk refl (omega arith)
        (λ seen f. record { before = f.before; unsignalled = f.unsignalled }) inv.disk;
  kept =
      inv.kept ∙ ap (λ u. s.saved ++ u) (sym (unsaved-reserved (tail_slot s.ring) s.ring s.disk));
}

Inv-copied :
    (s : System) (d : Datagram)
    → Inv s
    → NetworkFacts s.ring (holding (tail_slot s.ring) d)
    → Inv (record s {
      ring = write_slot (tail_slot s.ring) d s.ring;
      network = written (tail_slot s.ring) d;
    })
Inv-copied s d inv f = record {
  valid = ground (arith, inv.valid);
  net = (f.0, refl, ground arith);
  disk =
      DiskFacts-keep s.ring (write_slot (tail_slot s.ring) d s.ring) s.disk refl (omega arith)
        (λ seen f. record { before = f.before; unsignalled = f.unsignalled }) inv.disk;
  kept =
      inv.kept
      ∙ ap (λ u. s.saved ++ u)
          (sym (unsaved-write_slot s.ring inv.valid.base_in d s.disk inv.disk f.1));
}

Inv-confirmed :
    (s : System) (d : Datagram)
    → Inv s
    → NetworkFacts s.ring (written (tail_slot s.ring) d)
    → Inv (record s { ring = confirmed s.ring; network = receiving; sent = s.sent ++ d ∷ [] })
Inv-confirmed s d inv f = record {
  valid = confirmed-IsValid s.ring inv.valid (omega arith);
  net = omega arith;
  disk =
      DiskFacts-keep s.ring (confirmed s.ring) s.disk refl (omega arith)
        (λ seen f. record {
          before = omega (arith, f.before);
          unsignalled = λ e. absurd (omega (arith, f.before));
        })
        inv.disk;
  kept =
      ap (λ u. u ++ d ∷ []) inv.kept
      ∙ append_assoc s.saved (unsaved s.ring s.disk) (d ∷ [])
      ∙ ap (λ x. s.saved ++ (unsaved s.ring s.disk ++ x ∷ [])) (sym f.2)
      ∙ ap (λ u. s.saved ++ u) (sym (unsaved-confirmed s.ring inv.valid.base_in s.disk inv.disk));
}

Inv-popped :
    (s : System) (slot : ℕ)
    → Inv s
    → s.disk ≡ stored slot
    → Inv (record s { ring = popped s.ring; disk = looking })
Inv-popped s slot inv e =
    let f : DiskFacts s.ring (stored slot) = subst (DiskFacts s.ring) e inv.disk in
    record {
      valid = popped-IsValid s.ring inv.valid f.1;
      net = NetworkFacts-popped s.ring s.network f.1 (omega (arith, inv.valid.room)) inv.net;
      disk = tt;
      kept = inv.kept ∙ ap (λ pc. s.saved ++ unsaved s.ring pc) e;
    }

Inv-accepted :
    (s : System) (slot : ℕ)
    → Inv s
    → s.disk ≡ peeked slot
    → Inv (record s { disk = stored slot; saved = s.saved ++ s.ring.datagrams slot ∷ [] })
Inv-accepted s slot inv e =
    let f : DiskFacts s.ring (peeked slot) = subst (DiskFacts s.ring) e inv.disk in
    record {
      valid = inv.valid;
      net = inv.net;
      disk = f;
      kept =
          inv.kept
          ∙ ap (λ pc. s.saved ++ unsaved s.ring pc) e
          ∙ ap (λ u. s.saved ++ u) (contents-popped s.ring f.1)
          ∙ ap (λ k. s.saved ++ s.ring.datagrams k ∷ contents (popped s.ring)) (sym f.0)
          ∙ sym (append_assoc s.saved (s.ring.datagrams slot ∷ []) (contents (popped s.ring)));
    }

-- The disk thread ends while it looks at a datagram: that one stays unsaved.
Inv-ended : (s : System) (slot : ℕ) → Inv s → s.disk ≡ peeked slot → Inv (record s { disk = ended })
Inv-ended s slot inv e = record {
  valid = inv.valid;
  net = inv.net;
  disk = tt;
  kept = inv.kept ∙ ap (λ pc. s.saved ++ unsaved s.ring pc) e;
}

Inv-peeked :
    (s : System)
    → Inv s
    → (s.disk ≡ looking) ⊎ ((seen : ℕ) × (s.disk ≡ dozing seen))
    → 0 < s.ring.count_data
    → Inv (record s { disk = peeked s.ring.base_data })
Inv-peeked s inv place h = record {
  valid = inv.valid;
  net = inv.net;
  disk = (refl, h);
  kept = elim place [
    | inl e ↦ inv.kept ∙ ap (λ pc. s.saved ++ unsaved s.ring pc) e
    | inr (seen, e) ↦ inv.kept ∙ ap (λ pc. s.saved ++ unsaved s.ring pc) e
  ];
}

Inv-waiting :
    (p : Pthread) (s : System) (d : Datagram)
    → Inv s
    → s.network ≡ receiving
    → ring_reserve p s.ring ≡ blocked
    → Inv (record s { network = waiting s.ring.space_signals (next_slot s.ring) d })
Inv-waiting p s d inv e b =
    let f : NetworkFacts s.ring receiving = subst (NetworkFacts s.ring) e inv.net in
    record {
      valid = inv.valid;
      net = (
        f,
        omega arith,
        record {
          before = omega arith;
          unsignalled = λ same. blocked-full p s.ring inv.valid f b;
          signalled = λ lt. absurd (omega arith);
        },
      );
      disk = inv.disk;
      kept = inv.kept;
    }

Inv-dozing :
    (p : Pthread) (s : System)
    → Inv s
    → s.disk ≡ looking
    → ring_peek p s.ring ≡ blocked
    → Inv (record s { disk = dozing s.ring.data_signals })
Inv-dozing p s inv e b = record {
  valid = inv.valid;
  net = inv.net;
  disk = record { before = omega arith; unsignalled = λ same. blocked-empty p s.ring inv.valid b };
  kept = inv.kept ∙ ap (λ pc. s.saved ++ unsaved s.ring pc) e;
}

pub Step-Inv : {h : Host} {strict : Bool} {s t : System} → Step h strict s t → Inv s → Inv t
Step-Inv {s = s} (reserve p d {slot} {r} e c) inv =
    let (at, made, free, room) = ring_reserve_inv p inv.valid c in
    rw (at, made) (Inv-reserved s d inv free room)
Step-Inv {s = s} (sleep p d e c) inv = Inv-waiting p s d inv e c
Step-Inv {s = s} (wake p {d} {seen} {next} {slot} {r} woken e c) inv =
    let (at, made, free, room) = reserve_from_inv p inv.valid c in
    let f : NetworkFacts s.ring (waiting seen next d) = subst (NetworkFacts s.ring) e inv.net in
    rw (at, made, f.1) (Inv-reserved s d inv free room)
Step-Inv {s = s} (copy {d} {slot} e) inv =
    let f : NetworkFacts s.ring (holding slot d) = subst (NetworkFacts s.ring) e inv.net in
    rw f.2 (Inv-copied s d inv (f.0, f.1, refl))
Step-Inv {s = s} (confirm p {d} {slot} {r} e c) inv =
    let f : NetworkFacts s.ring (written slot d) = subst (NetworkFacts s.ring) e inv.net in
    rw (ring_confirm_inv p s.ring c).0
      (Inv-confirmed s d inv (f.0, refl, ap s.ring.datagrams (sym f.1) ∙ f.2))
Step-Inv {s = s} (peek p {slot} e c) inv =
    let (at, some_data) = ring_peek_inv p inv.valid c in rw at (Inv-peeked s inv (inl e) some_data)
Step-Inv {s = s} (doze p e c) inv = Inv-dozing p s inv e c
Step-Inv {s = s} (rouse p {seen} {slot} woken e c) inv =
    let (at, some_data) = ring_peek_inv p inv.valid c in
    rw at (Inv-peeked s inv (inr (seen, e)) some_data)
Step-Inv {s = s} (accept {slot} e c) inv = Inv-accepted s slot inv e
Step-Inv {s = s} (quit {slot} e c) inv = Inv-ended s slot inv e
Step-Inv {s = s} (refuse {slot} e c) inv = Inv-ended s slot inv e
Step-Inv {s = s} (pop p {slot} {r} e c) inv =
    rw (ring_pop_inv p inv.valid c).0 (Inv-popped s slot inv e)

pub Reach-Inv : {h : Host} {b : ℕ} {g : ℕ → Datagram} {s : System} → Reach h b g s → Inv s
Reach-Inv {b = b} {g = g} here = start-Inv b g
Reach-Inv (next r st) = Step-Inv st (Reach-Inv r)
