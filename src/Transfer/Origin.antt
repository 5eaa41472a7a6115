-- ===== src/Transfer/Origin.antt =====
-- client/command.c: what is delivered is what arrived.
use tsunami_udp.Base.{
  ◌≡◌, ◌⊎◌, inl, inr, refl, ap, sym, subst, ◌∙◌, arith, List, [], ◌∷◌, ◌++◌, append_assoc, dec_lt,
  ℕ, All, all_none, all_more, All-append,
}
use tsunami_udp.Receive.{Env, Verdict, again, finished, aborted, exited, asleep}
use tsunami_udp.Receive.Finish.{receive_round_lem}
use tsunami_udp.Ring.{Datagram, Pthread, popped}
use tsunami_udp.Ring.Queue.{IsWorking, take_datagram-popped, take_datagram-empty}
use tsunami_udp.Ring.Refine.{contents, contents-popped}
use tsunami_udp.Transfer.{Transfer, Event, disk_turn, net_turn, net_step, disk_step, turn, turns}
use tsunami_udp.Transfer.Delivery.{
  delivered, IsDelivered, IsFair, disk_step-IsDelivered, net_step-IsDelivered,
}
use tsunami_udp.Wire.{Host}

pub disk_step-delivered :
    (h : Host) (n : ℕ) (p : Pthread) (t : Transfer)
    → IsWorking p
    → IsDelivered h n t
    → delivered (disk_step p t) ≡ delivered t
unfolding disk_step
disk_step-delivered h n p t w i =
    let r = t.client.ring in
    elim (dec_lt 0 r.count_data) [
      | yes some_data ↦
          rw (take_datagram-popped p r w i.sound.1 some_data, disk_step)
            (append_assoc t.saved (r.datagrams r.base_data ∷ []) (contents (popped r))
              ∙ ap (λ ds. t.saved ++ ds) (sym (contents-popped r some_data)))
      | no empty ↦ rw (take_datagram-empty p r w i.sound.1 (omega arith), disk_step) refl
    ]

pub net_step-delivered :
    (h : Host) (n : ℕ) (env : Env) (d : Datagram) (t : Transfer) (v : Verdict)
    → IsFair h (net_turn env d)
    → IsDelivered h n t
    → (delivered (net_step h env d t v) ≡ delivered t)
      ⊎ (delivered (net_step h env d t v) ≡ delivered t ++ d ∷ [])
unfolding net_step IsFair
net_step-delivered h n env d t again f i =
    elim (receive_round_lem h env d t.client f.0 f.1 f.2 i.sound) [
      | inl k ↦ inl (ap (λ r. t.saved ++ contents r) k.kept.same.ring)
      | inr k ↦ inr (
          ap (λ ds. t.saved ++ ds) k.order
          ∙ sym (append_assoc t.saved (contents t.client.ring) (d ∷ [])))
    ]
net_step-delivered h n env d t finished f i = inl refl
net_step-delivered h n env d t aborted f i = inl refl
net_step-delivered h n env d t exited f i = inl refl
net_step-delivered h n env d t asleep f i = inl refl

-- A turn whose datagram, if it has one, has the property `P`.
pub data Brings (P : Datagram → Type 0) : Event → Type 0 where
  brings_none : {p : Pthread} → Brings P (disk_turn p)
  brings : {env : Env} {d : Datagram} → P d → Brings P (net_turn env d)

-- What all the datagrams that arrive have, all that are delivered have.
pub turns-All :
    (h : Host) (n : ℕ) (P : Datagram → Type 0) (es : List Event) (t : Transfer)
    → All (IsFair h) es
    → All (Brings P) es
    → IsDelivered h n t
    → All P (delivered t)
    → All P (delivered (turns h es t))
unfolding turns turn IsFair
turns-All h n P [] t f b i all = all
turns-All h n P (disk_turn p ∷ es) t (all_more f fs) (all_more b bs) i all =
    turns-All h n P es (disk_step p t) fs bs (disk_step-IsDelivered h n p t f i)
      (subst (All P) (sym (disk_step-delivered h n p t f i)) all)
turns-All h n P (net_turn env d ∷ es) t (all_more f fs) (all_more (brings pd) bs) i all =
    turns-All h n P es (net_step h env d t t.verdict) fs bs
      (net_step-IsDelivered h n env d t t.verdict f i)
      (elim (net_step-delivered h n env d t t.verdict f i) [
        | inl same ↦ subst (All P) (sym same) all
        | inr more ↦
            subst (All P) (sym more) (All-append (delivered t) (d ∷ []) all (all_more pd all_none))
      ])
