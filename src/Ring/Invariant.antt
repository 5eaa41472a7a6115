-- ===== src/Ring/Invariant.antt =====
-- client/ring.c: the invariant of the ring buffer, and that each call keeps it.
use tsunami_udp.Base.{ℕ, ◌+◌, ◌≤◌, ◌<◌, ◌≡◌, ltb, arith, refl, subst}
use tsunami_udp.Ring.{
  Datagram, max_blocks_queued, Ring, Pthread, Outcome, ◌>>=◌, done, blocked, null, fatal,
  ring_cancel, ring_confirm, ring_create, ring_pop, ring_reserve,
}

-- The flags say whether there is data and whether a slot is free. All slots may be in use.
pub record IsValid (r : Ring) : Type 0 where
  pub base_in : r.base_data < max_blocks_queued
  pub one_reserved : r.count_reserved ≤ 1
  pub room : r.count_data + r.count_reserved ≤ max_blocks_queued
  pub data_flag : r.data_ready ≡ ltb 0 r.count_data
  pub space_flag : r.space_ready ≡ ltb (r.count_data + r.count_reserved) max_blocks_queued

pub ring_create-IsValid : (b : ℕ) (g : ℕ → Datagram) → IsValid (ring_create b g)
unfolding ring_create
ring_create-IsValid b g = ground arith

pub ring_cancel-IsValid :
    (p : Pthread) {r r' : Ring} → IsValid r → ring_cancel p r ≡ done r' → IsValid r'
unfolding ring_cancel
ring_cancel-IsValid p v e = ground arith

pub ring_confirm-IsValid :
    (p : Pthread) {r r' : Ring} → IsValid r → ring_confirm p r ≡ done r' → IsValid r'
unfolding ring_confirm
ring_confirm-IsValid p v e = ground arith

pub ring_pop-IsValid : (p : Pthread) {r r' : Ring} → IsValid r → ring_pop p r ≡ done r' → IsValid r'
unfolding ring_pop
ring_pop-IsValid p v e = ground arith

pub ring_reserve-IsValid :
    (p : Pthread) {r r' : Ring} {slot : ℕ}
    → IsValid r
    → ring_reserve p r ≡ done (slot, r')
    → IsValid r'
unfolding ring_reserve
ring_reserve-IsValid p v e = ground arith

-- The calls that change the ring.
pub data Call : Type 0 where
  reserve confirm cancel pop : Call

unfoldable pub run_call : Pthread → Call → Ring → Outcome Ring
run_call p reserve r = ring_reserve p r >>= λ (slot, r'). done r'
run_call p confirm r = ring_confirm p r
run_call p cancel r = ring_cancel p r
run_call p pop r = ring_pop p r

>>=-eq-done {ℓ κ} :
    {A : Type ℓ} {B : Type κ} (m : Outcome A) (f : A → Outcome B) {b : B}
    → (m >>= f) ≡ done b
    → (a : A) × (m ≡ done a) × (f a ≡ done b)
>>=-eq-done (done a) f e = (a, refl, e)
>>=-eq-done blocked f e = cc
>>=-eq-done null f e = cc
>>=-eq-done fatal f e = cc

done-injective : (a b : Ring) → done a ≡ done b → a ≡ b
done-injective a b e = cc

-- Every call that returns keeps the invariant of the ring: the head and the counts are in range, at
-- most one slot is reserved, and the flags say exactly whether there is data and whether there is a
-- free slot.
pub run_call-IsValid :
    (p : Pthread) (c : Call) (r : Ring) {r' : Ring}
    → IsValid r
    → run_call p c r ≡ done r'
    → IsValid r'
unfolding run_call
run_call-IsValid p reserve r v e =
    let (a, got, out) = >>=-eq-done (ring_reserve p r) (λ (slot, r'). done r') e in
    subst IsValid (done-injective a.1 _ out) (ring_reserve-IsValid p v got)
run_call-IsValid p confirm r v e = ring_confirm-IsValid p v e
run_call-IsValid p cancel r v e = ring_cancel-IsValid p v e
run_call-IsValid p pop r v e = ring_pop-IsValid p v e
