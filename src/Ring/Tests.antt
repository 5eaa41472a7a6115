-- ===== src/Ring/Tests.antt =====
-- client/ring.c: small runs of one ring, and the theorems at them.
use tsunami_udp.Base.{◌≡◌, refl, arith, [], ◌∷◌, true, false}
use tsunami_udp.Ring.{
  Ring, Pthread, done, blocked, null, fatal, ring_create, ring_cancel, ring_peek, ring_pop,
  queue_datagram, popped,
}
use tsunami_udp.Ring.Invariant.{IsValid, Call, run_call, run_call-IsValid}
use tsunami_udp.Ring.Queue.{Joined, queue_datagram_lem}
use tsunami_udp.Ring.Refine.{contents}

abbrev working : Pthread
working = record { lock = 0; unlock = 0; signal = 0; wait = 0 }

abbrev broken : Pthread
broken = record { lock = 22; unlock = 0; signal = 0; wait = 0 }

abbrev blank : Ring
blank = record {
  datagrams = λ i. [];
  datagram_size = 8;
  base_data = 0;
  count_data = 0;
  count_reserved = 0;
  data_ready = false;
  space_ready = true;
  data_signals = 0;
  space_signals = 0;
}

-- Two datagrams, the second in slot 0.
abbrev wrapped : Ring
wrapped = record {
  datagrams = λ i. i ∷ [];
  datagram_size = 8;
  base_data = 4095;
  count_data = 2;
  count_reserved = 0;
  data_ready = true;
  space_ready = true;
  data_signals = 0;
  space_signals = 0;
}

wrapped-IsValid : IsValid wrapped
wrapped-IsValid = ground arith

ring_create-blank : ring_create 2 (λ i. []) ≡ blank
unfolding ring_create
ring_create-blank = refl

contents-wrapped : contents wrapped ≡ (4095 ∷ []) ∷ (0 ∷ []) ∷ []
contents-wrapped = refl

peek_blank : ring_peek working blank ≡ blocked
unfolding ring_peek
peek_blank = refl

peek_broken : (ring_peek broken wrapped ≡ null) × (ring_pop broken wrapped ≡ fatal)
unfolding ring_peek ring_pop
peek_broken = (refl, refl)

cancel_nothing : ring_cancel working wrapped ≡ fatal
unfolding ring_cancel
cancel_nothing = refl

queue_datagram_lem_example :
    (r' : Ring) × (queue_datagram working (7 ∷ []) wrapped ≡ done r') × Joined wrapped (7 ∷ []) r'
queue_datagram_lem_example =
    queue_datagram_lem working wrapped (7 ∷ []) (omega arith) wrapped-IsValid refl (omega arith)

run_call-IsValid_example : IsValid (popped wrapped)
unfolding run_call ring_pop
run_call-IsValid_example = run_call-IsValid working Call.pop wrapped wrapped-IsValid refl
