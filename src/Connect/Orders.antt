-- ===== src/Connect/Orders.antt =====
-- client/command.c and server/main.c: the order in which the two sides of a connection come on makes no difference.
use tsunami_udp.Base.{
  ℕ, suc, ◌-◌, ◌≤◌, ◌≡◌, refl, sym, ap, subst, arith, true, List, ◌++◌, length, length-append,
  take-append_left, drop-append_left,
}
use tsunami_udp.Connect.{
  Talk, puts, gets, ends, Talks, is_ready, left_by, written_by, after_call, Side, at_client,
  at_server, can_move, move, Takes, stays, moves,
}

-- A call that returns does the same when more bytes are on the way.
is_ready-more :
    {R : Type 0} (t : Talk R) (input more : List ℕ)
    → is_ready t input ≡ true
    → (is_ready t (input ++ more) ≡ true)
      × (after_call t (input ++ more) ≡ after_call t input)
      × (left_by t (input ++ more) ≡ left_by t input ++ more)
unfolding is_ready after_call left_by
is_ready-more (puts bytes next) input more e = (refl, refl, refl)
is_ready-more (gets count next) input more e =
    let enough : count ≤ length input = ground arith in
    let longer = length-append input more in
    (
      ground arith,
      ap next (take-append_left count input more enough),
      drop-append_left count input more enough,
    )
is_ready-more (ends result) input more e = ground arith

-- If both sides can move, each can still move after the other, and both orders lead to the same.
move-move :
    (x : Talks)
    → can_move at_client x ≡ true
    → can_move at_server x ≡ true
    → (can_move at_server (move at_client x) ≡ true)
      × (can_move at_client (move at_server x) ≡ true)
      × (move at_server (move at_client x) ≡ move at_client (move at_server x))
unfolding can_move move
move-move x c s =
    let (c_ready, c_after, c_left) = is_ready-more x.client x.to_client (written_by x.server) c in
    let (s_ready, s_after, s_left) = is_ready-more x.server x.to_server (written_by x.client) s in
    (s_ready, c_ready, rw (c_after, c_left, s_after, s_left) refl)

unfoldable pub IsOver : Talks → Type 0
IsOver x = (side : Side) → can_move side x ≡ true → ⊥

-- What is left of a way to an end after a first move.
record Remaining (n : ℕ) (x z : Talks) : Type 0 where
  count : ℕ
  fewer : n ≡ suc count
  way : Takes count x z

-- The move of the way comes second where the other side moves first.
swapped :
    {n : ℕ} {x z : Talks} (s : Side)
    → {y : Talks} → can_move s y ≡ true
    → x ≡ move s y
    → Remaining n x z
    → Remaining (suc n) y z
swapped {z = z} s c same r = record {
  count = suc (r.count);
  fewer = ap suc r.fewer;
  way = moves s c (subst (λ x. Takes r.count x z) same r.way);
}

after_move :
    {n : ℕ} {x z : Talks} (side : Side)
    → Takes n x z
    → IsOver z
    → can_move side x ≡ true
    → Remaining n (move side x) z
unfolding IsOver
after_move side stays over c = absurd (over side c)
after_move at_client (moves at_client c' w) over c = record { count = _; fewer = refl; way = w }
after_move at_server (moves at_server c' w) over c = record { count = _; fewer = refl; way = w }
after_move {x = x} at_client (moves at_server c' w) over c =
    let (s_can, c_can, same) = move-move x c c' in
    swapped at_server s_can (sym same) (after_move at_client w over c_can)
after_move {x = x} at_server (moves at_client c' w) over c =
    let (s_can, c_can, same) = move-move x c' c in
    swapped at_client c_can same (after_move at_server w over s_can)

-- Whatever moves were made in whatever order: where there is a way from the start to an end of both sides, the moves made are no
-- more than those of the way, and the remaining number of moves leads to that end.
pub Takes-Takes :
    {k : ℕ} {x y : Talks}
    → Takes k x y
    → {n : ℕ} {z : Talks} → Takes n x z
    → IsOver z
    → (k ≤ n) × Takes (n - k) y z
Takes-Takes {x = x} stays {z = z} w over = (omega arith, subst (λ m. Takes m x z) (omega arith) w)
Takes-Takes {y = y} (moves side c v) {z = z} w over =
    let r = after_move side w over c in
    let (fits, rest) = Takes-Takes v r.way over in
    let e = r.fewer in (omega arith, subst (λ m. Takes m y z) (omega arith) rest)
