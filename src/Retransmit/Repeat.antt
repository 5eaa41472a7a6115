-- ===== src/Retransmit/Repeat.antt =====
-- client/protocol.c: what `ttp_repeat_retransmit` asks for, and what it leaves in the table.
use tsunami_udp.Base.{
  ℕ, zero, suc, ◌+◌, ◌-◌, ◌%◌, ◌^◌, ◌≤◌, ◌<◌, ◌≡◌, refl, ap, ◌∙◌, arith, true, false, ◌==◌, leb,
  min, List, [], ◌∷◌, map, length, take, get_or, length-take, take_long,
}
use tsunami_udp.Retransmit.{
  max_retransmission_buffer, Compacted, compacted, Progress, Control, Reply, ask_again, restart_at,
  restart_block, restarted, shrunk, send_requests, with_table, ttp_repeat_retransmit,
}
use tsunami_udp.Retransmit.Compact.{slice, keep_wanted, Loop, compact-Loop}
use tsunami_udp.Retransmit.Table.{IsValid, entries}

slice-cons :
    (x : ℕ) (xs : List ℕ) (entry left : ℕ) → slice (x ∷ xs) (suc entry) left ≡ slice xs entry left
slice-cons x xs entry zero = refl
slice-cons x xs entry (suc left) =
    ap (λ t. get_or xs entry 0 ∷ t)
      (ap (λ e. slice (x ∷ xs) e left) {y = suc (entry + 1)} (omega arith)
        ∙ slice-cons x xs (entry + 1) left)

slice-take : (xs : List ℕ) (left : ℕ) → left ≤ length xs → slice xs 0 left ≡ take left xs
slice-take xs zero h = refl
slice-take [] (suc left) h = elim h [ ]
slice-take (x ∷ xs) (suc left) h =
    ap (λ t. x ∷ t)
      (ap (λ e. slice (x ∷ xs) e left) {y = suc 0} (omega arith)
        ∙ slice-cons x xs 0 left
        ∙ slice-take xs left (omega arith))

-- The entries in use that are still wanted: neither 0 nor received.
abbrev pub missing_entries : Progress → List ℕ
missing_entries x = keep_wanted x.block_count x.received (entries x.rexmit)

module _ (x : Progress) (v : IsValid x.rexmit) where
  pub done-Loop : Loop x.block_count x.received x.rexmit.index_max 0 0 x.rexmit.table (compacted x)
  done-Loop =
      compact-Loop x.block_count x.received x.rexmit.index_max 0 0 x.rexmit.table (omega arith)
        (omega (arith, v.size, v.fits))

  compacted-blocks : (compacted x).blocks ≡ take max_retransmission_buffer (missing_entries x)
  compacted-blocks =
      done-Loop.blocks
      ∙ ap (λ t. take max_retransmission_buffer (keep_wanted x.block_count x.received t))
          (slice-take x.rexmit.table x.rexmit.index_max (omega (arith, v.size, v.fits)))

  compacted-count : (compacted x).count ≡ min max_retransmission_buffer (length (missing_entries x))
  compacted-count = omega (
    arith,
    done-Loop.counted,
    ap length compacted-blocks,
    length-take max_retransmission_buffer (missing_entries x),
  )

abbrev pub working : Control
working = record { write_works = true; flush_works = true }

-- The function under a control connection that works, on either branch.
few_reply : Compacted → Progress → Reply
few_reply k x = record { progress = shrunk k.count x; requests = map ask_again k.blocks; ok = true }

send_requests-few :
    (t : List ℕ) (count : ℕ) (blocks : List ℕ) (x : Progress)
    → count < max_retransmission_buffer
    → count ≡ length blocks
    → let k : Compacted = record { table = t; count = count; blocks = blocks } in
      send_requests working k x ≡ few_reply k x
unfolding send_requests few_reply
send_requests-few t zero [] x small e = refl
send_requests-few t zero (b ∷ bs) x small e = absurd (omega arith)
send_requests-few t (suc count) [] x small e = absurd (omega arith)
send_requests-few t (suc count) (b ∷ bs) x small e =
    let below : leb max_retransmission_buffer (suc count) ≡ false = ground arith in
    let some_left : (suc count == 0) ≡ false = ground arith in rw (below, some_left)

send_requests-many :
    (k : Compacted) (x : Progress)
    → max_retransmission_buffer ≤ k.count
    → send_requests working k x
      ≡ record { progress = restarted x; requests = restart_at (restart_block x) ∷ []; ok = true }
unfolding send_requests
send_requests-many k x many =
    let above : leb max_retransmission_buffer k.count ≡ true = ground arith in rw above

-- With a valid table and fewer than 2048 missing entries, and a control connection that works,
-- `ttp_repeat_retransmit` succeeds, sends one retransmission request for each missing entry in
-- order, keeps exactly those entries in a valid table, counts them, and does not restart.
pub repeat_few :
    (x : Progress)
    → IsValid x.rexmit
    → length (missing_entries x) < max_retransmission_buffer
    → let r = ttp_repeat_retransmit working x in
      (r.ok ≡ true)
      × (r.requests ≡ map ask_again (missing_entries x))
      × (entries r.progress.rexmit ≡ missing_entries x)
      × IsValid r.progress.rexmit
      × (r.progress.this_retransmits ≡ length (missing_entries x))
      × (r.progress.restart_pending ≡ x.restart_pending)
      × (r.progress.next_block ≡ x.next_block)
unfolding ttp_repeat_retransmit few_reply
repeat_few x v few =
    let loop = done-Loop x v in
    let all : (compacted x).blocks ≡ missing_entries x =
      compacted-blocks x v
      ∙ take_long max_retransmission_buffer (missing_entries x) (omega arith) in
    let count : (compacted x).count ≡ length (missing_entries x) =
      omega (arith, compacted-count x v) in
    let reply : ttp_repeat_retransmit working x
        ≡ few_reply (compacted x) (with_table (compacted x).table x) =
      send_requests-few (compacted x).table (compacted x).count (compacted x).blocks
        (with_table (compacted x).table x) (omega arith) (omega (arith, ap length all)) in
    rw (reply, few_reply)
      (
        refl,
        ap (map ask_again) all,
        loop.prefix ∙ all,
        record {
          size = loop.size ∙ v.size;
          fits = omega (
            arith,
            v.size,
            loop.size,
            loop.counted,
            ap length loop.prefix,
            length-take (compacted x).count (compacted x).table,
          );
          doubling = v.doubling;
        },
        count,
        refl,
        refl,
      )

-- With a valid table and 2048 or more missing entries, and a control connection that works,
-- `ttp_repeat_retransmit` sends one restart request, for the first block that is missing (or the last
-- block), expects that block next, empties the table, which stays valid, and remembers the last entry of the table as
-- the end of the blocks to restart for, and the block that lies beyond it by the estimate of the blocks still on the wire,
-- or the last block, as the end of those.
pub repeat_many :
    (x : Progress)
    → IsValid x.rexmit
    → max_retransmission_buffer ≤ length (missing_entries x)
    → let r = ttp_repeat_retransmit working x in
      (r.ok ≡ true)
      × (r.requests ≡ restart_at (min x.block_count ((x.gapless_to_block + 1) % 2 ^ 32)) ∷ [])
      × (r.progress.rexmit.index_max ≡ 0)
      × IsValid r.progress.rexmit
      × (r.progress.next_block ≡ min x.block_count ((x.gapless_to_block + 1) % 2 ^ 32))
      × (r.progress.restart_pending ≡ true)
      × (r.progress.restart_lastidx ≡ get_or x.rexmit.table (x.rexmit.index_max - 1) 0)
      × (r.progress.restart_wireclearidx
          ≡ min x.block_count
              ((get_or x.rexmit.table (x.rexmit.index_max - 1) 0 + x.on_wire_estimate) % 2 ^ 32))
unfolding ttp_repeat_retransmit
repeat_many x v many =
    let loop = done-Loop x v in
    let count : max_retransmission_buffer ≤ (compacted x).count =
      omega (arith, compacted-count x v) in
    rw (send_requests-many (compacted x) (with_table (compacted x).table x) count) (
      refl,
      refl,
      refl,
      record { size = loop.size ∙ v.size; fits = omega arith; doubling = v.doubling },
      refl,
      refl,
      loop.rest (x.rexmit.index_max - 1) (omega arith),
      ap (λ last. min x.block_count ((last + x.on_wire_estimate) % 2 ^ 32))
          (loop.rest (x.rexmit.index_max - 1) (omega arith)),
    )
