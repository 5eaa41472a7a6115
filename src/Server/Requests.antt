-- ===== src/Server/Requests.antt =====
-- server/protocol.c: what a request does, and how requests are put together from what `read` gives.
use tsunami_udp.Base.{
  ℕ, ◌+◌, ◌^◌, ◌≤◌, ◌<◌, ◌≡◌, refl, ap, sym, ◌∙◌, arith, Bool, true, false, ◌||◌, ◌==◌, ltb, List,
  [], ◌∷◌, ◌++◌, take, drop, length, length-take, length-append, length-drop, append-nil,
  append_assoc, inl, inr, Bool-cases, take_exact, take_all,
}
use tsunami_udp.Blocks.{build_datagram}
use tsunami_udp.Blocks.Reading.{build_datagram-header}
use tsunami_udp.Message.{
  Request, encode, decode, request_size, request_retransmit, request_restart, request_error_rate,
}
use tsunami_udp.Message.Laws.{Fits, decode-encode}
use tsunami_udp.Receive.{this_block, this_type, ts_block_retransmission}
use tsunami_udp.Ring.{Datagram}
use tsunami_udp.Server.{
  Param, Pace, Server, send_block, clamped, adjusted, ttp_accept_retransmit, Inbox, add_bytes,
  Handler, next_block, block_type, serve_round,
}
use tsunami_udp.Server.Blast.{quiet, quiet_round}
use tsunami_udp.Wire.{Host}

-- A comparison of numbers of type double that are not NaN.
pub record IsOrder {R : Type 0} (m : Pace R) : Type 0 where
  pub irrefl : (x : R) → m.less x x ≡ false
  pub asym : (x y : R) → m.less x y ≡ true → m.less y x ≡ false

clamped_range :
    {R : Type 0} (m : Pace R) (x : R)
    → IsOrder m
    → m.less m.highest m.ipd_time ≡ false
    → (m.less (clamped m x) m.ipd_time ≡ false) × (m.less m.highest (clamped m x) ≡ false)
clamped_range m x order range = elim (Bool-cases (m.less x m.highest)) [
  | inl below ↦ elim (Bool-cases (m.less m.ipd_time x)) [
    | inl above ↦ rw (below, above) (order.asym m.ipd_time x above, order.asym x m.highest below)
    | inr under ↦ rw (below, under) (order.irrefl m.ipd_time, range)
  ]
  | inr over ↦ elim (Bool-cases (m.less m.ipd_time m.highest)) [
    | inl above ↦ rw (over, above) (order.asym m.ipd_time m.highest above, order.irrefl m.highest)
    | inr under ↦ rw (over, under) (order.irrefl m.ipd_time, range)
  ]
]

-- After an error rate report, whatever the rate, the delay between packets is neither below the session's
-- `ipd_time` nor above 10000 microseconds, unless `ipd_time` itself is; and nothing else changes.
pub error_rate_lem :
    {R : Type 0} (p : Param) (m : Pace R) (works : Bool) (r : Request) (s : Server R)
    → IsOrder m
    → r.request_type ≡ request_error_rate
    → m.less m.highest m.ipd_time ≡ false
    → let s' = (ttp_accept_retransmit p m works r s).server in
      (m.less s'.ipd_current m.ipd_time ≡ false)
      × (m.less m.highest s'.ipd_current ≡ false)
      × (s' ≡ record s { ipd_current = s'.ipd_current })
unfolding ttp_accept_retransmit
error_rate_lem p m works r s order rate range =
    let is_rate : (r.request_type == request_error_rate) ≡ true = ground arith in
    let inside = clamped_range m (adjusted p m r.error_rate s.ipd_current) order range in
    rw is_rate (inside.0, inside.1, refl)

-- A retransmission request sends one datagram, of the block that was asked for and of type
-- retransmission, and moves neither the counter of the loop nor the delay, if `sendto` works.
retransmit_lem :
    {R : Type 0} (client : Host) (p : Param) (m : Pace R) (r : Request) (s : Server R)
    → r.request_type ≡ request_retransmit
    → r.block < 2 ^ 32
    → let h = ttp_accept_retransmit p m true r s in
      (d : Datagram) × (h.server.sent ≡ s.sent ++ d ∷ [])
      × (this_block client d ≡ r.block)
      × (this_type client d ≡ ts_block_retransmission)
      × (h.ok ≡ true)
      × (h.server.block ≡ s.block)
      × (h.server.ipd_current ≡ s.ipd_current)
unfolding ttp_accept_retransmit send_block
retransmit_lem client p m r s again small =
    let not_rate : (r.request_type == request_error_rate) ≡ false = ground arith in
    let not_restart : (r.request_type == request_restart) ≡ false = ground arith in
    let is_again : (r.request_type == request_retransmit) ≡ true = ground arith in
    let d =
      (build_datagram p.host p.block_size r.block ts_block_retransmission s.datagram s.reader).0 in
    let heads =
      build_datagram-header p.host client p.block_size r.block ts_block_retransmission s.datagram
        s.reader small (omega arith) in
    rw (not_rate, not_restart, is_again) (d, refl, heads.0, heads.1, refl, refl, refl)

-- After a restart request for a block before the last one, the next datagram that the loop sends holds
-- the block behind it: the block that was asked for is skipped.
pub restart_lem :
    {R : Type 0} (client : Host) (p : Param) (m : Pace R) (works : Bool) (r : Request)
    (x : Handler R)
    → r.request_type ≡ request_restart
    → 0 < r.block
    → r.block < p.block_count
    → p.block_count < 2 ^ 32
    → x.inbox.len < request_size
    → let s = (ttp_accept_retransmit p m works r x.server).server in
      (d : Datagram) × ((serve_round p m quiet (record x { server = s })).handler.server.sent
        ≡ x.server.sent ++ d ∷ [])
      × (this_block client d ≡ r.block + 1)
unfolding ttp_accept_retransmit
restart_lem client p m works r x restart pos inside small part =
    let not_rate : (r.request_type == request_error_rate) ≡ false = ground arith in
    let is_restart : (r.request_type == request_restart) ≡ true = ground arith in
    let good : (r.block == 0 || ltb p.block_count r.block) ≡ false = ground arith in
    let s : Server _ = record (x.server) { block = r.block } in
    let b = next_block p r.block in
    let sent = (quiet_round p m (record x { server = s }) part).3 in
    let heads =
      build_datagram-header p.host client p.block_size b (block_type p b) s.datagram s.reader
        (omega arith) (ground arith) in
    rw (not_rate, is_restart, good)
      (
        (build_datagram p.host p.block_size b (block_type p b) s.datagram s.reader).0,
        sent,
        heads.0 ∙ omega arith,
      )

-- The bytes that are in the inbox.
abbrev pub held : Inbox → List ℕ
held i = take i.len i.bytes

-- The inbox has its twelve bytes, or more, and `len` is in them.
pub record IsInbox (i : Inbox) : Type 0 where
  pub size : length i.bytes ≡ request_size
  pub part : i.len ≤ request_size

pub add_bytes-held :
    (new : List ℕ) (i : Inbox)
    → IsInbox i
    → i.len + length new ≤ request_size
    → (held (add_bytes new i) ≡ held i ++ new) × IsInbox (add_bytes new i)
unfolding add_bytes
add_bytes-held new i v room =
    let old = take i.len i.bytes in
    let rest = drop (i.len + length new) i.bytes in
    let old_len : length old ≡ i.len = omega (arith, length-take i.len i.bytes, v.size, v.part) in
    (
      ap (take (i.len + length new)) (sym (append_assoc old new rest))
          ∙ take_exact (i.len + length new) (old ++ new) rest
              (omega (arith, length-append old new)),
      record {
        size = omega (
          arith,
          length-append old (new ++ rest),
          length-append new rest,
          length-drop (i.len + length new) i.bytes,
          v.size,
        );
        part = room;
      },
    )

-- What a series of successful calls of `read` leaves.
unfoldable pub add_all : List (List ℕ) → Inbox → Inbox
add_all [] i = i
add_all (new ∷ more) i = add_all more (add_bytes new i)

unfoldable pub joined : List (List ℕ) → List ℕ
joined [] = []
joined (new ∷ more) = new ++ joined more

add_bytes-len : (new : List ℕ) (i : Inbox) → (add_bytes new i).len ≡ i.len + length new
unfolding add_bytes
add_bytes-len new i = refl

add_all-held :
    (news : List (List ℕ)) (i : Inbox)
    → IsInbox i
    → i.len + length (joined news) ≤ request_size
    → (held (add_all news i) ≡ held i ++ joined news)
      × IsInbox (add_all news i)
      × ((add_all news i).len ≡ i.len + length (joined news))
unfolding add_all joined
add_all-held [] i v room = (sym (append-nil (held i)), v, omega arith)
add_all-held (new ∷ more) i v room =
    let lengths = length-append new (joined more) in
    let (one, v') = add_bytes-held new i v (omega arith) in
    let at : (add_bytes new i).len ≡ i.len + length new = add_bytes-len new i in
    let (all, v'', len) = add_all-held more (add_bytes new i) v' (omega arith) in
    (
      all ∙ ap (λ l. l ++ joined more) one ∙ append_assoc (held i) new (joined more),
      v'',
      omega arith,
    )

-- However the twelve bytes of a request are cut into the pieces that `read` gives, and whatever was in the
-- buffer before, once all have come the inbox is full, and it decodes to the request that the
-- client encoded, whatever the byte orders of the two hosts.
pub pieces_lem :
    (client server : Host) (r : Request) (news : List (List ℕ)) (i : Inbox)
    → Fits r
    → IsInbox i
    → i.len ≡ 0
    → joined news ≡ encode client r
    → ((add_all news i).len ≡ request_size) × (decode server (add_all news i).bytes ≡ r)
pieces_lem client server r news i fits v fresh whole =
    let (decoded, size) = decode-encode client server r fits in
    let total = ap length whole in
    let (all, v', len) = add_all-held news i v (omega arith) in
    let full : (add_all news i).len ≡ request_size = omega arith in
    let nothing : held i ≡ [] = ap (λ n. take n i.bytes) fresh in
    let bytes : (add_all news i).bytes ≡ encode client r =
      sym (take_all (add_all news i).bytes)
      ∙ ap (λ n. take n (add_all news i).bytes) {x = length (add_all news i).bytes}
          {y = (add_all news i).len} (omega (arith, v'.size))
      ∙ all
      ∙ ap (λ l. l ++ joined news) nothing
      ∙ whole in
    (full, ap (decode server) bytes ∙ decoded)
