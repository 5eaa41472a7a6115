-- ===== src/Server/Blast.antt =====
-- server/main.c: with no requests, the loop sends every block in order.
use tsunami_udp.Base.{
  ℕ, zero, suc, ◌+◌, ◌<◌, ◌≡◌, refl, ap, arith, min, true, false, ◌==◌, ltb, leb, if◌then◌else◌,
  List, [], ◌∷◌, ◌++◌, inl, inr, Bool-cases,
}
use tsunami_udp.Blocks.{build_datagram}
use tsunami_udp.Message.{request_size}
use tsunami_udp.Receive.{this_block, this_type, ts_block_original, ts_block_terminate}
use tsunami_udp.Ring.{Datagram}
use tsunami_udp.Server.{
  Param, Pace, send_block, no_data, Handler, Input, goes_on, heartbeat, next_block, block_type,
  blast_block, serve, serve_read, serve_round,
}
use tsunami_udp.Wire.{Host}

-- A round in which nothing comes from the client.
abbrev pub quiet : Input
quiet = record { read = no_data; send_works = true; report_due = false; timed_out = false }

module _ {R : Type 0} (p : Param) (m : Pace R) where
  heartbeat-quiet :
      (x : Handler R)
      → let a = heartbeat p m quiet x in
        (a.next ≡ goes_on) × (a.handler.inbox ≡ x.inbox) × (a.handler.server ≡ x.server)
  unfolding heartbeat
  heartbeat-quiet x = elim (Bool-cases (ltb 2048 x.deadconnection_counter)) [
    | inl silent ↦ rw silent (refl, refl, refl)
    | inr alive ↦ rw alive (refl, refl, refl)
  ]

  -- The next block goes out.
  pub quiet_round :
      (x : Handler R)
      → x.inbox.len < request_size
      → let a = serve_round p m quiet x in
        let b = next_block p x.server.block in
        (a.next ≡ goes_on)
        × (a.handler.inbox ≡ x.inbox)
        × (a.handler.server.block ≡ b)
        × (a.handler.server.sent
            ≡ x.server.sent
              ++ (build_datagram p.host p.block_size b
                  (block_type p b)
                  x.server.datagram
                  x.server.reader).0
                ∷ [])
  unfolding serve_round serve_read serve blast_block send_block
  quiet_round x part =
      let b = next_block p x.server.block in
      let h = send_block p true b (block_type p b) (record (x.server) { block = b }) in
      let x' : Handler R = record x { server = h.server } in
      let not_whole : (x.inbox.len == request_size) ≡ false = ground arith in
      let room : ltb x.inbox.len request_size ≡ true = ground arith in
      let (next, inbox, server) = heartbeat-quiet x' in
      rw (not_whole, room) (next, inbox, ap (λ s. s.block) server, ap (λ s. s.sent) server)

  unfoldable pub quiet_rounds : ℕ → Handler R → Handler R
  quiet_rounds zero x = x
  quiet_rounds (suc k) x = (serve_round p m quiet (quiet_rounds k x)).handler

-- The numbers from 1 to `k`.
unfoldable pub one_to : ℕ → List ℕ
one_to zero = []
one_to (suc k) = one_to k ++ (k + 1) ∷ []

-- What a client reads in the header.
abbrev pub header : Host → Datagram → ℕ × ℕ
header client d = (this_block client d, this_type client d)

-- The header of the `i`-th datagram of `n` blocks.
abbrev pub planned : ℕ → ℕ → ℕ × ℕ
planned n i = (min i n, if leb n i then ts_block_terminate else ts_block_original)
