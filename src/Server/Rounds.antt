-- ===== src/Server/Rounds.antt =====
-- server/main.c: whatever the client asks for, the server sends blocks of its file.
use tsunami_udp.Base.{
  ℕ, ◌+◌, ◌^◌, ◌≤◌, ◌<◌, ◌≡◌, sym, subst, ◌∙◌, arith, Bool, ◌||◌, ◌==◌, ltb, [], ◌∷◌, inl, inr,
  Bool-cases, All, all_none, all_more, All-append,
}
use tsunami_udp.Blocks.{File, block_count_of, build_datagram}
use tsunami_udp.Blocks.Reading.{IsSynced, build_datagram_lem, build_datagram-IsBlock}
use tsunami_udp.Blocks.Writing.{IsFileBlock, file_block}
use tsunami_udp.Message.{
  Request, decode, request_size, request_retransmit, request_restart, request_stop,
  request_error_rate,
}
use tsunami_udp.Receive.{ts_block_retransmission}
use tsunami_udp.Server.{
  Param, Pace, Server, send_block, ttp_accept_retransmit, Read, no_data, chunk, failed, Inbox,
  add_bytes, Handler, Input, heartbeat, fake_report, next_block, block_type, blast_block, answer,
  serve, serve_read, serve_round,
}
use tsunami_udp.Wire.{Host}

-- The request in the inbox, when it is whole and asks for a block, asks for one of the file.
unfoldable pub Asks : Param → Inbox → Type 0
Asks p i =
    i.len ≡ request_size
    → (decode p.host i.bytes).request_type ≡ request_retransmit
    → (0 < (decode p.host i.bytes).block) × ((decode p.host i.bytes).block ≤ p.block_count)

-- The inbox after the round's `read`.
abbrev pub inbox_after : Read → Inbox → Inbox
inbox_after no_data i = i
inbox_after (chunk bytes) i = add_bytes bytes i
inbox_after failed i = i

module _ {R : Type 0} (client : Host) (p : Param) (m : Pace R) (src : File) where
  pub record Serving (s : Server R) : Type 0 where
    pub block_in : s.block ≤ p.block_count
    pub file : s.reader.file ≡ src
    pub synced : IsSynced p.block_size s.reader
    pub sent : All (IsFileBlock client p.block_size src) s.sent

  -- The session serves the file.
  pub record Serves : Type 0 where
    pub some_bytes : 0 < p.block_size
    pub count : p.block_count ≡ block_count_of src.size p.block_size
    pub some_blocks : 0 < p.block_count
    pub small : p.block_count + 1 < 2 ^ 32

  module _ (v : Serves) where
    built-IsFileBlock :
        (b t : ℕ) (s : Server R)
        → 0 < b
        → b ≤ p.block_count
        → t < 2 ^ 16
        → Serving s
        → IsFileBlock client p.block_size src
            (build_datagram p.host p.block_size b t s.datagram s.reader).0
    built-IsFileBlock b t s pos inside type_small i =
        let d = (build_datagram p.host p.block_size b t s.datagram s.reader).0 in
        subst (λ f. IsFileBlock client p.block_size f d) i.file
          (file_block client p.block_size s.reader.file b
            (build_datagram-IsBlock p.host client p.block_size b t s.datagram s.reader v.some_bytes
              pos
              (subst (λ f. b ≤ block_count_of f.size p.block_size) (sym i.file)
                (omega (arith, v.count)))
              (omega (arith, v.small)) type_small i.synced)
            pos
            (subst (λ f. b ≤ block_count_of f.size p.block_size) (sym i.file)
              (omega (arith, v.count))))

    pub send_block-Serving :
        (works : Bool) (b t : ℕ) (s : Server R)
        → 0 < b
        → b ≤ p.block_count
        → t < 2 ^ 16
        → Serving s
        → Serving (send_block p works b t s).server
    unfolding send_block
    send_block-Serving works b t s pos inside type_small i =
        let built =
          build_datagram_lem p.host p.block_size b t s.datagram s.reader pos
            (omega (arith, v.small)) i.synced in
        let d = (build_datagram p.host p.block_size b t s.datagram s.reader).0 in
        elim (Bool-cases works) [
          | inl taken ↦ rw taken (record {
            block_in = i.block_in;
            file = built.2 ∙ i.file;
            synced = built.1;
            sent =
                All-append s.sent (d ∷ []) i.sent
                  (all_more (built-IsFileBlock b t s pos inside type_small i) all_none);
          })
          | inr refused ↦ rw refused (record {
            block_in = i.block_in;
            file = built.2 ∙ i.file;
            synced = built.1;
            sent = i.sent;
          })
        ]

    accept-Serving :
        (works : Bool) (r : Request) (s : Server R)
        → (r.request_type ≡ request_retransmit → (0 < r.block) × (r.block ≤ p.block_count))
        → Serving s
        → Serving (ttp_accept_retransmit p m works r s).server
    unfolding ttp_accept_retransmit
    accept-Serving works r s asks i = elim (Bool-cases (r.request_type == request_error_rate)) [
      | inl rate ↦
          rw rate
            (record { block_in = i.block_in; file = i.file; synced = i.synced; sent = i.sent })
      | inr not_rate ↦ elim (Bool-cases (r.request_type == request_restart)) [
        | inl restart ↦ elim (Bool-cases (r.block == 0 || ltb p.block_count r.block)) [
          | inl bad ↦ rw (not_rate, restart, bad) i
          | inr good ↦
              rw (not_rate, restart, good)
                (record {
                  block_in = ground arith;
                  file = i.file;
                  synced = i.synced;
                  sent = i.sent;
                })
        ]
        | inr not_restart ↦ elim (Bool-cases (r.request_type == request_retransmit)) [
          | inl again ↦
              let in_file = asks (ground arith) in
              rw (not_rate, not_restart, again)
                (send_block-Serving works r.block ts_block_retransmission s in_file.0 in_file.1
                  (omega arith) i)
          | inr other ↦ rw (not_rate, not_restart, other) i
        ]
      ]
    ]

    heartbeat-Serving :
        (i : Input) (x : Handler R) → Serving x.server → Serving (heartbeat p m i x).handler.server
    unfolding heartbeat
    heartbeat-Serving i x s = elim (Bool-cases (ltb 2048 x.deadconnection_counter)) [
      | inr alive ↦ rw alive s
      | inl silent ↦ elim (Bool-cases i.report_due) [
        | inr early ↦ rw (silent, early) s
        | inl due ↦
            rw (silent, due)
              (accept-Serving i.send_works fake_report x.server (λ e. absurd (omega arith)) s)
      ]
    ]

    blast_block-Serving :
        (i : Input) (x : Handler R)
        → Serving x.server
        → Serving (blast_block p m i x).handler.server
    unfolding blast_block
    blast_block-Serving i x s =
        let b = next_block p x.server.block in
        let at : Server R = record (x.server) { block = b } in
        let at-Serving : Serving at = record {
          block_in = omega arith;
          file = s.file;
          synced = s.synced;
          sent = s.sent;
        } in
        let type_small : block_type p b < 2 ^ 16 = ground arith in
        let h = send_block p i.send_works b (block_type p b) at in
        let h-Serving =
          send_block-Serving i.send_works b (block_type p b) at
            (omega (arith, v.some_blocks, v.small, s.block_in)) (omega arith) type_small
            at-Serving in
        let x' : Handler R = record x { server = h.server } in
        elim (Bool-cases h.ok) [
          | inl sent ↦ rw sent (heartbeat-Serving i x' h-Serving)
          | inr lost ↦ rw lost h-Serving
        ]

    serve-Serving :
        (i : Input) (x : Handler R)
        → Asks p x.inbox
        → Serving x.server
        → Serving (serve p m i x).handler.server
    unfolding serve answer Asks
    serve-Serving i x asks s =
        let r = decode p.host x.inbox.bytes in
        elim (Bool-cases (x.inbox.len == request_size)) [
          | inl whole ↦ elim (Bool-cases (r.request_type == request_stop)) [
            | inl stop ↦ rw (whole, stop) s
            | inr other ↦
                let answered = accept-Serving i.send_works r x.server (asks (ground arith)) s in
                rw (whole, other) (heartbeat-Serving i _ answered)
          ]
          | inr not_whole ↦ elim (Bool-cases (ltb x.inbox.len request_size)) [
            | inl part ↦ rw (not_whole, part) (blast_block-Serving i x s)
            | inr long ↦ rw (not_whole, long) (heartbeat-Serving i _ s)
          ]
        ]

serve_read-Serving :
    {R : Type 0} (client : Host) (p : Param) (m : Pace R) (src : File) (i : Input) (x : Handler R)
    (r : Read)
    → Serves client p m src
    → Asks p (inbox_after r x.inbox)
    → Serving client p m src x.server
    → Serving client p m src (serve_read p m i x r).handler.server
unfolding serve_read
serve_read-Serving client p m src i x no_data v asks s = serve-Serving client p m src v i x asks s
serve_read-Serving client p m src i x (chunk bytes) v asks s =
    serve-Serving client p m src v i (record x { inbox = add_bytes bytes x.inbox }) asks s
serve_read-Serving client p m src i x failed v asks s = s

-- Of a server whose session has the right number of blocks for its file, at least one and fewer
-- than 2 ^ 32 - 1, of a size that is not 0: whatever the control connection brings in a round, and
-- whether the data is sent or the heartbeat lost, as long as a whole request for a block asks for
-- one of the file, all the datagrams that it has sent after the round hold blocks of the file, if
-- all before it did; the reader stays in step, and the loop's counter stays at most the number of
-- blocks.
pub serve_round-Serving :
    {R : Type 0} (client : Host) (p : Param) (m : Pace R) (src : File) (i : Input) (x : Handler R)
    → Serves client p m src
    → Asks p (inbox_after i.read x.inbox)
    → Serving client p m src x.server
    → Serving client p m src (serve_round p m i x).handler.server
unfolding serve_round
serve_round-Serving client p m src i x v asks s =
    serve_read-Serving client p m src i x i.read v asks s
