-- ===== src/Link/Assembly.antt =====
-- server/main.c: how the loop of `client_handler` puts the client's requests together again.
use tsunami_udp.Base.{
  ℕ, ◌+◌, ◌≤◌, ◌<◌, ◌≡◌, ◌≢◌, refl, ap, sym, ◌∙◌, arith, true, false, ◌==◌, ltb, List, ◌∷◌, ◌++◌,
  take, drop, length, length-append, length-take, length-drop, inl, inr, Bool-cases, if_by,
  append-nil,
}
use tsunami_udp.Link.{IsPart, bytes_of}
use tsunami_udp.Message.{decode, request_size, request_stop}
use tsunami_udp.Server.{
  Param, Pace, send_block, Read, no_data, chunk, failed, Inbox, Handler, Input, After, fake_bytes,
  heartbeat, next_block, block_type, blast_block, answer, serve,
}
use tsunami_udp.Server.Requests.{held, IsInbox, add_bytes-held}
use tsunami_udp.Server.Rounds.{inbox_after}
use tsunami_udp.Wire.{Host, little, big}

-- The inbox has the same bytes of a request in it.
pub record SameInbox (i j : Inbox) : Type 0 where
  pub inbox : IsInbox j
  pub len : j.len ≡ i.len
  pub bytes : held j ≡ held i

SameInbox-refl : (i : Inbox) → IsInbox i → SameInbox i i
SameInbox-refl i v = record { inbox = v; len = refl; bytes = refl }

length-fake_bytes :
    (h : Host) (old : List ℕ) → length old ≡ request_size → length (fake_bytes h old) ≡ request_size
length-fake_bytes little old e = omega (
  arith,
  length-append (take 2 (drop 2 old)) (0 ∷ 0 ∷ 0 ∷ 0 ∷ 160 ∷ 134 ∷ 1 ∷ 0 ∷ drop 12 old),
  length-take 2 (drop 2 old),
  length-drop 2 old,
  length-drop 12 old,
)
length-fake_bytes big old e = omega (
  arith,
  length-append (take 2 (drop 2 old)) (0 ∷ 0 ∷ 0 ∷ 0 ∷ 0 ∷ 1 ∷ 134 ∷ 160 ∷ drop 12 old),
  length-take 2 (drop 2 old),
  length-drop 2 old,
  length-drop 12 old,
)

module _ {R : Type 0} (p : Param) (m : Pace R) (i : Input) where
  -- A fake report destroys nothing in an inbox that is empty.
  heartbeat-SameInbox :
      (x : Handler R)
      → IsInbox x.inbox
      → (0 < x.inbox.len → i.report_due ≡ false)
      → SameInbox x.inbox (heartbeat p m i x).handler.inbox
  unfolding heartbeat
  heartbeat-SameInbox x v calm = elim (Bool-cases (ltb 2048 x.deadconnection_counter)) [
    | inr alive ↦ rw alive (SameInbox-refl x.inbox v)
    | inl silent ↦ elim (Bool-cases i.report_due) [
      | inr early ↦ rw (silent, early) (SameInbox-refl x.inbox v)
      | inl due ↦
          let empty : x.inbox.len ≡ 0 = elim (Bool-cases (ltb 0 x.inbox.len)) [
            | inl part ↦ absurd (cc (calm (ground arith), due))
            | inr none_there ↦ ground arith
          ] in
          rw (silent, due)
            (record {
              inbox = record {
                size = length-fake_bytes p.host x.inbox.bytes v.size;
                part = v.part;
              };
              len = refl;
              bytes =
                  ap (λ k. take k (fake_bytes p.host x.inbox.bytes)) empty
                  ∙ ap (λ k. take k x.inbox.bytes) (sym empty);
            })
    ]
  ]

  blast_block-SameInbox :
      (x : Handler R)
      → IsInbox x.inbox
      → (0 < x.inbox.len → i.report_due ≡ false)
      → SameInbox x.inbox (blast_block p m i x).handler.inbox
  unfolding blast_block
  blast_block-SameInbox x v calm =
      let b = next_block p x.server.block in
      let h = send_block p i.send_works b (block_type p b) (record (x.server) { block = b }) in
      let x' : Handler R = record x { server = h.server } in
      if_by (λ (a : After R). SameInbox x.inbox a.handler.inbox) h.ok
        (λ sent. heartbeat-SameInbox x' v calm) (λ lost. SameInbox-refl x.inbox v)

  -- A request in part stays as it is.
  pub serve-part :
      (x : Handler R)
      → IsInbox x.inbox
      → x.inbox.len < request_size
      → (IsPart x.inbox → i.report_due ≡ false)
      → SameInbox x.inbox (serve p m i x).handler.inbox
  unfolding serve
  serve-part x v part calm =
      let not_whole : (x.inbox.len == request_size) ≡ false = ground arith in
      let room : ltb x.inbox.len request_size ≡ true = ground arith in
      rw (not_whole, room)
        (blast_block-SameInbox x v (λ some. calm (record { some_bytes = some; not_all = part })))

  -- A whole request, other than one to stop, leaves the inbox empty.
  pub serve-whole :
      (x : Handler R)
      → IsInbox x.inbox
      → x.inbox.len ≡ request_size
      → (decode p.host x.inbox.bytes).request_type ≢ request_stop
      → let j = (serve p m i x).handler.inbox in IsInbox j × (j.len ≡ 0)
  unfolding serve answer heartbeat
  serve-whole x v whole other =
      let is_whole : (x.inbox.len == request_size) ≡ true = ground arith in
      let goes_on : ((decode p.host x.inbox.bytes).request_type == request_stop) ≡ false =
        ground arith in
      rw (is_whole, goes_on) (record { size = v.size; part = omega arith }, refl)

-- What the server read is what it had before and what it reads now.
pub inbox_after-held :
    (r : Read) (i : Inbox)
    → IsInbox i
    → i.len + length (bytes_of r) ≤ request_size
    → IsInbox (inbox_after r i) × (held (inbox_after r i) ≡ held i ++ bytes_of r)
inbox_after-held no_data i v room = (v, sym (append-nil (held i)))
inbox_after-held (chunk new) i v room = let (bytes, v') = add_bytes-held new i v room in (v', bytes)
inbox_after-held failed i v room = (v, sym (append-nil (held i)))
