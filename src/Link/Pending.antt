-- ===== src/Link/Pending.antt =====
-- server/main.c: which requests of the client the server has answered, and which it answers in a round.
use tsunami_udp.Base.{
  ℕ, ◌+◌, ◌≤◌, ◌<◌, ◌≡◌, ◌≢◌, ap, sym, ◌∙◌, arith, false, List, [], ◌∷◌, ◌++◌, take, append-nil,
  append_assoc, length, length-take, inl, inr, All, dec_lt, take_all,
}
use tsunami_udp.Link.{wire, Link, Gives, gives_none, gives_failure, gives_chunk, bytes_of, IsPart}
use tsunami_udp.Link.Assembly.{inbox_after-held, serve-part, serve-whole}
use tsunami_udp.Link.Connection.{FirstOf, first-FirstOf, wire-append, append-cancel}
use tsunami_udp.Message.{Request, encode, decode, request_size, request_stop}
use tsunami_udp.Message.Laws.{decode-encode}
use tsunami_udp.Receive.Asking.{IsProper}
use tsunami_udp.Server.{
  Param, Pace, Read, no_data, chunk, failed, Inbox, Handler, Input, serve, serve_read,
}
use tsunami_udp.Server.Requests.{held, IsInbox}
use tsunami_udp.Server.Rounds.{Asks, inbox_after}
use tsunami_udp.Wire.{Host}

-- The requests, in order: those that the server has answered, then the others, of which the inbox holds
-- the first bytes.
pub record Pending (n : ℕ) (client : Host) (requests : List Request) (taken : List ℕ) (i : Inbox)
    : Type 0 where
  pub past : List Request
  pub future : List Request
  pub written : requests ≡ past ++ future
  pub proper : All (IsProper n) future
  pub inbox : IsInbox i
  pub read : taken ≡ wire client past ++ held i

-- What the inbox holds when it is full.
pub whole-FirstOf :
    {n : ℕ} {client : Host} {requests : List Request} {taken : List ℕ} {i : Inbox} (rest : List ℕ)
    → (a : Pending n client requests taken i) → taken ++ rest ≡ wire client requests
    → i.len ≡ request_size
    → FirstOf n client (held i) a.future
whole-FirstOf {n} {client} {requests} {taken} {i} rest a more full =
    first-FirstOf n client (held i) rest a.future a.proper
      (omega (arith, length-take i.len i.bytes, a.inbox.size))
      (append-cancel (wire client a.past) (held i ++ rest) (wire client a.future) (
        sym (append_assoc (wire client a.past) (held i) rest)
        ∙ ap (λ l. l ++ rest) (sym a.read)
        ∙ more
        ∙ ap (wire client) a.written
        ∙ wire-append client a.past a.future))

-- The server sees the request that the client wrote.
decode-FirstOf :
    {n : ℕ} {client : Host} {i : Inbox} {qs : List Request} (server : Host)
    → IsInbox i
    → i.len ≡ request_size
    → (f : FirstOf n client (held i) qs) → decode server i.bytes ≡ f.request
decode-FirstOf {n} {client} {i} server v full f =
    ap (decode server) (
      sym (take_all i.bytes)
      ∙ ap (λ k. take k i.bytes) {y = i.len} (omega (arith, v.size))
      ∙ f.bytes_of_it)
    ∙ (decode-encode client server f.request f.proper.fits).0

answered-Pending :
    {n : ℕ} {client : Host} {requests : List Request} {taken : List ℕ} {i j : Inbox}
    → (a : Pending n client requests taken i) → FirstOf n client (held i) a.future
    → IsInbox j
    → j.len ≡ 0
    → Pending n client requests taken j
unfolding wire
answered-Pending {n} {client} {requests} {taken} {i} {j} a f v empty = record {
  past = a.past ++ f.request ∷ [];
  future = f.others;
  written =
      a.written
      ∙ ap (λ l. a.past ++ l) f.whole
      ∙ sym (append_assoc a.past (f.request ∷ []) f.others);
  proper = f.others_proper;
  inbox = v;
  read =
      a.read
      ∙ ap (λ l. wire client a.past ++ l)
          (f.bytes_of_it ∙ sym (append-nil (encode client f.request)))
      ∙ sym (wire-append client a.past (f.request ∷ []))
      ∙ sym (append-nil (wire client (a.past ++ f.request ∷ [])))
      ∙ ap (λ k. wire client (a.past ++ f.request ∷ []) ++ take k j.bytes) (sym empty);
}

module _ {R : Type 0} (client : Host) (p : Param) (m : Pace R) where
  serve-Pending :
      (i : Input) (x : Handler R) {requests : List Request} {taken : List ℕ}
      → (a : Pending p.block_count client requests taken x.inbox)
      → (x.inbox.len ≡ request_size → FirstOf p.block_count client (held x.inbox) a.future)
      → (IsPart x.inbox → i.report_due ≡ false)
      → let j = (serve p m i x).handler.inbox in
        Pending p.block_count client requests taken j × (j.len < request_size)
  serve-Pending i x a whole calm = elim (dec_lt x.inbox.len request_size) [
    | yes part ↦
        let s = serve-part p m i x a.inbox part calm in
        (
          record {
            past = a.past;
            future = a.future;
            written = a.written;
            proper = a.proper;
            inbox = s.inbox;
            read = a.read ∙ ap (λ l. wire client a.past ++ l) (sym s.bytes);
          },
          omega (arith, s.len),
        )
    | no all ↦
        let full : x.inbox.len ≡ request_size = omega (arith, a.inbox.part) in
        let f = whole full in
        let request = decode-FirstOf p.host a.inbox full f in
        let other : (decode p.host x.inbox.bytes).request_type ≢ request_stop = λ e.
          elim f.proper.about [
            | inl rate ↦ omega (arith, ap (λ q. q.request_type) request)
            | inr (low, _, _) ↦ omega (arith, ap (λ q. q.request_type) request)
          ] in
        let (v, empty) = serve-whole p m i x a.inbox full other in
        (answered-Pending a f v empty, omega arith)
  ]

  Gives-room :
      (l : Link R) (r : Read)
      → l.server.handler.inbox.len < request_size
      → Gives client l r
      → l.server.handler.inbox.len + length (bytes_of r) ≤ request_size
  Gives-room l no_data part gives_none = omega arith
  Gives-room l failed part gives_failure = omega arith
  Gives-room l (chunk new) part (gives_chunk rest prefix fits) = omega arith

  Gives-first :
      (l : Link R) (r : Read)
      → l.server.handler.inbox.len < request_size
      → (b : Pending p.block_count client l.transfer.client.requests
          (l.taken ++ bytes_of r)
          (inbox_after r l.server.handler.inbox))
      → Gives client l r
      → (inbox_after r l.server.handler.inbox).len ≡ request_size
      → FirstOf p.block_count client (held (inbox_after r l.server.handler.inbox)) b.future
  Gives-first l no_data part b gives_none full = absurd (omega arith)
  Gives-first l failed part b gives_failure full = absurd (omega arith)
  Gives-first l (chunk new) part b (gives_chunk rest prefix fits) full =
      whole-FirstOf rest b prefix full

  -- The inbox of the server in a round, after `read`.
  pub read-Pending :
      (l : Link R)
      → l.server.handler.inbox.len < request_size
      → (a : Pending p.block_count client l.transfer.client.requests l.taken l.server.handler.inbox)
      → (r : Read) → Gives client l r
      → let j = inbox_after r l.server.handler.inbox in
        (b : Pending p.block_count client l.transfer.client.requests (l.taken ++ bytes_of r) j)
        × (j.len ≡ request_size → FirstOf p.block_count client (held j) b.future)
  read-Pending l part a r g =
      let i = l.server.handler.inbox in
      let room = Gives-room l r part g in
      let (v, bytes) = inbox_after-held r i a.inbox room in
      let b : Pending p.block_count client l.transfer.client.requests (l.taken ++ bytes_of r)
          (inbox_after r i) =
        record {
          past = a.past;
          future = a.future;
          written = a.written;
          proper = a.proper;
          inbox = v;
          read =
              ap (λ t. t ++ bytes_of r) a.read
              ∙ append_assoc (wire client a.past) (held i) (bytes_of r)
              ∙ ap (λ t. wire client a.past ++ t) (sym bytes);
        } in
      (b, Gives-first l r part b g)

  -- The requests that the round after `read` leaves.
  pub round-Pending :
      (i : Input) (x : Handler R) (r : Read) {requests : List Request} {taken : List ℕ}
      → x.inbox.len < request_size
      → (b : Pending p.block_count client requests taken (inbox_after r x.inbox))
      → ((inbox_after r x.inbox).len ≡ request_size
          → FirstOf p.block_count client (held (inbox_after r x.inbox)) b.future)
      → (IsPart (inbox_after r x.inbox) → i.report_due ≡ false)
      → let j = (serve_read p m i x r).handler.inbox in
        Pending p.block_count client requests taken j × (j.len < request_size)
  unfolding serve_read
  round-Pending i x no_data part b whole calm = serve-Pending i x b whole calm
  round-Pending i x (chunk new) part b whole calm =
      serve-Pending i (record x { inbox = inbox_after (chunk new) x.inbox }) b whole calm
  round-Pending i x failed part b whole calm = (b, part)

  pub Pending-Asks :
      {requests : List Request} {taken : List ℕ} {i : Inbox}
      → (b : Pending p.block_count client requests taken i)
      → (i.len ≡ request_size → FirstOf p.block_count client (held i) b.future)
      → Asks p i
  unfolding Asks
  Pending-Asks {i = i} b whole full retransmit =
      let f = whole full in
      let request = decode-FirstOf p.host b.inbox full f in
      elim f.proper.about [
        | inl rate ↦ absurd (omega (arith, ap (λ q. q.request_type) request))
        | inr (low, pos, inside) ↦
            (omega (arith, ap (λ q. q.block) request), omega (arith, ap (λ q. q.block) request))
      ]
