-- ===== src/Connect/Handshake.antt =====
-- client/command.c and server/main.c: a client connects to a server.
use tsunami_udp.Base.{
  ℕ, suc, ◌-◌, ◌^◌, ◌≤◌, ◌<◌, ◌≡◌, ◌≢◌, refl, sym, ap, subst, arith, false, if◌then◌else◌, ◌==◌,
  List, [], ◌∷◌, take, drop, length, append-nil, take_long, drop_long, get_or,
}
use tsunami_udp.Connect.{
  Talk, puts, gets, ends, Talks, is_ready, left_by, written_by, after_call, at_client, at_server,
  can_move, move, Takes, stays, moves, Connected, Admitted, connected, negotiation_failed,
  authentication_failed, authenticated, revision_mismatch, authentication_failure, client_connect,
  server_connect, secret_of,
}
use tsunami_udp.Connect.Orders.{IsOver, Takes-Takes}
use tsunami_udp.Session.{send_revision, accept_revision}
use tsunami_udp.Session.Agreement.{accept_revision_iff}
use tsunami_udp.Settings.{Parameter}
use tsunami_udp.Streams.{prepare_proof, authentication_response, authentication_result}
use tsunami_udp.Streams.Proof.{authentication_lem}
use tsunami_udp.Wire.{Host, big, little}

-- Nothing is on the way.
abbrev pub talks : Talk Connected → Talk Admitted → Talks
talks c s = record { client = c; server = s; to_client = []; to_server = [] }

whole : (n : ℕ) (bytes : List ℕ) → length bytes ≡ n → (take n bytes ≡ bytes) × (drop n bytes ≡ [])
whole n bytes size = (take_long n bytes (omega arith), drop_long n bytes (omega arith))

server_tells :
    {m n : ℕ} {z : Talks} (bytes : List ℕ) (k : List ℕ → Talk Connected) (s : Talk Admitted)
    → length bytes ≡ n
    → Takes m (talks (k bytes) s) z
    → Takes (suc (suc m)) (talks (gets n k) (puts bytes s)) z
unfolding move can_move is_ready left_by written_by after_call
server_tells {n = n} bytes k s size w =
    let (all, none_left) = whole n bytes size in
    moves at_server refl (moves at_client (ground arith) (rw (all, none_left) w))

client_tells :
    {m n : ℕ} {z : Talks} (bytes : List ℕ) (k : List ℕ → Talk Admitted) (c : Talk Connected)
    → length bytes ≡ n
    → Takes m (talks c (k bytes)) z
    → Takes (suc (suc m)) (talks (puts bytes c) (gets n k)) z
unfolding move can_move is_ready left_by written_by after_call
client_tells {n = n} bytes k c size w =
    let (all, none_left) = whole n bytes size in
    moves at_client refl (moves at_server (ground arith) (rw (all, none_left) w))

-- Both write, and then both read.
both_tell :
    {m n n' : ℕ} {z : Talks} (bytes bytes' : List ℕ) (k : List ℕ → Talk Connected)
    (k' : List ℕ → Talk Admitted)
    → length bytes' ≡ n
    → length bytes ≡ n'
    → Takes m (talks (k bytes') (k' bytes)) z
    → Takes (suc (suc (suc (suc m)))) (talks (puts bytes (gets n k)) (puts bytes' (gets n' k'))) z
unfolding move can_move is_ready left_by written_by after_call
both_tell {n = n} {n' = n'} bytes bytes' k k' size size' w =
    let (all, none_left) = whole n bytes' size in
    let (all', none_left') = whole n' bytes size' in
    moves at_client refl (
      moves at_server refl (
        moves at_client (ground arith) (
          moves at_server (ground (arith, ap length (append-nil bytes)))
            (rw (append-nil bytes, all, none_left, all', none_left') w))))

-- Both sides are at their ends.
abbrev pub ended : Connected → Admitted → Talks
ended c s = talks (ends c) (ends s)

ended-IsOver : (c : Connected) (s : Admitted) → IsOver (ended c s)
unfolding IsOver can_move is_ready
ended-IsOver c s at_client e = ground arith
ended-IsOver c s at_server e = ground arith

size_revision : (h : Host) (revision : ℕ) → length (send_revision h revision) ≡ 4
size_revision big revision = refl
size_revision little revision = refl

module _ (client server : Host) (md5_digest : List ℕ → List ℕ) (p : Parameter)
    (secret random : List ℕ) where
  -- The two sides as they start, with their revisions.
  abbrev pub begin : (revision revision' : ℕ) → Talks
  begin revision revision' =
      talks (client_connect client md5_digest revision p)
        (server_connect server md5_digest revision' secret random)

  abbrev response : List ℕ
  response = authentication_response md5_digest (secret_of p.passphrase) random

  abbrev result : ℕ
  result = authentication_result md5_digest secret random response

  way_in :
      (revision : ℕ)
      → revision < 2 ^ 32
      → length random ≡ 64
      → length response ≡ 16
      → Takes 10 (begin revision revision) (
          talks
            (if result == 0 then ends connected else ends authentication_failed)
            (if result == 0 then ends authenticated else ends authentication_failure))
  unfolding client_connect server_connect
  way_in revision fits size size' =
      let theirs = (accept_revision_iff client server revision revision fits fits).1 refl in
      let ours = (accept_revision_iff server client revision revision fits fits).1 refl in
      both_tell (send_revision client revision) (send_revision server revision) _ _
        (size_revision server revision) (size_revision client revision)
        (rw (size_revision server revision, theirs, ours)
          (server_tells random _ _ size (
            rw (size)
              (client_tells response _ _ size' (server_tells (result ∷ []) _ _ refl stays)))))

  -- If both sides have the same revision and the same secret, which is not empty, and the digest has 16 bytes: however
  -- the two sides come on, in any order, they have made no more than ten calls, and they have as many left as are
  -- missing from ten to where the client is connected and the server holds it for authenticated, with no bytes left.
  pub connected_lem :
      (revision : ℕ) {k : ℕ} {x : Talks}
      → revision < 2 ^ 32
      → length random ≡ 64
      → ((message : List ℕ) → length (md5_digest message) ≡ 16)
      → secret_of p.passphrase ≡ secret
      → 0 < length secret
      → Takes k (begin revision revision) x
      → (k ≤ 10) × Takes (10 - k) x (ended connected authenticated)
  connected_lem revision fits size digest_size same some_secret made =
      let r : result ≡ 0 =
        (authentication_lem md5_digest (secret_of p.passphrase) secret random
            (subst (λ s. 0 < length s) (sym same) some_secret) some_secret).1
          same in
      Takes-Takes made (rw (r) at (way_in revision fits size (digest_size _)))
        (ended-IsOver connected authenticated)

  -- If both sides have the same revision, but the proofs of their secrets, which are not empty, differ in one of the 16 bytes, then
  -- in any order of their calls both sides fail, after ten calls.
  pub refused_lem :
      (revision : ℕ) {k : ℕ} {x : Talks} (j : ℕ)
      → revision < 2 ^ 32
      → length random ≡ 64
      → length response ≡ 16
      → 0 < length (secret_of p.passphrase)
      → 0 < length secret
      → j < 16
      → get_or response j 0 ≢ get_or (prepare_proof md5_digest secret random) j 0
      → Takes k (begin revision revision) x
      → (k ≤ 10) × Takes (10 - k) x (ended authentication_failed authentication_failure)
  refused_lem revision j fits size size' some_theirs some_secret in_proof differ made =
      let (iff, same, otherwise) =
        authentication_lem md5_digest (secret_of p.passphrase) secret random some_theirs
          some_secret in
      let r : result ≡ 1 = otherwise (λ e. differ (iff.0 e j in_proof)) in
      Takes-Takes made (rw (r) at (way_in revision fits size size'))
        (ended-IsOver authentication_failed authentication_failure)

  -- If the revisions differ, then in any order of their calls both sides fail, after four calls: neither waits for
  -- the other, and no challenge is sent.
  pub mismatch_lem :
      (revision revision' : ℕ) {k : ℕ} {x : Talks}
      → revision < 2 ^ 32
      → revision' < 2 ^ 32
      → revision ≢ revision'
      → Takes k (begin revision revision') x
      → (k ≤ 4) × Takes (4 - k) x (ended negotiation_failed revision_mismatch)
  unfolding client_connect server_connect
  mismatch_lem revision revision' fits fits' differ made =
      let theirs : accept_revision client revision (send_revision server revision') ≡ false =
        let same = (accept_revision_iff client server revision revision' fits fits').0 in
        ground arith in
      let ours : accept_revision server revision' (send_revision client revision) ≡ false =
        let same = (accept_revision_iff server client revision' revision fits' fits).0 in
        ground arith in
      Takes-Takes made
        (both_tell (send_revision client revision) (send_revision server revision') _ _
          (size_revision server revision') (size_revision client revision)
          (rw (size_revision server revision', theirs, ours) stays))
        (ended-IsOver negotiation_failed revision_mismatch)
