-- ===== src/Connect/Tests.antt =====
-- client/command.c and server/main.c: a client connects with the default secret, with another one, and with another
-- revision.
use tsunami_udp.Base.{
  ℕ, ◌-◌, ◌≤◌, ◌≡◌, refl, arith, some, List, [], ◌∷◌, take, replicate, codes, length, ◌++◌,
  length-take, length-append, atol,
}
use tsunami_udp.Connect.{
  connected, negotiation_failed, authentication_failed, authenticated, revision_mismatch,
  authentication_failure, at_client, Takes, stays, moves, default_secret, store_target,
  client_connect, can_move, is_ready, move,
}
use tsunami_udp.Connect.Handshake.{begin, ended, connected_lem, refused_lem, mismatch_lem}
use tsunami_udp.Session.{protocol_revision}
use tsunami_udp.Settings.{reset_client, Parameter}
use tsunami_udp.Streams.{mask_from}
use tsunami_udp.Wire.{big, little}

-- It stands for the digest.
abbrev first_bytes : List ℕ → List ℕ
first_bytes message = take 16 (message ++ replicate 16 0)

abbrev random : List ℕ
random = replicate 64 7

abbrev p : Parameter
p = record reset_client { passphrase = some (codes "dog") }

-- The client is first.
begun :
    (q : Parameter) (secret : List ℕ) (revision revision' : ℕ)
    → let x = begin little big first_bytes q secret random revision revision' in
      Takes 1 x (move at_client x)
unfolding client_connect can_move is_ready
begun q secret revision revision' = moves at_client refl stays

size : (message : List ℕ) → length (first_bytes message) ≡ 16
size message =
    omega
      (arith, length-take 16 (message ++ replicate 16 0), length-append message (replicate 16 0))

targets :
    (store_target (codes "connect" ∷ codes "host" ∷ codes "46224" ∷ []) reset_client).server_port
    ≡ 46224
unfolding store_target atol
targets = refl

connected_lem_example :
    (1 ≤ 10)
    × Takes
        (10 - 1)
        (move at_client (
          begin little big first_bytes reset_client default_secret random protocol_revision
            protocol_revision))
        (ended connected authenticated)
unfolding reset_client
connected_lem_example =
    connected_lem little big first_bytes reset_client default_secret random protocol_revision
      (omega arith) refl size refl (omega arith)
      (begun reset_client default_secret protocol_revision protocol_revision)

refused_lem_example :
    (1 ≤ 10)
    × Takes
        (10 - 1)
        (move at_client (
          begin little big first_bytes p default_secret random protocol_revision protocol_revision))
        (ended authentication_failed authentication_failure)
unfolding mask_from
refused_lem_example =
    refused_lem little big first_bytes p default_secret random protocol_revision 0 (omega arith)
      refl (size (mask_from (codes "dog") 0 random)) (omega arith) (omega arith) (omega arith)
      (λ e. omega arith) (begun p default_secret protocol_revision protocol_revision)

mismatch_lem_example :
    (1 ≤ 4)
    × Takes
        (4 - 1)
        (move at_client (begin little big first_bytes p default_secret random protocol_revision 7))
        (ended negotiation_failed revision_mismatch)
mismatch_lem_example =
    mismatch_lem little big first_bytes p default_secret random protocol_revision 7 (omega arith)
      (omega arith) (omega arith) (begun p default_secret protocol_revision 7)
