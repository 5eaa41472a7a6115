-- ===== src/Connect.antt =====
-- client/command.c, client/protocol.c, server/main.c and server/protocol.c: how a client connects. `command_connect` and
-- the start of `client_handler` are programs that write to, and read from, the control connection.
pub mod Orders
pub mod Handshake
mod Tests
use tsunami_udp.Base.{
  ℕ, zero, suc, ◌≡◌, ◌==◌, ltb, leb, not, if◌then◌else◌, Option, none, some, List, [], ◌∷◌, ◌++◌,
  take, drop, length, get_or, Text, codes, atol, to_unsigned, Bool, true, false,
}
use tsunami_udp.Session.{send_revision, accept_revision}
use tsunami_udp.Settings.{Parameter}
use tsunami_udp.Streams.{authentication_response, authentication_result}
use tsunami_udp.Wire.{Host}

-- What one side has left to do: it writes bytes, or reads as many and goes on with them, or is at an end.
pub data Talk (R : Type 0) : Type 0 where
  puts : (bytes : List ℕ) → Talk R → Talk R
  gets : (count : ℕ) → (List ℕ → Talk R) → Talk R
  ends : R → Talk R

-- How `command_connect` ends, once it has the connection.
pub data Connected : Type 0 where
  connected : Connected
  negotiation_failed : Connected
  authentication_failed : Connected

-- How the start of `client_handler` ends: the other two exit the process.
pub data Admitted : Type 0 where
  authenticated : Admitted
  revision_mismatch : Admitted
  authentication_failure : Admitted

-- `ttp_negotiate` of the client, and what is done if it succeeds.
abbrev pub negotiate : Host → (revision : ℕ) → Talk Connected → Talk Connected
negotiate h revision next = puts (send_revision h revision) (
    gets 4 (λ bytes.
      if ltb (length bytes) 4
      then ends negotiation_failed
      else if accept_revision h revision bytes
      then next
      else ends negotiation_failed))

-- `ttp_authenticate` of the client, with the function that makes the digest.
abbrev pub authenticate : (List ℕ → List ℕ) → (secret : List ℕ) → Talk Connected
authenticate md5_digest secret = gets 64 (λ random.
    if ltb (length random) 64
    then ends authentication_failed
    else puts (authentication_response md5_digest secret random) (
        gets 1 (λ result.
          if ltb (length result) 1
          then ends authentication_failed
          else if get_or result 0 0 == 0
          then ends connected
          else ends authentication_failed)))

abbrev pub default_secret : Text
default_secret = codes "kitten"

abbrev pub secret_of : Option Text → Text
secret_of none = default_secret
secret_of (some passphrase) = passphrase

-- "if we were given a new host, store that information", and the same for the port.
unfoldable pub store_target : (command : List Text) → Parameter → Parameter
store_target (word ∷ name ∷ []) p = record p { server_name = name }
store_target (word ∷ name ∷ port ∷ more) p = record p {
  server_name = name;
  server_port = to_unsigned 16 (atol port);
}
store_target command p = p

-- The connection's part of `command_connect`.
unfoldable pub client_connect :
    Host → (List ℕ → List ℕ) → (revision : ℕ) → Parameter → Talk Connected
client_connect h md5_digest revision p =
    negotiate h revision (authenticate md5_digest (secret_of p.passphrase))

-- `ttp_negotiate` of the server.
abbrev pub server_negotiate : Host → (revision : ℕ) → Talk Admitted → Talk Admitted
server_negotiate h revision next =
    puts (send_revision h revision)
      (gets 4 (λ bytes. if accept_revision h revision bytes then next else ends revision_mismatch))

-- `ttp_authenticate` of the server, with the random data.
abbrev pub server_authenticate : (List ℕ → List ℕ) → (secret random : List ℕ) → Talk Admitted
server_authenticate md5_digest secret random = puts random (
    gets 16 (λ client_digest.
      let result = authentication_result md5_digest secret random client_digest in
      puts (result ∷ []) (if result == 0 then ends authenticated else ends authentication_failure)))

-- The start of `client_handler`.
unfoldable pub server_connect :
    Host → (List ℕ → List ℕ) → (revision : ℕ) → (secret random : List ℕ) → Talk Admitted
server_connect h md5_digest revision secret random =
    server_negotiate h revision (server_authenticate md5_digest secret random)

-- The two sides, and the bytes on their way to each.
pub record Talks : Type 0 where
  pub client : Talk Connected
  pub server : Talk Admitted
  pub to_client : List ℕ
  pub to_server : List ℕ

-- One call of a side: whether it returns, as a read waits until all its bytes are there; the bytes that it leaves
-- on the way, those that it writes, and what is left to do then.
unfoldable pub is_ready : {R : Type 0} → Talk R → (input : List ℕ) → Bool
is_ready (puts bytes next) input = true
is_ready (gets count next) input = leb count (length input)
is_ready (ends result) input = false

unfoldable pub left_by : {R : Type 0} → Talk R → (input : List ℕ) → List ℕ
left_by (puts bytes next) input = input
left_by (gets count next) input = drop count input
left_by (ends result) input = input

unfoldable pub written_by : {R : Type 0} → Talk R → List ℕ
written_by (puts bytes next) = bytes
written_by (gets count next) = []
written_by (ends result) = []

unfoldable pub after_call : {R : Type 0} → Talk R → (input : List ℕ) → Talk R
after_call (puts bytes next) input = next
after_call (gets count next) input = next (take count input)
after_call (ends result) input = ends result

pub data Side : Type 0 where
  at_client at_server : Side

unfoldable pub can_move : Side → Talks → Bool
can_move at_client x = is_ready x.client x.to_client
can_move at_server x = is_ready x.server x.to_server

unfoldable pub move : Side → Talks → Talks
move at_client x = record {
  client = after_call x.client x.to_client;
  server = x.server;
  to_client = left_by x.client x.to_client;
  to_server = x.to_server ++ written_by x.client;
}
move at_server x = record {
  client = x.client;
  server = after_call x.server x.to_server;
  to_client = x.to_client ++ written_by x.server;
  to_server = left_by x.server x.to_server;
}

-- The second is reached from the first by so many moves, of either side and in some order.
pub data Takes : ℕ → Talks → Talks → Type 0 where
  stays : {x : Talks} → Takes 0 x x
  moves :
      {n : ℕ} {x y : Talks} (side : Side)
      → can_move side x ≡ true
      → Takes n (move side x) y
      → Takes (suc n) x y
