-- ===== src/Server/Tests.antt =====
-- server/main.c: a server of a small file, and the theorems at it.
use tsunami_udp.Base.{
  ℕ, ◌+◌, ◌%◌, ◌≡◌, refl, inl, arith, true, false, ltb, List, [], ◌∷◌, ◌++◌, map, all_none,
}
use tsunami_udp.Blocks.{File}
use tsunami_udp.Message.{
  Request, encode, decode, request_size, request_retransmit, request_restart, request_error_rate,
}
use tsunami_udp.Receive.{this_block}
use tsunami_udp.Ring.{Datagram}
use tsunami_udp.Server.{
  Param, Pace, ttp_accept_retransmit, chunk, add_bytes, Handler, Input, serve_round,
}
use tsunami_udp.Server.Blast.{quiet, one_to, planned}
use tsunami_udp.Server.Requests.{IsOrder, error_rate_lem, restart_lem, add_all, joined, pieces_lem}
use tsunami_udp.Server.Rounds.{Asks, inbox_after, Serving, Serves, serve_round-Serving}
use tsunami_udp.Wire.{little, big, load16, load32, htons, htonl}

abbrev source : File
source = record { at = λ i. i + 1; size = 7 }

abbrev param : Param
param = record { host = big; block_size = 2; block_count = 4; error_rate = 7500 }

-- Whole microseconds stand for numbers of type double.
abbrev pace : Pace ℕ
pace = record {
  slower = λ rate ipd. ipd + 100;
  faster = λ ipd. ipd % 100;
  less = ltb;
  highest = 10000;
  ipd_time = 50;
}

pace-IsOrder : IsOrder pace
pace-IsOrder = record { irrefl = λ x. ground arith; asym = λ x y e. ground arith }

abbrev handler : Handler ℕ
handler = record {
  server = record {
    block = 0;
    ipd_current = 60;
    reader = record { file = source; pos = 0; last_block = 0 };
    datagram = 0 ∷ 0 ∷ 0 ∷ 0 ∷ 0 ∷ 0 ∷ 0 ∷ 0 ∷ [];
    sent = [];
  };
  inbox = record { bytes = 0 ∷ 0 ∷ 0 ∷ 0 ∷ 0 ∷ 0 ∷ 0 ∷ 0 ∷ 0 ∷ 0 ∷ 0 ∷ 0 ∷ []; len = 0 };
  deadconnection_counter = 0;
}

param-Serves : Serves {R = ℕ} little param pace source
param-Serves = record {
  some_bytes = omega arith;
  count = refl;
  some_blocks = omega arith;
  small = omega arith;
}

handler-Serving : Serving little param pace source handler.server
handler-Serving = record {
  block_in = omega arith;
  file = refl;
  synced = record { place = inl refl; small = omega arith };
  sent = all_none;
}

-- A request for block 3, in one piece.
abbrev request : Request
request = record { request_type = request_retransmit; block = 3; error_rate = 0 }

abbrev input : Input
input = record {
  read = chunk (encode little request);
  send_works = true;
  report_due = true;
  timed_out = false;
}

input-Asks : Asks param (inbox_after input.read handler.inbox)
unfolding Asks add_bytes encode decode load16 load32 htons htonl
input-Asks = λ len type. (omega arith, omega arith)

serve_round-Serving_example :
    Serving little param pace source (serve_round param pace input handler).handler.server
serve_round-Serving_example =
    serve_round-Serving little param pace source input handler param-Serves input-Asks
      handler-Serving

planned_headers :
    map (planned 4) (one_to 5) ≡ (1, b'O') ∷ (2, b'O') ∷ (3, b'O') ∷ (4, b'X') ∷ (4, b'X') ∷ []
unfolding one_to
planned_headers = refl

error_rate_lem_example :
    let r : Request = record { request_type = request_error_rate; block = 0; error_rate = 9000 } in
    let s' = (ttp_accept_retransmit param pace true r handler.server).server in
    (ltb s'.ipd_current 50 ≡ false)
    × (ltb 10000 s'.ipd_current ≡ false)
    × (s' ≡ record (handler.server) { ipd_current = s'.ipd_current })
error_rate_lem_example =
    error_rate_lem param pace true
      (record { request_type = request_error_rate; block = 0; error_rate = 9000 }) handler.server
      pace-IsOrder refl refl

abbrev restart_request : Request
restart_request = record { request_type = request_restart; block = 2; error_rate = 0 }

restart_lem_example :
    let s = (ttp_accept_retransmit param pace true restart_request handler.server).server in
    (d : Datagram) × ((serve_round param pace quiet
        (record handler { server = s })).handler.server.sent
      ≡ [] ++ d ∷ [])
    × (this_block little d ≡ 3)
restart_lem_example =
    restart_lem little param pace true restart_request handler refl (omega arith) (omega arith)
      (omega arith) (omega arith)

-- The request for block 3 in two pieces.
abbrev pieces : List (List ℕ)
pieces = (0 ∷ 0 ∷ 0 ∷ []) ∷ (0 ∷ 0 ∷ 0 ∷ 0 ∷ 3 ∷ 0 ∷ 0 ∷ 0 ∷ 0 ∷ []) ∷ []

whole_request : joined pieces ≡ encode little request
unfolding joined encode htons htonl
whole_request = refl

pieces_lem_example :
    ((add_all pieces handler.inbox).len ≡ request_size)
    × (decode big (add_all pieces handler.inbox).bytes ≡ request)
pieces_lem_example =
    pieces_lem little big request pieces handler.inbox (omega arith) (omega arith) refl
      whole_request
