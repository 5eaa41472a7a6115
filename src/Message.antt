-- ===== src/Message.antt =====
-- include/tsunami.h and common/common.c: the requests that a client sends over the control
-- connection, as bytes in the layout of `retransmission_t`.
pub mod Laws
mod Tests
use tsunami_udp.Base.{ℕ, ◌+◌, List, [], ◌∷◌, ◌++◌, drop}
use tsunami_udp.Wire.{Host, store16, store32, load16, load32, htons, htonl, ntohs, ntohl}

abbrev pub request_retransmit : ℕ
request_retransmit = 0

abbrev pub request_restart : ℕ
request_restart = 1

abbrev pub request_stop : ℕ
request_stop = 2

abbrev pub request_error_rate : ℕ
request_error_rate = 3

-- `retransmission_t`, in the byte order of the host.
pub record Request : Type 0 where
  pub request_type : ℕ
  pub block : ℕ
  pub error_rate : ℕ

-- Two bytes of padding stand before `block`. The structures are cleared before they are filled.
unfoldable pub encode : Host → Request → List ℕ
encode h r =
    store16 h (htons h r.request_type)
    ++ (0 ∷ 0 ∷ (store32 h (htonl h r.block) ++ store32 h (htonl h r.error_rate)))

abbrev pub request_size : ℕ
request_size = 12

-- The conversions of `ttp_accept_retransmit`.
unfoldable pub decode : Host → List ℕ → Request
decode h bytes = record {
  request_type = ntohs h (load16 h bytes);
  block = ntohl h (load32 h (drop 4 bytes));
  error_rate = ntohl h (load32 h (drop 8 bytes));
}
