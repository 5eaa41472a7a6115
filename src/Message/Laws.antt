-- ===== src/Message/Laws.antt =====
-- include/tsunami.h: a request survives the wire.
use tsunami_udp.Base.{ℕ, ◌<◌, ◌^◌, ◌≡◌, ◌++◌, refl, List, [], ◌∷◌, length}
use tsunami_udp.Message.{Request, encode, decode, request_size}
use tsunami_udp.Wire.{Host, be16, be32}
use tsunami_udp.Wire.Laws.{store16-htons, store32-htonl, ntohl-load32, ntohs-load16}

-- The fields of a request fit their types.
pub record Fits (r : Request) : Type 0 where
  pub type_fits : r.request_type < 2 ^ 16
  pub block_fits : r.block < 2 ^ 32
  pub error_rate_fits : r.error_rate < 2 ^ 32

encode_bytes :
    (h : Host) (r : Request)
    → Fits r
    → encode h r ≡ be16 r.request_type ++ (0 ∷ 0 ∷ (be32 r.block ++ be32 r.error_rate))
unfolding encode
encode_bytes h r f = rw (
  store16-htons h r.request_type f.type_fits,
  store32-htonl h r.block,
  store32-htonl h r.error_rate,
)

-- Whatever the byte orders of the client and of the server, the server decodes the twelve bytes of
-- a request to the request that the client encoded, if its fields fit their types.
pub decode-encode :
    (client server : Host) (r : Request)
    → Fits r
    → (decode server (encode client r) ≡ r) × (length (encode client r) ≡ request_size)
unfolding decode
decode-encode client server r f =
    let tail : List ℕ = 0 ∷ 0 ∷ (be32 r.block ++ be32 r.error_rate) in
    rw (encode_bytes client r f) (
      λ i. record {
        request_type = ntohs-load16 server r.request_type tail f.type_fits i;
        block = ntohl-load32 server r.block (be32 r.error_rate) f.block_fits i;
        error_rate = ntohl-load32 server r.error_rate [] f.error_rate_fits i;
      },
      refl,
    )
