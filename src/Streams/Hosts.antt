-- ===== src/Streams/Hosts.antt =====
-- client/protocol.c and server/protocol.c: a proof made with common/md5.c on a little-endian host, checked on a
-- host that has another implementation of MD5.
use tsunami_udp.Base.{ℕ, ◌+◌, ◌≡◌, refl, ap, sym, ◌∙◌, arith, List, [], ◌∷◌, length, ◌<◌}
use tsunami_udp.Md5.{md5_digest}
use tsunami_udp.Md5.Agreement.{md5_digest_lem}
use tsunami_udp.Md5.Reference.{digest}
use tsunami_udp.Streams.{mask_from, authentication_response, authentication_result}
use tsunami_udp.Streams.Proof.{authentication_lem}

length-mask_from :
    (secret : List ℕ) (offset : ℕ) (buffer : List ℕ)
    → length (mask_from secret offset buffer) ≡ length buffer
unfolding mask_from
length-mask_from secret offset [] = refl
length-mask_from secret offset (x ∷ buffer) =
    omega (arith, length-mask_from secret (offset + 1) buffer)

-- A little-endian client answers a challenge of 64 bytes with the digest of common/md5.c, and the server
-- checks it with an implementation of MD5 that gives the digests of RFC 1321: if both have the same
-- secret, which is not empty, the server answers 0.
pub hosts_agree :
    (other : List ℕ → List ℕ) (secret random : List ℕ)
    → ((message : List ℕ) → other message ≡ digest message)
    → 0 < length secret
    → length random ≡ 64
    → authentication_result other secret random (authentication_response md5_digest secret random)
      ≡ 0
hosts_agree other secret random is_md5 some_secret size =
    let masked = mask_from secret 0 random in
    let masked-length = length-mask_from secret 0 random in
    let same : authentication_response md5_digest secret random
        ≡ authentication_response other secret random =
      md5_digest_lem masked (omega (arith, masked-length, size))
        (λ e. omega (arith, masked-length, size))
      ∙ sym (is_md5 masked) in
    ap (authentication_result other secret random) same
    ∙ (authentication_lem other secret secret random some_secret some_secret).1 refl
