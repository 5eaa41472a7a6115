-- ===== src/Streams/Proof.antt =====
-- common/common.c, client/protocol.c and server/protocol.c: the proof of a shared secret.
use tsunami_udp.Base.{
  ℕ, zero, suc, ◌+◌, ◌≤◌, ◌<◌, ◌≡◌, ◌≢◌, ◌↔◌, refl, ap, arith, true, List, length, get_or,
  ℕ_discrete,
}
use tsunami_udp.Streams.{prepare_proof, authentication_response, same_bytes, authentication_result}

same_bytes_all :
    (count i : ℕ) (xs ys : List ℕ)
    → same_bytes count i xs ys ≡ true
    → (j : ℕ) → i ≤ j
    → j < i + count
    → get_or xs j 0 ≡ get_or ys j 0
unfolding same_bytes
same_bytes_all zero i xs ys same j lo hi = absurd (omega arith)
same_bytes_all (suc count) i xs ys same j lo hi = elim (ℕ_discrete j i) [
  | yes e ↦ ground arith
  | no ne ↦ same_bytes_all count (i + 1) xs ys (ground arith) j (omega arith) (omega arith)
]

same_bytes_of_all :
    (count i : ℕ) (xs ys : List ℕ)
    → ((j : ℕ) → i ≤ j → j < i + count → get_or xs j 0 ≡ get_or ys j 0)
    → same_bytes count i xs ys ≡ true
unfolding same_bytes
same_bytes_of_all zero i xs ys all = refl
same_bytes_of_all (suc count) i xs ys all = ground (
  arith,
  all i (omega arith) (omega arith),
  same_bytes_of_all count (i + 1) xs ys (λ j lo hi. all j (omega arith) (omega arith)),
)

-- With any digest of the masked challenge, and secrets that are not empty: the server answers 0 to a client's response exactly if the first 16
-- bytes of the client's proof are those of its own, so always if the secrets are the same; and it answers 1
-- otherwise.
pub authentication_lem :
    (md5_digest : List ℕ → List ℕ) (client_secret server_secret random : List ℕ)
    → 0 < length client_secret
    → 0 < length server_secret
    → let response = authentication_response md5_digest client_secret random in
      let result = authentication_result md5_digest server_secret random response in
      ((result ≡ 0) ↔ (
        (j : ℕ)
        → j < 16
        → get_or response j 0 ≡ get_or (prepare_proof md5_digest server_secret random) j 0))
      × (client_secret ≡ server_secret → result ≡ 0)
      × (result ≢ 0 → result ≡ 1)
unfolding authentication_result
authentication_lem md5_digest client_secret server_secret random some_client some_server =
    let response = authentication_response md5_digest client_secret random in
    let proof = prepare_proof md5_digest server_secret random in
    let accepts : ((j : ℕ) → j < 16 → get_or response j 0 ≡ get_or proof j 0)
        → authentication_result md5_digest server_secret random response ≡ 0 =
      λ all.
        rw
          (
            same_bytes_of_all 16 0 response proof (λ j lo hi. all j (omega arith)),
            authentication_result,
          )
          refl in
    (
      (
        λ e j lt. same_bytes_all 16 0 response proof (ground arith) j (omega arith) (omega arith),
        accepts,
      ),
      λ same. accepts (λ j lt. ap (λ k. get_or (prepare_proof md5_digest k random) j 0) same),
      λ ne. ground arith,
    )
