-- ===== src/Streams/Tests.antt =====
-- common/common.c: pieces, lines, times and proofs at small inputs.
use tsunami_udp.Base.{ℕ, ◌≡◌, refl, arith, some, List, [], ◌∷◌, ◌++◌, all_none, all_more, replicate}
use tsunami_udp.Streams.{read_line, mask_from, authentication_response, authentication_result}
use tsunami_udp.Md5.{md5_digest}
use tsunami_udp.Md5.Reference.{digest}
use tsunami_udp.Streams.Hosts.{hosts_agree}
use tsunami_udp.Streams.Lines.{read_line_lem}

read_line_lem_example :
    read_line 1024 ((b'a' ∷ b'b' ∷ []) ++ b'\n' ∷ b'c' ∷ []) ≡ some (b'a' ∷ b'b' ∷ [], b'c' ∷ [])
read_line_lem_example =
    read_line_lem (b'a' ∷ b'b' ∷ []) (b'c' ∷ []) 1024 b'\n' (all_more refl (all_more refl all_none))
      refl (omega arith)

masked : mask_from (1 ∷ 2 ∷ []) 0 (8 ∷ 8 ∷ 8 ∷ []) ≡ 9 ∷ 10 ∷ 9 ∷ []
unfolding mask_from
masked = refl

abbrev right_secret : List ℕ
right_secret = 2 ∷ []

abbrev wrong_secret : List ℕ
wrong_secret = 1 ∷ []

hosts_agree_example :
    authentication_result digest right_secret
      (replicate 64 8)
      (authentication_response md5_digest right_secret (replicate 64 8))
    ≡ 0
hosts_agree_example =
    hosts_agree digest right_secret (replicate 64 8) (λ message. refl) (omega arith) refl
