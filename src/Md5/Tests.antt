-- ===== src/Md5/Tests.antt =====
-- common/md5.c: digests that are known, and one that goes wrong.
use tsunami_udp.Base.{◌≡◌, ◌≢◌, refl, arith, [], ◌∷◌, ◌++◌, replicate}
use tsunami_udp.Md5.{
  md5_digest, md5_blocks, blocks_of, block_x, words, steps, step, additions, first_state,
  words_bytes, t_array, md5_table, pad, md5_dispatch, md5_f, md5_g, md5_h, md5_i,
}
use tsunami_udp.Md5.Agreement.{md5_digest_lem, md5_digest_bare}
use tsunami_udp.Md5.Reference.{bit_length, digest_padded, digest}
use tsunami_udp.Wire.{load32}

digest_nothing :
    md5_digest []
    ≡ 0xd4 ∷ 0x1d ∷ 0x8c ∷ 0xd9 ∷ 0x8f ∷ 0x00 ∷ 0xb2 ∷ 0x04 ∷ 0xe9 ∷ 0x80 ∷ 0x09 ∷ 0x98 ∷ 0xec
      ∷ 0xf8 ∷ 0x42 ∷ 0x7e ∷ []
unfolding md5_digest md5_blocks blocks_of block_x words steps step additions first_state words_bytes
    t_array md5_table pad md5_dispatch md5_f md5_g md5_h md5_i load32
digest_nothing = refl

digest_abc :
    md5_digest (b'a' ∷ b'b' ∷ b'c' ∷ [])
    ≡ 0x90 ∷ 0x01 ∷ 0x50 ∷ 0x98 ∷ 0x3c ∷ 0xd2 ∷ 0x4f ∷ 0xb0 ∷ 0xd6 ∷ 0x96 ∷ 0x3f ∷ 0x7d ∷ 0x28
      ∷ 0xe1 ∷ 0x7f ∷ 0x72 ∷ []
unfolding md5_digest md5_blocks blocks_of block_x words steps step additions first_state words_bytes
    t_array md5_table pad md5_dispatch md5_f md5_g md5_h md5_i load32
digest_abc = refl

digest_64 :
    md5_digest (replicate 64 1)
    ≡ 0x78 ∷ 0x4d ∷ 0x68 ∷ 0xba ∷ 0x91 ∷ 0x12 ∷ 0x30 ∷ 0x86 ∷ 0x89 ∷ 0x11 ∷ 0x4a ∷ 0x68 ∷ 0x16
      ∷ 0xc6 ∷ 0x28 ∷ 0xce ∷ []
unfolding md5_digest md5_blocks blocks_of block_x words steps step additions first_state words_bytes
    t_array md5_table pad md5_dispatch md5_f md5_g md5_h md5_i load32
digest_64 = refl

digest_60 :
    md5_digest (replicate 60 1)
    ≡ 0x9d ∷ 0x83 ∷ 0xf9 ∷ 0x23 ∷ 0x18 ∷ 0x31 ∷ 0x3a ∷ 0x89 ∷ 0x44 ∷ 0x5d ∷ 0xba ∷ 0x57 ∷ 0xe7
      ∷ 0x73 ∷ 0x6b ∷ 0xda ∷ []
unfolding md5_digest md5_blocks blocks_of block_x words steps step additions first_state words_bytes
    t_array md5_table pad md5_dispatch md5_f md5_g md5_h md5_i load32
digest_60 = refl

digest_121 :
    md5_digest (replicate 121 7)
    ≡ 0x82 ∷ 0x65 ∷ 0x8c ∷ 0x28 ∷ 0x35 ∷ 0x27 ∷ 0xfe ∷ 0xd6 ∷ 0xa4 ∷ 0x97 ∷ 0xae ∷ 0x2f ∷ 0x27
      ∷ 0x56 ∷ 0xf7 ∷ 0xf7 ∷ []
unfolding md5_digest md5_blocks blocks_of block_x words steps step additions first_state words_bytes
    t_array md5_table pad md5_dispatch md5_f md5_g md5_h md5_i load32
digest_121 = refl

-- The MD5 digest of these bytes starts with 0x5e, 0x99, 0xdf.
digest_56 :
    md5_digest (replicate 56 1)
    ≡ 0xc1 ∷ 0x21 ∷ 0x66 ∷ 0x99 ∷ 0x92 ∷ 0x8d ∷ 0xe5 ∷ 0x6b ∷ 0xb5 ∷ 0x85 ∷ 0x6b ∷ 0x0d ∷ 0x98
      ∷ 0xdd ∷ 0xaa ∷ 0xa9 ∷ []
unfolding md5_digest md5_blocks blocks_of block_x words steps step additions first_state words_bytes
    t_array md5_table pad md5_dispatch md5_f md5_g md5_h md5_i load32
digest_56 = refl

md5_digest_lem_example : md5_digest (b'a' ∷ b'b' ∷ b'c' ∷ []) ≡ digest (b'a' ∷ b'b' ∷ b'c' ∷ [])
md5_digest_lem_example = md5_digest_lem (b'a' ∷ b'b' ∷ b'c' ∷ []) (omega arith) (λ e. omega arith)

md5_digest_bare_example :
    (md5_digest (replicate 56 1) ≡ digest_padded (replicate 56 1 ++ bit_length (replicate 56 1)))
    × (md5_digest (replicate 56 0) ≢ digest (replicate 56 0))
md5_digest_bare_example = md5_digest_bare (replicate 56 1) (omega arith) refl
