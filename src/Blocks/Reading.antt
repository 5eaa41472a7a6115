-- ===== src/Blocks/Reading.antt =====
-- server/io.c: a datagram holds its block of the file, also where `build_datagram` does not seek.
use tsunami_udp.Base.{
  ℕ, zero, suc, ◌+◌, ◌-◌, ◌*◌, ◌%◌, ◌^◌, ◌≤◌, ◌<◌, ◌≡◌, ◌⊎◌, inl, inr, refl, ap, ap₂, sym, subst,
  ◌∙◌, arith, ◌==◌, List, ◌++◌, drop, get_or, Bool-cases, dec_le,
}
use tsunami_udp.Blocks.{
  File, bytes_from, block_count_of, offset_of, Reader, seek, available, read_block, build_datagram,
  write_size,
}
use tsunami_udp.Blocks.Layout.{offset_lem, block_fits, mul_pred}
use tsunami_udp.Receive.{this_block, this_type}
use tsunami_udp.Ring.{Datagram}
use tsunami_udp.Wire.{Host, be16, be32, store16, store32, htons, htonl}
use tsunami_udp.Wire.Laws.{store16-htons, store32-htonl, ntohl-load32, ntohs-load16}

get_or-bytes_from :
    (at : ℕ → ℕ) (pos count : ℕ) (rest : List ℕ) (j : ℕ)
    → j < count
    → get_or (bytes_from at pos count ++ rest) j 0 ≡ at (pos + j)
unfolding bytes_from
get_or-bytes_from at pos zero rest j h = absurd (omega arith)
get_or-bytes_from at pos (suc count) rest zero h = ap at (omega arith)
get_or-bytes_from at pos (suc count) rest (suc j) h =
    get_or-bytes_from at (pos + 1) count rest j (omega arith) ∙ ap at (omega arith)

-- Nothing is read at or past the end.
bytes_from-zero :
    (at : ℕ → ℕ) (p q count : ℕ) → count ≡ 0 → bytes_from at p count ≡ bytes_from at q count
unfolding bytes_from
bytes_from-zero at p q zero e = refl
bytes_from-zero at p q (suc count) e = absurd (omega arith)

-- The position stands where the block after `last_block` begins, or both are past the end.
pub record IsSynced (block_size : ℕ) (r : Reader) : Type 0 where
  pub place :
      (r.pos ≡ block_size * r.last_block)
      ⊎ ((r.file.size ≤ r.pos) × (r.file.size ≤ block_size * r.last_block))
  pub small : r.last_block < 2 ^ 32

-- The datagram of block `b`, as a client reads it.
pub record IsBlock (h : Host) (block_size : ℕ) (file : File) (b : ℕ) (d : Datagram) : Type 0 where
  pub number : this_block h d ≡ b
  pub bytes :
      (j : ℕ)
      → j < write_size (block_count_of file.size block_size) file.size block_size b
      → get_or (drop 6 d) j 0 ≡ file.at (block_size * (b - 1) + j)

header :
    (h : Host) (b t : ℕ) (rest : List ℕ)
    → t < 2 ^ 16
    → store32 h (htonl h b) ++ (store16 h (htons h t) ++ rest) ≡ be32 b ++ (be16 t ++ rest)
header h b t rest small = rw (store32-htonl h b, store16-htons h t small) refl

read_block-IsBlock :
    (server client : Host) (s b t : ℕ) (old : Datagram) (r : Reader)
    → 0 < s
    → 0 < b
    → b ≤ block_count_of r.file.size s
    → b < 2 ^ 32
    → t < 2 ^ 16
    → r.pos ≡ s * (b - 1)
    → IsBlock client s r.file b (read_block server s b t old r).0
unfolding read_block
read_block-IsBlock server client s b t old r some_bytes pos inside small type_small here =
    let count = available s r in
    let block = bytes_from r.file.at r.pos count ++ drop (6 + count) old in
    rw (header server b t block type_small) (record {
      number = ntohl-load32 client b (be16 t ++ block) small;
      bytes = λ j h.
          get_or-bytes_from r.file.at r.pos count (drop (6 + count) old) j
            (ground (arith, block_fits r.file.size s b some_bytes pos inside))
          ∙ ap r.file.at (omega arith);
    })

read_block-header :
    (server client : Host) (s b t : ℕ) (old : Datagram) (r : Reader)
    → b < 2 ^ 32
    → t < 2 ^ 16
    → let d = (read_block server s b t old r).0 in
      (this_block client d ≡ b) × (this_type client d ≡ t)
unfolding read_block
read_block-header server client s b t old r small type_small =
    let count = available s r in
    let block = bytes_from r.file.at r.pos count ++ drop (6 + count) old in
    rw (header server b t block type_small)
      (ntohl-load32 client b (be16 t ++ block) small, ntohs-load16 client t block type_small)

read_block-IsSynced :
    (server : Host) (s b t : ℕ) (old : Datagram) (r : Reader)
    → 0 < b
    → b < 2 ^ 32
    → (r.pos ≡ s * (b - 1)) ⊎ ((r.file.size ≤ r.pos) × (r.file.size ≤ s * (b - 1)))
    → IsSynced s (read_block server s b t old r).1
unfolding read_block
read_block-IsSynced server s b t old r pos small at = record {
  place = elim at [
    | inr (past, past') ↦ inr (omega arith, omega (arith, mul_pred s b pos))
    | inl here ↦ elim (dec_le (s * (b - 1) + s) r.file.size) [
      | yes whole ↦ inl (omega (arith, mul_pred s b pos))
      | no part ↦ inr (omega arith, omega (arith, mul_pred s b pos))
    ]
  ];
  small = small;
}

-- Reading at either of two positions past the end gives the same datagram.
read_past :
    (server : Host) (s b t : ℕ) (old : Datagram) (r : Reader) (offset : ℕ)
    → r.file.size ≤ r.pos
    → r.file.size ≤ offset
    → (read_block server s b t old r).0 ≡ (read_block server s b t old (seek offset r)).0
unfolding read_block
read_past server s b t old r offset here there =
    let x = available s r in
    let y = available s (seek offset r) in
    let none_here : x ≡ 0 = omega arith in
    let none_there : y ≡ 0 = omega arith in
    ap₂
      (λ bytes n.
        store32 server (htonl server b)
        ++ (store16 server (htons server t) ++ (bytes ++ drop (6 + n) old)))
      (bytes_from-zero r.file.at r.pos offset x none_here
        ∙ ap (λ n. bytes_from r.file.at offset n) (none_here ∙ sym none_there))
      (none_here ∙ sym none_there)

-- `build_datagram` seeks only when the block does not follow the block that it built last. From a
-- reader that is in step, and for a block number that is neither 0 nor too large for 32 bits, it
-- still returns the datagram that it would with a seek each time, and leaves the reader in step, with
-- the same file.
pub build_datagram_lem :
    (server : Host) (s b t : ℕ) (old : Datagram) (r : Reader)
    → 0 < b
    → b < 2 ^ 32
    → IsSynced s r
    → let built = build_datagram server s b t old r in
      (built.0 ≡ (read_block server s b t old (seek (offset_of s b) r)).0)
      × IsSynced s built.1
      × (built.1.file ≡ r.file)
unfolding build_datagram read_block
build_datagram_lem server s b t old r pos small sync =
    elim (Bool-cases (b == (r.last_block + 1) % 2 ^ 32)) [
      | inr away ↦ rw away (
        refl,
        read_block-IsSynced server s b t old (seek (offset_of s b) r) pos small
            (inl (offset_lem s b pos small)),
        refl,
      )
      | inl next ↦
          let before : r.last_block ≡ b - 1 = ground (arith, sync.small) in
          let offset = offset_lem s b pos small in
          let place : (r.pos ≡ s * (b - 1))
              ⊎ ((r.file.size ≤ r.pos) × (r.file.size ≤ s * (b - 1))) =
            subst (λ k. (r.pos ≡ s * k) ⊎ ((r.file.size ≤ r.pos) × (r.file.size ≤ s * k))) before
              sync.place in
          let same : (read_block server s b t old r).0
              ≡ (read_block server s b t old (seek (offset_of s b) r)).0 =
            elim place [
              | inl here ↦
                  ap (λ p. (read_block server s b t old (record r { pos = p })).0)
                    (here ∙ sym offset)
              | inr (past, past') ↦ read_past server s b t old r (offset_of s b) past (omega arith)
            ] in
          rw next (same, read_block-IsSynced server s b t old r pos small place, refl)
    ]

-- From a reader that is in step, the datagram that the server builds for a block of its file is read
-- by the client, on either kind of host, as that block: its number, and the block's bytes.
pub build_datagram-IsBlock :
    (server client : Host) (s b t : ℕ) (old : Datagram) (r : Reader)
    → 0 < s
    → 0 < b
    → b ≤ block_count_of r.file.size s
    → b < 2 ^ 32
    → t < 2 ^ 16
    → IsSynced s r
    → IsBlock client s r.file b (build_datagram server s b t old r).0
build_datagram-IsBlock server client s b t old r some_bytes pos inside small type_small sync =
    subst (IsBlock client s r.file b) (sym (build_datagram_lem server s b t old r pos small sync).0)
      (read_block-IsBlock server client s b t old (seek (offset_of s b) r) some_bytes pos inside
        small type_small (offset_lem s b pos small))

-- The header of a datagram, as a client reads it.
pub build_datagram-header :
    (server client : Host) (s b t : ℕ) (old : Datagram) (r : Reader)
    → b < 2 ^ 32
    → t < 2 ^ 16
    → let d = (build_datagram server s b t old r).0 in
      (this_block client d ≡ b) × (this_type client d ≡ t)
unfolding build_datagram read_block
build_datagram-header server client s b t old r small type_small =
    elim (Bool-cases (b == (r.last_block + 1) % 2 ^ 32)) [
      | inr away ↦
          rw away
            (read_block-header server client s b t old (seek (offset_of s b) r) small type_small)
      | inl next ↦ rw next (read_block-header server client s b t old r small type_small)
    ]
