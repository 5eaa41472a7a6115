-- ===== src/Blocks/Writing.antt =====
-- client/io.c: the blocks of a file, accepted in any order and any number of times, make the file.
use tsunami_udp.Base.{
  All, all_more, ℕ, ◌+◌, ◌-◌, ◌*◌, ◌/◌, ◌^◌, ◌≤◌, ◌<◌, ◌≡◌, inl, inr, refl, ap, sym, subst, ◌∙◌,
  arith, ◌==◌, ◌&&◌, ltb, leb, some, List, [], ◌∷◌, drop, get_or, Bool-cases, true, false, dec_lt,
  ℕ_discrete,
}
use tsunami_udp.Blocks.{
  File, block_count_of, offset_of, write_size, write_at, Disk, accept_block, save_all,
}
use tsunami_udp.Blocks.Layout.{
  offset_lem, block_fits, last_block_ends, some_blocks, Holds, block_of,
}
use tsunami_udp.Blocks.Reading.{IsBlock}
use tsunami_udp.Receive.{this_block}
use tsunami_udp.Ring.{Datagram}
use tsunami_udp.Transfer.Delivery.{occurrences}
use tsunami_udp.Wire.{Host}

-- The disk takes every block.
pub record IsWorking (disk : Disk) : Type 0 where
  pub seek : disk.seek_works ≡ true
  pub write : disk.write_works ≡ true

module _ (h : Host) (s : ℕ) (src : File) where
  -- A datagram with a block of the file.
  pub record IsFileBlock (d : Datagram) : Type 0 where
    pub block : IsBlock h s src (this_block h d) d
    pub pos : 0 < this_block h d
    pub inside : this_block h d ≤ block_count_of src.size s

  pub file_block :
      {d : Datagram} (b : ℕ)
      → IsBlock h s src b d
      → 0 < b
      → b ≤ block_count_of src.size s
      → IsFileBlock d
  file_block {d} b k pos inside = record {
    block = subst (λ a. IsBlock h s src a d) (sym k.number) k;
    pos = omega (arith, k.number);
    inside = omega (arith, k.number);
  }

  -- From file `f` to file `g` the blocks of `ds` were written.
  pub record Written (ds : List Datagram) (f g : File) : Type 0 where
    pub keeps : (i : ℕ) → i < src.size → f.at i ≡ src.at i → g.at i ≡ src.at i
    pub writes : (b i : ℕ) → 0 < occurrences h b ds → Holds src.size s i b → g.at i ≡ src.at i
    pub inside : f.size ≤ src.size → g.size ≤ src.size
    pub grows : f.size ≤ g.size
    pub ends : 0 < src.size → 0 < occurrences h (block_count_of src.size s) ds → src.size ≤ g.size

  -- What accepting block `b` makes of the file.
  abbrev pub with_block : ℕ → Datagram → File → File
  with_block b d f =
      write_at (offset_of s b) (write_size (block_count_of src.size s) src.size s b) (drop 6 d) f

  module _ (some_bytes : 0 < s) (small : block_count_of src.size s < 2 ^ 32) where
    in_block :
        (b i : ℕ) (d : Datagram) (f : File)
        → 0 < b
        → b ≤ block_count_of src.size s
        → IsBlock h s src b d
        → s * (b - 1) ≤ i
        → i < s * (b - 1) + write_size (block_count_of src.size s) src.size s b
        → (with_block b d f).at i ≡ src.at i
    in_block b i d f pos inside block from to =
        let offset = offset_lem s b pos (omega arith) in
        let within : (leb (offset_of s b) i
              && ltb i (offset_of s b + write_size (block_count_of src.size s) src.size s b))
            ≡ true =
          ground arith in
        rw within (
          ap (λ o. get_or (drop 6 d) (i - o) 0) offset
          ∙ block.bytes (i - s * (b - 1)) (omega arith)
          ∙ ap src.at (omega arith))

    with_block-keeps :
        (b i : ℕ) (d : Datagram) (f : File)
        → 0 < b
        → b ≤ block_count_of src.size s
        → IsBlock h s src b d
        → f.at i ≡ src.at i
        → (with_block b d f).at i ≡ src.at i
    with_block-keeps b i d f pos inside block same =
        let offset = offset_lem s b pos (omega arith) in
        elim (Bool-cases (
          leb (offset_of s b) i
          && ltb i (offset_of s b + write_size (block_count_of src.size s) src.size s b))) [
            | inl within ↦ in_block b i d f pos inside block (ground arith) (ground arith)
            | inr outside ↦ rw outside same
          ]

    -- One block before the others.
    Written-cons :
        (d : Datagram) (ds : List Datagram) (f g : File)
        → IsBlock h s src (this_block h d) d
        → 0 < this_block h d
        → this_block h d ≤ block_count_of src.size s
        → Written ds (with_block (this_block h d) d f) g
        → Written (d ∷ ds) f g
    unfolding occurrences
    Written-cons d ds f g block pos inside w =
        let a = this_block h d in
        let n = block_count_of src.size s in
        let offset = offset_lem s a pos (omega arith) in
        let fits = block_fits src.size s a some_bytes pos inside in
        record {
          keeps = λ i lo same. w.keeps i lo (with_block-keeps a i d f pos inside block same);
          writes = λ b i some_b holds. elim (ℕ_discrete a b) [
            | no other ↦ w.writes b i (ground arith) holds
            | yes same ↦
                let holds' : Holds src.size s i a =
                  subst (λ k. Holds src.size s i k) (sym same) holds in
                w.keeps i (omega (arith, holds'.to))
                  (in_block a i d f pos inside block holds'.from holds'.to)
          ];
          inside = λ le. w.inside (omega arith);
          grows = omega (arith, w.grows);
          ends = λ some_size last. elim (ℕ_discrete a n) [
            | no other ↦ w.ends some_size (ground arith)
            | yes same ↦
                let end = last_block_ends src.size s some_bytes some_size in
                let here = ap (λ k. s * (k - 1) + write_size n src.size s k) same in
                omega (arith, w.grows)
          ];
        }

    -- When the disk works and all datagrams hold blocks of the file, all are written.
    pub save_all-Written :
        (disk : Disk) (ds : List Datagram) (f : File)
        → IsWorking disk
        → All IsFileBlock ds
        → (g : File) × (save_all h (block_count_of src.size s) src.size s disk ds f ≡ some g)
          × Written ds f g
    unfolding save_all accept_block occurrences
    save_all-Written disk [] f works all = (
      f,
      refl,
      record {
        keeps = λ i lo same. same;
        writes = λ b i none_left holds. absurd (omega arith);
        inside = λ le. le;
        grows = omega arith;
        ends = λ some_size none_left. absurd (omega arith);
      },
    )
    save_all-Written disk (d ∷ ds) f works (all_more b all) =
        let (g, saved, w) = save_all-Written disk ds (with_block (this_block h d) d f) works all in
        let not_stop : (this_block h d == 0) ≡ false = ground (arith, b.pos) in
        (
          g,
          rw (not_stop, works.seek, works.write) saved,
          Written-cons d ds f g b.block b.pos b.inside w,
        )

-- If the datagrams that the disk thread takes hold blocks of a file, each block of it at least once, in any
-- order, then the disk thread, on a disk that works, ends with a file of the same size and the same
-- bytes, from an empty file.
pub save_all_lem :
    (h : Host) (s : ℕ) (src : File) (disk : Disk) (ds : List Datagram) (empty : File)
    → 0 < s
    → block_count_of src.size s < 2 ^ 32
    → IsWorking disk
    → All (IsFileBlock h s src) ds
    → ((b : ℕ) → 0 < b → b ≤ block_count_of src.size s → 0 < occurrences h b ds)
    → empty.size ≡ 0
    → (g : File) × (save_all h (block_count_of src.size s) src.size s disk ds empty ≡ some g)
      × (g.size ≡ src.size)
      × ((i : ℕ) → i < src.size → g.at i ≡ src.at i)
save_all_lem h s src disk ds empty some_bytes small works all complete blank =
    let (g, saved, w) = save_all-Written h s src some_bytes small disk ds empty works all in
    let n = block_count_of src.size s in
    (
      g,
      saved,
      elim (dec_lt 0 src.size) [
        | yes some_size ↦
            let first = some_blocks src.size s some_bytes some_size in
            omega (arith, w.inside (omega arith), w.ends some_size (complete n first (omega arith)))
        | no no_size ↦ omega (arith, w.inside (omega arith))
      ],
      λ i lo.
          let holds = block_of src.size s i some_bytes lo in
          w.writes (i / s + 1) i (complete (i / s + 1) holds.pos holds.inside) holds,
    )
