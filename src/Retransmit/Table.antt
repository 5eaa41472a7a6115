-- ===== src/Retransmit/Table.antt =====
-- client/protocol.c: `ttp_request_retransmit` keeps a table that grows by doubling.
use tsunami_udp.Base.{
  ◌↔◌, none, ℕ, suc, ◌+◌, ◌*◌, ◌%◌, ◌^◌, ◌≤◌, ◌<◌, ◌≡◌, ◌⊎◌, inl, inr, refl, ap, ◌∙◌, arith, Bool,
  true, false, ◌||◌, ◌&&◌, leb, if◌then◌else◌, some, List, [], ◌∷◌, ◌++◌, length, take, set,
  replicate, length-append, length-replicate, length-set, take-set_next, take-append_left, dec_le,
  Bool-cases,
}
use tsunami_udp.Bitmap.{got_block}
use tsunami_udp.Retransmit.{
  Rexmit, max_retransmission_buffer, default_table_size, new_rexmit, grown, store_request,
  ttp_request_retransmit,
}

-- The sizes that the table passes through.
abbrev pub IsTableSize : ℕ → Type 0
IsTableSize n = (n ≡ 4096) ⊎ (n ≡ 8192) ⊎ (n ≡ 16384) ⊎ (n ≡ 32768) ⊎ (n ≡ 65536)

pub record IsValid (r : Rexmit) : Type 0 where
  pub size : length r.table ≡ r.table_size
  pub fits : r.index_max ≤ r.table_size
  pub doubling : IsTableSize r.table_size

-- The entries in use.
abbrev pub entries : Rexmit → List ℕ
entries r = take r.index_max r.table

pub new_rexmit-IsValid : IsValid new_rexmit
unfolding new_rexmit
new_rexmit-IsValid = record {
  size = length-replicate {A = ℕ} default_table_size 0;
  fits = omega arith;
  doubling = inl refl;
}

pub store_request-IsValid :
    (b : ℕ) (r : Rexmit) → IsValid r → r.index_max < r.table_size → IsValid (store_request b r)
store_request-IsValid b r v h = record {
  size = length-set r.table r.index_max b ∙ v.size;
  fits = omega (arith, v.doubling);
  doubling = v.doubling;
}

pub entries-store_request :
    (b : ℕ) (r : Rexmit)
    → IsValid r
    → r.index_max < r.table_size
    → entries (store_request b r) ≡ entries r ++ b ∷ []
entries-store_request b r v h =
    ap (λ n. take n (set r.table r.index_max b)) {y = suc r.index_max} (omega (arith, v.doubling))
    ∙ take-set_next r.table r.index_max b (omega (arith, v.size))

double-IsTableSize : {n : ℕ} → IsTableSize n → n < 65536 → IsTableSize (n * 2 % 2 ^ 32)
double-IsTableSize (inl e) h = inr (inl (omega arith))
double-IsTableSize (inr (inl e)) h = inr (inr (inl (omega arith)))
double-IsTableSize (inr (inr (inl e))) h = inr (inr (inr (inl (omega arith))))
double-IsTableSize (inr (inr (inr (inl e)))) h = inr (inr (inr (inr (omega arith))))
double-IsTableSize (inr (inr (inr (inr e)))) h = absurd (omega arith)

pub grown-IsValid :
    (r : Rexmit)
    → IsValid r
    → r.table_size ≤ r.index_max
    → r.index_max < 32 * max_retransmission_buffer
    → IsValid (grown r) × (r.index_max < (grown r).table_size) × (entries (grown r) ≡ entries r)
grown-IsValid r v full small = (
  record {
    size = omega (
      arith,
      length-append r.table (replicate r.table_size 0),
      v.size,
      v.doubling,
      length-replicate {A = ℕ} r.table_size 0,
    );
    fits = omega (arith, v.fits, v.doubling);
    doubling = double-IsTableSize v.doubling (omega (arith, v.fits));
  },
  omega (arith, v.fits, v.doubling),
  take-append_left r.index_max r.table (replicate r.table_size 0) (omega (arith, v.fits, v.size)),
)

-- A table in use that is full at its largest size takes no more requests.
abbrev pub is_full : Rexmit → Bool
is_full r = leb r.table_size r.index_max && leb (32 * max_retransmission_buffer) r.index_max

-- While `realloc` works, `ttp_request_retransmit` succeeds: it leaves a block alone that was
-- received or finds the table full at 65536 entries, and appends any other block to the entries;
-- the table stays valid, so that it never has more than 65536 entries and no write is out of range.
pub ttp_request_retransmit_lem :
    (n : ℕ) (received : List ℕ) (b : ℕ) (r : Rexmit)
    → IsValid r
    → (r' : Rexmit) × (ttp_request_retransmit true n received b r ≡ some r')
      × IsValid r'
      × (entries r'
          ≡ (if got_block n received b || is_full r then entries r else entries r ++ b ∷ []))
      × (r'.index_max
          ≡ (if got_block n received b || is_full r then r.index_max else r.index_max + 1))
unfolding ttp_request_retransmit
ttp_request_retransmit_lem n received b r v = elim (Bool-cases (got_block n received b)) [
  | inl got ↦ (r, rw got, v, rw got, rw got)
  | inr new ↦ elim (dec_le r.table_size r.index_max) [
    | no room ↦ (
      store_request b r,
      ground arith,
      store_request-IsValid b r v (omega arith),
      let some_room : is_full r ≡ false = ground arith in
          rw (new, some_room) (entries-store_request b r v (omega arith)),
      ground (arith, v.doubling),
    )
    | yes full ↦ elim (dec_le (32 * max_retransmission_buffer) r.index_max) [
      | yes most ↦ (r, ground arith, v, ground arith, ground arith)
      | no more ↦
          let (gv, room, same) = grown-IsValid r v full (omega arith) in
          (
            store_request b (grown r),
            ground arith,
            store_request-IsValid b (grown r) gv room,
            let some_room : is_full r ≡ false = ground arith in
                rw (new, some_room)
                  (entries-store_request b (grown r) gv room ∙ ap (λ t. t ++ b ∷ []) same),
            ground (arith, v.doubling),
          )
    ]
  ]
]

-- `ttp_request_retransmit` fails only where `realloc` does, on a missing block and a full table
-- that could still grow.
ttp_request_retransmit_error :
    (n : ℕ) (received : List ℕ) (b : ℕ) (r : Rexmit)
    → (ttp_request_retransmit false n received b r ≡ none) ↔ (
        (got_block n received b ≡ false)
        × (r.table_size ≤ r.index_max)
        × (r.index_max < 32 * max_retransmission_buffer))
unfolding ttp_request_retransmit
ttp_request_retransmit_error n received b r = (λ e. ground arith, λ h. ground arith)
