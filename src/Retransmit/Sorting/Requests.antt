-- ===== src/Retransmit/Sorting/Requests.antt =====
-- client/protocol.c: the sorted table has every missing block once, in order.
use tsunami_udp.Base.{
  ℕ, suc, ◌+◌, ◌-◌, ◌*◌, ◌^◌, ◌%◌, ◌<◌, ◌≡◌, ◌⊎◌, ◌↔◌, inl, inr, sym, ap, subst, ◌∙◌, arith, true,
  false, if◌then◌else◌, some, List, take, set, get_or, dec_le, ℕ_discrete, Bool-cases, In,
}
use tsunami_udp.Bitmap.{got_block}
use tsunami_udp.Retransmit.{Rexmit, max_retransmission_buffer, grown, store_request}
use tsunami_udp.Retransmit.Sorting.{seek_entry, shift_up, insert_at, insert_request, request_sorted}
use tsunami_udp.Retransmit.Sorting.Arrays.{Inserts, seek_entry-Inserts, length-shift_up}
use tsunami_udp.Retransmit.Sorting.Inserted.{inserted, Increasing, inserted-Increasing, In-inserted}
use tsunami_udp.Retransmit.Table.{IsValid, entries, store_request-IsValid, grown-IsValid}

Puts : ℕ → Rexmit → Rexmit → Type 0
Puts b r r' = IsValid r' × (entries r' ≡ inserted b (entries r))

abbrev shifted : (i b : ℕ) → Rexmit → Rexmit
shifted i b r = record r {
  table = shift_up (r.index_max + 1 - i) i b r.table;
  index_max = (r.index_max + 1) % 2 ^ 32;
}

shifted-IsValid :
    (i b : ℕ) (r : Rexmit) → IsValid r → r.index_max < r.table_size → IsValid (shifted i b r)
shifted-IsValid i b r v room = record {
  size = length-shift_up (r.index_max + 1 - i) i b r.table ∙ v.size;
  fits = omega (arith, v.doubling);
  doubling = v.doubling;
}

insert_at-Puts :
    (i b : ℕ) (r : Rexmit)
    → IsValid r
    → r.index_max < r.table_size
    → Inserts r.index_max b r.table i
    → Puts b r (insert_at i b r)
unfolding insert_at Puts
insert_at-Puts i b r v room cases =
    let next : (r.index_max + 1) % 2 ^ 32 ≡ suc r.index_max = omega (arith, v.doubling) in
    elim (ℕ_discrete i r.index_max) [
      | yes e ↦
          let is : insert_at i b r ≡ store_request b r = ground arith in
          subst (Puts b r) (sym is) (
            store_request-IsValid b r v room,
            ap (λ n. take n (set r.table r.index_max b)) next ∙ cases.at_end e,
          )
      | no ne ↦ elim (ℕ_discrete (get_or r.table i 0) b) [
        | yes d ↦
            let is : insert_at i b r ≡ r = ground arith in
            subst (Puts b r) (sym is) (v, cases.duplicate ne d)
        | no d ↦
            let is : insert_at i b r ≡ shifted i b r = ground arith in
            subst (Puts b r) (sym is) (
              shifted-IsValid i b r v room,
              ap (λ n. take n (shift_up (r.index_max + 1 - i) i b r.table)) next
                  ∙ cases.between ne d,
            )
      ]
    ]

insert_request-Puts :
    (b : ℕ) (r : Rexmit) → IsValid r → r.index_max < r.table_size → Puts b r (insert_request b r)
insert_request-Puts b r v room =
    insert_at-Puts (seek_entry r.index_max 0 b r.table) b r v room
      (seek_entry-Inserts r.index_max b r.table (omega (arith, v.size)))

-- While `realloc` works and fewer than 65536 entries are in use: a missing block is put into the table, any other block
-- leaves it as it was.
request_sorted-entries :
    (n : ℕ) (received : List ℕ) (b : ℕ) (r : Rexmit)
    → IsValid r
    → r.index_max < 32 * max_retransmission_buffer
    → (r' : Rexmit) × (request_sorted true n received b r ≡ some r')
      × IsValid r'
      × (entries r' ≡ (if got_block n received b then entries r else inserted b (entries r)))
unfolding request_sorted Puts
request_sorted-entries n received b r v small = elim (Bool-cases (got_block n received b)) [
  | inl got ↦ (r, rw got, v, rw got)
  | inr new ↦ elim (dec_le r.table_size r.index_max) [
    | no room ↦
        let (valid, puts) = insert_request-Puts b r v (omega arith) in
        (insert_request b r, ground arith, valid, rw (new) puts)
    | yes full ↦
        let (gv, room, same) = grown-IsValid r v full small in
        let (valid, puts) = insert_request-Puts b (grown r) gv room in
        (insert_request b (grown r), ground arith, valid, rw (new) (puts ∙ ap (inserted b) same))
  ]
]

-- With RETX_REQBLOCK_SORTING, while `realloc` works and fewer than 65536 entries are in use: the table stays
-- valid, its entries stay strictly increasing, so that none is there twice, and they are those that were
-- there and the block, if it is missing.
pub request_sorted_lem :
    (n : ℕ) (received : List ℕ) (b : ℕ) (r : Rexmit)
    → IsValid r
    → Increasing (entries r)
    → r.index_max < 32 * max_retransmission_buffer
    → (r' : Rexmit) × (request_sorted true n received b r ≡ some r')
      × IsValid r'
      × Increasing (entries r')
      × ((c : ℕ)
          → In c (entries r') ↔ (((c ≡ b) × (got_block n received b ≡ false)) ⊎ In c (entries r)))
request_sorted_lem n received b r v inc small =
    let (r', is, valid, now) = request_sorted-entries n received b r v small in
    elim (Bool-cases (got_block n received b)) [
      | inl got ↦
          let same : entries r' ≡ entries r = rw (got) at now in
          (
            r',
            is,
            valid,
            subst Increasing (sym same) inc,
            λ c. (
              λ m. inr (subst (In c) same m),
              λ m. elim m [
                | inl e ↦ absurd (ground (arith, e.1))
                | inr k ↦ subst (In c) (sym same) k
              ],
            ),
          )
      | inr new ↦
          let put : entries r' ≡ inserted b (entries r) = rw (new) at now in
          (
            r',
            is,
            valid,
            subst Increasing (sym put) (inserted-Increasing b (entries r) inc),
            λ c.
                let iff = In-inserted b c (entries r) in
                (
                  λ m. elim (iff.0 (subst (In c) put m)) [ inl e ↦ inl (e, new) | inr k ↦ inr k ],
                  λ m. subst (In c) (sym put) (iff.1 (elim m [ inl e ↦ inl e.0 | inr k ↦ inr k ])),
                ),
          )
    ]
