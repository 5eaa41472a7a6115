-- ===== src/Session/Agreement.antt =====
-- client/protocol.c and server/protocol.c: the two sides agree.
use tsunami_udp.Base.{
  ℕ, ◌%◌, ◌^◌, ◌<◌, ◌≡◌, ◌↔◌, refl, ap, sym, ◌∙◌, arith, true, false, ◌==◌, some, List, [], ◌++◌,
}
use tsunami_udp.Blocks.{block_count_of}
use tsunami_udp.Session.{
  send_revision, accept_revision, Wish, submit, read_wish, Offer, offer, reply_offer, write_offer,
  on_wire_of, read_offer,
}
use tsunami_udp.Wire.{Host, be16, be32, be64, load32, htonl}
use tsunami_udp.Wire.Laws.{
  store16-htons, store32-htonl, store64-htonll, ntohl-load32, ntohs-load16, ntohll-load64,
  load32-be32, htonl-injective,
}

-- The parameters fit their types.
pub record Fits (w : Wish) : Type 0 where
  pub block_size : w.block_size < 2 ^ 32
  pub target_rate : w.target_rate < 2 ^ 32
  pub error_rate : w.error_rate < 2 ^ 32
  pub slower_num : w.slower_num < 2 ^ 16
  pub slower_den : w.slower_den < 2 ^ 16
  pub faster_num : w.faster_num < 2 ^ 16
  pub faster_den : w.faster_den < 2 ^ 16

wish_bytes : Wish → List ℕ
wish_bytes w =
    be32 w.block_size
    ++ (be32 w.target_rate
        ++ (be32 w.error_rate
            ++ (be16 w.slower_num
                ++ (be16 w.slower_den ++ (be16 w.faster_num ++ (be16 w.faster_den ++ []))))))

submit-bytes : (h : Host) (w : Wish) → Fits w → submit h w ≡ wish_bytes w
unfolding submit wish_bytes
submit-bytes h w f =
    rw
      (
        store32-htonl h w.block_size,
        store32-htonl h w.target_rate,
        store32-htonl h w.error_rate,
        store16-htons h w.slower_num f.slower_num,
        store16-htons h w.slower_den f.slower_den,
        store16-htons h w.faster_num f.faster_num,
        store16-htons h w.faster_den f.faster_den,
      )
      refl

-- Whatever the byte orders of the two hosts, the server reads the parameters that the client submits,
-- if they fit their types.
pub read_wish-submit :
    (client server : Host) (w : Wish) → Fits w → read_wish server (submit client w) ≡ w
unfolding read_wish wish_bytes
read_wish-submit client server w f =
    rw
      (
        submit-bytes client w f,
        ntohl-load32 server w.block_size
            (be32 w.target_rate
              ++ (be32 w.error_rate
                  ++ (be16 w.slower_num
                      ++ (be16 w.slower_den ++ (be16 w.faster_num ++ (be16 w.faster_den ++ []))))))
            f.block_size,
        ntohl-load32 server w.target_rate
            (be32 w.error_rate
              ++ (be16 w.slower_num
                  ++ (be16 w.slower_den ++ (be16 w.faster_num ++ (be16 w.faster_den ++ [])))))
            f.target_rate,
        ntohl-load32 server w.error_rate
            (be16 w.slower_num
              ++ (be16 w.slower_den ++ (be16 w.faster_num ++ (be16 w.faster_den ++ []))))
            f.error_rate,
        ntohs-load16 server w.slower_num
            (be16 w.slower_den ++ (be16 w.faster_num ++ (be16 w.faster_den ++ []))) f.slower_num,
        ntohs-load16 server w.slower_den (be16 w.faster_num ++ (be16 w.faster_den ++ []))
            f.slower_den,
        ntohs-load16 server w.faster_num (be16 w.faster_den ++ []) f.faster_num,
        ntohs-load16 server w.faster_den [] f.faster_den,
      )
      refl

-- What the server offers fits its types.
pub record OfferFits (o : Offer) : Type 0 where
  pub file_size : o.file_size < 2 ^ 64
  pub block_size : o.block_size < 2 ^ 32
  pub block_count : o.block_count < 2 ^ 32
  pub epoch : o.epoch < 2 ^ 32

offer_bytes : Offer → List ℕ
offer_bytes o =
    be64 o.file_size ++ (be32 o.block_size ++ (be32 o.block_count ++ (be32 o.epoch ++ [])))

reply_offer-bytes : (h : Host) (o : Offer) → reply_offer h o ≡ offer_bytes o
unfolding reply_offer offer_bytes
reply_offer-bytes h o =
    rw
      (
        store64-htonll h o.file_size,
        store32-htonl h o.block_size,
        store32-htonl h o.block_count,
        store32-htonl h o.epoch,
      )
      refl

-- Whatever the byte orders of the two hosts: once the server has read the client's parameters and answered
-- for a file, the client opens the transfer, with the size of the file, all of whose blocks it has yet to
-- receive, and with as many blocks as the server counts, if the numbers fit their types and the block size is
-- not 0.
pub open_transfer_lem :
    (client server : Host) (w : Wish) (file_size epoch : ℕ)
    → Fits w
    → 0 < w.block_size
    → file_size < 2 ^ 64
    → block_count_of file_size w.block_size < 2 ^ 32
    → epoch < 2 ^ 32
    → let n = block_count_of file_size w.block_size in
      read_offer client w
        (write_offer server (offer (read_wish server (submit client w)) file_size epoch))
      ≡ some (record {
        file_size = file_size;
        block_count = n;
        epoch = epoch;
        blocks_left = n;
        on_wire_estimate = on_wire_of w n;
      })
unfolding read_offer offer_bytes
open_transfer_lem client server w file_size epoch f some_block size_fits count_fits epoch_fits =
    let n = block_count_of file_size w.block_size in
    let count : n % 2 ^ 32 ≡ n = omega arith in
    let no_zero : (w.block_size == 0) ≡ false = ground (arith, some_block) in
    let o : Offer = record {
      file_size = file_size;
      block_size = w.block_size;
      block_count = n;
      epoch = epoch;
    } in
    let tail = be32 n ++ (be32 epoch ++ []) in
    let agree : (htonl client (load32 client (be32 w.block_size ++ tail)) == w.block_size) ≡ true =
      ground (arith, ntohl-load32 client w.block_size tail f.block_size) in
    rw
      (
        read_wish-submit client server w f,
        no_zero,
        count,
        reply_offer-bytes server o,
        agree,
        ntohll-load64 client file_size (be32 w.block_size ++ tail) size_fits,
        ntohl-load32 client n (be32 epoch ++ []) count_fits,
        ntohl-load32 client epoch [] epoch_fits,
      )
      refl

pub accept_revision_iff :
    (here there : Host) (own peer : ℕ)
    → own < 2 ^ 32
    → peer < 2 ^ 32
    → (accept_revision here own (send_revision there peer) ≡ true) ↔ (own ≡ peer)
unfolding accept_revision
accept_revision_iff here there own peer own_fits peer_fits =
    let bytes : load32 here (send_revision there peer) ≡ htonl here peer =
      ap (load32 here) {y = be32 peer ++ []} (store32-htonl there peer)
      ∙ load32-be32 here peer [] peer_fits in
    (
      λ e. htonl-injective here own peer own_fits peer_fits (ground arith),
      λ e. let same = ap (htonl here) e in ground arith,
    )

-- Each side accepts the other exactly if their revisions are the same, whatever their byte orders.
negotiate_lem :
    (client server : Host) (client_revision server_revision : ℕ)
    → client_revision < 2 ^ 32
    → server_revision < 2 ^ 32
    → ((accept_revision client client_revision (send_revision server server_revision) ≡ true)
        ↔ (client_revision ≡ server_revision))
      × ((accept_revision server server_revision (send_revision client client_revision) ≡ true)
          ↔ (client_revision ≡ server_revision))
negotiate_lem client server c s c_fits s_fits =
    let back = accept_revision_iff server client s c s_fits c_fits in
    (
      accept_revision_iff client server c s c_fits s_fits,
      (λ e. sym (back.0 e), λ e. back.1 (sym e)),
    )
