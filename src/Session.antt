-- ===== src/Session.antt =====
-- client/protocol.c and server/protocol.c: what `ttp_negotiate` and `ttp_open_transfer` exchange over
-- the control connection. Each `fread` or `full_read` gets all the bytes that it asks for.
pub mod Agreement
pub mod Opening
mod Tests
use tsunami_udp.Base.{
  ℕ, ◌+◌, ◌*◌, ◌/◌, ◌%◌, ◌^◌, min, Bool, ◌==◌, not, if◌then◌else◌, Option, none, some, List, [],
  ◌++◌, drop,
}
use tsunami_udp.Blocks.{block_count_of}
use tsunami_udp.Wire.{
  Host, store16, store32, store64, load16, load32, load64, htons, htonl, htonll, ntohs, ntohl,
  ntohll,
}

abbrev pub protocol_revision : ℕ
protocol_revision = 0x20061025

-- `ttp_negotiate`, on either side: the revision that it sends, and whether it accepts the peer's.
abbrev pub send_revision : Host → ℕ → List ℕ
send_revision h revision = store32 h (htonl h revision)

unfoldable pub accept_revision : Host → (revision : ℕ) → List ℕ → Bool
accept_revision h revision bytes = htonl h revision == load32 h bytes

-- The parameters that the client submits.
pub record Wish : Type 0 where
  pub block_size : ℕ
  pub target_rate : ℕ
  pub error_rate : ℕ
  pub slower_num : ℕ
  pub slower_den : ℕ
  pub faster_num : ℕ
  pub faster_den : ℕ

unfoldable pub submit : Host → Wish → List ℕ
submit h w =
    store32 h (htonl h w.block_size)
    ++ (store32 h (htonl h w.target_rate)
        ++ (store32 h (htonl h w.error_rate)
            ++ (store16 h (htons h w.slower_num)
                ++ (store16 h (htons h w.slower_den)
                    ++ (store16 h (htons h w.faster_num) ++ store16 h (htons h w.faster_den))))))

-- The server's reading of them.
unfoldable pub read_wish : Host → List ℕ → Wish
read_wish h bytes = record {
  block_size = ntohl h (load32 h bytes);
  target_rate = ntohl h (load32 h (drop 4 bytes));
  error_rate = ntohl h (load32 h (drop 8 bytes));
  slower_num = ntohs h (load16 h (drop 12 bytes));
  slower_den = ntohs h (load16 h (drop 14 bytes));
  faster_num = ntohs h (load16 h (drop 16 bytes));
  faster_den = ntohs h (load16 h (drop 18 bytes));
}

-- What the server answers for a file, with the number of blocks in 32 bits.
pub record Offer : Type 0 where
  pub file_size : ℕ
  pub block_size : ℕ
  pub block_count : ℕ
  pub epoch : ℕ

-- None where the code divides by a block size of 0, which ends the process.
abbrev pub offer : Wish → (file_size epoch : ℕ) → Option Offer
offer w file_size epoch =
    if w.block_size == 0
    then none
    else some (record {
      file_size = file_size;
      block_size = w.block_size;
      block_count = block_count_of file_size w.block_size % 2 ^ 32;
      epoch = epoch;
    })

unfoldable pub reply_offer : Host → Offer → List ℕ
reply_offer h o =
    store64 h (htonll h o.file_size)
    ++ (store32 h (htonl h o.block_size)
        ++ (store32 h (htonl h o.block_count) ++ store32 h (htonl h o.epoch)))

abbrev pub write_offer : Host → Option Offer → List ℕ
write_offer h none = []
write_offer h (some o) = reply_offer h o

-- `ipd_time`. None where the code divides by a target rate of 0, which ends the process.
abbrev pub ipd_time : Wish → Option ℕ
ipd_time w =
    if w.target_rate == 0 then none else some (1000000 * 8 * w.block_size / w.target_rate % 2 ^ 32)

-- The client's transfer once the offer is read.
pub record Opened : Type 0 where
  pub file_size : ℕ
  pub block_count : ℕ
  pub epoch : ℕ
  pub blocks_left : ℕ
  pub on_wire_estimate : ℕ

-- `0.5 * target_rate / (8 * block_size)`, cut to a whole number and to the number of blocks; the
-- denominator is a 32-bit number.
abbrev pub on_wire_of : Wish → (block_count : ℕ) → ℕ
on_wire_of w block_count = min block_count (w.target_rate / (2 * (8 * w.block_size % 2 ^ 32)))

-- "Block size disagreement" is an error.
unfoldable pub read_offer : Host → Wish → List ℕ → Option Opened
read_offer h w bytes =
    let block_count = ntohl h (load32 h (drop 12 bytes)) in
    if htonl h (load32 h (drop 8 bytes)) == w.block_size
    then some (record {
      file_size = ntohll h (load64 h bytes);
      block_count = block_count;
      epoch = ntohl h (load32 h (drop 16 bytes));
      blocks_left = block_count;
      on_wire_estimate = on_wire_of w block_count;
    })
    else none
