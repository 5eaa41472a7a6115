-- ===== src/Blocks.antt =====
-- server/io.c and client/io.c: the blocks of a file, read and sent by the server, written by the
-- client. `fseeko`, `fread` and `fwrite` are the C library's, on a regular file.
pub mod Layout
pub mod Reading
pub mod Writing
pub mod Received
mod Tests
use tsunami_udp.Base.{
  ℕ, zero, suc, ◌+◌, ◌-◌, ◌*◌, ◌/◌, ◌%◌, ◌^◌, min, max, Bool, true, false, not, ◌&&◌, ◌==◌, ltb,
  leb, if◌then◌else◌, Option, none, some, List, [], ◌∷◌, ◌++◌, drop, get_or,
}
use tsunami_udp.Receive.{this_block}
use tsunami_udp.Ring.{Datagram}
use tsunami_udp.Wire.{Host, store16, store32, htons, htonl}

-- A file on disk: the byte at each position, and the size.
pub record File : Type 0 where
  pub at : ℕ → ℕ
  pub size : ℕ

-- `count` bytes of a file from `pos` on.
unfoldable pub bytes_from : (ℕ → ℕ) → (pos count : ℕ) → List ℕ
bytes_from at pos zero = []
bytes_from at pos (suc count) = at pos ∷ bytes_from at (pos + 1) count

-- `ttp_open_transfer`: the blocks of a file, the last one perhaps a part of a block.
abbrev pub block_count_of : (file_size block_size : ℕ) → ℕ
block_count_of file_size block_size =
    file_size / block_size + (if file_size % block_size == 0 then 0 else 1)

-- The file position of a block. `block_index - 1` is a 32-bit number, the product a 64-bit one.
abbrev pub offset_of : (block_size block_index : ℕ) → ℕ
offset_of block_size block_index = block_size * ((block_index + 2 ^ 32 - 1) % 2 ^ 32)

-- The server's open file, its position, and the static variable `last_block` of `build_datagram`.
pub record Reader : Type 0 where
  pub file : File
  pub pos : ℕ
  pub last_block : ℕ

-- `fseeko` with SEEK_SET.
abbrev pub seek : ℕ → Reader → Reader
seek offset r = record r { pos = offset }

-- How many bytes `fread` gets.
abbrev pub available : ℕ → Reader → ℕ
available wanted r = min wanted (r.file.size - r.pos)

-- What follows the test on `last_block`. A short read leaves the end of the buffer as it was.
unfoldable pub read_block :
    Host → (block_size block_index block_type : ℕ) → Datagram → Reader → Datagram × Reader
read_block h block_size block_index block_type datagram r =
    let count = available block_size r in
    (
      store32 h (htonl h block_index)
          ++ (store16 h (htons h block_type)
              ++ (bytes_from r.file.at r.pos count ++ drop (6 + count) datagram)),
      record r { pos = r.pos + count; last_block = block_index },
    )

unfoldable pub build_datagram :
    Host → (block_size block_index block_type : ℕ) → Datagram → Reader → Datagram × Reader
build_datagram h block_size block_index block_type datagram r =
    if block_index == (r.last_block + 1) % 2 ^ 32
    then read_block h block_size block_index block_type datagram r
    else read_block h block_size block_index block_type datagram
        (seek (offset_of block_size block_index) r)

-- "figure out how many bytes to write"
abbrev pub write_size : (block_count file_size block_size block_index : ℕ) → ℕ
write_size block_count file_size block_size block_index =
    if block_index == block_count
    then if file_size % block_size == 0 then block_size else file_size % block_size
    else block_size

-- `fwrite` of `count` bytes at a position: it overwrites, and extends the file, over a gap of zeros.
abbrev pub write_at : (offset count : ℕ) → List ℕ → File → File
write_at offset count bytes f = record {
  at = λ i. if leb offset i && ltb i (offset + count) then get_or bytes (i - offset) 0 else f.at i;
  size = max f.size (offset + count);
}

-- What the disk does with one block.
pub record Disk : Type 0 where
  pub seek_works : Bool
  pub write_works : Bool

unfoldable pub accept_block :
    (block_count file_size block_size : ℕ) → Disk → (block_index : ℕ) → List ℕ → File → Option File
accept_block block_count file_size block_size disk block_index block f =
    if not disk.seek_works
    then none
    else if not disk.write_works
    then none
    else some (
        write_at (offset_of block_size block_index)
          (write_size block_count file_size block_size block_index) block f)

-- `disk_thread` over the datagrams it takes from the ring, until it quits at a block 0 or a failure.
unfoldable pub save_all :
    Host → (block_count file_size block_size : ℕ) → Disk → List Datagram → File → Option File
save_all h n size block_size disk [] f = some f
save_all h n size block_size disk (d ∷ ds) f =
    if this_block h d == 0
    then some f
    else elim (accept_block n size block_size disk (this_block h d) (drop 6 d) f) [
      | none ↦ none
      | some f' ↦ save_all h n size block_size disk ds f'
    ]
