-- ===== src/Streams.antt =====
-- common/common.c: reading and writing whole buffers and lines on a descriptor, the time elapsed, and
-- the proof of a shared secret. What the system calls answer, one after another, is an argument.
pub mod Whole
pub mod Lines
pub mod Proof
pub mod Hosts
mod Tests
use tsunami_udp.Base.{
  ℕ, zero, suc, ◌+◌, ◌-◌, ◌*◌, ◌%◌, ◌^◌, bit_xor, Bool, true, false, not, ◌&&◌, ◌||◌, ◌==◌, ltb,
  if◌then◌else◌, Option, none, some, List, [], ◌∷◌, ◌++◌, length, get_or,
}

-- One answer of `write`: how many bytes it took, or a failure.
pub data Write : Type 0 where
  wrote : ℕ → Write
  write_failed : Write

-- The result is the number returned, or `none` while the call has not returned: the answers ran out.
unfoldable pub full_write_from : List Write → (count written : ℕ) → Option ℕ
full_write_from [] count written = if ltb written count then none else some written
full_write_from (write_failed ∷ more) count written = some written
full_write_from (wrote n ∷ more) count written =
    let rest = full_write_from more count (written + n) in
    if ltb written count then rest else some written

abbrev pub full_write : List Write → ℕ → Option ℕ
full_write answers count = full_write_from answers count 0

-- One answer of `read`: the bytes, none at the end of the stream, or a failure.
pub data Read : Type 0 where
  gave : List ℕ → Read
  read_failed : Read

-- With the bytes that stand in the buffer.
unfoldable pub full_read_from : List Read → (count : ℕ) → List ℕ → Option (List ℕ)
full_read_from [] count buffer = if ltb (length buffer) count then none else some buffer
full_read_from (read_failed ∷ more) count buffer = some buffer
full_read_from (gave new ∷ more) count buffer =
    let rest = full_read_from more count (buffer ++ new) in
    if ltb (length buffer) count then rest else some buffer

abbrev pub full_read : List Read → ℕ → Option (List ℕ)
full_read answers count = full_read_from answers count []

-- `read_line` and `fread_line`: the string read and what is left of the stream, or an error at its end.
-- The last byte read is replaced by the terminating 0, whether it ends the line or not. `line` holds
-- the bytes before the one that is read next, `left` how many more fit in the buffer after it.
unfoldable pub read_line_from : List ℕ → (left : ℕ) → List ℕ → Option (List ℕ × List ℕ)
read_line_from line left [] = none
read_line_from line zero (c ∷ stream) = some (line, stream)
read_line_from line (suc left) (c ∷ stream) =
    let rest = read_line_from (line ++ c ∷ []) left stream in
    if c == 0 || c == b'\n' then some (line, stream) else rest

-- At least one byte is read, also into a buffer of length 0.
abbrev pub read_line : (buffer_length : ℕ) → List ℕ → Option (List ℕ × List ℕ)
read_line buffer_length stream = read_line_from [] (buffer_length - 1) stream

-- The loop of `get_usec_since` over the seconds, with `sec` to go, in 64 bits.
unfoldable pub add_seconds : (sec result : ℕ) → ℕ
add_seconds zero result = result
add_seconds (suc sec) result = add_seconds sec ((result + 1000000) % 2 ^ 64)

-- The times as seconds and microseconds; the difference of the latter is signed and wraps.
unfoldable pub get_usec_since : (now_sec now_usec old_sec old_usec : ℕ) → ℕ
get_usec_since now_sec now_usec old_sec old_usec =
    (add_seconds (now_sec - old_sec) 0 + (now_usec + 2 ^ 64 - old_usec)) % 2 ^ 64

-- "prepare the buffer for the digest": from position `offset` of the buffer on. The secret is not empty:
-- the code divides by its length.
unfoldable pub mask_from : (secret : List ℕ) → (offset : ℕ) → List ℕ → List ℕ
mask_from secret offset [] = []
mask_from secret offset (x ∷ buffer) =
    bit_xor x (get_or secret (offset % length secret) 0) ∷ mask_from secret (offset + 1) buffer

-- The digest is an argument.
abbrev pub prepare_proof : (List ℕ → List ℕ) → (secret buffer : List ℕ) → List ℕ
prepare_proof md5_digest secret buffer = md5_digest (mask_from secret 0 buffer)

-- `ttp_authenticate` of the client: its answer to the challenge.
abbrev pub authentication_response : (List ℕ → List ℕ) → (secret random : List ℕ) → List ℕ
authentication_response md5_digest secret random = prepare_proof md5_digest secret random

-- Two digests compared byte by byte.
unfoldable pub same_bytes : (count : ℕ) → (i : ℕ) → List ℕ → List ℕ → Bool
same_bytes zero i client_digest server_digest = true
same_bytes (suc count) i client_digest server_digest =
    get_or client_digest i 0 == get_or server_digest i 0
    && same_bytes count (i + 1) client_digest server_digest

-- `ttp_authenticate` of the server: the result byte that it sends.
unfoldable pub authentication_result :
    (List ℕ → List ℕ) → (secret random client_digest : List ℕ) → ℕ
authentication_result md5_digest secret random client_digest =
    if same_bytes 16 0 client_digest (prepare_proof md5_digest secret random) then 0 else 1
