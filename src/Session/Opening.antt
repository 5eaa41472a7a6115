-- ===== src/Session/Opening.antt =====
-- client/protocol.c and server/protocol.c: `ttp_open_transfer` on both sides, from the name of the file on, in a build
-- without VSIB. What files there are, and which can be written, is an argument.
use tsunami_udp.Base.{
  ℕ, ◌^◌, ◌<◌, Bool, ◌==◌, ltb, ◌&&◌, if◌then◌else◌, Option, none, some, List, [], ◌∷◌, ◌++◌,
  length, Text, codes, same_text,
}
use tsunami_udp.Blocks.{block_count_of}
use tsunami_udp.Session.{
  Wish, submit, read_wish, offer, write_offer, on_wire_of, read_offer, Opened,
}
use tsunami_udp.Streams.{read_line}
use tsunami_udp.Wire.{Host}

abbrev pub max_filename_length : ℕ
max_filename_length = 1024

-- What the server makes of the first line: an exit of the process, one of the two requests for lists, a file that
-- cannot be opened, or a file with its size.
pub data FileRequest : Type 0 where
  unreadable : FileRequest
  directory : FileRequest
  all_files : FileRequest
  missing : FileRequest
  found : (file_size : ℕ) → (stream : List ℕ) → FileRequest

abbrev pub found_or : (stream : List ℕ) → Option ℕ → FileRequest
found_or stream none = missing
found_or stream (some file_size) = found file_size stream

abbrev pub named : (size_of : Text → Option ℕ) → Option (Text × List ℕ) → FileRequest
named size_of none = unreadable
named size_of (some (filename, stream)) =
    if same_text filename (codes "!#DIR??")
    then directory
    else if same_text filename (codes "*")
    then all_files
    else found_or stream (size_of filename)

-- All that the server writes for a file.
unfoldable pub answer_file : Host → (epoch : ℕ) → FileRequest → List ℕ
answer_file h epoch (found file_size stream) =
    0 ∷ write_offer h (offer (read_wish h stream) file_size epoch)
answer_file h epoch missing = 8 ∷ []
answer_file h epoch unreadable = []
answer_file h epoch directory = []
answer_file h epoch all_files = []

unfoldable pub open_server : Host → (Text → Option ℕ) → (epoch : ℕ) → (stream : List ℕ) → List ℕ
open_server h size_of epoch stream =
    answer_file h epoch (named size_of (read_line max_filename_length stream))

-- `rindex(name, '/')`, from the byte behind the slash on.
unfoldable pub behind_last_slash : Text → Option Text
behind_last_slash [] = none
behind_last_slash (c ∷ name) =
    let rest = behind_last_slash name in
    elim rest [ some trimmed ↦ some trimmed | none ↦ if c == b'/' then some name else none ]

-- `strlen(trimmed) > 1`, with the slash.
abbrev pub local_directory : (can_write : Text → Bool) → Option Text → Option Text
local_directory can_write none = none
local_directory can_write (some trimmed) =
    if ltb 0 (length trimmed) && can_write trimmed then some trimmed else none

-- "try to open the local file for writing": the name under which it is open.
unfoldable pub open_local : (can_write : Text → Bool) → (local_filename : Text) → Option Text
open_local can_write name =
    if can_write name then some name else local_directory can_write (behind_last_slash name)

-- The transfer, and the name of the local file.
abbrev pub with_local : Option Text → Option Opened → Option (Opened × Text)
with_local local none = none
with_local none (some opened) = none
with_local (some name) (some opened) = some (opened, name)

-- What the client makes of the server's bytes. It sends its parameters only after a result of 0.
unfoldable pub open_client :
    Host
    → Wish
    → (can_write : Text → Bool) → (local_filename : Text) → List ℕ
    → Option (Opened × Text)
open_client h w can_write name [] = none
open_client h w can_write name (result ∷ bytes) =
    if result == 0 then with_local (open_local can_write name) (read_offer h w bytes) else none

abbrev pub request_of : Host → Wish → (remote_filename : Text) → List ℕ
request_of h w remote_filename = remote_filename ++ b'\n' ∷ submit h w

abbrev pub opened_of : Wish → (epoch file_size : ℕ) → Opened
opened_of w epoch file_size =
    let n = block_count_of file_size w.block_size in
    record {
      file_size = file_size;
      block_count = n;
      epoch = epoch;
      blocks_left = n;
      on_wire_estimate = on_wire_of w n;
    }

abbrev pub opened_or : Wish → (epoch : ℕ) → Option ℕ → Option Opened
opened_or w epoch none = none
opened_or w epoch (some file_size) = some (opened_of w epoch file_size)

pub record Small (w : Wish) (file_size : ℕ) : Type 0 where
  pub size : file_size < 2 ^ 64
  pub count : block_count_of file_size w.block_size < 2 ^ 32
