-- ===== src/Listing.antt =====
-- server/protocol.c and client/command.c: the lists of shared files, for `dir` and for `get *`. The functions of the
-- client give none where they wait for bytes that the stream does not have.
pub mod Decimal
pub mod Agreement
mod Tests
use tsunami_udp.Base.{
  ℕ, zero, suc, ◌+◌, ◌-◌, ◌/◌, ◌%◌, ◌^◌, ◌==◌, ltb, if◌then◌else◌, Option, none, some, List, [],
  ◌∷◌, ◌++◌, take, drop, length, replicate, Text, atol, to_unsigned,
}
use tsunami_udp.Streams.{read_line}

-- `snprintf` with `%u` or `%Lu`: the digits of a number below 10 ^ (left + 1).
unfoldable pub digits_of : (left : ℕ) → ℕ → Text
digits_of zero n = (b'0' + n % 10) ∷ []
digits_of (suc left) n =
    let before = digits_of left (n / 10) in
    if ltb n 10 then (b'0' + n) ∷ [] else before ++ (b'0' + n % 10) ∷ []

abbrev pub decimal : ℕ → Text
decimal n = digits_of 19 n

-- A file that the server shares.
pub record Shared : Type 0 where
  pub name : Text
  pub size : ℕ

-- "The client requested listing of files and their sizes (dir command)". `message` has room for 19 digits: sizes with
-- more are left out.
unfoldable pub send_files : List Shared → List ℕ
send_files [] = []
send_files (f ∷ files) = f.name ++ 0 ∷ (decimal f.size ++ 0 ∷ send_files files)

unfoldable pub send_directory : List Shared → List ℕ
send_directory files = decimal (length files) ++ 0 ∷ send_files files

-- The loop of `command_dir`, which prints the name and the size of each file.
unfoldable pub read_files : (num_files : ℕ) → List ℕ → Option (List Shared × List ℕ)
read_files zero stream = some ([], stream)
read_files (suc left) stream = elim (read_line 2047 stream) [
  | none ↦ none
  | some (name, stream') ↦ elim (read_line 2047 stream') [
    | none ↦ none
    | some (size, rest) ↦ elim (read_files left rest) [
      | none ↦ none
      | some (files, end) ↦
          some (record { name = name; size = to_unsigned 64 (atol size) } ∷ files, end)
    ]
  ]
]

-- What `command_dir` makes of the server's answer: no connection, no support, or a list.
pub data Directory : Type 0 where
  no_response : Directory
  no_support : Directory
  listed : (files : List Shared) → (rest : List ℕ) → Directory

abbrev pub listed_or : Option (List Shared × List ℕ) → Directory
listed_or none = no_response
listed_or (some (files, rest)) = listed files rest

-- `num_files` has 16 bits.
abbrev pub read_count : ℕ → Option (List ℕ × List ℕ) → Directory
read_count result none = no_response
read_count result (some (line, rest)) =
    listed_or (read_files (to_unsigned 16 (atol (result ∷ line))) rest)

unfoldable pub read_directory : List ℕ → Directory
read_directory [] = no_response
read_directory (result ∷ stream) =
    if result == 8 then no_support else read_count result (read_line 2046 stream)

-- An array of ten bytes with a number in it, as it is written whole.
abbrev pub ten_bytes : ℕ → List ℕ
ten_bytes n = let s = take 9 (decimal n) in s ++ replicate (10 - length s) 0

-- `file_name_size` of `process_options`, before it is cut to 16 bits.
unfoldable pub name_sizes : List Text → ℕ
name_sizes [] = 0
name_sizes (name ∷ names) = length name + 1 + name_sizes names

unfoldable pub send_names : List Text → List ℕ
send_names [] = []
send_names (name ∷ names) = name ++ 0 ∷ send_names names

-- "A multiple file request - sent the file names first": all that the server writes.
unfoldable pub send_list : List Text → List ℕ
send_list names =
    ten_bytes (name_sizes names % 2 ^ 16) ++ (ten_bytes (length names) ++ send_names names)

-- "Read the file list"
unfoldable pub read_names : (left : ℕ) → List ℕ → Option (List Text × List ℕ)
read_names zero stream = some ([], stream)
read_names (suc left) stream = elim (read_line 1024 stream) [
  | none ↦ none
  | some (name, rest) ↦ elim (read_names left rest) [
    | none ↦ none
    | some (names, end) ↦ some (name ∷ names, end)
  ]
]

-- `f_total <= 0`: "get the \\x008 failure signal", one byte.
abbrev pub read_failure : List ℕ → Option (List Text × List ℕ)
read_failure [] = none
read_failure (dummy ∷ rest) = some ([], rest)

-- `file_count` is read by `sscanf` as `atol` would.
unfoldable pub read_list : List ℕ → Option (List Text × List ℕ)
read_list stream =
    let f_total = to_unsigned 32 (atol (drop 10 stream)) in
    if f_total == 0 then read_failure (drop 20 stream) else read_names f_total (drop 20 stream)
