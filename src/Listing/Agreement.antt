-- ===== src/Listing/Agreement.antt =====
-- server/protocol.c and client/command.c: the client reads the lists that the server sends.
use tsunami_udp.Base.{
  ℕ, zero, suc, ◌-◌, ◌%◌, ◌^◌, ◌<◌, ◌≤◌, ◌≡◌, refl, ap, sym, ◌∙◌, arith, false, ◌==◌, none, some,
  List, [], ◌∷◌, ◌++◌, append_assoc, append-nil, take, drop, length, length-append,
  length-replicate, length-take, replicate, drop-append_right, take_long, All, all_none, all_more,
  Text, atol, to_unsigned,
}
use tsunami_udp.Listing.{
  digits_of, decimal, Shared, send_files, send_directory, read_files, listed, read_directory,
  ten_bytes, name_sizes, send_names, send_list, read_names, read_list,
}
use tsunami_udp.Listing.Decimal.{decimal-IsDigits, decimal-length, decimal-short, atol-decimal}
use tsunami_udp.Settings.Numbers.{IsDigits, Stops, stops_end, stops}
use tsunami_udp.Streams.{read_line}
use tsunami_udp.Streams.Lines.{IsInner, read_line_lem}

-- A shared file: its name has no newline and fits the client's buffer, its size is below 2 ^ 63.
pub record IsShared (f : Shared) : Type 0 where
  pub plain : All IsInner f.name
  pub short : length f.name < 2047
  pub small : f.size < 2 ^ 63

IsDigits-All : (ds : Text) → IsDigits ds → All IsInner ds
IsDigits-All [] all_none = all_none
IsDigits-All (d ∷ ds) (all_more e es) = all_more (ground arith) (IsDigits-All ds es)

read_decimal :
    (n left : ℕ) (rest : List ℕ)
    → 20 < left
    → read_line left (decimal n ++ 0 ∷ rest) ≡ some (decimal n, rest)
read_decimal n left rest room =
    read_line_lem (decimal n) rest left 0 (IsDigits-All (decimal n) (decimal-IsDigits n)) refl
      (omega (arith, (decimal-length n).1))

decimal-value : (n : ℕ) → n < 2 ^ 63 → to_unsigned 64 (atol (decimal n)) ≡ n
decimal-value n small =
    ap (λ t. to_unsigned 64 (atol t)) (sym (append-nil (decimal n)))
    ∙ atol-decimal 64 n [] (omega arith) (omega arith) stops_end

read_files-send_files :
    (files : List Shared) (rest : List ℕ)
    → All IsShared files
    → read_files (length files) (send_files files ++ rest) ≡ some (files, rest)
unfolding read_files send_files
read_files-send_files [] rest all_none = refl
read_files-send_files (f ∷ files) rest (all_more i all) =
    let tail = decimal f.size ++ 0 ∷ (send_files files ++ rest) in
    let inner : (decimal f.size ++ 0 ∷ send_files files) ++ rest ≡ tail =
      append_assoc (decimal f.size) (0 ∷ send_files files) rest in
    let stream : (f.name ++ 0 ∷ (decimal f.size ++ 0 ∷ send_files files)) ++ rest
        ≡ f.name ++ 0 ∷ tail =
      append_assoc f.name (0 ∷ (decimal f.size ++ 0 ∷ send_files files)) rest
      ∙ ap (λ t. f.name ++ 0 ∷ t) inner in
    ap (read_files (suc (length files))) stream
    ∙ (rw
        (
          read_line_lem f.name tail 2047 0 i.plain refl i.short,
          read_files,
          read_decimal f.size 2047 (send_files files ++ rest) (omega arith),
          read_files-send_files files rest all,
          decimal-value f.size i.small,
        )
        refl)

split :
    (s : Text)
    → IsDigits s
    → (0 < length s) × (length s ≤ 20)
    → (d : ℕ) × (ds : Text) × (s ≡ d ∷ ds) × IsDigits (d ∷ ds) × (length ds ≤ 19)
split [] all (some_digits, short) = absurd (omega arith)
split (d ∷ ds) all (some_digits, short) = (d, ds, refl, all, omega arith)

first_byte : (d : ℕ) (ds : Text) → IsDigits (d ∷ ds) → (d == 8) ≡ false
first_byte d ds (all_more e es) = ground arith

tail-IsInner : (d : ℕ) (ds : Text) → IsDigits (d ∷ ds) → All IsInner ds
tail-IsInner d ds (all_more e es) = IsDigits-All ds es

-- The digits of the count: the first is read alone.
first_digit :
    (n : ℕ) (rest : List ℕ)
    → (d : ℕ) × (ds : Text) × (decimal n ≡ d ∷ ds) × IsDigits (d ∷ ds) × (length ds ≤ 19)
first_digit n rest = split (decimal n) (decimal-IsDigits n) (decimal-length n)

-- The client reads the list of files that the server sends for `dir`: the same names and sizes, in the same order,
-- and the whole answer, if there are fewer than 2 ^ 16 files, each with a name that has no newline
-- and no byte 0 and has fewer than 2047 bytes, and with a size below 2 ^ 63.
pub read_directory-send_directory :
    (files : List Shared)
    → length files < 2 ^ 16
    → All IsShared files
    → read_directory (send_directory files) ≡ listed files []
unfolding read_directory send_directory
read_directory-send_directory files few all =
    let n = length files in
    let (d, ds, e, all_digits, short) = first_digit n [] in
    let not_eight : (d == 8) ≡ false = first_byte d ds all_digits in
    let line =
      read_line_lem ds (send_files files) 2046 0 (tail-IsInner d ds all_digits) refl
        (omega (arith, short)) in
    let count : to_unsigned 16 (atol (d ∷ ds)) ≡ n =
      ap (λ t. to_unsigned 16 (atol t)) (sym e ∙ sym (append-nil (decimal n)))
      ∙ atol-decimal 16 n [] (omega (arith, few)) few stops_end in
    let whole : read_files n (send_files files) ≡ some (files, []) =
      ap (read_files n) (sym (append-nil (send_files files)))
      ∙ read_files-send_files files [] all in
    ap (λ t. read_directory (t ++ 0 ∷ send_files files)) e ∙ rw (not_eight, line, count, whole) refl

read_names-send_names :
    (names : List Text) (rest : List ℕ)
    → All (λ name. All IsInner name × (length name < 1024)) names
    → read_names (length names) (send_names names ++ rest) ≡ some (names, rest)
unfolding read_names send_names
read_names-send_names [] rest all_none = refl
read_names-send_names (name ∷ names) rest (all_more (plain, short) all) =
    let tail = send_names names ++ rest in
    ap (read_names (suc (length names))) (append_assoc name (0 ∷ send_names names) rest)
    ∙ rw
        (
          read_line_lem name tail 1024 0 plain refl short,
          read_names,
          read_names-send_names names rest all,
        )
        refl

ten_bytes-length : (n : ℕ) → length (ten_bytes n) ≡ 10
ten_bytes-length n =
    let s = take 9 (decimal n) in
    omega (
      arith,
      length-append s (replicate (10 - length s) 0),
      length-replicate {A = ℕ} (10 - length s) 0,
      length-take 9 (decimal n),
    )

zeros-Stops : (k : ℕ) (rest : Text) → 0 < k → Stops (replicate k 0 ++ rest)
zeros-Stops zero rest pos = absurd (omega arith)
zeros-Stops (suc k) rest pos = stops refl

ten_bytes-value :
    (n : ℕ) (rest : Text) → n < 10 ^ 9 → to_unsigned 32 (atol (ten_bytes n ++ rest)) ≡ n
ten_bytes-value n rest small =
    let short = decimal-short n small in
    let zeros : List ℕ = replicate {A = ℕ} (10 - length (take 9 (decimal n))) 0 in
    let whole : take 9 (decimal n) ≡ decimal n = take_long 9 (decimal n) short in
    ap (λ t. to_unsigned 32 (atol t))
      (append_assoc (take 9 (decimal n)) zeros rest ∙ ap (λ t. t ++ (zeros ++ rest)) whole)
    ∙ atol-decimal 32 n (zeros ++ rest) (omega arith) (omega arith) (
        zeros-Stops (10 - length (take 9 (decimal n))) rest (omega (arith, short, ap length whole)))

names-read :
    (names : List Text)
    → 0 < length names
    → length names < 2 ^ 16
    → All (λ name. All IsInner name × (length name < 1024)) names
    → read_list (send_list names) ≡ some (names, [])
unfolding read_list send_list
names-read names some_names few all =
    let n = length names in
    let sizes = ten_bytes (name_sizes names % 2 ^ 16) in
    let counts = ten_bytes n in
    let ten = ten_bytes-length (name_sizes names % 2 ^ 16) in
    let second : drop 10 (sizes ++ (counts ++ send_names names)) ≡ counts ++ send_names names =
      drop-append_right 10 0 sizes (counts ++ send_names names) (omega (arith, ten)) in
    let third : drop 20 (sizes ++ (counts ++ send_names names)) ≡ send_names names =
      drop-append_right 20 10 sizes (counts ++ send_names names) (omega (arith, ten))
      ∙ drop-append_right 10 0 counts (send_names names) (omega (arith, ten_bytes-length n)) in
    let whole : read_names n (send_names names) ≡ some (names, []) =
      ap (read_names n) (sym (append-nil (send_names names)))
      ∙ read_names-send_names names [] all in
    let total : to_unsigned 32 (atol (drop 10 (sizes ++ (counts ++ send_names names)))) ≡ n =
      ap (λ t. to_unsigned 32 (atol t)) second
      ∙ ten_bytes-value n (send_names names) (omega (arith, few)) in
    let not_none : (n == 0) ≡ false = ground (arith, some_names) in
    rw (total, not_none, third) whole

-- The client reads the names that the server sends for `get *`, in their order, and nothing else, if there are some but fewer
-- than 2 ^ 16 of them, each with fewer than 1024 bytes and without a newline or a byte 0. If the server
-- shares no file, the client waits for a byte more than the server sends.
pub read_list-send_list :
    (names : List Text)
    → 0 < length names
    → length names < 2 ^ 16
    → All (λ name. All IsInner name × (length name < 1024)) names
    → (read_list (send_list names) ≡ some (names, [])) × (read_list (send_list []) ≡ none)
unfolding read_list send_list send_names name_sizes digits_of atol
read_list-send_list names some_names few all = (names-read names some_names few all, refl)
