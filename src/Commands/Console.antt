-- ===== src/Commands/Console.antt =====
-- client/main.c: commands from the arguments of the process.
use tsunami_udp.Base.{
  ◌≡◌, ◌≢◌, refl, arith, ◌<◌, Bool, true, false, length, ◌||◌, List, [], ◌∷◌, ◌++◌, take, All,
  all_none, all_more, Text, codes, same_word,
}
use tsunami_udp.Commands.{parse_command, terminated, is_alone, Assembled, line, exits, assemble}
use tsunami_udp.Commands.Words.{parse_command-terminated}

abbrev pub is_console : Text → Bool
is_console a =
    is_alone a
    || (same_word a (codes "connect") || (same_word a (codes "get") || same_word a (codes "set")))

-- `connect` and `get` need an argument, `set` two.
pub data Lacks (a : Text) (rest : List Text) : Type 0 where
  lacks_one :
      (same_word a (codes "connect") || same_word a (codes "get")) ≡ true → rest ≡ [] → Lacks a rest
  lacks_two : same_word a (codes "set") ≡ true → length rest < 2 → Lacks a rest

-- How the arguments make a command: its words are arguments that follow one another, and those before them are no
-- commands of the console; or no argument is one, and the buffer is as it was; or the first
-- argument that is one lacks the arguments that it needs.
pub data Finds (text : Text) (args : List Text) : Assembled → Type 0 where
  finds :
      {t : Text} {rest : List Text} (skipped : List Text)
      → All (λ a. is_console a ≡ false) skipped
      → args ≡ skipped ++ (parse_command t ++ rest)
      → parse_command t ≢ []
      → Finds text args (line t rest)
  finds_none : All (λ a. is_console a ≡ false) args → Finds text args (line text [])
  misses :
      (skipped : List Text) {a : Text} {rest : List Text}
      → All (λ a. is_console a ≡ false) skipped
      → args ≡ skipped ++ a ∷ rest
      → Lacks a rest
      → Finds text args exits

-- After a line was parsed, arguments that are no commands make a command again: the first word of the line that
-- was parsed before, without its other words.
pub unsupported_repeats :
    (b : Text) (args : List Text)
    → All (λ a. is_console a ≡ false) args
    → (t : Text) × (assemble (terminated b) args ≡ line t [])
      × (parse_command t ≡ take 1 (parse_command b))
unfolding assemble
unsupported_repeats b [] all_none = (terminated b, refl, parse_command-terminated b)
unsupported_repeats b (a ∷ args) (all_more n ns) =
    let not_alone : is_alone a ≡ false = ground arith in
    let not_connect : same_word a (codes "connect") ≡ false = ground arith in
    let not_get : same_word a (codes "get") ≡ false = ground arith in
    let not_set : same_word a (codes "set") ≡ false = ground arith in
    rw (not_alone, not_connect, not_get, not_set) (unsupported_repeats b args ns)
