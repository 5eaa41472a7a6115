-- ===== src/Commands/Tests.antt =====
-- client/main.c: commands from arguments and from lines.
use tsunami_udp.Base.{◌≡◌, refl, false, List, [], ◌∷◌, take, All, all_none, all_more, Text, codes}
use tsunami_udp.Commands.{
  max_command_words, parse_command, terminated, dispatch, get, is_alone, line, assemble, with_one,
}
use tsunami_udp.Commands.Console.{is_console, unsupported_repeats}
use tsunami_udp.Commands.Words.{
  IsWord, is_word, Spells, spells_last, spells_more, parse_command_lem,
}

get-IsWord : IsWord (codes "get")
get-IsWord = is_word refl (all_more refl (all_more refl all_none))

name-IsWord : IsWord (codes "a.b")
name-IsWord = is_word refl (all_more refl (all_more refl all_none))

line-Spells : Spells (codes "  get a.b") (codes "get" ∷ codes "a.b" ∷ [])
line-Spells =
    spells_more {s = codes "  "} (all_more refl (all_more refl all_none)) get-IsWord refl
      (spells_last {s = codes " "} (all_more refl all_none) name-IsWord)

parse_command_lem_example :
    parse_command (codes "  get a.b") ≡ take max_command_words (codes "get" ∷ codes "a.b" ∷ [])
parse_command_lem_example =
    parse_command_lem (codes "  get a.b") (codes "get" ∷ codes "a.b" ∷ []) line-Spells

abbrev arguments : List Text
arguments = codes "a.b" ∷ codes "get" ∷ codes "a.b" ∷ codes "get" ∷ []

assembled : assemble [] arguments ≡ line (codes "get a.b") (codes "get" ∷ [])
unfolding assemble is_alone with_one
assembled = refl

is_get : dispatch (codes "GET") ≡ get
unfolding dispatch
is_get = refl

name_no_command : All (λ a. is_console a ≡ false) (codes "a.b" ∷ [])
unfolding is_alone
name_no_command = all_more refl all_none

unsupported_repeats_example :
    (t : Text) × (assemble (terminated (codes "get a.b")) (codes "a.b" ∷ []) ≡ line t [])
    × (parse_command t ≡ take 1 (parse_command (codes "get a.b")))
unsupported_repeats_example =
    unsupported_repeats (codes "get a.b") (codes "a.b" ∷ []) name_no_command
