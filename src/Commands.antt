-- ===== src/Commands.antt =====
-- client/main.c: the commands of the client, from the arguments of the process or from a line of text.
pub mod Words
pub mod Console
mod Tests
use tsunami_udp.Base.{
  ℕ, zero, suc, Bool, true, false, not, ◌||◌, List, [], ◌∷◌, ◌++◌, if◌then◌else◌, Text, codes,
  is_space, same_word, skip_spaces,
}

abbrev pub max_command_words : ℕ
max_command_words = 10

-- The part of the buffer up to the next whitespace, and the part from there on.
unfoldable pub word_of : Text → Text
word_of [] = []
word_of (c ∷ buffer) = let rest = word_of buffer in if is_space c then [] else c ∷ rest

unfoldable pub after_word : Text → Text
after_word [] = []
after_word (c ∷ buffer) = let rest = after_word buffer in if is_space c then c ∷ buffer else rest

-- The loop "while we have command text left and not too many words", with `left` words that fit.
unfoldable pub parse_words : (left : ℕ) → Text → List Text
parse_words zero buffer = []
parse_words (suc left) [] = []
parse_words (suc left) (c ∷ buffer) =
    word_of (c ∷ buffer) ∷ parse_words left (skip_spaces (after_word (c ∷ buffer)))

-- The words that `command` points to.
unfoldable pub parse_command : Text → List Text
parse_command buffer = parse_words max_command_words (skip_spaces buffer)

-- `parse_command` writes terminators into the buffer: as a string it ends behind the first word.
unfoldable pub terminated : Text → Text
terminated [] = []
terminated (c ∷ buffer) =
    let rest = terminated buffer in if is_space c then c ∷ rest else word_of (c ∷ buffer)

-- "dispatch on the command type"
pub data Command : Type 0 where
  close connect get dir help quit set unrecognized : Command

unfoldable pub dispatch : Text → Command
dispatch w =
    if same_word w (codes "close")
    then close
    else if same_word w (codes "connect")
    then connect
    else if same_word w (codes "get")
    then get
    else if same_word w (codes "dir")
    then dir
    else if same_word w (codes "help")
    then help
    else if same_word w (codes "quit")
    then quit
    else if same_word w (codes "exit")
    then quit
    else if same_word w (codes "bye")
    then quit
    else if same_word w (codes "set")
    then set
    else unrecognized

-- "zero argument commands"
unfoldable pub is_alone : Text → Bool
is_alone a =
    same_word a (codes "close")
    || (same_word a (codes "quit")
        || (same_word a (codes "exit")
            || (same_word a (codes "bye")
                || (same_word a (codes "help") || same_word a (codes "dir")))))

-- What the arguments give: the text of a command with the arguments that are left, or exit of the process.
pub data Assembled : Type 0 where
  line : (command_text : Text) → (args : List Text) → Assembled
  exits : Assembled

abbrev pub space : Text
space = 32 ∷ []

-- `connect` and `get`
unfoldable pub with_one : Text → List Text → Assembled
with_one a [] = exits
with_one a (b ∷ args) = line (a ++ (space ++ b)) args

-- `set`
unfoldable pub with_two : Text → List Text → Assembled
with_two a [] = exits
with_two a (b ∷ []) = exits
with_two a (b ∷ c ∷ args) = line (a ++ (space ++ (b ++ (space ++ c)))) args

-- "assemble next command from command line arguments", where `command_text` is what stands in the buffer.
-- Texts that the buffer has no room for are left out.
unfoldable pub assemble : (command_text : Text) → List Text → Assembled
assemble text [] = line text []
assemble text (a ∷ args) =
    let rest = assemble text args in
    if is_alone a
    then line a args
    else if same_word a (codes "connect")
    then with_one a args
    else if same_word a (codes "get")
    then with_one a args
    else if same_word a (codes "set")
    then with_two a args
    else rest
