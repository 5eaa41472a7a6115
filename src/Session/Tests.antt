-- ===== src/Session/Tests.antt =====
-- client/protocol.c and server/protocol.c: a file of 70000 bytes is opened.
use tsunami_udp.Base.{ℕ, ◌≡◌, refl, Bool, Option, none, some, if◌then◌else◌, Text, codes, same_text}
use tsunami_udp.Session.{Wish}
use tsunami_udp.Session.Opening.{open_local, behind_last_slash}

abbrev wish : Wish
wish = record {
  block_size = 32768;
  target_rate = 650000000;
  error_rate = 7500;
  slower_num = 25;
  slower_den = 24;
  faster_num = 5;
  faster_den = 6;
}

abbrev name : Text
name = codes "a"

-- There is one file, and one file can be written.
abbrev size_of : Text → Option ℕ
size_of filename = if same_text filename name then some 70000 else none

abbrev can_write : Text → Bool
can_write filename = same_text filename name

trimmed_name : open_local can_write (codes "d/a") ≡ some (codes "a")
unfolding open_local behind_last_slash
trimmed_name = refl

not_there : open_local can_write (codes "d/b") ≡ none
unfolding open_local behind_last_slash
not_there = refl
