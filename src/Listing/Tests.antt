-- ===== src/Listing/Tests.antt =====
-- server/protocol.c and client/command.c: lists of two files.
use tsunami_udp.Base.{
  ◌≡◌, refl, arith, none, some, List, [], ◌∷◌, ◌++◌, All, all_none, all_more, codes,
}
use tsunami_udp.Listing.{
  digits_of, Shared, send_files, send_directory, read_directory, listed, send_list, read_list,
  name_sizes, send_names,
}
use tsunami_udp.Listing.Agreement.{IsShared, read_directory-send_directory, read_list-send_list}
use tsunami_udp.Streams.Lines.{IsInner}

a-Inner : All IsInner (codes "a")
a-Inner = all_more refl all_none

b-Inner : All IsInner (codes "b.c")
b-Inner = all_more refl (all_more refl (all_more refl all_none))

abbrev files : List Shared
files = record { name = codes "a"; size = 1200 } ∷ record { name = codes "b.c"; size = 0 } ∷ []

files-IsShared : All IsShared files
files-IsShared =
    all_more (record { plain = a-Inner; short = omega arith; small = omega arith })
      (all_more (record { plain = b-Inner; short = omega arith; small = omega arith }) all_none)

sent :
    send_directory files
    ≡ codes "2"
      ++ 0 ∷ (codes "a" ++ 0 ∷ (codes "1200" ++ 0 ∷ (codes "b.c" ++ 0 ∷ (codes "0" ++ 0 ∷ []))))
unfolding send_directory send_files digits_of
sent = refl

read_directory-send_directory_example : read_directory (send_directory files) ≡ listed files []
read_directory-send_directory_example =
    read_directory-send_directory files (omega arith) files-IsShared

sent_list :
    send_list (codes "a" ∷ codes "b.c" ∷ [])
    ≡ codes "6"
      ++ 0
        ∷ 0
        ∷ 0
        ∷ 0
        ∷ 0
        ∷ 0
        ∷ 0
        ∷ 0
        ∷ 0
        ∷ (codes "2"
            ++ 0 ∷ 0 ∷ 0 ∷ 0 ∷ 0 ∷ 0 ∷ 0 ∷ 0 ∷ 0 ∷ (codes "a" ++ 0 ∷ (codes "b.c" ++ 0 ∷ [])))
unfolding send_list send_names name_sizes digits_of
sent_list = refl

read_list-send_list_example :
    (read_list (send_list (codes "a" ∷ codes "b.c" ∷ [])) ≡ some (codes "a" ∷ codes "b.c" ∷ [], []))
    × (read_list (send_list []) ≡ none)
read_list-send_list_example =
    read_list-send_list (codes "a" ∷ codes "b.c" ∷ []) (omega arith) (omega arith)
      (all_more (a-Inner, omega arith) (all_more (b-Inner, omega arith) all_none))
