-- ===== src/Wire/Tests.antt =====
-- common/common.c: byte order at concrete numbers.
use tsunami_udp.Base.{◌≡◌, refl, [], ◌∷◌}
use tsunami_udp.Wire.{little, store64, htonl, htonll, htons}

htonll_bytes :
    store64 little (htonll little 0x0102030405060708) ≡ 1 ∷ 2 ∷ 3 ∷ 4 ∷ 5 ∷ 6 ∷ 7 ∷ 8 ∷ []
unfolding htonll htonl htons
htonll_bytes = refl
