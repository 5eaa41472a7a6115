-- ===== src/Bitmap/Tests.antt =====
-- client/command.c: a small bitfield, and the theorems at it.
use tsunami_udp.Base.{◌≡◌, refl, [], ◌∷◌}
use tsunami_udp.Bitmap.{new_bitmap, mark_received}

marked : mark_received (new_bitmap 10) 9 ≡ 0 ∷ 2 ∷ 0 ∷ []
unfolding mark_received new_bitmap
marked = refl
