-- ===== src/Message/Tests.antt =====
-- include/tsunami.h: a request on the wire.
use tsunami_udp.Base.{◌≡◌, refl, [], ◌∷◌}
use tsunami_udp.Message.{Request, encode}
use tsunami_udp.Wire.{little, htonl, htons}

abbrev restart_request : Request
restart_request = record { request_type = 1; block = 0x010203; error_rate = 7500 }

restart_bytes :
    encode little restart_request ≡ 0 ∷ 1 ∷ 0 ∷ 0 ∷ 0 ∷ 1 ∷ 2 ∷ 3 ∷ 0 ∷ 0 ∷ 0x1d ∷ 0x4c ∷ []
unfolding encode htonl htons
restart_bytes = refl
