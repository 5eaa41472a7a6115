-- ===== src/Link/Connection.antt =====
-- include/tsunami.h: the requests on the control connection, one after the other.
use tsunami_udp.Base.{
  ℕ, ◌≡◌, refl, ap, sym, ◌∙◌, arith, List, [], ◌∷◌, ◌++◌, append_assoc, length, length-append, take,
  drop, All, all_none, all_more, take_exact,
}
use tsunami_udp.Link.{wire}
use tsunami_udp.Message.{Request, encode, request_size}
use tsunami_udp.Message.Laws.{decode-encode}
use tsunami_udp.Receive.Asking.{IsProper}
use tsunami_udp.Wire.{Host}

pub wire-append : (h : Host) (xs ys : List Request) → wire h (xs ++ ys) ≡ wire h xs ++ wire h ys
unfolding wire
wire-append h [] ys = refl
wire-append h (x ∷ xs) ys =
    ap (λ l. encode h x ++ l) (wire-append h xs ys)
    ∙ sym (append_assoc (encode h x) (wire h xs) (wire h ys))

drop-append : (xs ys : List ℕ) → drop (length xs) (xs ++ ys) ≡ ys
drop-append [] ys = refl
drop-append (x ∷ xs) ys = drop-append xs ys

pub append-cancel : (xs ys zs : List ℕ) → xs ++ ys ≡ xs ++ zs → ys ≡ zs
append-cancel xs ys zs e = sym (drop-append xs ys) ∙ ap (drop (length xs)) e ∙ drop-append xs zs

-- Two lists start with parts of the same length.
append-same :
    (m : ℕ) (xs ys zs ws : List ℕ) → length xs ≡ m → length ys ≡ m → xs ++ zs ≡ ys ++ ws → xs ≡ ys
append-same m xs ys zs ws a b e =
    sym (take_exact m xs zs (sym a)) ∙ ap (take m) e ∙ take_exact m ys ws (sym b)

-- The first request of those that the server has not read.
pub record FirstOf (n : ℕ) (h : Host) (bytes : List ℕ) (qs : List Request) : Type 0 where
  pub request : Request
  pub others : List Request
  pub whole : qs ≡ request ∷ others
  pub bytes_of_it : bytes ≡ encode h request
  pub proper : IsProper n request
  pub others_proper : All (IsProper n) others

pub first-FirstOf :
    (n : ℕ) (h : Host) (bytes rest : List ℕ) (qs : List Request)
    → All (IsProper n) qs
    → length bytes ≡ request_size
    → bytes ++ rest ≡ wire h qs
    → FirstOf n h bytes qs
unfolding wire
first-FirstOf n h bytes rest [] all_none size e =
    absurd (omega (arith, ap length e, length-append bytes rest))
first-FirstOf n h bytes rest (q ∷ qs) (all_more p ps) size e = record {
  request = q;
  others = qs;
  whole = refl;
  bytes_of_it =
      append-same request_size bytes (encode h q) rest (wire h qs) size
        (decode-encode h h q p.fits).1 e;
  proper = p;
  others_proper = ps;
}
