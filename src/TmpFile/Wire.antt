-- ===== src/TmpFile/Wire.antt =====
-- A message survives the wire.
use pulsevideo.Base.{ℕ, zero, suc, ◌*◌, ◌/◌, ◌<◌, ◌≡◌, refl, ap, ◌∙◌, length, two_64, arith}
use pulsevideo.TmpFile.{FdMessage, to_bytes, from_bytes, encode, decode}

-- 256 ^ n
power : ℕ → ℕ
power zero = 1
power (suc n) = 256 * power n

from_bytes-to_bytes : (n x : ℕ) → x < power n → from_bytes (to_bytes n x) ≡ x
unfolding power to_bytes from_bytes
from_bytes-to_bytes zero x h = omega arith
from_bytes-to_bytes (suc n) x h =
    let rest = from_bytes-to_bytes n (x / 256) (omega arith) in omega (arith, rest)

word : (x : ℕ) → x < two_64 → from_bytes (to_bytes 8 x) ≡ x
unfolding power
word x h = from_bytes-to_bytes 8 x (omega arith)

-- A message whose three fields are 64 bit words is read as it was written.
pub decode-encode :
    (m : FdMessage)
    → m.capture_timestamp < two_64
    → m.offset < two_64
    → m.size < two_64
    → decode (encode m) ≡ m
unfolding decode encode to_bytes
decode-encode m a b c =
    let build : ℕ → ℕ → ℕ → FdMessage =
      λ x y z. record { capture_timestamp = x; offset = y; size = z } in
    ap (λ x. build x (from_bytes (to_bytes 8 m.offset)) (from_bytes (to_bytes 8 m.size)))
      (word m.capture_timestamp a)
    ∙ ap (λ y. build m.capture_timestamp y (from_bytes (to_bytes 8 m.size))) (word m.offset b)
    ∙ ap (λ z. build m.capture_timestamp m.offset z) (word m.size c)

pub length-encode : (m : FdMessage) → length (encode m) ≡ 24
unfolding encode to_bytes
length-encode m = refl
