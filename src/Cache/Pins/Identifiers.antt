-- ===== src/Cache/Pins/Identifiers.antt =====
-- The identifiers that tier1/src/cache/pins.rs derives for pins.
use thumbrella.Base.{
  ℕ, zero, suc, ◌≤◌, ◌≡◌, refl, true, [], ◌∷◌, Bytes, length, length-take, take, arith,
}
use thumbrella.Media.{FileKind}
use thumbrella.Cache.Pins.{
  kind_letter, pin_kind, is_kind_letter, all_url_safe, valid_pin, candidate,
}

-- The encoded digest of any message is URL-safe text of at least twelve bytes.
pub record IsDigest (hmac : Bytes → Bytes → Bytes) (encode : Bytes → Bytes) : Type 0 where
  pub safe : (secret message : Bytes) → all_url_safe (encode (hmac secret message)) ≡ true
  pub long : (secret message : Bytes) → 12 ≤ length (encode (hmac secret message))

all_url_safe-take : (n : ℕ) (s : Bytes) → all_url_safe s ≡ true → all_url_safe (take n s) ≡ true
unfolding all_url_safe take
all_url_safe-take zero s safe = refl
all_url_safe-take (suc n) [] safe = refl
all_url_safe-take (suc n) (b ∷ bs) safe = ground (arith, all_url_safe-take n bs)

is_kind_letter-kind : (kind : FileKind) → is_kind_letter (kind_letter kind) ≡ true
unfolding is_kind_letter kind_letter
is_kind_letter-kind FileKind.image = refl
is_kind_letter-kind FileKind.video = refl
is_kind_letter-kind FileKind.audio = refl
is_kind_letter-kind FileKind.vector = refl
is_kind_letter-kind FileKind.document = refl
is_kind_letter-kind FileKind.geometry = refl
is_kind_letter-kind FileKind.archive = refl
is_kind_letter-kind FileKind.text = refl
is_kind_letter-kind FileKind.binary = refl
is_kind_letter-kind FileKind.unknown = refl

pin_kind-letter : (kind : FileKind) (rest : Bytes) → pin_kind (kind_letter kind ∷ rest) ≡ kind
unfolding pin_kind kind_letter
pin_kind-letter FileKind.image rest = refl
pin_kind-letter FileKind.video rest = refl
pin_kind-letter FileKind.audio rest = refl
pin_kind-letter FileKind.vector rest = refl
pin_kind-letter FileKind.document rest = refl
pin_kind-letter FileKind.geometry rest = refl
pin_kind-letter FileKind.archive rest = refl
pin_kind-letter FileKind.text rest = refl
pin_kind-letter FileKind.binary rest = refl
pin_kind-letter FileKind.unknown rest = refl

-- A pin of the right length, with a letter for its kind and URL-safe text behind it, is valid.
valid_pin-take :
    (kind : FileKind) (text : Bytes)
    → all_url_safe text ≡ true
    → 12 ≤ length text
    → valid_pin (kind_letter kind ∷ take 12 text) ≡ true
unfolding valid_pin
valid_pin-take kind text safe long =
    rw (is_kind_letter-kind kind, all_url_safe-take 12 text safe)
      (ground (arith, length-take 12 text))

-- Every identifier that is derived for a key passes the syntax check of the pin routes, and its kind
-- can be read back from it.
pub candidate-valid_pin :
    {hmac : Bytes → Bytes → Bytes} {encode : Bytes → Bytes}
    → IsDigest hmac encode
    → (secret : Bytes) (kind : FileKind) (key : Bytes) (attempt : ℕ)
    → (valid_pin (candidate hmac encode secret kind key attempt) ≡ true)
      × (pin_kind (candidate hmac encode secret kind key attempt) ≡ kind)
unfolding candidate
candidate-valid_pin digest secret kind key attempt =
    (valid_pin-take kind _ (digest.safe secret _) (digest.long secret _), pin_kind-letter kind _)
