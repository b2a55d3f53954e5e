-- ===== src/Tests/Pins.antt =====
-- Pin identifiers, and a result that gets a pin link.
use thumbrella.Base.{ℕ, ◌≡◌, ◌≢◌, refl, true, some, ◌∷◌, Bytes, ascii, bytes_eq, arith}
use thumbrella.Base.Assoc
use thumbrella.Media.{ThumbMedia}
use thumbrella.Cache.Backend.{ok, issue_pin}
use thumbrella.Cache.Memory.{memory}
use thumbrella.Cache.Pins.{all_url_safe, link, is_success, pin_result}
use thumbrella.Cache.Pins.Identifiers.{IsDigest}
use thumbrella.Cache.Pins.Results.{Pinned, pin_result-Pinned}
use thumbrella.Tests.Chain.{backend}
use thumbrella.Tests.Memory.{stocked}
use thumbrella.Tests.Frontend.{answer}

abbrev hmac : Bytes → Bytes → Bytes
hmac secret message = message

abbrev encode : Bytes → Bytes
encode digest = ascii "aB3-_xyzXYZ012345"

plain-IsDigest : IsDigest hmac encode
unfolding all_url_safe
plain-IsDigest = record { safe = λ secret message. refl; long = λ secret message. omega arith }

abbrev lifetime : ℕ
lifetime = 60

pinned :
    (pin_result (some backend) stocked (λ attempt. 200) (ascii "k") answer 60).1
    ≡ ok (some (link backend (0 ∷ ascii "k")))
unfolding pin_result memory bytes_eq issue_pin Assoc.get Assoc.retain
pinned = refl

pin_result-Pinned_example :
    (lifetime ≢ 0)
    × (is_success answer.status ≡ true)
    × (media : ThumbMedia) × (answer.media ≡ some media)
    × Pinned backend stocked (λ attempt. 200) (ascii "k") 60 media (link backend (0 ∷ ascii "k"))
pin_result-Pinned_example =
    pin_result-Pinned backend stocked (λ attempt. 200) (ascii "k") 60 answer
      (link backend (0 ∷ ascii "k")) pinned
