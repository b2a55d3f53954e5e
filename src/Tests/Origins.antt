-- ===== src/Tests/Origins.antt =====
-- An origin that answered 429 with a minute to wait.
use thumbrella.Base.{◌≡◌, refl, none, some, ascii, bytes_eq}
use thumbrella.FetchGuard.{Hold, check_origin, record_origin}
use thumbrella.Tests.Fixtures.{Table, table}

abbrev empty : Table Hold
empty origin = none

abbrev told : Table Hold
told = record_origin (table Hold) empty (ascii "https://a.com") 429 60 100

held_back : check_origin (table Hold) told (ascii "https://a.com") 130 ≡ some 429
unfolding check_origin record_origin bytes_eq
held_back = refl

free_again : check_origin (table Hold) told (ascii "https://a.com") 161 ≡ none
unfolding check_origin record_origin bytes_eq
free_again = refl

other_origin : check_origin (table Hold) told (ascii "https://b.com") 130 ≡ none
unfolding check_origin record_origin bytes_eq
other_origin = refl
