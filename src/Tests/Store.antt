-- ===== src/Tests/Store.antt =====
-- An uncacheable result is stored over a cached entry.
use thumbrella.Base.{◌≡◌, refl, false, none, some, [], ◌∷◌, ascii}
use thumbrella.Media.{ThumbMedia, ThumbResult}
use thumbrella.Cache.Entry.{CacheEntry}
use thumbrella.Cache.Memory.{lookup}
use thumbrella.Cache.Store.{is_intermediate, is_placeholder}
use thumbrella.Cache.Store.Writes.{after_store, store-uncacheable}
use thumbrella.Tests.Fixtures.{plain, table, table-IsMoka, photo}
use thumbrella.Tests.Memory.{stocked}
use thumbrella.Tests.Frontend.{answer}

abbrev bare : ThumbMedia
bare = record photo { cache = [] }

abbrev fetched : ThumbResult
fetched = record answer { media = some bare }

final : is_intermediate fetched.status ≡ false
unfolding is_intermediate
final = refl

real : is_placeholder fetched.source ≡ false
unfolding is_placeholder
real = refl

store-uncacheable_example :
    (lookup plain
      (table CacheEntry)
      (after_store plain
        (table-IsMoka CacheEntry)
        (λ kind key attempt. attempt ∷ key)
        stocked
        300
        (ascii "k")
        fetched
        bare
        5
        900
        60)
      350
      (ascii "k")
      false
      60).1
    ≡ none
store-uncacheable_example =
    store-uncacheable plain (table-IsMoka CacheEntry) (λ kind key attempt. attempt ∷ key) stocked
      300 (ascii "k") fetched bare 5 900 60 350 60 refl refl final real
