-- ===== src/Tests/Memory.antt =====
-- The in-memory backend over a table, and the deadlines of its entries.
use thumbrella.Base.{◌≡◌, refl, false, none, some, [], ◌∷◌, ascii, bytes_eq, if◌then◌else◌, arith}
use thumbrella.Base.Assoc
use thumbrella.Cache.Entry.{CacheEntry, new, access, retain_until}
use thumbrella.Cache.Backend.{ok, conflict}
use thumbrella.Cache.Moka.{MayBe}
use thumbrella.Cache.Memory.{Memory, lookup, claim_pin, pin_data, promote, put, pinned}
use thumbrella.Cache.Memory.Pins.{puts, claims, step, PinsKept, step-PinsKept}
use thumbrella.Cache.Memory.Aliases.{
  Holds, step-alias, Outcome, claim_pin-Outcome, Served, pin_data-Served,
}
use thumbrella.Cache.Memory.Reads.{Read, lookup-Read, promote-keeps}
use thumbrella.Tests.Fixtures.{plain, Table, table, table-IsMoka, photo, entry}

-- One entry under `k`, with the alias `i1`.
abbrev pub stocked : Memory (Table CacheEntry)
stocked = record {
  cache = λ key. if bytes_eq key (ascii "k") then some entry else none;
  pins = (ascii "i1", ascii "k") ∷ [];
}

memory_run : Unit {0}
unfolding lookup claim_pin pin_data promote put retain_until access new bytes_eq Assoc.get
    Assoc.retain Assoc.insert
memory_run = tt

pin_survives :
    pin_data plain (table CacheEntry) stocked 500 (ascii "i1")
    ≡ some (pinned plain (table CacheEntry) entry)
unfolding memory_run
pin_survives = refl

stolen :
    (claim_pin plain (table CacheEntry) stocked 500 (ascii "i1") (ascii "j") 60).1 ≡ ok conflict
unfolding memory_run
stolen = refl

stocked_get : (table CacheEntry).get stocked.cache (ascii "k") ≡ some entry
unfolding bytes_eq
stocked_get = refl

step-PinsKept_example :
    PinsKept plain
      (table CacheEntry)
      (λ k. ⊥)
      500
      stocked.cache
      (step plain (table CacheEntry) stocked 500 (puts (ascii "k") photo 5 0 0)).cache
step-PinsKept_example =
    step-PinsKept plain (table-IsMoka CacheEntry) stocked 500 (puts (ascii "k") photo 5 0 0)

held : Holds plain (table CacheEntry) stocked 500 (ascii "i1") (ascii "k")
unfolding bytes_eq Assoc.get
held = record { alias = refl; entry = entry; stored = refl; live = omega arith }

step-alias_example :
    Assoc.get
      (step plain (table CacheEntry) stocked 500 (claims (ascii "i2") (ascii "j") 60)).pins
      (ascii "i1")
    ≡ some (ascii "k")
step-alias_example =
    step-alias plain (table CacheEntry) stocked 500 held (claims (ascii "i2") (ascii "j") 60)

claim_pin-Outcome_example :
    Outcome plain
      (table CacheEntry)
      (λ k. ⊥)
      stocked
      500
      (ascii "i1")
      (ascii "j")
      60
      (claim_pin plain (table CacheEntry) stocked 500 (ascii "i1") (ascii "j") 60).0
      (claim_pin plain (table CacheEntry) stocked 500 (ascii "i1") (ascii "j") 60).1
claim_pin-Outcome_example =
    claim_pin-Outcome plain (table-IsMoka CacheEntry) stocked 500 (ascii "i1") (ascii "j") 60

pin_data-Served_example :
    Served plain
      (table CacheEntry)
      stocked
      500
      (ascii "i1")
      (pin_data plain (table CacheEntry) stocked 500 (ascii "i1"))
pin_data-Served_example = pin_data-Served plain (table CacheEntry) stocked 500 (ascii "i1")

lookup-Read_example :
    Read plain
      (table CacheEntry)
      stocked
      300
      (ascii "k")
      false
      60
      (lookup plain (table CacheEntry) stocked 300 (ascii "k") false 60).1
lookup-Read_example = lookup-Read plain (table CacheEntry) stocked 300 (ascii "k") false 60

promote-keeps_example :
    MayBe ⊥
      ((table CacheEntry).get
        (promote plain
          (table CacheEntry)
          stocked
          300
          (ascii "k")
          (record entry { render_cost = 1 })).cache
        (ascii "k"))
      (some entry)
promote-keeps_example =
    promote-keeps plain (table-IsMoka CacheEntry) stocked 300 (ascii "k") (ascii "k")
      (record entry { render_cost = 1 }) entry stocked_get (unfold retain_until in omega arith)
