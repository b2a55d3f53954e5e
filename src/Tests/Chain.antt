-- ===== src/Tests/Chain.antt =====
-- A chain of an empty memory in front of a stocked one, and the attempts for a pin.
use thumbrella.Base.{◌≡◌, refl, none, some, [], ◌∷◌, ◌++◌, map, ascii, bytes_eq}
use thumbrella.Media.{FileKind}
use thumbrella.Cache.Entry.{CacheEntry, access}
use thumbrella.Cache.Backend.{Backend, ok}
use thumbrella.Cache.Backend.Issue.{Issued, issue_pin-Issued}
use thumbrella.Cache.Memory.{Memory, memory, lookup, claim_pin}
use thumbrella.Cache.Chain
use thumbrella.Cache.Chain.{Tier}
use thumbrella.Cache.Chain.Reads.{
  Answer, misses, nobody, found, asked, asked_later, get_entry-Answer,
}
use thumbrella.Cache.Chain.Backfill.{promoted, get_entry-run_tasks}
use thumbrella.Cache.Chain.Claims.{Claim, claim_pin-Claim}
use thumbrella.Tests.Fixtures.{plain, Table, table, entry}
use thumbrella.Tests.Memory.{stocked}

abbrev pub M : Type 0
M = Memory (Table CacheEntry)

abbrev pub backend : Backend M
backend = memory plain (table CacheEntry) (λ kind key attempt. attempt ∷ key)

abbrev front : Tier M
front = record { backend = backend; state = record { cache = λ k. none; pins = [] } }

abbrev back : Tier M
back = record { backend = backend; state = stocked }

abbrev chain : Chain.Chain M
chain = record { tiers = front ∷ back ∷ []; pending = [] }

get_entry-Answer_example :
    Answer
      (ascii "k")
      (found 200 (ascii "k") 60)
      (asked 200 (ascii "k") 60)
      (asked_later 200 (ascii "k") 60)
      chain
      (Chain.get_entry chain 200 (ascii "k") 60)
get_entry-Answer_example = get_entry-Answer 200 (ascii "k") 60 chain

front_misses : found 200 (ascii "k") 0 front ≡ none
unfolding memory lookup
front_misses = refl

back_hits : found 200 (ascii "k") 0 back ≡ some (record entry { last_accessed_at = 200 })
unfolding memory lookup access bytes_eq
back_hits = refl

get_entry-run_tasks_example :
    Chain.run_tasks 300
      (Chain.get_entry chain 200 (ascii "k") 0).0
      (Chain.get_entry chain 200 (ascii "k") 0).0.pending
    ≡ record {
      tiers =
          map
            (promoted 300 (ascii "k") (record entry { last_accessed_at = 200 }))
            (map (asked 200 (ascii "k") 0) (front ∷ []))
          ++ asked 200 (ascii "k") 0 back ∷ asked_later 200 (ascii "k") 0 [];
      pending = [];
    }
get_entry-run_tasks_example =
    get_entry-run_tasks 200 300 (ascii "k") 0 (front ∷ []) back []
      (record entry { last_accessed_at = 200 }) chain refl refl (misses front_misses nobody)
      back_hits

claim_pin-Claim_example :
    Claim chain
      (front ∷ [])
      back
      200
      (ascii "i2")
      (ascii "k")
      60
      (Chain.claim_pin chain 200 (ascii "i2") (ascii "k") 60)
claim_pin-Claim_example =
    claim_pin-Claim chain (front ∷ []) back 200 (ascii "i2") (ascii "k") 60 refl

issue_pin-Issued_example :
    Issued
      (λ t kind key attempt. ok (attempt ∷ key))
      (claim_pin plain (table CacheEntry))
      (λ attempt. 200)
      FileKind.image
      (ascii "k")
      60
      0
      256
      stocked
      (Backend.issue_pin backend stocked (λ attempt. 200) FileKind.image (ascii "k") 60)
unfolding memory
issue_pin-Issued_example =
    issue_pin-Issued (λ t kind key attempt. ok (attempt ∷ key)) (claim_pin plain (table CacheEntry))
      (λ attempt. 200) FileKind.image (ascii "k") 60 stocked refl
