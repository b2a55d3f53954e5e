-- ===== src/Tests/Frontend.antt =====
-- Two requests for one key: the first leads, the second waits and gets its result.
use thumbrella.Base.{
  ◌↔◌, ℕ, ◌<◌, ◌≡◌, ◌≢◌, refl, subst, true, none, some, [], ◌∷◌, ascii, bytes_eq, arith,
}
use thumbrella.Base.Assoc
use mathlib.Core.List.{Mem, mem-cons_self}
use thumbrella.Media.{ThumbResult, ResultSource, ResultStatus}
use thumbrella.Cache.Frontend.{
  hit, sticky_check, InflightSlot, Frontend, leader, lookup, owns, complete, after_wait, received,
  debounce_check,
}
use thumbrella.Cache.Frontend.Generations.{looks, completes, cancels, step, run}
use thumbrella.Cache.Frontend.Leaders.{no_calls, spares, superseded, one_leader}
use thumbrella.Cache.Frontend.Answers.{answers-IsFor}
use thumbrella.Cache.Frontend.Copies.{IsFor}
use thumbrella.Cache.Frontend.Waiters.{Accounted, waits, step-Accounted}
use thumbrella.Tests.Fixtures.{plain, Table, table, photo}

abbrev idle : Frontend (Table ThumbResult)
idle = record { sticky = λ k. none; inflight = []; next_id = 0; next_channel = 0; settled = [] }

abbrev slot : InflightSlot
slot = record { id = 0; waiters = 0 ∷ [] }

abbrev busy : Frontend (Table ThumbResult)
busy = record idle { inflight = (ascii "k", slot) ∷ []; next_id = 1; next_channel = 1 }

abbrev pub answer : ThumbResult
answer = record {
  url = [];
  status = ResultStatus.success;
  message = none;
  source = some ResultSource.render;
  pin = none;
  duration = 0;
  download_size = 2048;
  http_status = some 200;
  media = some photo;
}

superseded_example :
    let g =
      run plain
        (table ThumbResult)
        (step plain (table ThumbResult) busy (cancels (ascii "k") 0))
        (looks (ascii "k") none ∷ []) in
    complete (table ThumbResult) g (ascii "k") 0 answer ≡ g
unfolding bytes_eq
superseded_example =
    superseded plain (table ThumbResult) (ascii "k") 0 busy (cancels (ascii "k") 0)
      (looks (ascii "k") none ∷ []) answer (omega arith) refl

abbrev led : Frontend (Table ThumbResult)
led = record idle { inflight = (ascii "k", record { id = 0; waiters = [] }) ∷ []; next_id = 1 }

first_leads : lookup plain (table ThumbResult) idle (ascii "k") none ≡ (led, leader 0)
unfolding lookup debounce_check Assoc.get Assoc.insert
first_leads = refl

one_leader_example :
    (owns (run plain (table ThumbResult) led (looks (ascii "k") none ∷ [])) (ascii "k") 0 ≡ true)
    × ((other : ℕ)
        → (lookup plain
            (table ThumbResult)
            (run plain (table ThumbResult) led (looks (ascii "k") none ∷ []))
            (ascii "k")
            none).1
          ≢ leader other)
one_leader_example =
    one_leader plain (table ThumbResult) (ascii "k") 0 idle none none led
      (looks (ascii "k") none ∷ []) first_leads (spares refl no_calls)

busy_slot : Assoc.get busy.inflight (ascii "k") ≡ some slot
unfolding Assoc.get bytes_eq
busy_slot = refl

busy-Accounted : Accounted busy
unfolding Accounted
busy-Accounted tx small = waits (ascii "k") slot busy_slot (in_slot tx small)
  where
    in_slot : (tx : ℕ) → tx < 1 → Mem tx slot.waiters
    in_slot tx small = subst (λ c. Mem tx (c ∷ [])) (only tx small) mem-cons_self
      where
        only : (tx : ℕ) → tx < 1 → tx ≡ 0
        only tx small = omega (arith, small)

step-Accounted_example :
    Accounted (step plain (table ThumbResult) busy (completes (ascii "k") 0 answer))
step-Accounted_example =
    step-Accounted plain (table ThumbResult) busy (completes (ascii "k") 0 answer) busy-Accounted

answered : (after_wait plain busy (ascii "k") none 0 (received answer)).1 ≡ some answer
unfolding after_wait
answered = refl

answers-IsFor_example :
    (((lookup plain (table ThumbResult) busy (ascii "k") none).1 ≡ hit answer) ↔ (
      (sticky_check (table ThumbResult) busy (ascii "k") ≡ some answer) × IsFor plain none answer))
    × (((after_wait plain busy (ascii "k") none 0 (received answer)).1 ≡ some answer)
        ↔ ((received answer ≡ received answer) × IsFor plain none answer))
answers-IsFor_example =
    answers-IsFor plain (table ThumbResult) busy (ascii "k") none answer 0 (received answer)
