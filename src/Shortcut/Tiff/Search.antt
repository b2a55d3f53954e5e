-- ===== src/Shortcut/Tiff/Search.antt =====
-- The search for the preview in tier1/src/pipeline/shortcut.rs finds the longest one of all the
-- directories that the file links.
use thumbrella.Base.{
  ℕ, ◌≤◌, ◌≡◌, refl, ap, inl, inr, Bool, true, false, ◌||◌, Option, none, some, List, [], ◌∷◌, ◌++◌,
  Bytes, ltb, leb, if◌then◌else◌, any, Option-cases, arith,
}
use thumbrella.Base.Loop.{go}
use thumbrella.Shortcut.Tiff.{parse_tiff_ifd, inside, better, has, span_turn}

abbrev pub Parsed : Type 0
Parsed = Option (ℕ × List ℕ × Option ℕ × Option ℕ)

-- What a directory links, and the preview it offers.
unfoldable pub links : Bytes → Parsed → List ℕ
links buf none = []
links buf (some (next, subs, joff, jlen)) = inside buf (next ∷ subs)

unfoldable pub offer : Parsed → Option (ℕ × ℕ)
offer (some (next, subs, some o, some l)) = if leb 4 l then some (o, l) else none
offer _ = none

abbrev pub longer : Option (ℕ × ℕ) → Option (ℕ × ℕ) → Option (ℕ × ℕ)
longer none best = best
longer (some (o, l)) none = some (o, l)
longer (some (o, l)) (some (o', l')) = if ltb l' l then some (o, l) else some (o', l')

pub has-append : (x : ℕ) (xs ys : List ℕ) → has (xs ++ ys) x ≡ (has xs x || has ys x)
unfolding any
has-append x [] ys = refl
has-append x (y ∷ xs) ys = ground (arith, has-append x xs ys)

append_nil : (xs : List ℕ) → xs ++ [] ≡ xs
append_nil [] = refl
append_nil (x ∷ xs) = ap (◌∷◌ x) (append_nil xs)

better-longer :
    (best : Option (ℕ × ℕ)) (n : ℕ) (subs : List ℕ) (joff jlen : Option ℕ)
    → better best joff jlen ≡ longer (offer (some (n, subs, joff, jlen))) best
unfolding better offer
better-longer none n subs none jlen = refl
better-longer none n subs (some o) none = refl
better-longer none n subs (some o) (some l) = ground arith
better-longer (some (o', l')) n subs none jlen = refl
better-longer (some (o', l')) n subs (some o) none = refl
better-longer (some (o', l')) n subs (some o) (some l) = ground arith

module _ (buf : Bytes) (little : Bool) where
  abbrev pub parsed : ℕ → Parsed
  parsed off = parse_tiff_ifd buf off little

  pub turn_again :
      (off : ℕ) (queue visited : List ℕ) (best : Option (ℕ × ℕ))
      → has visited off ≡ true
      → span_turn buf little (off ∷ queue, visited, best) ≡ go (queue, visited, best)
  unfolding span_turn
  turn_again off queue visited best seen = rw (seen) refl

  pub turn_fresh :
      (off : ℕ) (queue visited : List ℕ) (best : Option (ℕ × ℕ))
      → has visited off ≡ false
      → span_turn buf little (off ∷ queue, visited, best)
        ≡ go (queue ++ links buf (parsed off), off ∷ visited, longer (offer (parsed off)) best)
  unfolding span_turn links offer
  turn_fresh off queue visited best fresh = elim (Option-cases (parsed off)) [
    | inl e ↦ rw (fresh, e, links, offer, append_nil queue) refl
    | inr ((next, subs, joff, jlen), e) ↦
        rw (fresh, e, links, better-longer best next subs joff jlen) refl
  ]

  -- The directories that can be reached from the first one.
  pub data Reachable (start : ℕ) : ℕ → Type 0 where
    starts : Reachable start start
    links_to :
        {v t : ℕ} → Reachable start v → has (links buf (parsed v)) t ≡ true → Reachable start t

  -- The result is offered by a reachable directory, and none of them offers a longer one.
  pub record IsLongest (start : ℕ) (result : Option (ℕ × ℕ)) : Type 0 where
    pub offered :
        (o l : ℕ)
        → result ≡ some (o, l)
        → (v : ℕ) × Reachable start v × (offer (parsed v) ≡ some (o, l))
    pub longest :
        (v o l : ℕ)
        → Reachable start v
        → offer (parsed v) ≡ some (o, l)
        → (o' l' : ℕ) × (result ≡ some (o', l')) × (l ≤ l')
