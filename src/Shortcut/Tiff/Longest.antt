-- ===== src/Shortcut/Tiff/Longest.antt =====
-- What the loop of `find_tiff_embedded_jpeg_span` in tier1/src/pipeline/shortcut.rs keeps.
use thumbrella.Base.{
  ℕ, ◌≤◌, ◌≡◌, refl, sym, ap, subst, ◌∙◌, ◌⊎◌, inl, inr, Bool, true, false, ◌||◌, Option, none,
  some, List, [], ◌∷◌, ◌++◌, Bytes, ◌==◌, ltb, ltb→lt, any, Bool-cases, ==_iff, arith,
}
use thumbrella.Base.Loop.{go, stop, Ends, Ends-inv, go≢stop, gone, stopped}
use thumbrella.Shortcut.Tiff.{has, span_turn}
use thumbrella.Shortcut.Tiff.Search.{
  links, offer, longer, has-append, parsed, turn_again, turn_fresh, Reachable, starts, links_to,
  IsLongest,
}

-- The longer of two previews is one of them, and at least as long as either.
longer-offered :
    (new best : Option (ℕ × ℕ)) (o l : ℕ)
    → longer new best ≡ some (o, l)
    → (new ≡ some (o, l)) ⊎ (best ≡ some (o, l))
longer-offered none best o l e = inr e
longer-offered (some (p, m)) none o l e = inl e
longer-offered (some (p, m)) (some (p', m')) o l e = elim (Bool-cases (ltb m' m)) [
  | inl more ↦ inl (rw more at e)
  | inr less ↦ inr (rw less at e)
]

length_of : (p m o l : ℕ) → ◌≡◌ {A = Option (ℕ × ℕ)} (some (p, m)) (some (o, l)) → l ≤ m
length_of p m o l e = ground arith

longer-best :
    (new best : Option (ℕ × ℕ)) (o l : ℕ)
    → best ≡ some (o, l)
    → (o' l' : ℕ) × (longer new best ≡ some (o', l')) × (l ≤ l')
longer-best none best o l e = (o, l, e, omega arith)
longer-best (some (p, m)) none o l e = ground arith
longer-best (some (p, m)) (some (p', m')) o l e = elim (Bool-cases (ltb m' m)) [
  | inl more ↦ (p, m, rw more refl, omega (arith, length_of p' m' o l e, ltb→lt m' m more))
  | inr less ↦ (p', m', rw less refl, length_of p' m' o l e)
]

longer-new :
    (new best : Option (ℕ × ℕ)) (o l : ℕ)
    → new ≡ some (o, l)
    → (o' l' : ℕ) × (longer new best ≡ some (o', l')) × (l ≤ l')
longer-new none best o l e = ground arith
longer-new (some (p, m)) none o l e = (p, m, refl, length_of p m o l e)
longer-new (some (p, m)) (some (p', m')) o l e = elim (Bool-cases (ltb m' m)) [
  | inl more ↦ (p, m, rw more refl, length_of p m o l e)
  | inr less ↦ (p', m', rw less refl, ground (arith, length_of p m o l e))
]

pub has-cons : (x t : ℕ) (xs : List ℕ) → has (x ∷ xs) t ≡ true → (t ≡ x) ⊎ (has xs t ≡ true)
unfolding any
has-cons x t xs h = elim (Bool-cases (t == x)) [
  | inl e ↦ inl ((==_iff t x).0 e)
  | inr e ↦ inr (ground arith)
]

has_head : (x : ℕ) (xs : List ℕ) → has (x ∷ xs) x ≡ true
unfolding any
has_head x xs = ground arith

has_tail : (x t : ℕ) (xs : List ℕ) → has xs t ≡ true → has (x ∷ xs) t ≡ true
unfolding any
has_tail x t xs h = ground arith

has_either :
    (t : ℕ) (xs ys : List ℕ) → has (xs ++ ys) t ≡ true → (has xs t ≡ true) ⊎ (has ys t ≡ true)
has_either t xs ys h = elim (Bool-cases (has xs t)) [
  | inl e ↦ inl e
  | inr e ↦ inr (rw (has-append t xs ys, e) at h)
]

met_new : (t : ℕ) (xs ys : List ℕ) (b : Bool) → has ys t ≡ true → (has (xs ++ ys) t || b) ≡ true
met_new t xs ys b h = rw (has-append t xs ys, h) (both_or (has xs t) b)
  where
    both_or : (a b : Bool) → ((a || true) || b) ≡ true
    both_or true b = refl
    both_or false b = refl

-- An offset taken from the queue is still met, as one that was visited.
move : (e q v l : Bool) → ((e || q) || v) ≡ true → ((q || l) || (e || v)) ≡ true
move true true v l h = refl
move true false v true h = refl
move true false v false h = refl
move false true v l h = refl
move false false v true h = refl
move false false v false h = h

pop_seen :
    (off t : ℕ) (queue visited : List ℕ)
    → has visited off ≡ true
    → (has (off ∷ queue) t || has visited t) ≡ true
    → (has queue t || has visited t) ≡ true
unfolding any
pop_seen off t queue visited again h = elim (Bool-cases (t == off)) [
  | inl e ↦
      let at = subst (λ x. has visited x ≡ true) (sym ((==_iff t off).0 e)) again in ground arith
  | inr e ↦ ground arith
]

pop_fresh :
    (off t : ℕ) (queue visited new : List ℕ)
    → (has (off ∷ queue) t || has visited t) ≡ true
    → (has (queue ++ new) t || has (off ∷ visited) t) ≡ true
unfolding any
pop_fresh off t queue visited new h =
    rw (has-append t queue new) (move (t == off) (has queue t) (has visited t) (has new t) h)

module _ (buf : Bytes) (little : Bool) (start : ℕ) where
  abbrev R : ℕ → Type 0
  R = Reachable buf little start

  abbrev off_links : ℕ → List ℕ
  off_links v = links buf (parsed buf little v)

  abbrev offered_by : ℕ → Option (ℕ × ℕ)
  offered_by v = offer (parsed buf little v)

  record Inv (queue visited : List ℕ) (best : Option (ℕ × ℕ)) : Type 0 where
    queued : (v : ℕ) → has queue v ≡ true → R v
    seen : (v : ℕ) → has visited v ≡ true → R v
    begun : (has queue start || has visited start) ≡ true
    closed :
        (v t : ℕ)
        → has visited v ≡ true
        → has (off_links v) t ≡ true
        → (has queue t || has visited t) ≡ true
    offered :
        (o l : ℕ)
        → best ≡ some (o, l)
        → (v : ℕ) × (has visited v ≡ true) × (offered_by v ≡ some (o, l))
    longest :
        (v o l : ℕ)
        → has visited v ≡ true
        → offered_by v ≡ some (o, l)
        → (o' l' : ℕ) × (best ≡ some (o', l')) × (l ≤ l')

  abbrev Kept : List ℕ × List ℕ × Option (ℕ × ℕ) → Type 0
  Kept (queue, visited, best) = Inv queue visited best

  Inv-begin : Inv (start ∷ []) [] none
  unfolding any
  Inv-begin = record {
    queued = λ v h. subst R (ground arith) starts;
    seen = λ v h. ground arith;
    begun = ground arith;
    closed = λ v t h l. ground arith;
    offered = λ o l e. ground arith;
    longest = λ v o l h e. ground arith;
  }

  Inv-again :
      (off : ℕ) (queue visited : List ℕ) (best : Option (ℕ × ℕ))
      → has visited off ≡ true
      → Inv (off ∷ queue) visited best
      → Inv queue visited best
  unfolding any
  Inv-again off queue visited best again inv = record {
    queued = λ v h. inv.queued v (ground arith);
    seen = inv.seen;
    begun = pop_seen off start queue visited again inv.begun;
    closed = λ v t h l. pop_seen off t queue visited again (inv.closed v t h l);
    offered = inv.offered;
    longest = inv.longest;
  }

  Inv-fresh :
      (off : ℕ) (queue visited : List ℕ) (best : Option (ℕ × ℕ))
      → Inv (off ∷ queue) visited best
      → Inv (queue ++ off_links off) (off ∷ visited) (longer (offered_by off) best)
  Inv-fresh off queue visited best inv =
      let here = inv.queued off (has_head off queue) in
      record {
        queued = λ v h. elim (has_either v queue (off_links off) h) [
          | inl old ↦ inv.queued v (has_tail off v queue old)
          | inr new ↦ links_to here new
        ];
        seen = λ v h. elim (has-cons off v visited h) [
          | inl e ↦ subst R (sym e) here
          | inr old ↦ inv.seen v old
        ];
        begun = pop_fresh off start queue visited (off_links off) inv.begun;
        closed = λ v t h l. elim (has-cons off v visited h) [
          | inl e ↦
              met_new t queue (off_links off) (has (off ∷ visited) t)
                (subst (λ x. has (off_links x) t ≡ true) e l)
          | inr old ↦ pop_fresh off t queue visited (off_links off) (inv.closed v t old l)
        ];
        offered = λ o l e. elim (longer-offered (offered_by off) best o l e) [
          | inl new ↦ (off, has_head off visited, new)
          | inr old ↦ let (v, at, by) = inv.offered o l old in (v, has_tail off v visited at, by)
        ];
        longest = λ v o l h by. elim (has-cons off v visited h) [
          | inl e ↦ longer-new (offered_by off) best o l (ap offered_by (sym e) ∙ by)
          | inr old ↦
              let (o1, l1, e1, le1) = inv.longest v o l old by in
              let (o2, l2, e2, le2) = longer-best (offered_by off) best o1 l1 e1 in
              (o2, l2, e2, omega arith)
        ];
      }

  Kept-turn :
      (s t : List ℕ × List ℕ × Option (ℕ × ℕ)) → Kept s → span_turn buf little s ≡ go t → Kept t
  unfolding span_turn
  Kept-turn ([], visited, best) t inv e = absurd (go≢stop t best (sym e))
  Kept-turn (off ∷ queue, visited, best) t inv e = elim (Bool-cases (has visited off)) [
    | inl again ↦
        subst Kept (ap (gone t) (sym (turn_again buf little off queue visited best again) ∙ e))
          (Inv-again off queue visited best again inv)
    | inr fresh ↦
        subst Kept (ap (gone t) (sym (turn_fresh buf little off queue visited best fresh) ∙ e))
          (Inv-fresh off queue visited best inv)
  ]

  -- With the queue empty, every reachable directory was visited.
  all_visited :
      (visited : List ℕ) (best : Option (ℕ × ℕ))
      → Inv [] visited best
      → (v : ℕ) → R v
      → has visited v ≡ true
  unfolding any
  all_visited visited best inv v starts = inv.begun
  all_visited visited best inv v (links_to {v = w} r h) =
      inv.closed w v (all_visited visited best inv w r) h

  at_end :
      (s : List ℕ × List ℕ × Option (ℕ × ℕ)) (result : Option (ℕ × ℕ))
      → Kept s
      → span_turn buf little s ≡ stop result
      → IsLongest buf little start result
  unfolding span_turn
  at_end ([], visited, best) result inv e =
      subst (IsLongest buf little start) (ap (stopped best) e) (record {
        offered = λ o l h. let (v, at, by) = inv.offered o l h in (v, inv.seen v at, by);
        longest = λ v o l r by. inv.longest v o l (all_visited visited best inv v r) by;
      })
  at_end (off ∷ queue, visited, best) result inv e = elim (Bool-cases (has visited off)) [
    | inl again ↦ absurd (
        go≢stop (queue, visited, best) result
          (sym (turn_again buf little off queue visited best again) ∙ e))
    | inr fresh ↦ absurd (
        go≢stop (queue ++ off_links off, off ∷ visited, longer (offered_by off) best) result
          (sym (turn_fresh buf little off queue visited best fresh) ∙ e))
  ]

  pub Ends-IsLongest :
      (result : Option (ℕ × ℕ))
      → Ends (span_turn buf little) (start ∷ [], [], none) result
      → IsLongest buf little start result
  Ends-IsLongest result ends =
      let (s, kept, e) = Ends-inv (span_turn buf little) Kept Kept-turn ends Inv-begin in
      at_end s result kept e
