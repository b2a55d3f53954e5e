-- ===== src/HttpBuf/Pages/Holds.antt =====
-- Bytes that stand in the file at a position, for tier1/src/http_buf.rs.
use thumbrella.Base.{
  ℕ, zero, suc, ◌+◌, ◌-◌, ◌≤◌, ◌<◌, ◌≡◌, refl, sym, ap, subst, ◌∙◌, ◌⊎◌, inl, inr, some, List, [],
  ◌∷◌, ◌++◌, Bytes, length, get_elem?, take, drop, arith,
}

module _ {ℓ} {A : Type ℓ} where
  get_elem?-append :
      (xs ys : List A) (j : ℕ) (x : A)
      → get_elem? (xs ++ ys) j ≡ some x
      → (get_elem? xs j ≡ some x) ⊎ ((length xs ≤ j) × (get_elem? ys (j - length xs) ≡ some x))
  get_elem?-append [] ys j x h =
      inr (omega arith, subst (λ n. get_elem? ys n ≡ some x) (omega arith) h)
  get_elem?-append (y ∷ xs) ys zero x h = inl h
  get_elem?-append (y ∷ xs) ys (suc j) x h = elim (get_elem?-append xs ys j x h) [
    | inl e ↦ inl e
    | inr (le, e) ↦ inr (omega arith, subst (λ n. get_elem? ys n ≡ some x) (omega arith) e)
  ]

  get_elem?-take :
      (n : ℕ) (xs : List A) (j : ℕ) (x : A)
      → get_elem? (take n xs) j ≡ some x
      → get_elem? xs j ≡ some x
  unfolding take
  get_elem?-take zero xs j x h = ground arith
  get_elem?-take (suc n) [] j x h = h
  get_elem?-take (suc n) (y ∷ xs) zero x h = h
  get_elem?-take (suc n) (y ∷ xs) (suc j) x h = get_elem?-take n xs j x h

  pub get_elem?-drop :
      (n : ℕ) (xs : List A) (j : ℕ) → get_elem? (drop n xs) j ≡ get_elem? xs (n + j)
  unfolding drop
  get_elem?-drop zero xs j = ap (get_elem? xs) (omega arith)
  get_elem?-drop (suc n) [] j = refl
  get_elem?-drop (suc n) (y ∷ xs) j = get_elem?-drop n xs j ∙ ap (get_elem? (y ∷ xs)) next
    where
      next : suc (n + j) ≡ suc n + j
      next = omega arith

  pub get_elem?-length : (xs : List A) (j : ℕ) (x : A) → get_elem? xs j ≡ some x → j < length xs
  get_elem?-length [] j x h = ground arith
  get_elem?-length (y ∷ xs) zero x h = omega arith
  get_elem?-length (y ∷ xs) (suc j) x h = omega (arith, get_elem?-length xs j x h)

-- Each byte of the list stands in the file, from the position on.
abbrev pub Holds : Bytes → ℕ → Bytes → Type 0
Holds file pos buf = (j x : ℕ) → get_elem? buf j ≡ some x → get_elem? file (pos + j) ≡ some x

module _ (file : Bytes) where
  pub Holds-nil : (pos : ℕ) → Holds file pos []
  Holds-nil pos j x h = ground arith

  pub Holds-append :
      (pos : ℕ) (xs ys : Bytes)
      → Holds file pos xs
      → Holds file (pos + length xs) ys
      → Holds file pos (xs ++ ys)
  Holds-append pos xs ys hx hy j x h = elim (get_elem?-append xs ys j x h) [
    | inl e ↦ hx j x e
    | inr (le, e) ↦ subst (λ n. get_elem? file n ≡ some x) (omega arith) (hy (j - length xs) x e)
  ]

  pub Holds-take : (pos n : ℕ) (xs : Bytes) → Holds file pos xs → Holds file pos (take n xs)
  Holds-take pos n xs h j x e = h j x (get_elem?-take n xs j x e)

  pub Holds-drop : (pos n : ℕ) (xs : Bytes) → Holds file pos xs → Holds file (pos + n) (drop n xs)
  Holds-drop pos n xs h j x e =
      subst (λ k. get_elem? file k ≡ some x) (omega arith)
        (h (n + j) x (sym (get_elem?-drop n xs j) ∙ e))
