-- ===== src/Hints/Trim.antt =====
-- What the trimming of trailing zero bytes leaves of a buffer, field by field.
use mathlib.Core.List.{reverse, reverse-append, reverse-cons, reverse-reverse}
use thumbrella.Base.{
  ap, sym, ◌∙◌, ℕ, ◌≡◌, refl, ◌⊎◌, inl, ◌≢◌, [], ◌∷◌, ◌++◌, Bytes, ◌==◌, if◌then◌else◌, arith,
  length, ◌≤◌,
}
use thumbrella.Hints.Wire.{pop_zeros, trim_zeros}

strip_cons : ℕ → Bytes → Bytes
strip_cons x [] = if x == 0 then [] else x ∷ []
strip_cons x (y ∷ ys) = x ∷ y ∷ ys

-- Every zero byte at the end is gone, the first one included.
unfoldable pub strip_zeros : Bytes → Bytes
unfolding strip_cons
strip_zeros [] = []
strip_zeros (x ∷ xs) = strip_cons x (strip_zeros xs)

-- The same on the reversed buffer.
drop_zeros : Bytes → Bytes
drop_zeros [] = []
drop_zeros (x ∷ xs) = if x == 0 then drop_zeros xs else x ∷ xs

-- The loop stops at one byte, which it keeps.
pop_zeros-drop_zeros :
    (xs : Bytes) → (pop_zeros xs ≡ drop_zeros xs) ⊎ ((drop_zeros xs ≡ []) × (pop_zeros xs ≡ 0 ∷ []))
unfolding pop_zeros drop_zeros
pop_zeros-drop_zeros [] = inl refl
pop_zeros-drop_zeros (x ∷ []) = ground arith
pop_zeros-drop_zeros (x ∷ y ∷ r) = ground (arith, pop_zeros-drop_zeros (y ∷ r))

drop_snoc : Bytes → ℕ → Bytes
drop_snoc [] x = if x == 0 then [] else x ∷ []
drop_snoc (y ∷ ys) x = (y ∷ ys) ++ x ∷ []

drop_zeros-append : (xs : Bytes) (x : ℕ) → drop_zeros (xs ++ x ∷ []) ≡ drop_snoc (drop_zeros xs) x
unfolding drop_zeros drop_snoc
drop_zeros-append [] x = ground arith
drop_zeros-append (y ∷ ys) x = ground (arith, drop_zeros-append ys x)

strip_cons-append : (x y : ℕ) (r : Bytes) → strip_cons x (r ++ y ∷ []) ≡ x ∷ (r ++ y ∷ [])
unfolding strip_cons
strip_cons-append x y [] = refl
strip_cons-append x y (z ∷ r) = refl

strip_cons-reverse : (x : ℕ) (d : Bytes) → strip_cons x (reverse d) ≡ reverse (drop_snoc d x)
unfolding drop_snoc
strip_cons-reverse x [] = unfold strip_cons in ground arith
strip_cons-reverse x (y ∷ ys) =
    rw (reverse-append (y ∷ ys) (x ∷ []), reverse-cons y ys) (strip_cons-append x y (reverse ys))

strip_zeros-drop_zeros : (xs : Bytes) → strip_zeros xs ≡ reverse (drop_zeros (reverse xs))
unfolding strip_zeros
strip_zeros-drop_zeros [] = unfold drop_zeros in refl
strip_zeros-drop_zeros (x ∷ xs) =
    rw (strip_zeros-drop_zeros xs, reverse-cons x xs, drop_zeros-append (reverse xs) x)
      (strip_cons-reverse x (drop_zeros (reverse xs)))

-- The loop of the encoder strips the zeros, but for the one byte that it always leaves.
pub trim_zeros-strip_zeros :
    (xs : Bytes)
    → (trim_zeros xs ≡ strip_zeros xs) ⊎ ((strip_zeros xs ≡ []) × (trim_zeros xs ≡ 0 ∷ []))
unfolding trim_zeros
trim_zeros-strip_zeros xs =
    ground (arith, pop_zeros-drop_zeros (reverse xs), strip_zeros-drop_zeros xs)

pub strip_zeros-cons_ne :
    (x : ℕ) (xs : Bytes) → strip_zeros xs ≢ [] → strip_zeros (x ∷ xs) ≡ x ∷ strip_zeros xs
unfolding strip_zeros strip_cons
strip_zeros-cons_ne x xs h = ground arith

pub strip_zeros-nonzero : (x : ℕ) (xs : Bytes) → x ≢ 0 → strip_zeros (x ∷ xs) ≡ x ∷ strip_zeros xs
unfolding strip_zeros strip_cons
strip_zeros-nonzero x xs h = ground arith

-- Four bytes that end in a zero leave three at most.
pub length-strip_zeros_cut : (a b c : ℕ) → length (strip_zeros (a ∷ b ∷ c ∷ 0 ∷ [])) ≤ 3
unfolding strip_zeros strip_cons
length-strip_zeros_cut a b c = ground arith

pop_zeros-ne : (xs : Bytes) → xs ≢ [] → pop_zeros xs ≢ []
unfolding pop_zeros
pop_zeros-ne [] h = h
pop_zeros-ne (x ∷ []) h = λ e. cc
pop_zeros-ne (x ∷ y ∷ r) h = ground (arith, pop_zeros-ne (y ∷ r))

reverse-nil : (xs : Bytes) → reverse xs ≡ [] → xs ≡ []
reverse-nil xs e = sym (reverse-reverse xs) ∙ ap reverse e

-- The loop never empties a buffer.
pub trim_zeros-ne : (xs : Bytes) → xs ≢ [] → trim_zeros xs ≢ []
unfolding trim_zeros
trim_zeros-ne xs h e =
    pop_zeros-ne (reverse xs) (λ n. h (reverse-nil xs n)) (reverse-nil (pop_zeros (reverse xs)) e)
