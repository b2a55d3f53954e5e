-- ===== src/Hints/Followed.antt =====
-- When something behind the first field of the wire buffer is not all zeros.
use thumbrella.Base.{
  ℕ, ◌≡◌, ◌≢◌, refl, Bool, true, false, ◌||◌, Option, none, some, [], ◌∷◌, ◌++◌, Bytes, is_some,
  arith, length, min,
}
use thumbrella.Hints.{CacheHints}
use thumbrella.Hints.Wire.{u32_field, bool_field, push_str_field}
use thumbrella.Hints.Trim.{strip_zeros, strip_zeros-cons_ne, strip_zeros-nonzero}

-- The fields behind `stale_while_revalidate`, as they are pushed.
unfoldable pub tail_fields : CacheHints → Bytes
unfolding u32_field bool_field push_str_field
tail_fields h =
    bool_field h.immutable
    ∷ (push_str_field h.etag
        ++ (push_str_field h.last_modified
            ++ (bool_field h.no_store
                ∷ bool_field h.private
                ∷ bool_field h.no_cache
                ∷ u32_field h.max_age)))

has_text : Option Bytes → Bool
has_text none = false
has_text (some []) = false
has_text (some (c ∷ cs)) = true

-- A field behind `stale_while_revalidate` that is not all zeros.
unfoldable pub followed : CacheHints → Bool
unfolding has_text
followed h =
    h.immutable
    || (has_text h.etag || (has_text h.last_modified || (h.no_cache || is_some h.max_age)))

either : {P : Type 0} (a b : Bool) → (a ≡ true → P) → (b ≡ true → P) → (a || b) ≡ true → P
either true b f g e = f refl
either false b f g e = g e

abbrev pub Live : Bytes → Type 0
Live xs = strip_zeros xs ≢ []

Live-tail : (x : ℕ) (r : Bytes) → Live r → Live (x ∷ r)
Live-tail x r h = rw (strip_zeros-cons_ne x r h) (λ e. cc)

Live-head : (x : ℕ) (r : Bytes) → x ≢ 0 → Live (x ∷ r)
Live-head x r h = rw (strip_zeros-nonzero x r h) (λ e. cc)

Live-append : (xs r : Bytes) → Live r → Live (xs ++ r)
Live-append [] r h = h
Live-append (x ∷ xs) r h = Live-tail x (xs ++ r) (Live-append xs r h)

Live-bool : (b : Bool) (r : Bytes) → b ≡ true → Live (bool_field b ∷ r)
unfolding bool_field
Live-bool b r e = rw e (Live-head 1 r (omega arith))

Live-text : (s : Option Bytes) (r : Bytes) → has_text s ≡ true → Live (push_str_field s ++ r)
unfolding push_str_field has_text
Live-text none r e = cc
Live-text (some []) r e = cc
Live-text (some (c ∷ cs)) r e = Live-head (min (length (c ∷ cs)) 255) _ (omega arith)

Live-word : (m : Option ℕ) → is_some m ≡ true → Live (u32_field m)
unfolding u32_field
Live-word none e = cc
Live-word (some n) e = Live-head 4 _ (omega arith)

pub Live-tail_fields : (h : CacheHints) → followed h ≡ true → Live (tail_fields h)
unfolding followed tail_fields
Live-tail_fields h = either h.immutable _ (Live-bool h.immutable _) λ e1. Live-tail _ _ (
    either (has_text h.etag) _ (Live-text h.etag _)
      (λ e2. Live-append (push_str_field h.etag) _ (
        either (has_text h.last_modified) _ (Live-text h.last_modified _)
          (λ e3. Live-append (push_str_field h.last_modified) _ (
            Live-tail _ _ (
              Live-tail _ _ (
                either h.no_cache _ (Live-bool h.no_cache _)
                  (λ e4. Live-tail _ _ (Live-word h.max_age e4)) e3))))
          e2))
      e1)
