-- ===== src/UrlSafety/Allowlist.antt =====
-- The allowlist of hosts of tier1/src/url_safety.rs.
use thumbrella.Base.{
  any, ends_with, ℕ, zero, suc, ◌-◌, ◌≡◌, refl, subst, sym, ap, ◌∙◌, ◌↔◌, inl, inr, Bool, true,
  false, ◌||◌, Option, none, some, List, [], ◌∷◌, ◌++◌, Bytes, ascii, bytes_eq, bytes_eq_sound,
  bytes_eq_self, leb, strip_prefix, to_ascii_lowercase, get_elem?, length, length-append, take,
  drop, take-drop, drop-append_length, arith, Bool-cases, Option-cases,
}
use thumbrella.UrlSafety.{Url, pattern_allows, url_host_allowed}

-- How a host fits an entry of the allowlist; both are in lower case.
pub data Fits (host entry : Bytes) : Type 0 where
  exactly :
      strip_prefix (ascii "*.") entry ≡ none → host ≡ to_ascii_lowercase entry → Fits host entry
  below :
      (suffix label : Bytes)
      → strip_prefix (ascii "*.") entry ≡ some suffix
      → host ≡ label ++ (ascii "." ++ to_ascii_lowercase suffix)
      → Fits host entry

ends_with-split :
    (s suffix : Bytes) → ends_with s suffix ≡ true → (front : Bytes) × (s ≡ front ++ suffix)
unfolding ends_with
ends_with-split s suffix h = (
  take (length s - length suffix) s,
  sym (take-drop (length s - length suffix) s)
      ∙ ap (λ t. take (length s - length suffix) s ++ t) (bytes_eq_sound _ _ tail),
)
  where
    tail : bytes_eq (drop (length s - length suffix) s) suffix ≡ true
    tail = ground arith

ends_with-append : (front suffix : Bytes) → ends_with (front ++ suffix) suffix ≡ true
unfolding ends_with
ends_with-append front suffix =
    rw
      (
        fits,
        subst (λ n. drop n (front ++ suffix) ≡ suffix) start (drop-append_length front suffix),
        bytes_eq_self suffix,
      )
      refl
  where
    fits : leb (length suffix) (length (front ++ suffix)) ≡ true
    fits = ground (arith, length-append front suffix)

    start : length front ≡ length (front ++ suffix) - length suffix
    start = omega (arith, length-append front suffix)

pattern_allows-Fits : (host entry : Bytes) → pattern_allows host entry ≡ true → Fits host entry
unfolding pattern_allows
pattern_allows-Fits host entry = elim (Option-cases (strip_prefix (ascii "*.") entry)) [
  | inl plain ↦ rw (plain, pattern_allows) (λ h. exactly plain (bytes_eq_sound _ _ h))
  | inr (suffix, wild) ↦
      rw (wild, pattern_allows)
        (λ h. let (label, split) = ends_with-split _ _ h in below suffix label wild split)
]

Fits-pattern_allows : (host entry : Bytes) → Fits host entry → pattern_allows host entry ≡ true
unfolding pattern_allows strip_prefix
Fits-pattern_allows host entry (exactly plain e) =
    rw (plain, e) (bytes_eq_self (to_ascii_lowercase entry))
Fits-pattern_allows host entry (below suffix label wild e) =
    rw (wild, e) (ends_with-append label (ascii "." ++ to_ascii_lowercase suffix))

any-get_elem? {ℓ} :
    {A : Type ℓ} (p : A → Bool) (xs : List A)
    → any p xs ≡ true
    → (i : ℕ) × (x : A) × (get_elem? xs i ≡ some x) × (p x ≡ true)
unfolding any
any-get_elem? p [] h = absurd (ground arith)
any-get_elem? p (x ∷ xs) h = elim (Bool-cases (p x)) [
  | inl here ↦ (0, x, refl, here)
  | inr not_here ↦
      let (i, y, at, holds) = any-get_elem? p xs (subst (λ b. (b || any p xs) ≡ true) not_here h) in
      (suc i, y, at, holds)
]

get_elem?-any {ℓ} :
    {A : Type ℓ} (p : A → Bool) (xs : List A) (i : ℕ) (x : A)
    → get_elem? xs i ≡ some x
    → p x ≡ true
    → any p xs ≡ true
unfolding any
get_elem?-any p [] i x at holds = absurd (ground arith)
get_elem?-any p (y ∷ ys) zero x at holds = rw (ap p same, holds) refl
  where
    same : y ≡ x
    same = cc
get_elem?-any p (y ∷ ys) (suc i) x at holds = rw (get_elem?-any p ys i x at holds) (ground arith)

module _ (parse : Bytes → Option Url) where
  -- The URL parses, has a host, and that host in lower case fits an entry of the list.
  pub record Allowed (url : Bytes) (allowed : List Bytes) : Type 0 where
    pub parsed : Url
    pub parses : parse url ≡ some parsed
    pub host : Bytes
    pub has_host : parsed.host_str ≡ some host
    pub index : ℕ
    pub entry : Bytes
    pub listed : get_elem? allowed index ≡ some entry
    pub fits : Fits (to_ascii_lowercase host) entry

  -- A list that is not empty lets a URL through if and only if the URL's host in lower case is one of
  -- its entries, or ends in a dot and the rest of one of its entries that begin with `*.`; the case
  -- of the entries does not matter.
  pub url_host_allowed-Allowed :
      (url first : Bytes) (others : List Bytes)
      → (url_host_allowed parse url (first ∷ others) ≡ true) ↔ Allowed url (first ∷ others)
  unfolding url_host_allowed
  url_host_allowed-Allowed url first others = (passes, reaches)
    where
      tests : Bytes → Bool
      tests host = any (pattern_allows (to_ascii_lowercase host)) (first ∷ others)

      of_host :
          (u : Url) (h : Option Bytes)
          → u.host_str ≡ h
          → parse url ≡ some u
          → (elim h [ none ↦ false | some host ↦ tests host ]) ≡ true
          → Allowed url (first ∷ others)
      of_host u none e parses allowed = absurd (ground arith)
      of_host u (some host) e parses allowed =
          let (i, entry, listed, fits) =
            any-get_elem? (pattern_allows (to_ascii_lowercase host)) (first ∷ others) allowed in
          record {
            parsed = u;
            parses = parses;
            host = host;
            has_host = e;
            index = i;
            entry = entry;
            listed = listed;
            fits = pattern_allows-Fits (to_ascii_lowercase host) entry fits;
          }

      of_parse :
          (o : Option Url)
          → parse url ≡ o
          → (elim o [
            | none ↦ false
            | some u ↦ elim u.host_str [ none ↦ false | some host ↦ tests host ]
          ])
            ≡ true
          → Allowed url (first ∷ others)
      of_parse none e allowed = absurd (ground arith)
      of_parse (some u) e allowed = of_host u u.host_str refl e allowed

      passes : url_host_allowed parse url (first ∷ others) ≡ true → Allowed url (first ∷ others)
      passes allowed = of_parse (parse url) refl allowed

      reaches : Allowed url (first ∷ others) → url_host_allowed parse url (first ∷ others) ≡ true
      reaches r =
          rw (url_host_allowed, r.parses, r.has_host)
            (get_elem?-any (pattern_allows (to_ascii_lowercase r.host)) (first ∷ others) r.index
              r.entry r.listed (Fits-pattern_allows (to_ascii_lowercase r.host) r.entry r.fits))

-- A `*.` entry does not let the bare parent domain through.
pub pattern_allows-parent :
    (parent : Bytes) → pattern_allows (to_ascii_lowercase parent) (ascii "*." ++ parent) ≡ false
unfolding pattern_allows ends_with strip_prefix
pattern_allows-parent parent = rw too_long refl
  where
    too_long :
        leb (length (ascii "." ++ to_ascii_lowercase parent)) (length (to_ascii_lowercase parent))
        ≡ false
    too_long = ground arith
