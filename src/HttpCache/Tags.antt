-- ===== src/HttpCache/Tags.antt =====
-- Entity tags in tier1/src/http_cache.rs.
use thumbrella.Base.{
  ℕ, zero, suc, ◌≤◌, ◌<◌, ◌≡◌, refl, sym, ap, subst, ◌∙◌, inl, inr, Bool, true, false, ◌||◌, Option,
  none, some, List, [], ◌∷◌, ◌++◌, Bytes, ascii, bytes_eq, if◌then◌else◌, any, strip_prefix,
  split_once-append, Avoids, trim, trim_start, is_space, length, length-append, arith, Bool-cases,
}
use mathlib.Core.List.{append-nil, append_assoc, reverse, reverse-append, reverse-reverse}
use thumbrella.HttpCache.{strong, next_tag, tags_match, value_matches, etag_matches}

-- A tag as a client writes it.
pub record Tag : Type 0 where
  pub weak : Bool
  pub opaque : Bytes

abbrev pub quoted : Tag → Bytes
quoted t = 34 ∷ t.opaque ++ 34 ∷ []

abbrev pub written : Tag → Bytes
written t = (if t.weak then ascii "W/" else []) ++ quoted t

-- `a, b, c`.
abbrev pub written_list : List Tag → Bytes
written_list [] = []
written_list (t ∷ []) = written t
written_list (t ∷ u ∷ ts) = written t ++ (ascii ", " ++ written_list (u ∷ ts))

-- No tag has a quote in it.
pub data Quotable : List Tag → Type 0 where
  no_tags : Quotable []
  quotable : {t : Tag} {ts : List Tag} → Avoids 34 t.opaque → Quotable ts → Quotable (t ∷ ts)

abbrev pub same_tag : Bytes → Tag → Bool
same_tag etag t = bytes_eq (quoted t) etag

quoted-append : (t : Tag) (s : Bytes) → (t.opaque ++ 34 ∷ []) ++ s ≡ t.opaque ++ 34 ∷ s
quoted-append t s = append_assoc t.opaque (34 ∷ []) s

strong-written :
    (t : Tag) (s : Bytes)
    → strip_prefix (34 ∷ []) (strong (written t ++ s)) ≡ some (t.opaque ++ 34 ∷ s)
unfolding strong strip_prefix
strong-written t s = elim (Bool-cases t.weak) [
  | inl weak ↦ rw weak (ap some (quoted-append t s))
  | inr strict ↦ rw strict (ap some (quoted-append t s))
]

-- A written tag begins with a byte that is no space.
written-cons :
    (t : Tag) (s : Bytes)
    → (c : ℕ) × (cs : Bytes) × (written t ++ s ≡ c ∷ cs)
      × (trim_start (written t ++ s) ≡ written t ++ s)
unfolding trim_start is_space
written-cons t s = elim (Bool-cases t.weak) [
  | inl weak ↦ (
    87,
    47 ∷ quoted t ++ s,
    ap (λ b. (if b then ascii "W/" else []) ++ quoted t ++ s) weak,
    rw weak refl,
  )
  | inr strict ↦ (
    34,
    (t.opaque ++ 34 ∷ []) ++ s,
    ap (λ b. (if b then ascii "W/" else []) ++ quoted t ++ s) strict,
    rw strict refl,
  )
]

-- What one turn of the loop does with a well-formed tag.
turn : ℕ → Bytes → Tag → Option Bytes → Bool
turn fuel etag t none = false
turn fuel etag t (some remaining) = if same_tag etag t then true else tags_match fuel etag remaining

tags_match-cons :
    (fuel : ℕ) (etag : Bytes) (t : Tag) (s : Bytes)
    → Avoids 34 t.opaque
    → tags_match (suc fuel) etag (written t ++ s) ≡ turn fuel etag t (next_tag (trim_start s))
unfolding tags_match turn
tags_match-cons fuel etag t s ok =
    let (c, cs, e, _) = written-cons t s in
    rw e (
      rw (tags_match, sym e, strong-written t s, split_once-append 34 t.opaque s ok)
        (by_next (next_tag (trim_start s))))
  where
    by_next :
        (o : Option Bytes)
        → (elim o [
          | none ↦ false
          | some remaining ↦
              if bytes_eq (34 ∷ t.opaque ++ 34 ∷ []) etag
              then true
              else tags_match fuel etag remaining
        ])
          ≡ turn fuel etag t o
    by_next none = refl
    by_next (some r) = refl

written_list-trim :
    (u : Tag) (ts : List Tag) → trim_start (written_list (u ∷ ts)) ≡ written_list (u ∷ ts)
written_list-trim u [] =
    subst (λ w. trim_start w ≡ w) (append-nil (written u)) (written-cons u []).3
written_list-trim u (v ∷ ts) = (written-cons u (ascii ", " ++ written_list (v ∷ ts))).3

next_tag-comma :
    (u : Tag) (ts : List Tag)
    → next_tag (trim_start (ascii ", " ++ written_list (u ∷ ts))) ≡ some (written_list (u ∷ ts))
unfolding next_tag trim_start is_space
next_tag-comma u ts = ap some (written_list-trim u ts)

written-two : (t : Tag) → 1 < length (written t)
written-two t = elim (Bool-cases t.weak) [
  | inl weak ↦ rw weak (omega (arith, length-append t.opaque (34 ∷ [])))
  | inr strict ↦ rw strict (omega (arith, length-append t.opaque (34 ∷ [])))
]

either : (p q : Bool) → (if p then true else q) ≡ (p || q)
either true q = refl
either false q = refl

tags_match-nil : (fuel : ℕ) (etag : Bytes) → tags_match fuel etag [] ≡ false
unfolding tags_match
tags_match-nil zero etag = refl
tags_match-nil (suc fuel) etag = refl

tags_match-any :
    (etag : Bytes) (ts : List Tag) (fuel : ℕ)
    → Quotable ts
    → length (written_list ts) ≤ fuel
    → tags_match fuel etag (written_list ts) ≡ any (same_tag etag) ts
unfolding any turn next_tag trim_start
tags_match-any etag [] fuel ok enough = tags_match-nil fuel etag
tags_match-any etag (t ∷ []) zero ok enough = absurd (omega (arith, enough, written-two t))
tags_match-any etag (t ∷ []) (suc fuel) (quotable ok more) enough =
    subst (λ w. tags_match (suc fuel) etag w ≡ (same_tag etag t || false)) (append-nil (written t))
      (tags_match-cons fuel etag t [] ok
        ∙ ap (λ b. if same_tag etag t then true else b) (tags_match-nil fuel etag)
        ∙ either (same_tag etag t) false)
tags_match-any etag (t ∷ u ∷ ts) zero ok enough = absurd (
    omega (
      arith,
      enough,
      written-two t,
      length-append (written t) (ascii ", " ++ written_list (u ∷ ts)),
    ))
tags_match-any etag (t ∷ u ∷ ts) (suc fuel) (quotable ok more) enough =
    tags_match-cons fuel etag t (ascii ", " ++ written_list (u ∷ ts)) ok
    ∙ ap (turn fuel etag t) (next_tag-comma u ts)
    ∙ ap (λ b. if same_tag etag t then true else b) (tags_match-any etag (u ∷ ts) fuel more fits)
    ∙ either (same_tag etag t) (any (same_tag etag) (u ∷ ts))
  where
    fits : length (written_list (u ∷ ts)) ≤ fuel
    fits = omega (
      arith,
      enough,
      written-two t,
      length-append (written t) (ascii ", " ++ written_list (u ∷ ts)),
    )

or_false : (p : Bool) → (p || false) ≡ p
or_false true = refl
or_false false = refl

written_list-star : (t : Tag) (ts : List Tag) → bytes_eq (written_list (t ∷ ts)) (ascii "*") ≡ false
unfolding bytes_eq
written_list-star t [] = elim (Bool-cases t.weak) [
  | inl weak ↦ rw weak refl
  | inr strict ↦ rw strict refl
]
written_list-star t (u ∷ ts) = elim (Bool-cases t.weak) [
  | inl weak ↦ rw weak refl
  | inr strict ↦ rw strict refl
]

strong-quoted : (t : Tag) → strong (written t) ≡ quoted t
unfolding strong strip_prefix
strong-quoted t = elim (Bool-cases t.weak) [ inl weak ↦ rw weak refl | inr strict ↦ rw strict refl ]

-- The text of a list ends in a quote.
written_list-last :
    (t : Tag) (ts : List Tag) → (front : Bytes) × (written_list (t ∷ ts) ≡ front ++ 34 ∷ [])
written_list-last t [] = elim (Bool-cases t.weak) [
  | inl weak ↦ (ascii "W/" ++ 34 ∷ t.opaque, rw weak refl)
  | inr strict ↦ (34 ∷ t.opaque, rw strict refl)
]
written_list-last t (u ∷ ts) =
    let (front, e) = written_list-last u ts in
    (
      written t ++ (ascii ", " ++ front),
      ap (λ w. written t ++ (ascii ", " ++ w)) e
          ∙ sym (append_assoc (written t) (ascii ", " ++ front) (34 ∷ [])),
    )

trim-written_list : (t : Tag) (ts : List Tag) → trim (written_list (t ∷ ts)) ≡ written_list (t ∷ ts)
unfolding trim trim_start is_space
trim-written_list t ts =
    let (front, e) = written_list-last t ts in
    rw (trim, written_list-trim t ts, e, reverse-append front (34 ∷ []))
      (ap reverse (sym (reverse-append front (34 ∷ []))) ∙ reverse-reverse (front ++ 34 ∷ []))

-- A list of tags that the client writes, each behind the first after a comma and a space, matches the
-- entity tag of the response if and only if one of them has the same opaque part: the weakness mark
-- does not count on either side. The length of the text is fuel enough.
pub etag_matches-any :
    (mine : Tag) (t : Tag) (ts : List Tag)
    → Quotable (t ∷ ts)
    → etag_matches (written mine) (written_list (t ∷ ts) ∷ [])
      ≡ any (same_tag (quoted mine)) (t ∷ ts)
unfolding etag_matches value_matches any
etag_matches-any mine t ts ok =
    rw (strong-quoted mine, value_matches, trim-written_list t ts, written_list-star t ts)
      (ap (λ b. b || false)
          (tags_match-any (quoted mine) (t ∷ ts) (length (written_list (t ∷ ts))) ok (omega arith))
        ∙ or_false (any (same_tag (quoted mine)) (t ∷ ts)))
