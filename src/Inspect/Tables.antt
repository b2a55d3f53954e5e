-- ===== src/Inspect/Tables.antt =====
-- The tables of tier1/src/pipeline/inspect.rs against each other.
use thumbrella.Base.{
  ◌≡◌, refl, sym, ap, subst, ◌⊎◌, inl, inr, Bool, false, ◌||◌, List, [], ◌∷◌, map, Bytes, ascii,
  bytes_eq, bytes_eq_sound, if◌then◌else◌, strip_prefix, Bool-cases,
}
use thumbrella.Media.{FileKind}
use thumbrella.Inspect.{
  arm, aliases, mimes_by_extension, extensions_by_mime, canonical_extension, ext_to_kind,
  mime_to_kind, ext_to_mime, mime_to_extension,
}

first_or : {A : Type 0} → A → List A → A
first_or a [] = a
first_or a (x ∷ xs) = x

rest_of : {A : Type 0} → List A → List A
rest_of [] = []
rest_of (x ∷ xs) = xs

-- Two functions that agree on every row of a table agree on the row that a match takes, if it is not
-- the default.
arm_row :
    {A B : Type 0} (f g : Bytes × A → B) (rows : List (Bytes × A)) (other : A) (s : Bytes)
    → map f rows ≡ map g rows
    → (arm rows other s ≡ other) ⊎ (f (s, arm rows other s) ≡ g (s, arm rows other s))
unfolding arm first_or rest_of
arm_row f g [] other s agree = inl refl
arm_row f g ((key, a) ∷ rows) other s agree = elim (Bool-cases (bytes_eq s key)) [
  | inr e ↦ rw e (arm_row f g rows other s (ap rest_of agree))
  | inl e ↦ rw e (
      inr (
        subst (λ k. f (k, a) ≡ g (k, a)) (sym (bytes_eq_sound s key e))
          (ap (first_or (f (key, a))) agree)))
]

unfoldable by_mime : Bytes × Bytes → FileKind
by_mime (ext, mime) =
    if bytes_eq ext (ascii "emf") || bytes_eq ext (ascii "wmf")
    then ext_to_kind ext
    else mime_to_kind mime ext

unfoldable by_extension : Bytes × Bytes → FileKind
by_extension (ext, mime) = ext_to_kind ext

kinds_agree : map by_mime mimes_by_extension ≡ map by_extension mimes_by_extension
unfolding by_mime by_extension ext_to_kind mime_to_kind arm bytes_eq strip_prefix
kinds_agree = refl

by_default : (ext : Bytes) → mime_to_kind (ascii "application/octet-stream") ext ≡ ext_to_kind ext
unfolding mime_to_kind arm bytes_eq strip_prefix
by_default ext = refl

-- The kind that the MIME type of an extension gives is the kind of the extension, for every extension
-- but emf and wmf, whether the tables know it or not.
pub mime_to_kind-ext_to_mime :
    (ext : Bytes)
    → (bytes_eq ext (ascii "emf") || bytes_eq ext (ascii "wmf")) ≡ false
    → mime_to_kind (ext_to_mime ext) ext ≡ ext_to_kind ext
unfolding by_mime by_extension ext_to_mime
mime_to_kind-ext_to_mime ext plain =
    elim (arm_row by_mime by_extension mimes_by_extension (ascii "application/octet-stream") ext
      kinds_agree) [
        | inl e ↦ subst (λ m. mime_to_kind m ext ≡ ext_to_kind ext) (sym e) (by_default ext)
        | inr same ↦
            subst
              (λ b.
                (if b then ext_to_kind ext else mime_to_kind (ext_to_mime ext) ext)
                ≡ ext_to_kind ext)
              plain same
      ]

unfoldable canonical : Bytes × Bytes → Bytes
canonical (from, ext) = canonical_extension ext

-- The extensions of the older office formats, which are aliases of the newer ones.
abbrev pub is_older : Bytes → Bool
is_older ext =
    bytes_eq ext (ascii "doc") || (bytes_eq ext (ascii "xls") || bytes_eq ext (ascii "ppt"))

unfoldable canonical_newer : Bytes × Bytes → Bytes
canonical_newer (mime, ext) = if is_older ext then ext else canonical_extension ext

unfoldable named : Bytes × Bytes → Bytes
named (from, ext) = ext

names_canonical : map canonical_newer extensions_by_mime ≡ map named extensions_by_mime
unfolding canonical_newer named canonical_extension arm bytes_eq
names_canonical = refl

bin_canonical : canonical_extension (ascii "bin") ≡ ascii "bin"
unfolding canonical_extension arm bytes_eq
bin_canonical = refl

of_mime :
    (mime : Bytes)
    → is_older (mime_to_extension mime) ≡ false
    → canonical_extension (mime_to_extension mime) ≡ mime_to_extension mime
unfolding canonical_newer named mime_to_extension
of_mime mime newer =
    elim (arm_row canonical_newer named extensions_by_mime (ascii "bin") mime names_canonical) [
      | inl e ↦ subst (λ x. canonical_extension x ≡ x) (sym e) bin_canonical
      | inr same ↦
          subst
            (λ b.
              (if b then mime_to_extension mime else canonical_extension (mime_to_extension mime))
              ≡ mime_to_extension mime)
            newer same
    ]

of_alias : map canonical aliases ≡ map named aliases
unfolding canonical named canonical_extension arm bytes_eq
of_alias = refl

of_raw : (raw : Bytes) → canonical_extension (canonical_extension raw) ≡ canonical_extension raw
unfolding canonical named canonical_extension
of_raw raw = elim (arm_row canonical named aliases raw raw of_alias) [
  | inl e ↦ subst (λ x. arm aliases x x ≡ x) (sym e) e
  | inr same ↦ same
]

-- Every extension that is met is canonical: the one that a MIME type gives, unless it is doc, xls or ppt,
-- and the canonical form of any other.
pub canonical_extension-canonical :
    (mime raw : Bytes)
    → is_older (mime_to_extension mime) ≡ false
    → (canonical_extension (mime_to_extension mime) ≡ mime_to_extension mime)
      × (canonical_extension (canonical_extension raw) ≡ canonical_extension raw)
canonical_extension-canonical mime raw newer = (of_mime mime newer, of_raw raw)
