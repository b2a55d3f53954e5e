-- ===== src/Shortcut/Id3/Apic.antt =====
-- The cover image of tier1/src/pipeline/shortcut.rs is the one that the APIC frame was written with.
use thumbrella.Base.{
  ℕ, ◌/◌, ◌%◌, ◌<◌, ◌≡◌, refl, inl, inr, false, ◌||◌, some, [], ◌∷◌, ◌++◌, Bytes, ◌==◌, leb,
  if◌then◌else◌, Avoids, length, drop, length-append, Bool-cases, ge_ltb, arith,
}
use thumbrella.Shortcut.Id3.{behind_null, behind_text, extract_apic_image, synchsafe_u32, be_u32}

behind_null-append :
    (text rest : Bytes) → Avoids 0 text → behind_null (text ++ 0 ∷ rest) ≡ some rest
unfolding behind_null
behind_null-append [] rest h = refl
behind_null-append (c ∷ cs) rest h = ground (arith, behind_null-append cs rest h.1)

-- The payload of an APIC frame with a text encoding of one byte per null.
abbrev pub apic_payload : ℕ → Bytes → ℕ → Bytes → Bytes → Bytes
apic_payload encoding mime picture_type description image =
    encoding ∷ (mime ++ 0 ∷ picture_type ∷ (description ++ 0 ∷ image))

-- With an encoding other than UTF-16, the image of a payload is what stands behind the description.
pub extract_apic_image_written :
    (encoding picture_type : ℕ) (mime description image : Bytes)
    → (encoding == 1 || encoding == 2) ≡ false
    → Avoids 0 mime
    → Avoids 0 description
    → 0 < length image
    → extract_apic_image (apic_payload encoding mime picture_type description image) ≡ some image
unfolding extract_apic_image behind_text drop
extract_apic_image_written encoding picture_type mime description image narrow clean_mime clean_desc
      some_image =
    let tail = description ++ 0 ∷ image in
    let size = length-append description (0 ∷ image) in
    rw
      (
        ge_ltb (length (apic_payload encoding mime picture_type description image)) 4
            (omega (arith, size, length-append mime (0 ∷ picture_type ∷ tail))),
        narrow,
        behind_null-append mime (picture_type ∷ tail) clean_mime,
        ge_ltb (length (picture_type ∷ tail)) 2 (omega (arith, size)),
        behind_null-append description image clean_desc,
        positive,
      )
      refl
  where
    positive : (length image == 0) ≡ false
    positive = ground arith

-- A size as it is written: 28 bits in bytes of seven from version 4 on, and before that 32 bits.
abbrev pub size_bytes : ℕ → ℕ → Bytes
size_bytes major n =
    if leb 4 major
    then n / 2097152 ∷ n / 16384 % 128 ∷ n / 128 % 128 ∷ n % 128 ∷ []
    else n / 16777216 ∷ n / 65536 % 256 ∷ n / 256 % 256 ∷ n % 256 ∷ []

abbrev pub size_limit : ℕ → ℕ
size_limit major = if leb 4 major then 268435456 else 4294967296

-- A size field below its limit, 2^28 from version 4 on and else 2^32, is read back.
pub size_bytes-read :
    (major n : ℕ)
    → n < size_limit major
    → (if leb 4 major then synchsafe_u32 (size_bytes major n) else be_u32 (size_bytes major n)) ≡ n
unfolding synchsafe_u32 be_u32
size_bytes-read major n small = elim (Bool-cases (leb 4 major)) [
  | inl e ↦ rw e (omega (arith, rw e at small))
  | inr e ↦ rw e (omega (arith, rw e at small))
]
