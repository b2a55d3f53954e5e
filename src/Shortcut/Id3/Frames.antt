-- ===== src/Shortcut/Id3/Frames.antt =====
-- The walk over the frames of an ID3v2 tag in tier1/src/pipeline/shortcut.rs ends, and comes to the APIC
-- frame.
use thumbrella.Base.{
  ℕ, suc, ◌+◌, ◌-◌, ◌≤◌, ◌<◌, ◌≡◌, refl, sym, ap, ◌⊎◌, inl, inr, true, false, none, List, [], ◌∷◌,
  ◌++◌, Bytes, bytes_eq, ltb, leb, min, length, Bool-cases, ge_ltb, ltb_ge, arith,
}
use thumbrella.Base.Loop.{go, stop, loop, Ends, loop-Ends, go≢stop, gone}
use thumbrella.Shortcut.Id3.{is_valid_frame_id, extract_apic_image, apic_id, frame_turn}
use thumbrella.Shortcut.Id3.Apic.{size_bytes, size_limit, size_bytes-read}
use thumbrella.Shortcut.Readers.{slice}

-- A frame as it is written.
pub record Frame : Type 0 where
  pub i0 : ℕ
  pub i1 : ℕ
  pub i2 : ℕ
  pub i3 : ℕ
  pub flags0 : ℕ
  pub flags1 : ℕ
  pub body : Bytes

abbrev pub id_of : Frame → Bytes
id_of f = f.i0 ∷ f.i1 ∷ f.i2 ∷ f.i3 ∷ []

abbrev pub frame_bytes : ℕ → Frame → Bytes → Bytes
frame_bytes major f rest =
    id_of f ++ (size_bytes major (length f.body) ++ (f.flags0 ∷ f.flags1 ∷ (f.body ++ rest)))

abbrev pub frames_bytes : ℕ → List Frame → Bytes → Bytes
frames_bytes major [] rest = rest
frames_bytes major (f ∷ fs) rest = frame_bytes major f (frames_bytes major fs rest)

abbrev pub IsCapital : ℕ → Type 0
IsCapital c = (65 ≤ c) × (c ≤ 90)

-- Three capital letters, and a letter or a digit.
abbrev pub IsLettered : Frame → Type 0
IsLettered f =
    IsCapital f.i0
    × IsCapital f.i1
    × IsCapital f.i2
    × (IsCapital f.i3 ⊎ ((48 ≤ f.i3) × (f.i3 ≤ 57)) ⊎ ((97 ≤ f.i3) × (f.i3 ≤ 122)))

-- Frames with an identifier of that form other than `APIC`, and a size that the field can hold.
abbrev pub Skipped : ℕ → List Frame → Type 0
Skipped major [] = Unit {0}
Skipped major (f ∷ fs) =
    IsLettered f
    × (bytes_eq (id_of f) apic_id ≡ false)
    × (length f.body < size_limit major)
    × Skipped major fs

pub is_valid_frame_id-IsLettered : (f : Frame) → IsLettered f → is_valid_frame_id (id_of f) ≡ true
unfolding is_valid_frame_id
is_valid_frame_id-IsLettered f lettered = ground arith

pub length-size_bytes : (major n : ℕ) → length (size_bytes major n) ≡ 4
length-size_bytes major n = elim (Bool-cases (leb 4 major)) [
  | inl e ↦ rw e refl
  | inr e ↦ rw e refl
]

module _ (buf : Bytes) (major : ℕ) where
  walks_on :
      (pos t : ℕ)
      → Unit {0}
      → frame_turn buf major pos ≡ go t
      → Unit {0} × (length buf - t < length buf - pos)
  unfolding frame_turn
  walks_on pos t u e = elim (Bool-cases (ltb (length buf) (pos + 10))) [
    | inl short ↦ absurd (go≢stop t _ (sym (rw short at e)))
    | inr long ↦ elim (Bool-cases (is_valid_frame_id (slice buf pos (pos + 4)))) [
      | inr other ↦ absurd (go≢stop t _ (sym (rw (long, other) at e)))
      | inl valid ↦ elim (Bool-cases (bytes_eq (slice buf pos (pos + 4)) apic_id)) [
        | inl here ↦ absurd (go≢stop t _ (sym (rw (long, valid, here) at e)))
        | inr there ↦
            let on = ap (λ x. gone {S = ℕ} pos x) (rw (long, valid, there) at e) in
            (u, omega (arith, on, ltb_ge (length buf) (pos + 10) long))
      ]
    ]
  ]

  pub frame_turn-Ends :
      (pos : ℕ)
      → Ends (frame_turn buf major) pos (loop (suc (length buf)) (frame_turn buf major) none pos)
  frame_turn-Ends pos =
      loop-Ends (frame_turn buf major) (λ s. Unit {0}) (λ s. length buf - s) walks_on
        (suc (length buf)) none pos tt (omega arith)

  -- What a turn does at a frame whose fields are known.
  module _ (pos size : ℕ) (id : Bytes) (fits : pos + 10 + size ≤ length buf)
      (id_here : slice buf pos (pos + 4) ≡ id) (valid : is_valid_frame_id id ≡ true)
      (size_here : slice buf (pos + 4) (pos + 8) ≡ size_bytes major size)
      (small : size < size_limit major) where
    pub turn_skips : bytes_eq id apic_id ≡ false → frame_turn buf major pos ≡ go (pos + 10 + size)
    unfolding frame_turn
    turn_skips other =
        rw
          (
            ge_ltb (length buf) (pos + 10) (omega arith),
            id_here,
            valid,
            other,
            size_here,
            size_bytes-read major size small,
          )
          refl

    pub turn_finds :
        bytes_eq id apic_id ≡ true
        → frame_turn buf major pos
          ≡ stop (extract_apic_image (slice buf (pos + 10) (pos + 10 + size)))
    unfolding frame_turn
    turn_finds here =
        let all : min (pos + 10 + size) (length buf) ≡ pos + 10 + size = omega arith in
        rw
          (
            ge_ltb (length buf) (pos + 10) (omega arith),
            id_here,
            valid,
            here,
            size_here,
            size_bytes-read major size small,
            all,
          )
          refl
