-- ===== src/Shortcut/Tiff/Turns.antt =====
-- The loop of `find_tiff_embedded_jpeg_span` in tier1/src/pipeline/shortcut.rs ends: a directory is read
-- once, and what it puts in the queue is bounded by the length of the buffer.
use thumbrella.Base.{
  ℕ, zero, suc, ◌+◌, ◌*◌, ◌≤◌, ◌<◌, ◌≡◌, refl, sym, ap, subst, ◌∙◌, inl, inr, Bool, false, Option,
  none, some, List, [], ◌∷◌, ◌++◌, Bytes, ◌==◌, ltb, if◌then◌else◌, any, length, length-append,
  Bool-cases, Option-cases, ==_iff, min, unwrap_or, bind_some, if_some, ltb_ge, arith,
}
use thumbrella.Base.Loop.{go, Ends, loop-Ends, loop, go≢stop, gone}
use thumbrella.Shortcut.Readers.{read_u16, read_u32}
use thumbrella.Shortcut.Tiff.{
  parse_tiff_ifd, inside, has, span_turn, span_fuel, for_entries, read_values, tiff_subifd_offsets,
  note_tag, ifd_entry, IfdFields, no_fields,
}
use thumbrella.Shortcut.Tiff.Search.{links, offer, longer, parsed, turn_again, turn_fresh}

length-read_values :
    (read : ℕ → Option ℕ) (width count off : ℕ) → length (read_values read width count off) ≤ count
unfolding read_values
length-read_values read width zero off = omega arith
length-read_values read width (suc count) off = elim (Option-cases (read off)) [
  | inl e ↦ rw (e, length) (omega (arith, length-read_values read width count (off + width)))
  | inr (v, e) ↦ rw (e, length) (omega (arith, length-read_values read width count (off + width)))
]

length-subifd_offsets :
    (buf : Bytes) (ft fc v : ℕ) (little : Bool)
    → length (tiff_subifd_offsets buf ft fc v little) ≤ 32
unfolding tiff_subifd_offsets
length-subifd_offsets buf ft fc v little =
    ground (arith, length-read_values (λ off. read_u32 buf off little) 4 (min fc 32) v)

length-note_tag :
    (buf : Bytes) (little : Bool) (tag ft fc v : ℕ) (s : IfdFields)
    → length (note_tag buf little tag ft fc v s).sub_ifds ≤ length s.sub_ifds + 32
unfolding note_tag
length-note_tag buf little tag ft fc v s = elim (Bool-cases (tag == 330)) [
  | inl e ↦
      let new = tiff_subifd_offsets buf ft fc v little in
      rw e (omega (arith, length-append s.sub_ifds new, length-subifd_offsets buf ft fc v little))
  | inr e ↦ rw e (omega arith)
]

ifd_entry_grows :
    (buf : Bytes) (little : Bool) (entry : ℕ) (s t : IfdFields)
    → ifd_entry buf little entry s ≡ some t
    → length t.sub_ifds ≤ length s.sub_ifds + 32
unfolding ifd_entry
ifd_entry_grows buf little entry s t e =
    let (tag, e0, h0) = bind_some (read_u16 buf entry little) _ t e in
    let (ft, e1, h1) = bind_some (read_u16 buf (entry + 2) little) _ t h0 in
    let (fc, e2, h2) = bind_some (read_u32 buf (entry + 4) little) _ t h1 in
    let (v, e3, h3) = bind_some (read_u32 buf (entry + 8) little) _ t h2 in
    subst (λ x. length x.sub_ifds ≤ length s.sub_ifds + 32) (ap (λ o. unwrap_or o t) h3)
      (length-note_tag buf little tag ft fc v s)

mul_step : (u k : ℕ) → suc u * k ≡ u * k + k
mul_step u k = grind arith

for_entries_grows {ℓ} :
    {S : Type ℓ} (buf : Bytes) (body : ℕ → S → Option S) (m : S → ℕ) (c : ℕ)
    → ((entry : ℕ) (s t : S) → body entry s ≡ some t → m t ≤ m s + c)
    → (rounds entry : ℕ) (s t : S) → for_entries buf body rounds entry s ≡ some t
    → m t ≤ m s + rounds * c
unfolding for_entries
for_entries_grows buf body m c grows zero entry s t e =
    subst (λ x. m x ≤ m s + 0 * c) (ap (λ o. unwrap_or o t) e) (omega arith)
for_entries_grows buf body m c grows (suc rounds) entry s t e =
    elim (Bool-cases (ltb (length buf) (entry + 12))) [
      | inl short ↦
          subst (λ x. m x ≤ m s + suc rounds * c) (ap (λ o. unwrap_or o t) (rw short at e))
            (omega arith)
      | inr long ↦ elim (Option-cases (body entry s)) [
        | inl e1 ↦ ground (arith, rw (long, e1) at e)
        | inr (r, e1) ↦ omega (
          arith,
          mul_step rounds c,
          grows entry s r e1,
          for_entries_grows buf body m c grows rounds (entry + 12) r t (rw (long, e1) at e),
        )
      ]
    ]

length-inside : (buf : Bytes) (ts : List ℕ) → length (inside buf ts) ≤ length ts
unfolding inside
length-inside buf [] = omega arith
length-inside buf (t ∷ ts) = ground (arith, length-inside buf ts)

subs_of : Option (ℕ × List ℕ × Option ℕ × Option ℕ) → List ℕ
subs_of none = []
subs_of (some (next, subs, joff, jlen)) = subs

few_links :
    (len off count subs found : ℕ)
    → off + 2 + count * 12 + 4 ≤ len
    → found ≤ 0 + count * 32
    → found ≡ subs
    → subs ≤ 3 * len
few_links len off count subs found fits many same = omega arith

-- A directory that is read lies in the buffer, and links at most four times its length.
links_bound :
    (buf : Bytes) (little : Bool) (off : ℕ) (next : ℕ) (subs : List ℕ) (joff jlen : Option ℕ)
    → parse_tiff_ifd buf off little ≡ some (next, subs, joff, jlen)
    → (off < length buf) × (length subs ≤ 3 * length buf)
unfolding parse_tiff_ifd subs_of
links_bound buf little off next subs joff jlen e =
    let (inside_buf, h0) = if_some (ltb (length buf) (off + 2)) _ _ e in
    let (count, e1, h1) = bind_some (read_u16 buf off little) _ _ h0 in
    let (ptr, e2, h2) =
      bind_some
        (if ltb (length buf) (off + 2 + count * 12 + 4) then none else some (off + 2 + count * 12))
        _ _ h1 in
    let (fits, e3) = if_some (ltb (length buf) (off + 2 + count * 12 + 4)) _ _ e2 in
    let (fields, e4, h4) =
      bind_some (for_entries buf (ifd_entry buf little) count (off + 2) no_fields) _ _ h2 in
    let (n, e5, h5) = bind_some (read_u32 buf ptr little) _ _ h4 in
    let many =
      for_entries_grows buf (ifd_entry buf little) (λ f. length f.sub_ifds) 32
        (ifd_entry_grows buf little) count (off + 2) no_fields fields e4 in
    let same = ap (λ o. length (subs_of o)) h5 in
    (
      omega (arith, ltb_ge (length buf) (off + 2) inside_buf),
      few_links (length buf) off count (length subs) (length fields.sub_ifds)
          (ltb_ge (length buf) (off + 2 + count * 12 + 4) fits) many same,
    )

module _ (buf : Bytes) (little : Bool) where
  -- How many of the offsets below `n` are still to be visited.
  abbrev unseen : ℕ → List ℕ → ℕ
  unseen zero visited = 0
  unseen (suc n) visited = (if has visited n then 0 else 1) + unseen n visited

  unseen_step : (n off : ℕ) (visited : List ℕ) → unseen n (off ∷ visited) ≤ unseen n visited
  unfolding any
  unseen_step zero off visited = omega arith
  unseen_step (suc n) off visited = ground (arith, unseen_step n off visited)

  unseen_fresh :
      (n off : ℕ) (visited : List ℕ)
      → has visited off ≡ false
      → off < n
      → suc (unseen n (off ∷ visited)) ≤ unseen n visited
  unfolding any
  unseen_fresh zero off visited fresh h = absurd (omega arith)
  unseen_fresh (suc n) off visited fresh h = elim (Bool-cases (n == off)) [
    | inl e ↦
        let last = subst (λ x. has visited x ≡ false) (sym ((==_iff n off).0 e)) fresh in
        ground (arith, unseen_step n off visited)
    | inr e ↦ ground (arith, unseen_fresh n off visited fresh (below e))
  ]
    where
      below : (n == off) ≡ false → off < n
      below e = ground arith

  unseen_nil : (n : ℕ) → unseen n [] ≡ n
  unfolding any
  unseen_nil zero = refl
  unseen_nil (suc n) = omega (arith, unseen_nil n)

  abbrev room : ℕ
  room = 4 * length buf + 2

  abbrev work : List ℕ × List ℕ × Option (ℕ × ℕ) → ℕ
  work (queue, visited, best) = unseen (length buf) visited * room + length queue

  mul_mono : (a b k : ℕ) → a ≤ b → a * k ≤ b * k
  mul_mono a b k h = grind arith

  work_fresh :
      (off : ℕ) (queue visited : List ℕ) (best best' : Option (ℕ × ℕ))
      → has visited off ≡ false
      → work (queue ++ links buf (parsed buf little off), off ∷ visited, best')
        < work (off ∷ queue, visited, best)
  unfolding links
  work_fresh off queue visited best best' fresh = elim (Option-cases (parsed buf little off)) [
    | inl e ↦ rw e (
        omega (
          arith,
          length-append queue [],
          mul_mono (unseen (length buf) (off ∷ visited)) (unseen (length buf) visited) room
              (unseen_step (length buf) off visited),
        ))
    | inr ((next, subs, joff, jlen), e) ↦
        let (within, few) = links_bound buf little off next subs joff jlen e in
        rw e (
          omega (
            arith,
            length-append queue (inside buf (next ∷ subs)),
            length-inside buf (next ∷ subs),
            within,
            few,
            mul_step (unseen (length buf) (off ∷ visited)) room,
            mul_mono (suc (unseen (length buf) (off ∷ visited))) (unseen (length buf) visited) room
                (unseen_fresh (length buf) off visited fresh within),
          ))
  ]

  work_falls :
      (s t : List ℕ × List ℕ × Option (ℕ × ℕ))
      → Unit {0}
      → span_turn buf little s ≡ go t
      → Unit {0} × (work t < work s)
  unfolding span_turn
  work_falls ([], visited, best) t u e = absurd (go≢stop t best (sym e))
  work_falls (off ∷ queue, visited, best) t u e = elim (Bool-cases (has visited off)) [
    | inl again ↦ (
      u,
      subst (λ x. work x < work (off ∷ queue, visited, best))
          (ap (gone t) (sym (turn_again buf little off queue visited best again) ∙ e))
          (omega arith),
    )
    | inr fresh ↦ (
      u,
      subst (λ x. work x < work (off ∷ queue, visited, best))
          (ap (gone t) (sym (turn_fresh buf little off queue visited best fresh) ∙ e))
          (work_fresh off queue visited best (longer (offer (parsed buf little off)) best) fresh),
    )
  ]

  pub span_turn-Ends :
      (start : ℕ)
      → Ends
          (span_turn buf little)
          (start ∷ [], [], none)
          (loop (span_fuel buf) (span_turn buf little) none (start ∷ [], [], none))
  unfolding span_fuel
  span_turn-Ends start =
      loop-Ends (span_turn buf little) (λ s. Unit {0}) work work_falls (span_fuel buf) none
        (start ∷ [], [], none) tt
        (omega (
          arith,
          unseen_nil (length buf),
          mul_mono (unseen (length buf) []) (length buf) room
              (omega (arith, unseen_nil (length buf))),
        ))
