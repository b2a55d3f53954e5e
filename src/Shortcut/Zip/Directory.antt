-- ===== src/Shortcut/Zip/Directory.antt =====
-- The scan of a central directory in tier1/src/pipeline/shortcut.rs ends, and reads each entry that was
-- written.
use thumbrella.Base.{
  ℕ, suc, ◌+◌, ◌-◌, ◌≤◌, ◌<◌, ◌≡◌, refl, sym, ap, subst, ◌∙◌, inl, inr, true, List, [], ◌∷◌, ◌++◌,
  Bytes, bytes_eq, ltb, leb, length, drop, length-append, Bool-cases, lt→ltb, ltb_ge, ge_ltb, arith,
}
use thumbrella.Base.Loop.{go, Ends, stops, goes, loop-Ends, Ends-unique, go≢stop, gone}
use thumbrella.Shortcut.Readers.{
  slice, zip_u16, zip_u32, read_u16, read_u32, le16, le32, drop-append, slice-append, append_assoc,
}
use thumbrella.Shortcut.Zip.{
  ZipEntry, ZipDir, entry_mark, empty_dir, note_entry, entry_at, dir_turn, zip_scan_dir,
}

-- An entry as it is written: the fields, and the three texts behind them.
pub record Written : Type 0 where
  pub made_by : ℕ
  pub min_version : ℕ
  pub flags : ℕ
  pub entry_method : ℕ
  pub time : ℕ
  pub date : ℕ
  pub crc : ℕ
  pub comp : ℕ
  pub uncomp : ℕ
  pub disk : ℕ
  pub int_attr : ℕ
  pub ext_attr : ℕ
  pub offset : ℕ
  pub name : Bytes
  pub extra : Bytes
  pub comment : Bytes

-- The lengths and the fields that are read have their widths.
pub record Fits (w : Written) : Type 0 where
  pub method_fits : w.entry_method < 65536
  pub comp_fits : w.comp < 4294967296
  pub uncomp_fits : w.uncomp < 4294967296
  pub offset_fits : w.offset < 4294967296
  pub name_fits : length w.name < 65536
  pub extra_fits : length w.extra < 65536
  pub comment_fits : length w.comment < 65536

abbrev pub fixed_part : Written → Bytes → Bytes
fixed_part w rest =
    entry_mark
    ++ le16 w.made_by
    ++ le16 w.min_version
    ++ le16 w.flags
    ++ le16 w.entry_method
    ++ le16 w.time
    ++ le16 w.date
    ++ le32 w.crc
    ++ le32 w.comp
    ++ le32 w.uncomp
    ++ le16 (length w.name)
    ++ le16 (length w.extra)
    ++ le16 (length w.comment)
    ++ le16 w.disk
    ++ le16 w.int_attr
    ++ le32 w.ext_attr
    ++ le32 w.offset
    ++ rest

abbrev pub texts : Written → Bytes → Bytes
texts w rest = w.name ++ (w.extra ++ (w.comment ++ rest))

abbrev pub directory : List Written → Bytes → Bytes
directory [] rest = rest
directory (w ∷ ws) rest = fixed_part w (texts w (directory ws rest))

abbrev pub entry_of : Written → ZipEntry
entry_of w = record {
  local_offset = w.offset;
  comp_size = w.comp;
  uncomp_size = w.uncomp;
  method = w.entry_method;
}

-- The findings of the entries in their order.
abbrev pub noted : ZipDir → List Written → ZipDir
noted dir [] = dir
noted dir (w ∷ ws) = noted (note_entry dir w.name (entry_of w)) ws

abbrev pub AllFit : List Written → Type 0
AllFit [] = Unit {0}
AllFit (w ∷ ws) = Fits w × AllFit ws

turn_passes :
    (cd name : Bytes) (pos name_len extra_len comment_len : ℕ) (dir : ZipDir) (entry : ZipEntry)
    → pos + 46 + name_len ≤ length cd
    → bytes_eq (slice cd pos (pos + 4)) entry_mark ≡ true
    → zip_u16 cd (pos + 28) ≡ name_len
    → zip_u16 cd (pos + 30) ≡ extra_len
    → zip_u16 cd (pos + 32) ≡ comment_len
    → slice cd (pos + 46) (pos + 46 + name_len) ≡ name
    → entry_at cd pos ≡ entry
    → dir_turn cd (pos, dir)
      ≡ go (pos + (46 + name_len + extra_len + comment_len), note_entry dir name entry)
unfolding dir_turn
turn_passes cd name pos name_len extra_len comment_len dir entry fits mark e28 e30 e32 part same =
    rw (ge_ltb (length cd) (pos + 46) (omega arith), mark, e28, e30, e32, fits_leb, part, same) refl
  where
    fits_leb : leb (pos + 46 + name_len) (length cd) ≡ true
    fits_leb = ground arith

module _ (front rest : Bytes) where
  u16_behind : (i : ℕ) → zip_u16 (front ++ rest) (length front + i) ≡ zip_u16 rest i
  unfolding zip_u16 read_u16
  u16_behind i = rw (drop-append front rest i) refl

  u32_behind : (i : ℕ) → zip_u32 (front ++ rest) (length front + i) ≡ zip_u32 rest i
  unfolding zip_u32 read_u32
  u32_behind i = rw (drop-append front rest i) refl

module _ (w : Written) (rest : Bytes) (fits : Fits w) where
  lengths_read :
      (zip_u16 (fixed_part w rest) 28 ≡ length w.name)
      × (zip_u16 (fixed_part w rest) 30 ≡ length w.extra)
      × (zip_u16 (fixed_part w rest) 32 ≡ length w.comment)
  unfolding zip_u16 read_u16 drop
  lengths_read = (
    omega (arith, fits.name_fits),
    omega (arith, fits.extra_fits),
    omega (arith, fits.comment_fits),
  )

  fields_read :
      (zip_u32 (fixed_part w rest) 42 ≡ w.offset)
      × (zip_u32 (fixed_part w rest) 20 ≡ w.comp)
      × (zip_u32 (fixed_part w rest) 24 ≡ w.uncomp)
      × (zip_u16 (fixed_part w rest) 10 ≡ w.entry_method)
  unfolding zip_u16 zip_u32 read_u16 read_u32 drop
  fields_read = (
    omega (arith, fits.offset_fits),
    omega (arith, fits.comp_fits),
    omega (arith, fits.uncomp_fits),
    omega (arith, fits.method_fits),
  )

-- One turn reads the entry at the position.
turn_written :
    (front rest : Bytes) (dir : ZipDir) (w : Written)
    → Fits w
    → dir_turn (front ++ fixed_part w (texts w rest)) (length front, dir)
      ≡ go (
        length front + (46 + length w.name + length w.extra + length w.comment),
        note_entry dir w.name (entry_of w),
      )
unfolding entry_at drop bytes_eq
turn_written front rest dir w fits =
    let body = fixed_part w (texts w rest) in
    let cd = front ++ body in
    let (e28, e30, e32) = lengths_read w (texts w rest) fits in
    let (e42, e20, e24, e10) = fields_read w (texts w rest) fits in
    let head = fixed_part w [] in
    let behind_name = w.extra ++ (w.comment ++ rest) in
    let mark : slice cd (length front) (length front + 4) ≡ entry_mark =
      slice-append front entry_mark (drop 4 body) _ _ refl refl in
    let part =
      slice-append (front ++ head) w.name behind_name (length front + 46)
        (length front + 46 + length w.name) (omega (arith, length-append front head))
        (omega (arith, length-append front head)) in
    turn_passes cd w.name (length front) (length w.name) (length w.extra) (length w.comment) dir
      (entry_of w) (omega (arith, length-append front body, length-append w.name behind_name))
      (rw mark refl) (u16_behind front body 28 ∙ e28) (u16_behind front body 30 ∙ e30)
      (u16_behind front body 32 ∙ e32)
      (subst (λ x. slice x (length front + 46) (length front + 46 + length w.name) ≡ w.name)
        (append_assoc front head (w.name ++ behind_name)) part)
      (rw
        (
          u32_behind front body 42 ∙ e42,
          u32_behind front body 20 ∙ e20,
          u32_behind front body 24 ∙ e24,
          u16_behind front body 10 ∙ e10,
        )
        refl)

texts-append : (w : Written) (rest : Bytes) → texts w [] ++ rest ≡ texts w rest
texts-append w rest =
    append_assoc w.name (w.extra ++ (w.comment ++ [])) rest
    ∙ ap (λ x. w.name ++ x)
        (append_assoc w.extra (w.comment ++ []) rest
          ∙ ap (λ x. w.extra ++ x) (append_assoc w.comment [] rest))

-- The run from the position behind `front`.
run_written :
    (front : Bytes) (dir : ZipDir) (ws : List Written) (rest : Bytes)
    → AllFit ws
    → length rest < 46
    → Ends (dir_turn (front ++ directory ws rest)) (length front, dir) (noted dir ws)
unfolding dir_turn
run_written front dir [] rest fits short = stops (
    rw
      (lt→ltb (length (front ++ rest)) (length front + 46)
        (omega (arith, length-append front rest)))
      refl)
run_written front dir (w ∷ ws) rest (fit, fits) short =
    let whole = texts w [] in
    let later = directory ws rest in
    let same : (front ++ fixed_part w whole) ++ later ≡ front ++ fixed_part w (texts w later) =
      append_assoc front (fixed_part w whole) later
      ∙ ap (λ x. front ++ fixed_part w x) (texts-append w later) in
    let size : length (front ++ fixed_part w whole)
        ≡ length front + (46 + length w.name + length w.extra + length w.comment) =
      omega (
        arith,
        length-append front (fixed_part w whole),
        length-append w.name (w.extra ++ (w.comment ++ [])),
        length-append w.extra (w.comment ++ []),
        length-append w.comment [],
      ) in
    let entry = note_entry dir w.name (entry_of w) in
    goes (turn_written front later dir w fit) (
      subst
        (λ n. Ends (dir_turn (front ++ fixed_part w (texts w later))) (n, entry) (noted entry ws))
        size
        (subst
          (λ x. Ends (dir_turn x) (length (front ++ fixed_part w whole), entry) (noted entry ws))
          same (run_written (front ++ fixed_part w whole) entry ws rest fits short)))

module _ (cd : Bytes) where
  goes_on :
      (s t : ℕ × ZipDir)
      → Unit {0}
      → dir_turn cd s ≡ go t
      → Unit {0} × (length cd - t.0 < length cd - s.0)
  unfolding dir_turn
  goes_on (pos, dir) t u e = elim (Bool-cases (ltb (length cd) (pos + 46))) [
    | inl short ↦ absurd (go≢stop t dir (sym (rw short at e)))
    | inr long ↦ elim (Bool-cases (bytes_eq (slice cd pos (pos + 4)) entry_mark)) [
      | inr other ↦ absurd (go≢stop t dir (sym (rw (long, other) at e)))
      | inl mark ↦
          let on = ap (λ x. (gone {S = ℕ × ZipDir} (pos, dir) x).0) (rw (long, mark) at e) in
          (u, omega (arith, on, ltb_ge (length cd) (pos + 46) long))
    ]
  ]

  pub zip_scan_dir-Ends : Ends (dir_turn cd) (0, empty_dir) (zip_scan_dir cd)
  unfolding zip_scan_dir
  zip_scan_dir-Ends =
      loop-Ends (dir_turn cd) (λ s. Unit {0}) (λ s. length cd - s.0) goes_on (suc (length cd))
        empty_dir (0, empty_dir) tt (omega arith)

-- The run is the fold of the entries that were written, in their order.
pub zip_scan_dir-noted :
    (ws : List Written) (rest : Bytes)
    → AllFit ws
    → length rest < 46
    → zip_scan_dir (directory ws rest) ≡ noted empty_dir ws
zip_scan_dir-noted ws rest fits short =
    Ends-unique (dir_turn (directory ws rest)) (zip_scan_dir-Ends (directory ws rest))
      (run_written [] empty_dir ws rest fits short)
