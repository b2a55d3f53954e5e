-- ===== src/Shortcut/Zip/Extract.antt =====
-- What the ZIP shortcut of tier1/src/pipeline/shortcut.rs takes out of an archive is what was written.
use thumbrella.Base.{
  ℕ, ◌+◌, ◌-◌, ◌≤◌, ◌<◌, ◌≡◌, refl, ap, subst, ◌∙◌, true, Option, none, some, [], ◌++◌, Bytes,
  bytes_eq, ◌==◌, if◌then◌else◌, length, take, drop, length-append, drop-append_length, ge_ltb,
  arith,
}
use thumbrella.Shortcut.Readers.{slice, zip_u16, read_u16, le16, le32, slice-append, append_assoc}
use thumbrella.Shortcut.Zip.{local_mark, zip_extract_from_buffer}

-- The fields of a local file header that the source does not read.
pub record LocalFields : Type 0 where
  pub min_version : ℕ
  pub flags : ℕ
  pub method_field : ℕ
  pub time : ℕ
  pub date : ℕ
  pub crc : ℕ
  pub comp : ℕ
  pub uncomp : ℕ

-- A local file header, and the file that it stands before.
abbrev pub local_header : LocalFields → ℕ → ℕ → Bytes → Bytes
local_header f name_len extra_len rest =
    local_mark
    ++ le16 f.min_version
    ++ le16 f.flags
    ++ le16 f.method_field
    ++ le16 f.time
    ++ le16 f.date
    ++ le32 f.crc
    ++ le32 f.comp
    ++ le32 f.uncomp
    ++ le16 name_len
    ++ le16 extra_len
    ++ rest

abbrev pub local_file : LocalFields → Bytes → Bytes → Bytes → Bytes
local_file f name extra payload =
    local_header f (length name) (length extra) (name ++ (extra ++ payload))

-- What the method makes of the bytes that are stored.
abbrev pub by_method : (Bytes → Option Bytes) → ℕ → Bytes → Option Bytes
by_method inflate method payload =
    if method == 0 then some payload else if method == 8 then inflate payload else none

-- The tests of the source in their order, for an entry that passes them.
extract_passes :
    (inflate : Bytes → Option Bytes) (buf payload : Bytes)
    (buf_start off name_len extra_len comp uncomp method : ℕ)
    → off + (30 + name_len + extra_len) + comp ≤ length buf
    → bytes_eq (take 4 (drop off buf)) local_mark ≡ true
    → zip_u16 (drop off buf) 26 ≡ name_len
    → zip_u16 (drop off buf) 28 ≡ extra_len
    → slice buf (off + (30 + name_len + extra_len)) (off + (30 + name_len + extra_len) + comp)
      ≡ payload
    → zip_extract_from_buffer inflate buf
        (record {
          local_offset = buf_start + off;
          comp_size = comp;
          uncomp_size = uncomp;
          method = method;
        })
        buf_start
      ≡ by_method inflate method payload
unfolding zip_extract_from_buffer
extract_passes inflate buf payload buf_start off name_len extra_len comp uncomp method fits mark e26
      e28 part =
    let back : (buf_start + off) - buf_start ≡ off = omega arith in
    rw
      (
        ge_ltb (buf_start + off) buf_start (omega arith),
        back,
        ge_ltb (length buf) (off + 30) (omega arith),
        mark,
        e26,
        e28,
        ge_ltb (length buf) (off + (30 + name_len + extra_len) + comp) fits,
        part,
      )
      refl

-- An entry that lies in the buffer is found again, whatever stands before and behind it.
pub extract_written :
    (inflate : Bytes → Option Bytes) (front name extra payload rest : Bytes) (f : LocalFields)
    (buf_start uncomp method : ℕ)
    → length name < 65536
    → length extra < 65536
    → zip_extract_from_buffer inflate
        (front ++ local_file f name extra (payload ++ rest))
        (record {
          local_offset = buf_start + length front;
          comp_size = length payload;
          uncomp_size = uncomp;
          method = method;
        })
        buf_start
      ≡ by_method inflate method payload
unfolding zip_u16 read_u16 drop take bytes_eq
extract_written inflate front name extra payload rest f buf_start uncomp method short_name
      short_extra =
    let head = local_header f (length name) (length extra) [] in
    let buf = front ++ local_file f name extra (payload ++ rest) in
    let behind : drop (length front) buf ≡ local_file f name extra (payload ++ rest) =
      drop-append_length front _ in
    let before = front ++ (head ++ (name ++ extra)) in
    let whole : before ++ (payload ++ rest) ≡ buf =
      append_assoc front (head ++ (name ++ extra)) (payload ++ rest)
      ∙ ap (λ x. front ++ (head ++ x)) (append_assoc name extra (payload ++ rest)) in
    let size : length before ≡ length front + (30 + length name + length extra) =
      omega (arith, length-append front (head ++ (name ++ extra)), length-append name extra) in
    let fits : length before + (length payload + length rest) ≡ length buf = omega (
      arith,
      ap length whole,
      length-append before (payload ++ rest),
      length-append payload rest,
    ) in
    extract_passes inflate buf payload buf_start (length front) (length name) (length extra)
      (length payload) uncomp method (omega arith) (rw behind refl) (rw behind (omega arith))
      (rw behind (omega arith))
      (subst
        (λ b.
          slice b (length front + (30 + length name + length extra))
            (length front + (30 + length name + length extra) + length payload)
          ≡ payload)
        whole (slice-append before payload rest _ _ (omega arith) (omega arith)))
