-- ===== src/Shortcut/Mp3/Bounds.antt =====
-- The numbers of an MP3 frame header in tier1/src/pipeline/shortcut.rs.
use thumbrella.Base.{
  ℕ, zero, suc, ◌-◌, ◌*◌, ◌/◌, ◌%◌, ◌≤◌, ◌≡◌, refl, ap, subst, inl, inr, Bool, true, false, not,
  ◌&&◌, ◌||◌, some, List, [], ◌∷◌, Bytes, ◌==◌, leb, min, length, drop, get_elem?, bind_some,
  if_some, Bool-cases, Option-cases, unwrap_or, arith,
}
use thumbrella.Shortcut.Id3.{byte_at}
use thumbrella.Shortcut.Mp3.{
  Mp3FrameInfo, channel_count, by_version, frame_info, if_positive, parse_mp3_frame_header,
  find_frame, parse_first_mp3_frame, mpeg1_layer3_bitrate, mpeg2_layer3_bitrate,
  mpeg25_layer3_bitrate, mpeg1_sample_rate, mpeg2_sample_rate, mpeg25_sample_rate,
}
use thumbrella.Shortcut.Readers.{u32_of}

abbrev every : (ℕ → Bool) → List ℕ → Bool
every p [] = true
every p (x ∷ xs) = p x && every p xs

get_elem?-every :
    (p : ℕ → Bool) (xs : List ℕ) (i x : ℕ)
    → every p xs ≡ true
    → get_elem? xs i ≡ some x
    → p x ≡ true
get_elem?-every p [] i x h e = ground arith
get_elem?-every p (y ∷ ys) zero x h e = ground arith
get_elem?-every p (y ∷ ys) (suc i) x h e = get_elem?-every p ys i x (ground arith) e

abbrev a_bitrate : ℕ → Bool
a_bitrate b = b == 0 || leb 8 b && leb b 320

abbrev a_sample_rate : ℕ → Bool
a_sample_rate r = r == 0 || leb 8000 r && leb r 48000

by_version-every :
    (p : ℕ → Bool) (version : ℕ) (a b c : List ℕ)
    → every p a ≡ true
    → every p b ≡ true
    → every p c ≡ true
    → every p (by_version version a b c) ≡ true
by_version-every p version a b c ha hb hc = ground arith

-- The bitrate is one of the tables, in bits per second and never 0; the sample rate is one of the
-- tables or 0, for the reserved index; the mode has two bits.
pub record InRange (info : Mp3FrameInfo) : Type 0 where
  pub bitrate_low : 8000 ≤ info.bitrate
  pub bitrate_high : info.bitrate ≤ 320000
  pub bitrate_whole : info.bitrate % 1000 ≡ 0
  pub sample_high : info.sample_rate ≤ 48000
  pub mode : info.channel_mode ≤ 3

in_range :
    (bitrate sample_rate mode : ℕ) (info : Mp3FrameInfo)
    → a_bitrate bitrate ≡ true
    → a_sample_rate sample_rate ≡ true
    → mode ≤ 3
    → if_positive bitrate
        (record { bitrate = bitrate * 1000; sample_rate = sample_rate; channel_mode = mode })
      ≡ some info
    → InRange info
in_range bitrate sample_rate mode info hb hs hm e = elim (Bool-cases (bitrate == 0)) [
  | inl z ↦ ground (arith, rw z at e)
  | inr nz ↦ subst InRange (ap (λ o. unwrap_or o info) (rw nz at e)) (record {
    bitrate_low = ground arith;
    bitrate_high = ground arith;
    bitrate_whole = omega arith;
    sample_high = ground arith;
    mode = hm;
  })
]

frame_info-InRange : (hdr : ℕ) (info : Mp3FrameInfo) → frame_info hdr ≡ some info → InRange info
unfolding frame_info
frame_info-InRange hdr info e =
    let (sync, e0) = if_some (not (hdr / 2097152 == 2047)) _ info e in
    let (layer, e1) = if_some (not (hdr / 131072 % 4 == 1)) _ info e0 in
    let version = hdr / 524288 % 4 in
    let (bitrate, eb, e2) =
      bind_some
        (get_elem?
          (by_version version mpeg1_layer3_bitrate mpeg2_layer3_bitrate mpeg25_layer3_bitrate)
          (hdr / 4096 % 16))
        _ info e1 in
    let (rate, es, e3) =
      bind_some
        (get_elem? (by_version version mpeg1_sample_rate mpeg2_sample_rate mpeg25_sample_rate)
          (hdr / 1024 % 4))
        _ info e2 in
    in_range bitrate rate (hdr / 64 % 4) info
      (get_elem?-every a_bitrate
        (by_version version mpeg1_layer3_bitrate mpeg2_layer3_bitrate mpeg25_layer3_bitrate)
        (hdr / 4096 % 16) bitrate
        (by_version-every a_bitrate version mpeg1_layer3_bitrate mpeg2_layer3_bitrate
          mpeg25_layer3_bitrate refl refl refl)
        eb)
      (get_elem?-every a_sample_rate
        (by_version version mpeg1_sample_rate mpeg2_sample_rate mpeg25_sample_rate) (hdr / 1024 % 4)
        rate
        (by_version-every a_sample_rate version mpeg1_sample_rate mpeg2_sample_rate
          mpeg25_sample_rate refl refl refl)
        es)
      (omega arith) e3

find_frame-InRange :
    (rounds : ℕ) (buf : Bytes) (info : Mp3FrameInfo)
    → find_frame rounds buf ≡ some info
    → InRange info
unfolding find_frame parse_mp3_frame_header
find_frame-InRange zero buf info e = ground arith
find_frame-InRange (suc rounds) buf info e =
    let rest = find_frame-InRange rounds (drop 1 buf) info in
    elim (Bool-cases (byte_at buf 0 == 255 && leb 224 (byte_at buf 1))) [
      | inr other ↦ rest (rw other at e)
      | inl sync ↦ elim (Option-cases (parse_mp3_frame_header buf)) [
        | inl bad ↦ rest (rw (sync, bad) at e)
        | inr (found, good) ↦
            let (hdr, read, parsed) = bind_some (u32_of false buf) frame_info found good in
            subst InRange (ap (λ o. unwrap_or o info) (rw (sync, good) at e))
              (frame_info-InRange hdr found parsed)
      ]
    ]

-- The first frame that is found in a buffer has a bitrate between 8 and 320 kbit/s, which is never 0,
-- so that the duration divides by it; its sample rate is at most 48 kHz, and it has one channel or two.
pub parse_first_mp3_frame-InRange :
    (buf : Bytes) (info : Mp3FrameInfo)
    → parse_first_mp3_frame buf ≡ some info
    → InRange info × (1 ≤ channel_count info) × (channel_count info ≤ 2)
unfolding parse_first_mp3_frame channel_count
parse_first_mp3_frame-InRange buf info e =
    (find_frame-InRange (min (length buf) 2048 - 1) buf info e, ground arith, ground arith)
