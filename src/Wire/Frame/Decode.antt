-- ===== src/Wire/Frame/Decode.antt =====
-- `decode_frame`: what a frame that it accepts was made of.
use esp_iris.Common.{
  ℕ, ◌-◌, ◌<◌, leb, ◌≡◌, refl, sym, ap, ◌∙◌, subst, List, [], ◌∷◌, ◌++◌, length, take, drop,
  take-append-drop, drop-drop, length-take, length-drop, All-take, All-drop, to_le, uint_at,
  append-nil, arith, All, IsByte, ok, err, is_empty, ◌||◌, raise_if-ok, bind-ok, ap₂, drop-length,
  take-append_front, true,
}
use esp_iris.Wire.Error.{invalid_size}
use esp_iris.Wire.Cobs.{cobs_encode, cobs_decode}
use esp_iris.Wire.Cobs.Total.{cobs_decode_bytes}
use esp_iris.Wire.Frame.{
  Frame, IsValid, with_checksum, encode_frame, decode_frame, decode_plain, pack_header, checksum,
}
use esp_iris.Wire.Frame.Layout.{Fits, packed, length-packed}
use esp_iris.Wire.Frame.Encode.{stuffed, encode_frame_of, frame_of-IsValid}
use esp_iris.Wire.Frame.Checks.{field_at, uint_at-lt, words_of, Checked, decode_plain-Checked, cut}

module _ (plain : List ℕ) (b : All IsByte plain) (c : Checked plain) where
  payload_size : uint_at 4 28 plain ≡ length (words_of plain).payload
  unfolding words_of
  payload_size =
      omega (arith, length-take (length plain - 36) (drop 32 plain), length-drop 32 plain, c.whole)

  front : plain ≡ packed (words_of plain) ++ drop (length plain - 4) plain
  unfolding packed pack_header words_of
  front = cut plain (omega (arith, c.whole)) b ∙ (λ i.
      c.tagged i
      ++ (to_le 1 (c.versioned i)
          ++ (to_le 1 (c.sized i)
              ++ (to_le 1 (uint_at 1 6 plain)
                  ++ (to_le 1 (uint_at 1 7 plain)
                      ++ (to_le 2 (uint_at 2 8 plain)
                          ++ (to_le 2 (c.reserved i)
                              ++ (to_le 4 (uint_at 4 12 plain)
                                  ++ (to_le 4 (uint_at 4 16 plain)
                                      ++ (to_le 4 (uint_at 4 20 plain)
                                          ++ (to_le 4 (uint_at 4 24 plain)
                                              ++ (to_le 4 (payload_size i) ++ rest i))))))))))))
    where
      rest :
          drop 32 plain ≡ take (length plain - 36) (drop 32 plain) ++ drop (length plain - 4) plain
      rest =
          sym (take-append-drop (length plain - 36) (drop 32 plain))
          ∙ ap (◌++◌ (take (length plain - 36) (drop 32 plain))) (
              drop-drop (length plain - 36) 32 plain
              ∙ ap (λ n. drop n plain) (omega (arith, c.whole)))

  -- The bytes under a checked frame are those that `encode_frame` packs for it.
  packed_of_checked : plain ≡ with_checksum (packed (words_of plain))
  unfolding with_checksum
  packed_of_checked =
      front
      ∙ ap (◌++◌ (packed (words_of plain))) (
          field_at 4 (length plain - 4) plain (omega (arith, c.whole)) b
          ∙ ap₂ (λ n tail. to_le 4 n ++ tail) (c.summed ∙ ap checksum covered)
              (ap (λ n. drop n plain) (omega (arith, c.whole)) ∙ drop-length plain)
          ∙ append-nil _)
    where
      covered : take (length plain - 4) plain ≡ packed (words_of plain)
      covered =
          ap (take (length plain - 4)) front
          ∙ ap (λ n. take n (packed (words_of plain) ++ drop (length plain - 4) plain))
              (omega (arith, length-packed (words_of plain), payload_size, c.whole))
          ∙ take-append_front (packed (words_of plain)) _

  words_of-Fits : Fits (words_of plain)
  unfolding words_of
  words_of-Fits = record {
    channel_fits = c.routed;
    type_fits = uint_at-lt 1 7 plain (omega (arith, c.whole)) b;
    flags_fits = uint_at-lt 2 8 plain (omega (arith, c.whole)) b;
    session_fits = uint_at-lt 4 12 plain (omega (arith, c.whole)) b;
    request_fits = uint_at-lt 4 16 plain (omega (arith, c.whole)) b;
    stream_fits = uint_at-lt 4 20 plain (omega (arith, c.whole)) b;
    sequence_fits = uint_at-lt 4 24 plain (omega (arith, c.whole)) b;
    payload_fits = omega (arith, payload_size, c.bounded);
  }

  words_of-IsByte : All IsByte (words_of plain).payload
  unfolding words_of
  words_of-IsByte = All-take IsByte _ _ (All-drop IsByte 32 plain b)

-- Whatever `decode_frame` accepts is a valid frame, and under the stuffing stand exactly the bytes
-- that `encode_frame` packs for that frame: nothing in the input is ignored.
pub decode_frame_sound :
    (encoded : List ℕ) (f : Frame)
    → All IsByte encoded
    → decode_frame encoded ≡ ok f
    → IsValid f
      × (plain : List ℕ) × (cobs_decode encoded ≡ ok plain)
      × (encode_frame f ≡ ok (cobs_encode plain ++ 0 ∷ []))
unfolding decode_frame stuffed
decode_frame_sound encoded f b e =
    let (_, e1) = raise_if-ok (is_empty encoded || leb 4096 (length encoded)) _ _ e in
    let (plain, unstuffed, e2) = bind-ok (cobs_decode encoded) decode_plain e1 in
    let (checked, same_frame) = decode_plain-Checked plain f e2 in
    let (bytes, _) = cobs_decode_bytes encoded plain unstuffed b in
    let fits = words_of-Fits plain bytes checked in
    (
      subst IsValid (sym same_frame)
          (frame_of-IsValid (words_of plain) fits (words_of-IsByte plain bytes checked)),
      plain,
      unstuffed,
      ap encode_frame same_frame
          ∙ encode_frame_of (words_of plain) fits
          ∙ ap (λ p. ok (cobs_encode p ++ 0 ∷ [])) (sym (packed_of_checked plain bytes checked)),
    )

-- A frame that does not fit the wire buffer is refused before it is unstuffed.
pub decode_frame_oversized :
    (encoded : List ℕ) → 4095 < length encoded → decode_frame encoded ≡ err invalid_size
unfolding decode_frame
decode_frame_oversized encoded h = rw (size encoded h) refl
  where
    size : (e : List ℕ) → 4095 < length e → (is_empty e || leb 4096 (length e)) ≡ true
    size [] k = refl
    size (x ∷ e) k = ground arith

pub decode_frame_empty : decode_frame [] ≡ err invalid_size
unfolding decode_frame
decode_frame_empty = refl
