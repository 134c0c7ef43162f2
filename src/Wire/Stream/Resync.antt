-- ===== src/Wire/Stream/Resync.antt =====
-- Frames behind a delimiter are received whole, whatever came before it.
use esp_iris.Common.{ℕ, ◌≡◌, refl, ap, sym, ◌∙◌, List, [], ◌∷◌, ◌++◌, All, arith, ok, ◌>>=◌}
use esp_iris.Wire.Error.{Wire}
use esp_iris.Wire.Frame.{Frame, IsValid, encode_frame}
use esp_iris.Wire.Frame.Encode.{decode_frame-encode_frame}
use esp_iris.Wire.Cobs.Shape.{IsCode}
use esp_iris.Wire.Stream.{FrameDecoder, feed_byte, feed_delimiter, deliver, feed}
use esp_iris.Wire.Stream.Chunks.{feed-append, feed_then, feed_one}
use esp_iris.Wire.Stream.Segments.{clean, NonZero, outcome_frame, feed_segment}

-- The bytes of some frames, one after the other, as `_send` writes them.
pub encode_all : List Frame → Wire (List ℕ)
encode_all [] = ok []
encode_all (f ∷ fs) = do wire ← encode_frame f; rest ← encode_all fs; ok (wire ++ rest)

IsCode-NonZero : (bytes : List ℕ) → All IsCode bytes → All NonZero bytes
IsCode-NonZero [] h = tt
IsCode-NonZero (b ∷ bytes) h = (h.0.0, IsCode-NonZero bytes h.1)

feed_frame :
    (n : ℕ) (f : Frame)
    → IsValid f
    → (wire : List ℕ) × (encode_frame f ≡ ok wire) × (feed (clean n) wire ≡ (clean n, f ∷ []))
feed_frame n f v =
    let (encoded, sent, received, codes, short) = decode_frame-encode_frame f v in
    (
      encoded ++ 0 ∷ [],
      sent,
      feed_segment n encoded (IsCode-NonZero encoded codes) ∙ outcome_frame n encoded f received,
    )

-- Frames sent back to back arrive in order, and none is counted as invalid.
feed_frames :
    (n : ℕ) (fs : List Frame)
    → All IsValid fs
    → (wire : List ℕ) × (encode_all fs ≡ ok wire) × (feed (clean n) wire ≡ (clean n, fs))
unfolding encode_all
feed_frames n [] v = ([], refl, unfold feed in refl)
feed_frames n (f ∷ fs) (vf, v) =
    let (wire, sent, received) = feed_frame n f vf in
    let (rest, later_sent, later) = feed_frames n fs v in
    (
      wire ++ rest,
      rw (sent, later_sent) refl,
      feed_then (clean n) (clean n) wire rest (f ∷ []) received later,
    )

-- A delimiter leaves the decoder at the start of a frame.
delimiter-clean : (d : FrameDecoder) → (feed_byte d 0).0 ≡ clean (feed_byte d 0).0.invalid_frames
unfolding feed_byte feed_delimiter deliver
delimiter-clean d = ground arith

feed_delimited :
    (d : FrameDecoder) (garbage : List ℕ)
    → let e = (feed d (garbage ++ 0 ∷ [])).0 in e ≡ clean e.invalid_frames
feed_delimited d garbage =
    let d1 = (feed d garbage).0 in
    let same : (feed d (garbage ++ 0 ∷ [])).0 ≡ (feed_byte d1 0).0 =
      ap (λ (r : FrameDecoder × List Frame). r.0) (feed-append d garbage (0 ∷ []))
      ∙ ap (λ (r : FrameDecoder × List Frame). r.0) (feed_one d1 0) in
    same ∙ delimiter-clean d1 ∙ ap (λ (e : FrameDecoder). clean e.invalid_frames) (sym same)

-- From any state, and behind any bytes that end in a delimiter, valid frames are all received, in
-- order, behind what the bytes before them yielded, and the decoder ends at the start of a frame
-- with its count of invalid frames unchanged by them.
pub resynchronizes :
    (d : FrameDecoder) (garbage : List ℕ) (fs : List Frame)
    → All IsValid fs
    → (wire : List ℕ) × (encode_all fs ≡ ok wire)
      × (feed d ((garbage ++ 0 ∷ []) ++ wire)
          ≡ ((feed d (garbage ++ 0 ∷ [])).0, (feed d (garbage ++ 0 ∷ [])).1 ++ fs))
resynchronizes d garbage fs v =
    let before = feed d (garbage ++ 0 ∷ []) in
    let n = before.0.invalid_frames in
    let (wire, sent, received) = feed_frames n fs v in
    let at_clean = feed_delimited d garbage in
    (
      wire,
      sent,
      feed_then d before.0 (garbage ++ 0 ∷ []) wire before.1 refl
          (ap (λ e. feed e wire) at_clean ∙ received ∙ ap (λ e. (e, fs)) (sym at_clean)),
    )
