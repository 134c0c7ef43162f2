-- ===== src/Wire/Stream/Segments.antt =====
-- What the decoder does with whole segments: the bytes between two delimiters.
use native.Mathlib.Decide.{dec_lt}
use esp_iris.Common.{
  ℕ, ◌+◌, ◌≤◌, ◌<◌, ◌≡◌, refl, ap, sym, ◌∙◌, if◌then◌else◌, List, [], ◌∷◌, ◌++◌, length,
  append_assoc, append-nil, length-append, All, arith, true, false, ok, is_empty, Result-cases, inl,
  inr,
}
use esp_iris.Wire.Frame.{Frame, decode_frame}
use esp_iris.Wire.Frame.Decode.{decode_frame_oversized, decode_frame_empty}
use esp_iris.Wire.Stream.{FrameDecoder, feed_byte, feed_value, deliver, feed}
use esp_iris.Wire.Stream.Chunks.{feed_then, feed_one}

-- A decoder that stands right behind a delimiter, and one in the middle of a segment.
abbrev pub clean : ℕ → FrameDecoder
clean n = record { encoded = []; discarding = false; invalid_frames = n }

abbrev reading : List ℕ → ℕ → FrameDecoder
reading buffer n = record { encoded = buffer; discarding = false; invalid_frames = n }

abbrev skipping : ℕ → FrameDecoder
skipping n = record { encoded = []; discarding = true; invalid_frames = n }

abbrev pub NonZero : ℕ → Type 0
NonZero b = 0 < b

feed_byte_room :
    (buffer : List ℕ) (n b : ℕ)
    → 0 < b
    → length buffer < 4095
    → feed_byte (reading buffer n) b ≡ (reading (buffer ++ b ∷ []) n, [])
unfolding feed_byte feed_value
feed_byte_room buffer n b h k = ground arith

feed_byte_full :
    (buffer : List ℕ) (n b : ℕ)
    → 0 < b
    → 4095 ≤ length buffer
    → feed_byte (reading buffer n) b ≡ (skipping (n + 1), [])
unfolding feed_byte feed_value
feed_byte_full buffer n b h k = ground arith

feed_byte_skip : (n b : ℕ) → 0 < b → feed_byte (skipping n) b ≡ (skipping n, [])
unfolding feed_byte feed_value
feed_byte_skip n b h = ground arith

-- A step that yields no frame only moves the state on.
feed_silent :
    (d e : FrameDecoder) (b : ℕ) (bytes : List ℕ)
    → feed_byte d b ≡ (e, [])
    → feed d (b ∷ bytes) ≡ feed e bytes
unfolding feed
feed_silent d e b bytes h = λ i. ((feed (h i).0 bytes).0, (h i).1 ++ (feed (h i).0 bytes).1)

feed-skipping :
    (n : ℕ) (bytes : List ℕ) → All NonZero bytes → feed (skipping n) bytes ≡ (skipping n, [])
feed-skipping n [] h = unfold feed in refl
feed-skipping n (b ∷ bytes) (hb, h) =
    feed_silent (skipping n) (skipping n) b bytes (feed_byte_skip n b hb) ∙ feed-skipping n bytes h

feed_short :
    (bytes buffer : List ℕ) (n : ℕ)
    → All NonZero bytes
    → length buffer + length bytes ≤ 4095
    → feed (reading buffer n) bytes ≡ (reading (buffer ++ bytes) n, [])
feed_short [] buffer n h k = unfold feed in rw append-nil refl
feed_short (b ∷ bytes) buffer n (hb, h) k =
    feed_silent (reading buffer n) (reading (buffer ++ b ∷ []) n) b bytes
      (feed_byte_room buffer n b hb (omega arith))
    ∙ feed_short bytes (buffer ++ b ∷ []) n h (omega (arith, length-append buffer (b ∷ [])))
    ∙ ap (λ e. (reading e n, [])) (append_assoc buffer (b ∷ []) bytes)

feed_long :
    (bytes buffer : List ℕ) (n : ℕ)
    → All NonZero bytes
    → length buffer ≤ 4095
    → 4095 < length buffer + length bytes
    → feed (reading buffer n) bytes ≡ (skipping (n + 1), [])
feed_long [] buffer n h k l = absurd (omega arith)
feed_long (b ∷ bytes) buffer n (hb, h) k l = elim (dec_lt (length buffer) 4095) [
  | yes room ↦
      feed_silent (reading buffer n) (reading (buffer ++ b ∷ []) n) b bytes
        (feed_byte_room buffer n b hb room)
      ∙ feed_long bytes (buffer ++ b ∷ []) n h (omega (arith, length-append buffer (b ∷ [])))
          (omega (arith, length-append buffer (b ∷ [])))
  | no full ↦
      feed_silent (reading buffer n) (skipping (n + 1)) b bytes
        (feed_byte_full buffer n b hb (omega arith))
      ∙ feed-skipping (n + 1) bytes h
]

-- What a whole segment means: nothing, if it is empty; otherwise a frame or one invalid frame.
pub outcome : ℕ → List ℕ → FrameDecoder × List Frame
unfolding deliver
outcome n segment =
    if is_empty segment then (clean n, []) else deliver (clean n) (decode_frame segment)

outcome_long :
    (n : ℕ) (segment : List ℕ) → 4095 < length segment → outcome n segment ≡ (clean (n + 1), [])
unfolding outcome
outcome_long n [] h = absurd (omega arith)
outcome_long n (x ∷ segment) h = rw (decode_frame_oversized (x ∷ segment) h) refl

pub outcome_frame :
    (n : ℕ) (encoded : List ℕ) (f : Frame)
    → decode_frame encoded ≡ ok f
    → outcome n encoded ≡ (clean n, f ∷ [])
unfolding outcome
outcome_frame n [] f e = absurd (cc (decode_frame_empty))
outcome_frame n (x ∷ encoded) f e = rw e refl

delimiter_skipping : (n : ℕ) → feed_byte (skipping n) 0 ≡ (clean n, [])
unfolding feed_byte
delimiter_skipping n = refl

delimiter_reading : (segment : List ℕ) (n : ℕ) → feed_byte (reading segment n) 0 ≡ outcome n segment
unfolding feed_byte outcome
delimiter_reading [] n = refl
delimiter_reading (x ∷ segment) n = elim (Result-cases (decode_frame (x ∷ segment))) [
  | inl (frame, e) ↦ rw e refl
  | inr (x, e) ↦ rw e refl
]

-- The bounded, byte-wise decoder agrees with splitting the stream at its delimiters and decoding each
-- segment whole, however long it is.
pub feed_segment :
    (n : ℕ) (segment : List ℕ)
    → All NonZero segment
    → feed (clean n) (segment ++ 0 ∷ []) ≡ outcome n segment
feed_segment n segment h = elim (dec_lt 4095 (length segment)) [
  | yes long ↦
      feed_then _ _ segment (0 ∷ []) [] (feed_long segment [] n h (omega arith) (omega arith))
        (feed_one (skipping (n + 1)) 0 ∙ delimiter_skipping (n + 1))
      ∙ sym (outcome_long n segment long)
  | no short ↦
      feed_then _ _ segment (0 ∷ []) [] (feed_short segment [] n h (omega arith))
        (feed_one (reading segment n) 0 ∙ delimiter_reading segment n)
]

-- The stream of some segments, each with its delimiter, and what a decoder makes of it.
pub stream : List (List ℕ) → List ℕ
stream [] = []
stream (segment ∷ segments) = (segment ++ 0 ∷ []) ++ stream segments

pub outcomes : ℕ → List (List ℕ) → ℕ × List Frame
outcomes n [] = (n, [])
outcomes n (segment ∷ segments) =
    let (d, now) = outcome n segment in
    let (m, later) = outcomes d.invalid_frames segments in (m, now ++ later)

outcome-clean :
    (n : ℕ) (segment : List ℕ) → (outcome n segment).0 ≡ clean (outcome n segment).0.invalid_frames
unfolding outcome
outcome-clean n [] = refl
outcome-clean n (x ∷ segment) = elim (Result-cases (decode_frame (x ∷ segment))) [
  | inl (frame, e) ↦ rw e refl
  | inr (x, e) ↦ rw e refl
]

-- A decoder at the start of a frame, fed segments without zero bytes that each end in a delimiter,
-- ends with the count and the frames that come from decoding each segment whole.
pub feed-stream :
    (n : ℕ) (segments : List (List ℕ))
    → All (All NonZero) segments
    → feed (clean n) (stream segments) ≡ (clean (outcomes n segments).0, (outcomes n segments).1)
unfolding stream outcomes
feed-stream n [] h = unfold feed in refl
feed-stream n (segment ∷ segments) (hs, h) =
    let d = (outcome n segment).0 in
    let at_clean = outcome-clean n segment in
    feed_then _ _ (segment ++ 0 ∷ []) (stream segments) (outcome n segment).1
      (feed_segment n segment hs)
      (ap (λ e. feed e (stream segments)) at_clean ∙ feed-stream d.invalid_frames segments h)
