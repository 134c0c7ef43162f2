-- ===== src/Wire/Frame/Encode.antt =====
-- `encode_frame`: the frames that it accepts, and the round trip through `decode_frame`.
use esp_iris.Common.{
  ℕ, ◌^◌, ◌≤◌, ◌<◌, leb, ltb-false, lt→ltb, ◌≡◌, refl, sym, ap, ◌∙◌, List, [], ◌∷◌, ◌++◌, length,
  arith, length-append, All, IsByte, ℤ, pos, negsuc, ok, is_empty, ◌||◌, false,
}
use esp_iris.Wire.Cobs.{cobs_encode}
use esp_iris.Wire.Cobs.RoundTrip.{cobs_decode-cobs_encode, cobs_encode_nonempty}
use esp_iris.Wire.Cobs.Shape.{IsCode, cobs_encode-IsCode, length-cobs_encode}
use esp_iris.Wire.Frame.{Frame, IsUint, IsValid, with_checksum, encode_frame, decode_frame}
use esp_iris.Wire.Frame.Layout.{
  Words, frame_of, Fits, packed, length-packed, packed-IsByte, with_checksum-IsByte,
  length-with_checksum, decode_packed,
}

-- The stuffed bytes of a frame, without the delimiter.
unfoldable pub stuffed : Words → List ℕ
stuffed w = cobs_encode (with_checksum (packed w))

pub stuffed-IsCode : (w : Words) → All IsByte w.payload → All IsCode (stuffed w)
unfolding stuffed
stuffed-IsCode w h =
    cobs_encode-IsCode (with_checksum (packed w))
      (with_checksum-IsByte (packed w) (packed-IsByte w h))

-- With 4000 bytes of payload, 4036 plain bytes take at most 15 more code bytes and the first one.
pub length-stuffed : (w : Words) → Fits w → length (stuffed w) ≤ 4052
unfolding stuffed
length-stuffed w v = omega (
  arith,
  length-cobs_encode (with_checksum (packed w)),
  length-with_checksum (packed w),
  length-packed w,
  v.payload_fits,
)

length-wire : (w : Words) → Fits w → length (stuffed w ++ 0 ∷ []) ≤ 4096
length-wire w v = omega (arith, length-append (stuffed w) (0 ∷ []), length-stuffed w v)

pub encode_frame_of : (w : Words) → Fits w → encode_frame (frame_of w) ≡ ok (stuffed w ++ 0 ∷ [])
unfolding encode_frame packed stuffed
encode_frame_of w v = rw (ltb-false 4000 (length w.payload) v.payload_fits) (
    rw (lt→ltb w.channel 256 (omega (arith, v.channel_fits))) (
      rw (ltb-false 9 w.channel (omega (arith, v.channel_fits))) (
        rw (lt→ltb w.type 256 v.type_fits, lt→ltb w.flags 65536 v.flags_fits)
          (rw
            (
              lt→ltb w.session_id 4294967296 v.session_fits,
              lt→ltb w.request_id 4294967296 v.request_fits,
            )
            (rw
              (
                lt→ltb w.stream_id 4294967296 v.stream_fits,
                lt→ltb w.sequence 4294967296 v.sequence_fits,
              )
              (rw (ltb-false 4096 _ (length-wire w v)) refl))))))

IsUint-pos : (limit : ℕ) (z : ℤ) → IsUint limit z → (n : ℕ) × (z ≡ pos n) × (n < limit)
IsUint-pos limit (pos n) h = (n, refl, h)
IsUint-pos limit (negsuc n) h = absurd h

pub IsValid-words :
    (f : Frame) → IsValid f → (w : Words) × (f ≡ frame_of w) × Fits w × All IsByte w.payload
IsValid-words f v =
    let (c, ce, ch) = IsUint-pos 10 f.channel v.channel in
    let (t, te, th) = IsUint-pos (2 ^ 8) f.type v.type in
    let (g, ge, gh) = IsUint-pos (2 ^ 16) f.flags v.flags in
    let (s, se, sh) = IsUint-pos (2 ^ 32) f.session_id v.session_id in
    let (r, re, rh) = IsUint-pos (2 ^ 32) f.request_id v.request_id in
    let (m, me, mh) = IsUint-pos (2 ^ 32) f.stream_id v.stream_id in
    let (q, qe, qh) = IsUint-pos (2 ^ 32) f.sequence v.sequence in
    (
      record {
        channel = c;
        type = t;
        flags = g;
        session_id = s;
        request_id = r;
        stream_id = m;
        sequence = q;
        payload = f.payload;
      },
      λ i. record {
        channel = ce i;
        type = te i;
        flags = ge i;
        session_id = se i;
        request_id = re i;
        stream_id = me i;
        sequence = qe i;
        payload = f.payload;
      },
      record {
        channel_fits = ch;
        type_fits = th;
        flags_fits = gh;
        session_fits = sh;
        request_fits = rh;
        stream_fits = mh;
        sequence_fits = qh;
        payload_fits = v.short;
      },
      v.bytes,
    )

pub frame_of-IsValid : (w : Words) → Fits w → All IsByte w.payload → IsValid (frame_of w)
frame_of-IsValid w v h = record {
  channel = v.channel_fits;
  type = v.type_fits;
  flags = v.flags_fits;
  session_id = v.session_fits;
  request_id = v.request_fits;
  stream_id = v.stream_fits;
  sequence = v.sequence_fits;
  short = v.payload_fits;
  bytes = h;
}

-- `decode_frame` behind its size check.
decode_frame_of :
    (w : Words) → Fits w → 0 < length (stuffed w) → decode_frame (stuffed w) ≡ ok (frame_of w)
unfolding decode_frame
decode_frame_of w v n =
    rw (sized (stuffed w) n (omega (arith, length-stuffed w v))) (
      unfold stuffed in rw (cobs_decode-cobs_encode (with_checksum (packed w))) (decode_packed w v))
  where
    sized :
        (e : List ℕ) → 0 < length e → length e < 4096 → (is_empty e || leb 4096 (length e)) ≡ false
    sized [] k h = absurd (omega arith)
    sized (x ∷ e) k h = ground arith

stuffed_nonempty : (w : Words) → 0 < length (stuffed w)
unfolding stuffed
stuffed_nonempty w = cobs_encode_nonempty (with_checksum (packed w))

-- Every valid frame is encoded into bytes with no delimiter inside, at most 4052 of them, and the
-- decoder reads the same frame back from them.
pub decode_frame-encode_frame :
    (f : Frame)
    → IsValid f
    → (encoded : List ℕ) × (encode_frame f ≡ ok (encoded ++ 0 ∷ []))
      × (decode_frame encoded ≡ ok f)
      × All IsCode encoded
      × (length encoded ≤ 4052)
decode_frame-encode_frame f v =
    let (w, e, fits, bytes) = IsValid-words f v in
    let n = stuffed_nonempty w in
    (
      stuffed w,
      ap encode_frame e ∙ encode_frame_of w fits,
      decode_frame_of w fits n ∙ ap ok (sym e),
      stuffed-IsCode w bytes,
      length-stuffed w fits,
    )

-- Nothing else is encoded: a frame that `encode_frame` accepts is valid.
pub encode_frame-IsValid :
    (f : Frame) (wire : List ℕ) → All IsByte f.payload → encode_frame f ≡ ok wire → IsValid f
unfolding encode_frame
encode_frame-IsValid f wire h e = ground arith
