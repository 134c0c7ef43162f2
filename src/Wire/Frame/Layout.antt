-- ===== src/Wire/Frame/Layout.antt =====
-- The fields of a packed frame, read back at their offsets.
use esp_iris.Common.{
  ℕ, ◌+◌, ◌-◌, ◌^◌, ◌≤◌, ◌<◌, ltb-false, ==_eq, ==_refl, ◌≡◌, refl, sym, ap, ◌∙◌, List, ◌++◌,
  length, take, drop, arith, length-append, take-append_front, drop-append_front, to_le, uint_at,
  from_le-to_le_u32, to_le-IsByte, All, All-append, IsByte, pos, ok,
}
use esp_iris.Wire.Frame.{Frame, pack_header, checksum, with_checksum, decode_plain, magic}

-- A frame's fields as the numbers that the header holds.
pub record Words : Type 0 where
  pub channel : ℕ
  pub type : ℕ
  pub flags : ℕ
  pub session_id : ℕ
  pub request_id : ℕ
  pub stream_id : ℕ
  pub sequence : ℕ
  pub payload : List ℕ

abbrev pub frame_of : Words → Frame
frame_of w = record {
  channel = pos w.channel;
  type = pos w.type;
  flags = pos w.flags;
  session_id = pos w.session_id;
  request_id = pos w.request_id;
  stream_id = pos w.stream_id;
  sequence = pos w.sequence;
  payload = w.payload;
}

pub record Fits (w : Words) : Type 0 where
  pub channel_fits : w.channel < 10
  pub type_fits : w.type < 2 ^ 8
  pub flags_fits : w.flags < 2 ^ 16
  pub session_fits : w.session_id < 2 ^ 32
  pub request_fits : w.request_id < 2 ^ 32
  pub stream_fits : w.stream_id < 2 ^ 32
  pub sequence_fits : w.sequence < 2 ^ 32
  pub payload_fits : length w.payload ≤ 4000

header_of : Words → List ℕ
header_of w =
    pack_header w.channel w.type w.flags w.session_id w.request_id w.stream_id w.sequence
      (length w.payload)

unfoldable pub packed : Words → List ℕ
packed w =
    pack_header w.channel w.type w.flags w.session_id w.request_id w.stream_id w.sequence
      (length w.payload)
    ++ w.payload

pub length-packed : (w : Words) → length (packed w) ≡ 32 + length w.payload
unfolding packed pack_header
length-packed w = omega arith

pub packed-IsByte : (w : Words) → All IsByte w.payload → All IsByte (packed w)
unfolding packed header_of
packed-IsByte w h = All-append IsByte (header_of w) w.payload (unfold pack_header in omega arith) h

checksum-lt : (bytes : List ℕ) → checksum bytes < 2 ^ 32
unfolding checksum
checksum-lt bytes = omega arith

pub with_checksum-IsByte : (plain : List ℕ) → All IsByte plain → All IsByte (with_checksum plain)
unfolding with_checksum
with_checksum-IsByte plain h = All-append IsByte plain _ h (to_le-IsByte 4 (checksum plain))

pub length-with_checksum : (plain : List ℕ) → length (with_checksum plain) ≡ length plain + 4
unfolding with_checksum
length-with_checksum plain = omega (arith, length-append plain (to_le 4 (checksum plain)))

-- The checksum and the bytes that it covers, at the end that `decode_frame` counts from.
trailer :
    (plain : List ℕ) → let s = with_checksum plain in uint_at 4 (length s - 4) s ≡ checksum plain
unfolding with_checksum
trailer plain =
    let e : length (with_checksum plain) - 4 ≡ length plain =
      omega (arith, length-with_checksum plain) in
    rw e (
      rw (drop-append_front plain (to_le 4 (checksum plain)))
        (from_le-to_le_u32 (checksum plain) (checksum-lt plain)))

covered : (plain : List ℕ) → let s = with_checksum plain in take (length s - 4) s ≡ plain
unfolding with_checksum
covered plain =
    let e : length (with_checksum plain) - 4 ≡ length plain =
      omega (arith, length-with_checksum plain) in
    rw e (take-append_front plain (to_le 4 (checksum plain)))

-- What stands at the fixed offsets.
fields :
    (w : Words)
    → Fits w
    → let s = with_checksum (packed w) in
      (uint_at 1 6 s ≡ w.channel)
      × (uint_at 1 7 s ≡ w.type)
      × (uint_at 2 8 s ≡ w.flags)
      × (uint_at 4 12 s ≡ w.session_id)
      × (uint_at 4 16 s ≡ w.request_id)
      × (uint_at 4 20 s ≡ w.stream_id)
      × (uint_at 4 24 s ≡ w.sequence)
      × (uint_at 4 28 s ≡ length w.payload)
unfolding with_checksum packed pack_header
fields w v = omega arith

constants :
    (w : Words)
    → let s = with_checksum (packed w) in
      (take 4 s ≡ magic) × (uint_at 1 4 s ≡ 1) × (uint_at 1 5 s ≡ 32) × (uint_at 2 10 s ≡ 0)
unfolding with_checksum packed pack_header
constants w = (refl, refl, refl, refl)

rest :
    (w : Words) → let s = with_checksum (packed w) in take (length s - 36) (drop 32 s) ≡ w.payload
rest w =
    let e : length (with_checksum (packed w)) - 36 ≡ length w.payload =
      omega (arith, length-with_checksum (packed w), length-packed w) in
    rw e (
      unfold with_checksum packed pack_header in
      take-append_front w.payload (to_le 4 (checksum (packed w))))

-- The checks of `decode_plain`, as facts.
accepts :
    (plain : List ℕ) (size : ℕ)
    → length plain ≡ 36 + size
    → size ≤ 4000
    → take 4 plain ≡ magic
    → uint_at 1 4 plain ≡ 1
    → uint_at 1 5 plain ≡ 32
    → uint_at 2 10 plain ≡ 0
    → uint_at 1 6 plain < 10
    → uint_at 4 28 plain ≡ size
    → uint_at 4 (length plain - 4) plain ≡ checksum (take (length plain - 4) plain)
    → decode_plain plain
      ≡ ok (record {
        channel = pos (uint_at 1 6 plain);
        type = pos (uint_at 1 7 plain);
        flags = pos (uint_at 2 8 plain);
        session_id = pos (uint_at 4 12 plain);
        request_id = pos (uint_at 4 16 plain);
        stream_id = pos (uint_at 4 20 plain);
        sequence = pos (uint_at 4 24 plain);
        payload = take (length plain - 36) (drop 32 plain);
      })
unfolding decode_plain
accepts plain size hl hs hm hv hh hr hc hz hk = rw (ltb-false (length plain) 36 (omega arith)) (
    rw hm (
      rw hv (
        rw hh (
          rw hr (
            rw (ltb-false 9 (uint_at 1 6 plain) (omega arith)) (
              rw hz (
                rw (ltb-false 4000 size hs) (
                  rw hk (
                    rw (==_eq (length plain) (32 + size + 4) (omega arith))
                      (rw ==_refl refl))))))))))

-- `decode_plain` reads a packed frame back.
pub decode_packed : (w : Words) → Fits w → decode_plain (with_checksum (packed w)) ≡ ok (frame_of w)
decode_packed w v =
    let f = fields w v in
    let k = constants w in
    accepts (with_checksum (packed w)) (length w.payload)
      (omega (arith, length-with_checksum (packed w), length-packed w)) v.payload_fits k.0 k.1 k.2
      k.3 (omega (arith, f.0, v.channel_fits)) f.7
      (trailer (packed w) ∙ ap checksum (sym (covered (packed w))))
    ∙ λ i. ok (record {
      channel = pos (f.0 i);
      type = pos (f.1 i);
      flags = pos (f.2 i);
      session_id = pos (f.3 i);
      request_id = pos (f.4 i);
      stream_id = pos (f.5 i);
      sequence = pos (f.6 i);
      payload = rest w i;
    })
