-- ===== src/Wire/Frame/Checks.antt =====
-- What the checks of decode_frame establish of the bytes.
use esp_iris.Common.{
  ok-injective, ℕ, suc, ◌+◌, ◌-◌, ◌^◌, ◌≤◌, ◌<◌, ltb, ◌≡◌, refl, sym, ap, ◌∙◌, List, ◌++◌, length,
  take, drop, take-append-drop, drop-drop, length-take, length-drop, All-take, All-drop, to_le,
  from_le, uint_at, to_le-from_le, from_le-lt, arith, All, IsByte, ok, ◌||◌, false, ◌==◌, bytes_eq,
  bytes_eq_sound, raise_if-ok, Bool, true, not,
}
use esp_iris.Wire.Frame.{Frame, decode_plain, magic, checksum}
use esp_iris.Wire.Frame.Layout.{Words, frame_of}

-- A field of `k` bytes at `offset`, and what follows it.
pub field_at :
    (k offset : ℕ) (plain : List ℕ)
    → offset + k ≤ length plain
    → All IsByte plain
    → drop offset plain ≡ to_le k (uint_at k offset plain) ++ drop (offset + k) plain
field_at k offset plain h b =
    let piece : List ℕ = take k (drop offset plain) in
    let size : length piece ≡ k =
      omega (arith, length-take k (drop offset plain), length-drop offset plain) in
    sym (take-append-drop k (drop offset plain))
    ∙ ap (λ t. t ++ drop k (drop offset plain))
        (sym (to_le-from_le piece (All-take IsByte k _ (All-drop IsByte offset plain b)))
          ∙ ap (λ n. to_le n (from_le piece)) size)
    ∙ ap (◌++◌ (to_le k (uint_at k offset plain))) (drop-drop k offset plain)

pub uint_at-lt :
    (k offset : ℕ) (plain : List ℕ)
    → offset + k ≤ length plain
    → All IsByte plain
    → uint_at k offset plain < 256 ^ k
uint_at-lt k offset plain h b =
    let piece : List ℕ = take k (drop offset plain) in
    let size : length piece ≡ k =
      omega (arith, length-take k (drop offset plain), length-drop offset plain) in
    rw size at (from_le-lt piece (All-take IsByte k _ (All-drop IsByte offset plain b)))

-- The words at the offsets of the header.
unfoldable pub words_of : List ℕ → Words
words_of plain = record {
  channel = uint_at 1 6 plain;
  type = uint_at 1 7 plain;
  flags = uint_at 2 8 plain;
  session_id = uint_at 4 12 plain;
  request_id = uint_at 4 16 plain;
  stream_id = uint_at 4 20 plain;
  sequence = uint_at 4 24 plain;
  payload = take (length plain - 36) (drop 32 plain);
}

-- What `decode_plain` has checked when it returns a frame.
pub record Checked (plain : List ℕ) : Type 0 where
  pub tagged : take 4 plain ≡ magic
  pub versioned : uint_at 1 4 plain ≡ 1
  pub sized : uint_at 1 5 plain ≡ 32
  pub reserved : uint_at 2 10 plain ≡ 0
  pub routed : uint_at 1 6 plain < 10
  pub bounded : uint_at 4 28 plain < 4001
  pub whole : length plain ≡ 32 + uint_at 4 28 plain + 4
  pub summed : uint_at 4 (length plain - 4) plain ≡ checksum (take (length plain - 4) plain)

pub or-false : (a b : Bool) → (a || b) ≡ false → (a ≡ false) × (b ≡ false)
or-false a b h = ground arith

pub not-false : (a : Bool) → not a ≡ false → a ≡ true
not-false a h = ground arith

pub same : (a b : ℕ) → not (a == b) ≡ false → a ≡ b
same a b h = ground arith

pub at_most : (a b : ℕ) → ltb b a ≡ false → a < suc b
at_most a b h = ground arith

pub decode_plain-Checked :
    (plain : List ℕ) (f : Frame)
    → decode_plain plain ≡ ok f
    → Checked plain × (f ≡ frame_of (words_of plain))
unfolding decode_plain words_of
decode_plain-Checked plain f e =
    let (c1, e1) = raise_if-ok (ltb (length plain) 36) _ _ e in
    let (c2, e2) =
      raise_if-ok
        (not (bytes_eq (take 4 plain) magic)
          || (not (uint_at 1 4 plain == 1) || not (uint_at 1 5 plain == 32)))
        _ _ e1 in
    let (c3, e3) =
      raise_if-ok (not (uint_at 2 10 plain == 0) || ltb 9 (uint_at 1 6 plain)) _ _ e2 in
    let (c4, e4) =
      raise_if-ok
        (ltb 4000 (uint_at 4 28 plain) || not (length plain == 32 + uint_at 4 28 plain + 4)) _ _
        e3 in
    let (c5, e5) =
      raise_if-ok
        (not (uint_at 4 (length plain - 4) plain == checksum (take (length plain - 4) plain))) _ _
        e4 in
    let (magic_ok, rest_ok) = or-false _ _ c2 in
    let (version_ok, size_ok) = or-false _ _ rest_ok in
    let (reserved_ok, channel_ok) = or-false _ _ c3 in
    let (payload_ok, whole_ok) = or-false _ _ c4 in
    (
      record {
        tagged = bytes_eq_sound (take 4 plain) magic (not-false _ magic_ok);
        versioned = same (uint_at 1 4 plain) 1 version_ok;
        sized = same (uint_at 1 5 plain) 32 size_ok;
        reserved = same (uint_at 2 10 plain) 0 reserved_ok;
        routed = at_most (uint_at 1 6 plain) 9 channel_ok;
        bounded = at_most (uint_at 4 28 plain) 4000 payload_ok;
        whole = same (length plain) (32 + uint_at 4 28 plain + 4) whole_ok;
        summed = same _ _ c5;
      },
      ok-injective (sym e5),
    )

-- The fixed fields, one behind the other.
pub cut :
    (plain : List ℕ)
    → 36 ≤ length plain
    → All IsByte plain
    → plain
      ≡ take 4 plain
        ++ (to_le 1 (uint_at 1 4 plain)
            ++ (to_le 1 (uint_at 1 5 plain)
                ++ (to_le 1 (uint_at 1 6 plain)
                    ++ (to_le 1 (uint_at 1 7 plain)
                        ++ (to_le 2 (uint_at 2 8 plain)
                            ++ (to_le 2 (uint_at 2 10 plain)
                                ++ (to_le 4 (uint_at 4 12 plain)
                                    ++ (to_le 4 (uint_at 4 16 plain)
                                        ++ (to_le 4 (uint_at 4 20 plain)
                                            ++ (to_le 4 (uint_at 4 24 plain)
                                                ++ (to_le 4 (uint_at 4 28 plain)
                                                    ++ drop 32 plain)))))))))))
cut plain n b =
    sym (take-append-drop 4 plain)
    ∙ ap (◌++◌ (take 4 plain)) (
        field 1 4 (omega arith) (
          field 1 5 (omega arith) (
            field 1 6 (omega arith) (
              field 1 7 (omega arith) (
                field 2 8 (omega arith) (
                  field 2 10 (omega arith) (
                    field 4 12 (omega arith) (
                      field 4 16 (omega arith) (
                        field 4 20 (omega arith)
                          (field 4 24 (omega arith) (field 4 28 (omega arith) refl)))))))))))
  where
    field :
        (k offset : ℕ) {tail : List ℕ}
        → offset + k ≤ length plain
        → drop (offset + k) plain ≡ tail
        → drop offset plain ≡ to_le k (uint_at k offset plain) ++ tail
    field k offset h e =
        field_at k offset plain h b ∙ ap (◌++◌ (to_le k (uint_at k offset plain))) e
