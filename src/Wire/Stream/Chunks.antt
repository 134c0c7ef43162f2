-- ===== src/Wire/Stream/Chunks.antt =====
-- The decoder's answers do not depend on how the stream is cut into reads; its buffer is bounded.
use esp_iris.Common.{
  ℕ, ◌<◌, ◌≡◌, refl, sym, ◌∙◌, leb, List, [], ◌∷◌, ◌++◌, length, append_assoc, append-nil,
  length-append, All-append, arith, false, Bool-cases, inl, inr, ok, err, is_empty, ==_eq, ==_ne,
  ◌≢◌,
}
use native.Mathlib.Decide.{ℕ_discrete}
use esp_iris.Wire.Error.{Wire}
use esp_iris.Wire.Frame.{Frame, decode_frame}
use esp_iris.Wire.Stream.{
  FrameDecoder, new_decoder, feed_byte, feed_delimiter, feed_value, deliver, feed, Inv,
}

-- Feeding two chunks in turn gives the state and the frames of feeding them at once.
pub feed-append :
    (d : FrameDecoder) (xs ys : List ℕ)
    → feed d (xs ++ ys)
      ≡ (let (d1, frames) = feed d xs in let (d2, later) = feed d1 ys in (d2, frames ++ later))
unfolding feed
feed-append d [] ys = refl
feed-append d (x ∷ xs) ys =
    let d1 = (feed_byte d x).0 in
    let now = (feed_byte d x).1 in
    let ih = feed-append d1 xs ys in
    (λ i. ((ih i).0, now ++ (ih i).1)) ∙ λ i.
    ((feed (feed d1 xs).0 ys).0, sym (append_assoc now (feed d1 xs).1 (feed (feed d1 xs).0 ys).1) i)

grow-Inv :
    (d : FrameDecoder) (value : ℕ)
    → value ≢ 0
    → length d.encoded < 4095
    → Inv d
    → Inv (record d { encoded = d.encoded ++ value ∷ []; discarding = false })
grow-Inv d value nz short v = record {
  bounded = omega (arith, length-append d.encoded (value ∷ []));
  no_delimiter = All-append (λ b. 0 < b) d.encoded (value ∷ []) v.no_delimiter (omega arith, tt);
  dropped = λ e. cc;
}

empty-Inv : (d : FrameDecoder) → d.encoded ≡ [] → Inv d
empty-Inv d e = record { bounded = rw e (omega arith); no_delimiter = rw e tt; dropped = λ _. e }

deliver-Inv : (d : FrameDecoder) (r : Wire Frame) → Inv (deliver d r).0
unfolding deliver
deliver-Inv d (ok frame) = empty-Inv _ refl
deliver-Inv d (err e) = empty-Inv _ refl

delimiter-Inv : (d : FrameDecoder) → Inv d → Inv (feed_delimiter d).0
unfolding feed_delimiter
delimiter-Inv d v = elim (Bool-cases d.discarding) [
  | inl skipping ↦ simp skipping (empty-Inv _ refl)
  | inr live ↦ elim (Bool-cases (is_empty d.encoded)) [
    | inl empty ↦ simp (live, empty) v
    | inr full ↦ simp (live, full) (deliver-Inv d (decode_frame d.encoded))
  ]
]

value-Inv : (d : FrameDecoder) (value : ℕ) → value ≢ 0 → Inv d → Inv (feed_value d value)
unfolding feed_value
value-Inv d value nz v = elim (Bool-cases d.discarding) [
  | inl skipping ↦ simp skipping v
  | inr live ↦ elim (Bool-cases (leb 4095 (length d.encoded))) [
    | inl full ↦ simp (live, full) (empty-Inv _ refl)
    | inr room ↦ simp (live, room) (grow-Inv d value nz (ground arith) v)
  ]
]

feed_byte-Inv : (d : FrameDecoder) (value : ℕ) → Inv d → Inv (feed_byte d value).0
unfolding feed_byte
feed_byte-Inv d value v = elim (ℕ_discrete value 0) [
  | yes z ↦ rw (==_eq value 0 z) (delimiter-Inv d v)
  | no nz ↦ rw (==_ne value 0 nz) (value-Inv d value nz v)
]

pub feed_then :
    (d e : FrameDecoder) (xs ys : List ℕ) (now : List Frame) {r : FrameDecoder × List Frame}
    → feed d xs ≡ (e, now)
    → feed e ys ≡ r
    → feed d (xs ++ ys) ≡ (r.0, now ++ r.1)
feed_then d e xs ys now p q =
    feed-append d xs ys ∙ (λ i. ((feed (p i).0 ys).0, (p i).1 ++ (feed (p i).0 ys).1)) ∙ λ i.
    ((q i).0, now ++ (q i).1)

pub feed_one : (d : FrameDecoder) (b : ℕ) → feed d (b ∷ []) ≡ feed_byte d b
unfolding feed
feed_one d b = λ i. ((feed_byte d b).0, append-nil (feed_byte d b).1 i)

-- The buffer never holds a whole wire frame's worth of bytes, nor a delimiter, and is empty while a
-- frame that is too long is being dropped.
pub feed-Inv : (d : FrameDecoder) (bytes : List ℕ) → Inv d → Inv (feed d bytes).0
unfolding feed
feed-Inv d [] v = v
feed-Inv d (x ∷ xs) v = feed-Inv (feed_byte d x).0 xs (feed_byte-Inv d x v)

pub new_decoder-Inv : Inv new_decoder
new_decoder-Inv = record { bounded = omega arith; no_delimiter = tt; dropped = λ e. refl }
