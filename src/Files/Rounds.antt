-- ===== src/Files/Rounds.antt =====
-- The answers that a reader of a file takes, and the exceptions that they cannot raise.
use esp_iris.Common.{
  refl, zero, suc, ℕ, ◌+◌, ◌-◌, ◌≤◌, ◌<◌, ◌==◌, ltb, not, ◌||◌, ◌≡◌, ◌≢◌, sym, ap, subst, inl, inr,
  Bool, true, false, if◌then◌else◌, List, [], ◌∷◌, ◌++◌, length, take, drop, is_empty, Option, none,
  some, ok, err, ok-injective, arith, Bool-cases, bind-ok, bind-err, raise_if-err, raise_if,
  raise_if-ok, uint_at,
}
use esp_iris.Wire.Codes.Files.{FileType}
use esp_iris.Wire.Frame.{Frame}
use esp_iris.Exchange.{Outcome, passed, stream_of, Fault}
use esp_iris.Files.Errors.{fault, out_of_fuel, read_offset}
use esp_iris.Files.Paths.{path_payload, check_volume, check_path}
use esp_iris.Files.Answers.{checked, checked_exactly}
use esp_iris.Files.Reading.{ReadStream, read_opened, end_of, read_most, data_answer}

-- What is promised of the bytes that are read in a round.
abbrev pub IsChunk : ℕ → ℕ → Frame → List ℕ → Type 0
IsChunk end cursor frame chunk =
    (chunk ≡ drop 20 frame.payload)
    × (0 < length chunk)
    × (cursor + length chunk ≤ end)
    × (uint_at 8 4 frame.payload ≡ cursor)

pub checked-payload :
    (frame : Frame) (type : FileType) (minimum : ℕ) {payload : List ℕ}
    → checked frame type minimum ≡ ok payload
    → payload ≡ frame.payload
unfolding checked
checked-payload frame type minimum h = ground (arith)

pub filled : (xs : List ℕ) → is_empty xs ≡ false → 0 < length xs
filled [] h = absurd (cc)
filled (x ∷ xs) h = omega arith

pub fits :
    (stream : ReadStream) (end cursor : ℕ) (frame : Frame) (payload chunk : List ℕ)
    → cursor < end
    → payload ≡ frame.payload
    → (not (stream_of frame == stream.stream_id)
        || (not (uint_at 8 4 payload == cursor)
            || (not (uint_at 8 12 payload == stream.total_size)
                || (is_empty (drop 20 payload)
                    || ltb (read_most stream end cursor) (length (drop 20 payload))))))
      ≡ false
    → (if ltb end (cursor + length (drop 20 payload))
        then take (end - cursor) (drop 20 payload)
        else drop 20 payload)
      ≡ chunk
    → IsChunk end cursor frame chunk
fits stream end cursor frame payload chunk below e passes l =
    subst (λ p. IsChunk end cursor (record frame { payload = p }) chunk) e
      (elim (Bool-cases (ltb end (cursor + length (drop 20 payload)))) [
        | inl y ↦ absurd (ground (arith, y, passes))
        | inr n ↦
            let same : drop 20 payload ≡ chunk = rw n at l in
            (
              sym same,
              ground (arith, filled (drop 20 payload), passes, ap length same),
              ground (arith, n, ap length same),
              ground (arith, passes),
            )
      ])

pub data_answer-IsChunk :
    (stream : ReadStream) (end cursor : ℕ) (frame : Frame) (chunk : List ℕ)
    → cursor < end
    → data_answer stream end cursor frame ≡ ok chunk
    → IsChunk end cursor frame chunk
unfolding data_answer
data_answer-IsChunk stream end cursor frame chunk below h =
    let (payload, e, k) = bind-ok (checked frame FileType.data_frame 20) _ h in
    let (passes, l) =
      raise_if-ok
        (not (stream_of frame == stream.stream_id)
          || (not (uint_at 8 4 payload == cursor)
              || (not (uint_at 8 12 payload == stream.total_size)
                  || (is_empty (drop 20 payload)
                      || ltb (read_most stream end cursor) (length (drop 20 payload))))))
        _ _ k in
    fits stream end cursor frame payload chunk below
      (checked-payload frame FileType.data_frame 20 e) passes (ok-injective l)

pub data_answer-fuel :
    (stream : ReadStream) (end cursor : ℕ) (frame : Frame)
    → data_answer stream end cursor frame ≢ err out_of_fuel
unfolding data_answer checked
data_answer-fuel stream end cursor frame h = ground (arith)

pub take-length-take : (n : ℕ) (xs : List ℕ) → take (length (take n xs)) xs ≡ take n xs
take-length-take zero xs = refl
take-length-take (suc n) [] = refl
take-length-take (suc n) (x ∷ xs) = ap (◌∷◌ x) (take-length-take n xs)

pub take-append-drop_parts :
    (xs ys file : List ℕ)
    → xs ≡ take (length xs) file
    → ys ≡ take (length ys) (drop (length xs) file)
    → xs ++ ys ≡ take (length (xs ++ ys)) file
take-append-drop_parts [] ys file h k = k
take-append-drop_parts (x ∷ xs) ys [] h k = absurd (cc)
take-append-drop_parts (x ∷ xs) ys (c ∷ file) h k =
    cc (h, take-append-drop_parts xs ys file (ap (drop 1) h) k)

pub offset-end :
    (total offset : ℕ) (length' : Option ℕ) → offset ≤ total → offset ≤ end_of total offset length'
offset-end total offset none h = h
offset-end total offset (some n) h = omega arith

pub path_payload-fuel : (volume path : List ℕ) → path_payload volume path ≢ err out_of_fuel
unfolding path_payload check_volume check_path
path_payload-fuel volume path h = ground (arith)

pub passed-fuel : {D : Type 0} (r : Outcome Fault D Frame) → (passed fault r).0 ≢ err out_of_fuel
passed-fuel (ok frame, d) h = cc
passed-fuel (err e, d) h = cc

pub checked-fuel :
    (frame : Frame) (type : FileType) (minimum : ℕ) → checked frame type minimum ≢ err out_of_fuel
unfolding checked
checked-fuel frame type minimum h = ground (arith)

pub checked_exactly-fuel :
    (frame : Frame) (type : FileType) (size : ℕ) → checked_exactly frame type size ≢ err out_of_fuel
unfolding checked_exactly
checked_exactly-fuel frame type size h = elim (bind-err (checked frame type size) _ h) [
  | inl e ↦ checked-fuel frame type size e
  | inr (payload, e, k) ↦ elim (raise_if-err (not (length payload == size)) _ _ k) [
    | inl l ↦ cc (l)
    | inr l ↦ cc (l)
  ]
]

pub read_opened-fuel : (frame : Frame) → read_opened frame ≢ err out_of_fuel
unfolding read_opened
read_opened-fuel frame h = elim (bind-err (checked_exactly frame FileType.read_opened 36) _ h) [
  | inl e ↦ checked_exactly-fuel frame FileType.read_opened 36 e
  | inr (payload, e, k) ↦
      elim (raise_if-err
        (uint_at 4 4 payload == 0
          || (not (stream_of frame == uint_at 4 4 payload)
              || (uint_at 2 32 payload == 0 || not (uint_at 2 34 payload == 0))))
        _ _ k) [ inl l ↦ cc (l) | inr l ↦ cc (l) ]
]

pub raise_if-fuel : (b : Bool) → raise_if b read_offset ≢ err out_of_fuel
raise_if-fuel true h = cc
raise_if-fuel false h = cc
