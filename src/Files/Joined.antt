-- ===== src/Files/Joined.antt =====
-- The parts of an upload, joined again.
use esp_iris.Common.{
  ℕ, zero, suc, ◌≤◌, ◌<◌, ◌==◌, ◌≡◌, refl, ap, ◌∙◌, List, [], ◌∷◌, ◌++◌, length, take, drop, All,
  length-drop, length-take, take-append-drop, ok, ok-injective, arith, bind-ok, raise_if-ok,
  uint_at, not, ◌||◌,
}
use esp_iris.Wire.Codes.Files.{FileType, file_type_enum}
use esp_iris.Wire.Frame.{Frame}
use esp_iris.Exchange.{stream_of}
use esp_iris.Files.Answers.{checked_exactly}
use esp_iris.Files.Writing.{WriteStream, write_opened}
use esp_iris.Files.Uploading.{split_parts}

-- The bytes of chunks, one behind the other.
unfoldable pub joined : List (List ℕ) → List ℕ
joined [] = []
joined (chunk ∷ chunks) = chunk ++ joined chunks

abbrev pub IsFilled : List ℕ → Type 0
IsFilled part = 0 < length part

pub joined-split_parts :
    (fuel chunk_max : ℕ) (bytes : List ℕ)
    → 0 < chunk_max
    → length bytes ≤ fuel
    → joined (split_parts fuel chunk_max bytes) ≡ bytes
unfolding joined split_parts
joined-split_parts zero chunk_max [] positive h = refl
joined-split_parts zero chunk_max (b ∷ bytes) positive h = absurd (omega arith)
joined-split_parts (suc fuel) chunk_max [] positive h = refl
joined-split_parts (suc fuel) chunk_max (b ∷ bytes) positive h =
    ap (λ rest. take chunk_max (b ∷ bytes) ++ rest)
      (joined-split_parts fuel chunk_max (drop chunk_max (b ∷ bytes)) positive
        (omega (arith, length-drop chunk_max (b ∷ bytes))))
    ∙ take-append-drop chunk_max (b ∷ bytes)

pub split_parts-IsFilled :
    (fuel chunk_max : ℕ) (bytes : List ℕ)
    → 0 < chunk_max
    → All IsFilled (split_parts fuel chunk_max bytes)
unfolding split_parts
split_parts-IsFilled zero chunk_max bytes positive = tt
split_parts-IsFilled (suc fuel) chunk_max [] positive = tt
split_parts-IsFilled (suc fuel) chunk_max (b ∷ bytes) positive = (
  omega (arith, length-take chunk_max (b ∷ bytes)),
  split_parts-IsFilled fuel chunk_max (drop chunk_max (b ∷ bytes)) positive,
)

pub opened-positive :
    (frame : Frame) (stream : WriteStream) → write_opened frame ≡ ok stream → 0 < stream.chunk_max
unfolding write_opened
opened-positive frame stream h =
    let (payload, e, k) = bind-ok (checked_exactly frame FileType.write_opened 12) _ h in
    let (passes, l) =
      raise_if-ok
        (uint_at 4 4 payload == 0
          || (not (stream_of frame == uint_at 4 4 payload)
              || (uint_at 2 8 payload == 0 || not (uint_at 2 10 payload == 0))))
        _ _ k in
    ground (arith, passes, ap (λ (x : WriteStream). x.chunk_max) (ok-injective l))
