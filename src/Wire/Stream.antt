-- ===== src/Wire/Stream.antt =====
-- `FrameDecoder` of protocol.py: the incremental parser behind a byte stream.
pub mod Chunks
pub mod Segments
pub mod Resync
mod Tests
use esp_iris.Common.{
  ℕ, suc, ◌+◌, ◌-◌, ◌<◌, ◌≡◌, ◌==◌, ltb, leb, if◌then◌else◌, Bool, true, false, List, [], ◌∷◌, ◌++◌,
  length, is_empty, All, ok, err,
}
use esp_iris.Wire.Error.{Wire}
use esp_iris.Wire.Frame.{Frame, decode_frame, max_wire_frame}

pub record FrameDecoder : Type 0 where
  pub encoded : List ℕ
  pub discarding : Bool
  pub invalid_frames : ℕ

abbrev pub new_decoder : FrameDecoder
new_decoder = record { encoded = []; discarding = false; invalid_frames = 0 }

-- `frames.append(decode_frame(...))`, or the count of the exception; then the buffer is cleared.
deliver : FrameDecoder → Wire Frame → FrameDecoder × List Frame
deliver d (ok frame) = (record d { encoded = [] }, frame ∷ [])
deliver d (err e) = (record d { encoded = []; invalid_frames = d.invalid_frames + 1 }, [])

-- A zero byte.
feed_delimiter : FrameDecoder → FrameDecoder × List Frame
unfolding deliver
feed_delimiter d =
    if d.discarding
    then (record d { discarding = false; encoded = [] }, [])
    else if is_empty d.encoded
    then (d, [])
    else deliver d (decode_frame d.encoded)

-- Any other byte.
feed_value : FrameDecoder → ℕ → FrameDecoder
feed_value d value =
    if d.discarding
    then d
    else if leb (max_wire_frame - 1) (length d.encoded)
    then record d { invalid_frames = d.invalid_frames + 1; discarding = true; encoded = [] }
    else record d { encoded = d.encoded ++ value ∷ [] }

pub feed_byte : FrameDecoder → ℕ → FrameDecoder × List Frame
unfolding feed_delimiter feed_value
feed_byte d value = if value == 0 then feed_delimiter d else (feed_value d value, [])

-- The frames come in the order in which the list was appended to.
pub feed : FrameDecoder → List ℕ → FrameDecoder × List Frame
unfolding feed_byte
feed d [] = (d, [])
feed d (value ∷ values) =
    let (d1, frames) = feed_byte d value in
    let (d2, later) = feed d1 values in (d2, frames ++ later)

-- What holds of the buffer between two bytes.
pub record Inv (d : FrameDecoder) : Type 0 where
  pub bounded : length d.encoded < max_wire_frame
  pub no_delimiter : All (λ b. 0 < b) d.encoded
  pub dropped : d.discarding ≡ true → d.encoded ≡ []
