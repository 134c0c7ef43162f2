-- ===== src/Wire/Stream/Tests.antt =====
-- Runs of the incremental decoder, and its theorems at concrete inputs.
use esp_iris.Common.{false, ℕ, ◌≡◌, refl, List, [], ◌∷◌, ◌++◌, ok, arith, pos}
use esp_iris.Wire.Cobs.{cobs_decode}
use esp_iris.Wire.Frame.{decode_frame, decode_frame, Frame}
use esp_iris.Wire.Stream.{new_decoder, feed, Inv}
use esp_iris.Wire.Stream.Chunks.{feed-Inv, new_decoder-Inv}
use esp_iris.Wire.Stream.Segments.{clean, stream, outcomes, feed-stream}
use esp_iris.Wire.Stream.Resync.{encode_all, resynchronizes}

abbrev status_request : Frame
status_request = record {
  channel = pos 0;
  type = pos 7;
  flags = pos 0;
  session_id = pos 1;
  request_id = pos 1;
  stream_id = pos 0;
  sequence = pos 1;
  payload = [];
}

-- Noise that is no frame counts once, and empty segments do not count.
noise_counts :
    feed new_decoder (7 ∷ 7 ∷ 0 ∷ 0 ∷ 3 ∷ [])
    ≡ (record { encoded = 3 ∷ []; discarding = false; invalid_frames = 1 }, [])
unfolding feed decode_frame cobs_decode
noise_counts = refl

feed-Inv_example : Inv (feed new_decoder (7 ∷ 0 ∷ 3 ∷ [])).0
feed-Inv_example = feed-Inv new_decoder (7 ∷ 0 ∷ 3 ∷ []) new_decoder-Inv

abbrev segments : List (List ℕ)
segments = (7 ∷ 7 ∷ []) ∷ [] ∷ (5 ∷ []) ∷ []

feed-stream_example :
    feed (clean 0) (stream segments) ≡ (clean (outcomes 0 segments).0, (outcomes 0 segments).1)
feed-stream_example = feed-stream 0 segments (omega arith)

resynchronizes_example :
    (wire : List ℕ) × (encode_all (status_request ∷ []) ≡ ok wire)
    × (feed new_decoder (((7 ∷ 7 ∷ []) ++ 0 ∷ []) ++ wire) ≡ (
      (feed new_decoder ((7 ∷ 7 ∷ []) ++ 0 ∷ [])).0,
      (feed new_decoder ((7 ∷ 7 ∷ []) ++ 0 ∷ [])).1 ++ status_request ∷ [],
    ))
resynchronizes_example = resynchronizes new_decoder (7 ∷ 7 ∷ []) (status_request ∷ []) (omega arith)
