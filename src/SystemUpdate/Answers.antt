-- ===== src/SystemUpdate/Answers.antt =====
-- What the checks on the answers to an update let through.
use esp_iris.Common.{ℕ, ◌≡◌, inl, inr, ◌⊎◌, List, ok, err, arith, uint_at}
use esp_iris.Wire.Codes.Enum.{int}
use esp_iris.Wire.Codes.Transport.{capability_enum}
use esp_iris.Wire.Codes.Services.{SystemUpdateType, system_update_type_enum}
use esp_iris.Wire.Frame.{Frame}
use esp_iris.Exchange.{Talk, Outcome, timed_out, type_of}
use esp_iris.SystemUpdate.Bundle.{Component, Bundle, UpdateError, fault}
use esp_iris.SystemUpdate.Transfer.{
  Started, begin_answer, component_answer, end_answer, commit_answer, on_timeout,
}

pub component_answer_lem :
    (identifier : List ℕ) (chunk_size : ℕ) (c : Component) (frame : Frame) {chunk : ℕ}
    → component_answer identifier chunk_size c frame ≡ ok chunk
    → type_of frame ≡ int SystemUpdateType.component_begin_response
unfolding component_answer
component_answer_lem identifier chunk_size c frame h = ground (arith, h)

pub end_answer_lem :
    (identifier : List ℕ) (index : ℕ) (c : Component) (frame : Frame)
    → end_answer identifier index c frame ≡ ok tt
    → type_of frame ≡ int SystemUpdateType.component_end_response
unfolding end_answer
end_answer_lem identifier index c frame h = ground (arith, h)

pub begin_answer_lem :
    (identifier : List ℕ) (bundle : Bundle) (frame : Frame) {started : Started}
    → begin_answer identifier bundle frame ≡ ok started
    → type_of frame ≡ int SystemUpdateType.begin_response
unfolding begin_answer
begin_answer_lem identifier bundle frame h = ground (arith, h)

pub commit_answer_lem :
    (identifier : List ℕ) (job_id : ℕ) (frame : Frame)
    → commit_answer identifier job_id frame ≡ ok tt
    → (uint_at 4 16 frame.payload ≡ job_id) × (uint_at 4 20 frame.payload ≡ 0)
unfolding commit_answer
commit_answer_lem identifier job_id frame h = ground (arith, h)

pub on_timeout-ok :
    {D : Type 0} (r : Outcome UpdateError D Frame) (k : Talk UpdateError D Frame) {frame : Frame}
    {d' : D}
    → on_timeout r k ≡ (ok frame, d')
    → (r ≡ (ok frame, d')) ⊎ ((d : D) × (k d ≡ (ok frame, d')))
on_timeout-ok (ok a, d) k h = inl h
on_timeout-ok (err (fault timed_out), d) k h = inr (d, h)
on_timeout-ok (err _, d) k h = absurd (cc)
