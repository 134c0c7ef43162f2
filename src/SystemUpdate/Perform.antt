-- ===== src/SystemUpdate/Perform.antt =====
-- `perform_system_update` of system_update_transport.py. `wait_ready` gives the capabilities of the
-- device, `progress` is the callback, `token` the 16 random bytes, and `fuel` bounds the rounds for
-- one component.
use esp_iris.Common.{
  ℕ, zero, suc, ◌+◌, ◌==◌, ltb, not, ◌||◌, if◌then◌else◌, List, [], ◌∷◌, ◌++◌, to_le, length,
  is_empty, replicate, Option, none, some, Result, ok, err, raise_if, bytes_eq,
}
use esp_iris.Wire.Codes.Enum.{int}
use esp_iris.Wire.Codes.Transport.{Capability, capability_enum}
use esp_iris.Wire.Codes.Services.{SystemUpdateType}
use esp_iris.Wire.Frame.{Frame}
use esp_iris.Exchange.{Device, Talk, Outcome, after, state_after, timed_out, connection_lost}
use esp_iris.SystemUpdate.Bundle.{
  Component, Bundle, total_size, UpdateError, fault, no_update, invalid_operation_id, out_of_fuel,
}
use esp_iris.SystemUpdate.Status.{ask_update, update_request, update_status, lacks}
use esp_iris.SystemUpdate.Transfer.{
  Progress, Started, begin_payload, begin_answer, begin_pending, descriptor, component_answer,
  chunk_at, data_payload, data_answer, data_pending, end_answer, commit_pending, commit_answer,
  on_timeout,
}

-- `completion_evidence`, with the answer to COMMIT.
pub data Evidence : Type 0 where
  commit_response : Frame → Evidence
  device_status session_close : Evidence

pub record Updated : Type 0 where
  pub operation_id : List ℕ
  pub job_id : ℕ
  pub bytes : ℕ
  pub evidence : Evidence

-- `operation_id or secrets.token_bytes(16)`
abbrev pub identifier_or : List ℕ → Option (List ℕ) → List ℕ
identifier_or token none = token
identifier_or token (some identifier) = if is_empty identifier then token else identifier

module _ {D : Type 0} (device : Device D) (wait_ready : Talk UpdateError D ℕ)
    (progress : Progress → Talk UpdateError D (Unit {0})) where
  -- BEGIN, once more if the device has prepared the update but its answer was late.
  unfoldable pub begin_update : List ℕ → Bundle → Talk UpdateError D Started
  unfolding begin_payload ask_update update_status begin_pending begin_answer
  begin_update identifier bundle d =
      after (begin_payload identifier bundle, d)
        (λ payload d.
          after
            (on_timeout (ask_update device SystemUpdateType.begin payload d) (λ d.
              after (update_status device d) (λ status d.
                after (begin_pending identifier bundle status, d)
                  (λ _ d. ask_update device SystemUpdateType.begin payload d))))
            (λ frame d. (begin_answer identifier bundle frame, d)))

  -- What follows on a DATA: its answer and the report of the progress, or the status of the device.
  unfoldable pub data_next :
      List ℕ
      → Component
      → ℕ
      → List ℕ
      → (ℕ → ℕ → Progress)
      → Outcome UpdateError D Frame
      → Outcome UpdateError D ℕ
  unfolding data_answer update_status data_pending
  data_next identifier c offset chunk report (ok frame, d) =
      after (data_answer identifier c offset chunk frame, d)
        (λ answer d. after (progress (report answer.0 answer.1) d) (λ _ d. (ok answer.1, d)))
  data_next identifier c offset chunk report (err (fault timed_out), d) =
      after (update_status device d)
        (λ status d. (data_pending identifier c offset chunk status, d))
  data_next identifier c offset chunk report (err e, d) = (err e, d)

  -- One round of the inner loop: the offset to go on from.
  unfoldable pub data_round :
      List ℕ → Component → ℕ → List ℕ → (ℕ → ℕ → Progress) → Talk UpdateError D ℕ
  unfolding ask_update data_next
  data_round identifier c offset chunk report d =
      data_next identifier c offset chunk report
        (ask_update device SystemUpdateType.data_frame (data_payload identifier c offset chunk) d)

  -- `while offset < component.size`
  unfoldable pub data_loop :
      ℕ → List ℕ → Component → ℕ → ℕ → (ℕ → ℕ → Progress) → Talk UpdateError D (Unit {0})
  unfolding data_round
  data_loop zero identifier c chunk offset report d = (err out_of_fuel, d)
  data_loop (suc fuel) identifier c chunk offset report d =
      let sent =
        after (data_round identifier c offset (chunk_at c chunk offset) report d)
          (λ offset' d. data_loop fuel identifier c chunk offset' report d) in
      if ltb offset c.size then sent else (ok tt, d)

  -- The transfer of a component, behind the bytes of those before.
  unfoldable pub send_component :
      ℕ → List ℕ → Started → ℕ → ℕ → ℕ → Component → Talk UpdateError D (Unit {0})
  unfolding descriptor component_answer ask_update data_loop end_answer
  send_component fuel identifier started total transferred index c d =
      after (descriptor identifier c, d)
        (λ payload d.
          after (ask_update device SystemUpdateType.component_begin payload d) (λ opened d.
            after (component_answer identifier started.chunk_size c opened, d)
              (λ chunk d.
                after
                  (data_loop fuel identifier c chunk 0
                    (λ permille received. record {
                      job_id = started.job_id;
                      component_id = some c.id;
                      bytes_received = transferred + received;
                      bytes_total = total;
                      progress_permille = permille;
                    })
                    d)
                  (λ _ d.
                    after
                      (ask_update device SystemUpdateType.component_end
                        (identifier ++ (to_le 1 c.id ++ 0 ∷ 0 ∷ 0 ∷ [])) d)
                      (λ ended d. (end_answer identifier index c ended, d))))))

  -- `for component_index, component in enumerate(bundle.components)`: the bytes transferred.
  unfoldable pub send_components :
      ℕ → List ℕ → Started → ℕ → ℕ → ℕ → List Component → Talk UpdateError D ℕ
  unfolding send_component
  send_components fuel identifier started total transferred index [] d = (ok transferred, d)
  send_components fuel identifier started total transferred index (c ∷ components) d =
      after (send_component fuel identifier started total transferred index c d) (λ _ d.
        send_components fuel identifier started total (transferred + c.size) (suc index) components
          d)

  -- COMMIT, and what counts as evidence if it is not answered.
  unfoldable pub commit_evidence :
      List ℕ → Outcome UpdateError D Frame → Outcome UpdateError D Evidence
  unfolding update_status commit_pending
  commit_evidence identifier (ok frame, d) = (ok (commit_response frame), d)
  commit_evidence identifier (err (fault timed_out), d) =
      after (update_status device d)
        (λ status d. after (commit_pending identifier status, d) (λ _ d. (ok device_status, d)))
  commit_evidence identifier (err (fault connection_lost), d) = (ok session_close, d)
  commit_evidence identifier (err e, d) = (err e, d)

  -- The report before COMMIT.
  abbrev pub committing_report : Started → ℕ → ℕ → Progress
  committing_report started transferred total = record {
    job_id = started.job_id;
    component_id = none;
    bytes_received = transferred;
    bytes_total = total;
    progress_permille = 950;
  }

  -- The `try` block.
  unfoldable pub transfer : ℕ → List ℕ → Bundle → Started → Talk UpdateError D (ℕ × Evidence)
  unfolding send_components commit_evidence ask_update
  transfer fuel identifier bundle started d =
      after
        (send_components fuel identifier started (total_size bundle.components) 0 0
          bundle.components d)
        (λ transferred d.
          after (progress (committing_report started transferred (total_size bundle.components)) d)
            (λ _ d.
              after
                (commit_evidence identifier
                  (ask_update device SystemUpdateType.commit identifier d))
                (λ evidence d. (ok (transferred, evidence), d))))

  -- `except BaseException`: the update is cancelled.
  abbrev pub cancel_unless :
      {A : Type 0} → List ℕ → Outcome UpdateError D A → Outcome UpdateError D A
  cancel_unless identifier (ok a, d) = (ok a, d)
  cancel_unless identifier (err e, d) =
      (err e, state_after device (update_request SystemUpdateType.cancel identifier) d)

  abbrev pub check_evidence : List ℕ → ℕ → Evidence → Result UpdateError (Unit {0})
  check_evidence identifier job_id (commit_response frame) = commit_answer identifier job_id frame
  check_evidence identifier job_id device_status = ok tt
  check_evidence identifier job_id session_close = ok tt

  -- The update behind BEGIN.
  unfoldable pub run_update : ℕ → List ℕ → Bundle → Started → Talk UpdateError D Updated
  unfolding transfer commit_answer
  run_update fuel identifier bundle started d =
      after (cancel_unless identifier (transfer fuel identifier bundle started d)) (λ sent d.
        after (check_evidence identifier started.job_id sent.1, d)
          (λ _ d. (
            ok (record {
              operation_id = identifier;
              job_id = started.job_id;
              bytes = sent.0;
              evidence = sent.1;
            }),
            d,
          )))

  unfoldable pub perform_update : ℕ → List ℕ → Option (List ℕ) → Bundle → Talk UpdateError D Updated
  unfolding begin_update run_update
  perform_update fuel token operation_id bundle d = after (wait_ready d) (λ capabilities d.
      after (raise_if (lacks capabilities (int Capability.system_update)) no_update, d)
        (λ _ d.
          let identifier = identifier_or token operation_id in
          after
            (
              raise_if (not (length identifier == 16) || bytes_eq identifier (replicate 16 0))
                  invalid_operation_id,
              d,
            )
            (λ _ d.
              after (begin_update identifier bundle d)
                (λ started d. run_update fuel identifier bundle started d))))
