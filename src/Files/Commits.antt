-- ===== src/Files/Commits.antt =====
-- The end of an upload: COMMIT and what settles it change nothing of what is stored, and a value is
-- returned only when the upload is complete.
use esp_iris.Common.{
  ℕ, zero, suc, ◌≡◌, refl, ap, ◌∙◌, true, false, List, Result, ok, err, arith, Bool-cases, inl, inr,
}
use esp_iris.Wire.Codes.Files.{FileType, FileStatus}
use esp_iris.Wire.Frame.{Frame}
use esp_iris.Exchange.{Device, Talk, Outcome, Fault, after, passed, checked-state, timed_out}
use esp_iris.Files.Errors.{FileError, fault, file_service}
use esp_iris.Files.Paths.{path_payload}
use esp_iris.Files.Answers.{Metadata, metadata_answer}
use esp_iris.Files.Methods.{ask_file, file_request, stat, ask_metadata}
use esp_iris.Files.Writing.{
  WriteStatus, WriteState, is_active, is_committed, is_aborted, write_status, reconcile_loop,
  unless_busy,
}
use esp_iris.Files.Uploading.{
  Upload, Closed, complete_with, commit_frame, commit_answer, ask_commit, settle, settled,
  commit_or_settle, commit_upload, is_ok,
}
use esp_iris.Files.Stored.{write_status-state, status_keeps}
use esp_iris.Files.Receiving.{Receives}

-- An upload that is not complete ends with an exception.
abbrev pub IsSettled : {D A : Type 0} → Closed D A → Type 0
IsSettled (true, outcome) = Unit
IsSettled (false, (ok a, d)) = ⊥
IsSettled (false, (err e, d)) = Unit

module _ {D : Type 0} (device : Device D) (progress : ℕ → ℕ → Talk FileError D (Unit {0}))
    (sha256 : List ℕ → List ℕ) (stored : D → List ℕ) (receives : Receives device stored) where
  unless_busy-keeps :
      (r : Outcome FileError D WriteStatus) (k : Talk FileError D WriteStatus)
      → ((d : D) → stored (k d).1 ≡ stored d)
      → stored (unless_busy device r k).1 ≡ stored r.1
  unless_busy-keeps (ok _, d) k keeps = refl
  unless_busy-keeps (err (file_service FileStatus.busy), d) k keeps = keeps d
  unless_busy-keeps (err _, d) k keeps = refl

  write_status-keeps :
      (stream_id : ℕ) (d : D) → stored (write_status device stream_id d).1 ≡ stored d
  write_status-keeps stream_id d =
      ap stored (write_status-state device stored receives stream_id d)
      ∙ status_keeps device stored receives stream_id d

  reconcile-keeps :
      (left stream_id : ℕ) (d : D) → stored (reconcile_loop device left stream_id d).1 ≡ stored d
  unfolding reconcile_loop
  reconcile-keeps zero stream_id d = write_status-keeps stream_id d
  reconcile-keeps (suc left) stream_id d =
      unless_busy-keeps (write_status device stream_id d) (reconcile_loop device left stream_id)
        (reconcile-keeps left stream_id)
      ∙ write_status-keeps stream_id d

  passed-state : (r : Outcome Fault D Frame) → (passed fault r).1 ≡ r.1
  passed-state (ok frame, d) = refl
  passed-state (err e, d) = refl

  ask_commit-keeps :
      (stream_id : ℕ) (digested : List ℕ) (d : D)
      → stored (ask_commit device progress sha256 stream_id digested d).1 ≡ stored d
  unfolding ask_commit ask_file
  ask_commit-keeps stream_id digested d =
      let request = file_request FileType.commit (sha256 digested) stream_id in
      ap stored (passed-state (device request d))
      ∙ receives.keeps request d (omega arith) (omega arith) (omega arith)

  stat-keeps : (volume path : List ℕ) (d : D) → stored (stat device volume path d).1 ≡ stored d
  unfolding stat ask_metadata ask_file
  stat-keeps volume path d = checked (path_payload volume path)
    where
      checked :
          (r : Result FileError (List ℕ))
          → stored
              (after (r, d) (ask_metadata device FileType.stat_request FileType.stat_response)).1
            ≡ stored d
      checked (err e) = refl
      checked (ok payload) =
          let request = file_request FileType.stat_request payload 0 in
          ap stored
            (checked-state fault (device request d) (metadata_answer FileType.stat_response))
          ∙ receives.keeps request d (omega arith) (omega arith) (omega arith)

  -- What a closing outcome leaves stored, from the state before it, and that it is settled.
  abbrev Closes : D → Closed D Metadata → Type 0
  Closes d c = (stored c.1.1 ≡ stored d) × IsSettled c

  commit_frame-Closes :
      (stream_id : ℕ) (r : Outcome FileError D Frame) (d : D)
      → stored r.1 ≡ stored d
      → Closes d (commit_frame device progress sha256 stream_id r)
  unfolding commit_frame complete_with
  commit_frame-Closes stream_id (err e, d1) d h = (h, tt)
  commit_frame-Closes stream_id (ok frame, d1) d h = checked (commit_answer stream_id frame)
    where
      checked : (r : Result FileError (List ℕ)) → Closes d (complete_with (r, d1))
      checked (ok payload) = (h, tt)
      checked (err e) = (h, tt)

  settle-Closes :
      (u : Upload) (stream_id : ℕ) (digested : List ℕ) (status : WriteStatus) (d1 : D)
      (state : WriteState) (d : D)
      → stored d1 ≡ stored d
      → Closes d (settle device progress sha256 u stream_id digested status d1 state)
  unfolding settle
  settle-Closes u stream_id digested status d1 is_active d h =
      commit_frame-Closes stream_id (ask_commit device progress sha256 stream_id digested d1) d
        (ask_commit-keeps stream_id digested d1 ∙ h)
  settle-Closes u stream_id digested status d1 is_aborted d h = (h, tt)
  settle-Closes u stream_id digested status d1 is_committed d h =
      elim (Bool-cases (is_ok status.result)) [
        | inl y ↦ rw y (stat-keeps u.volume u.path d1 ∙ h, tt)
        | inr n ↦ rw n (h, tt)
      ]

  settled-Closes :
      (u : Upload) (stream_id : ℕ) (digested : List ℕ) (r : Outcome FileError D WriteStatus) (d : D)
      → stored r.1 ≡ stored d
      → Closes d (settled device progress sha256 u stream_id digested r)
  unfolding settled
  settled-Closes u stream_id digested (ok status, d1) d h =
      settle-Closes u stream_id digested status d1 status.state d h
  settled-Closes u stream_id digested (err e, d1) d h = (h, tt)

  commit_or_settle-Closes :
      (u : Upload) (stream_id : ℕ) (digested : List ℕ) (r : Outcome FileError D Frame) (d : D)
      → stored r.1 ≡ stored d
      → Closes d (commit_or_settle device progress sha256 u stream_id digested r)
  unfolding commit_or_settle
  commit_or_settle-Closes u stream_id digested (ok frame, d1) d h =
      commit_frame-Closes stream_id (ok frame, d1) d h
  commit_or_settle-Closes u stream_id digested (err (fault timed_out), d1) d h =
      settled-Closes u stream_id digested (reconcile_loop device 11 stream_id d1) d
        (reconcile-keeps 11 stream_id d1 ∙ h)
  commit_or_settle-Closes u stream_id digested (err _, d1) d h = (h, tt)

  pub commit_upload-Closes :
      (u : Upload) (stream_id : ℕ) (digested : List ℕ) (d : D)
      → (stored (commit_upload device progress sha256 u stream_id digested d).1.1 ≡ stored d)
        × IsSettled (commit_upload device progress sha256 u stream_id digested d)
  unfolding commit_upload
  commit_upload-Closes u stream_id digested d =
      commit_or_settle-Closes u stream_id digested
        (ask_commit device progress sha256 stream_id digested d) d
        (ask_commit-keeps stream_id digested d)
