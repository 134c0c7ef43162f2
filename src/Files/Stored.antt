-- ===== src/Files/Stored.antt =====
-- What an upload leaves on a device that answers late, or not at all.
use esp_iris.Common.{
  ℕ, zero, suc, ◌+◌, ◌<◌, ◌==◌, not, ◌≡◌, refl, sym, ap, ◌∙◌, ◌⊎◌, inl, inr, Bool, true, false,
  if◌then◌else◌, List, [], ◌∷◌, ◌++◌, length, length-append, Result, ok, err, arith, Bool-cases,
  ==_iff,
}
use esp_iris.Wire.Codes.Files.{file_type_enum}
use esp_iris.Exchange.{Device, Talk, Outcome, timed_out, checked-ok, checked-state}
use esp_iris.Files.Errors.{FileError, fault}
use esp_iris.Files.Methods.{ask_file}
use esp_iris.Files.Writing.{
  WriteStatus, write_status, write_status_answer, reconcile_loop, write_once, write_attempts,
  write_part, recover, ack_answer,
}
use esp_iris.Files.Receiving.{write_of, status_of, on_timeout-ok, unless_busy-ok, Receives}

module _ {D : Type 0} (device : Device D) (stored : D → List ℕ)
    (receives : Receives device stored) where
  pub status_keeps : (stream_id : ℕ) (d : D) → stored (device (status_of stream_id) d).1 ≡ stored d
  status_keeps stream_id d =
      receives.keeps (status_of stream_id) d (omega arith) (omega arith) (omega arith)

  pub write_status-state :
      (stream_id : ℕ) (d : D)
      → (write_status device stream_id d).1 ≡ (device (status_of stream_id) d).1
  unfolding write_status ask_file
  write_status-state stream_id d =
      checked-state fault (device (status_of stream_id) d) (write_status_answer stream_id)

  -- A status that is received tells what is stored, and changes nothing.
  write_status-tells :
      (stream_id : ℕ) (d : D) {status : WriteStatus} {d' : D}
      → write_status device stream_id d ≡ (ok status, d')
      → (stored d' ≡ stored d) × (status.committed ≡ length (stored d'))
  unfolding write_status ask_file
  write_status-tells stream_id d {status} {d'} h =
      let (frame, e, k) =
        checked-ok fault (device (status_of stream_id) d) (write_status_answer stream_id) h in
      (
        ap (λ r. stored r.1) (sym e) ∙ status_keeps stream_id d,
        receives.tells stream_id d frame status d' e k,
      )

  reconcile-tells :
      (left stream_id : ℕ) (d : D) {status : WriteStatus} {d' : D}
      → reconcile_loop device left stream_id d ≡ (ok status, d')
      → (stored d' ≡ stored d) × (status.committed ≡ length (stored d'))
  unfolding reconcile_loop
  reconcile-tells zero stream_id d h = write_status-tells stream_id d h
  reconcile-tells (suc left) stream_id d h =
      elim (unless_busy-ok device (write_status device stream_id d)
        (reconcile_loop device left stream_id) h) [
          | inl e ↦ write_status-tells stream_id d e
          | inr (d1, e, k) ↦
              let (same, told) = reconcile-tells left stream_id d1 k in
              let busy : stored d1 ≡ stored d =
                ap (λ r. stored r.1) (sym e)
                ∙ (ap stored (write_status-state stream_id d) ∙ status_keeps stream_id d) in
              (same ∙ busy, told)
        ]

  -- A part that follows what is stored, and is not empty, has been appended once it is acknowledged,
  -- or found to be there.
  abbrev Follows : List ℕ → D → ℕ → Type 0
  Follows part d committed = (committed ≡ length (stored d)) × (0 < length part)

  appended :
      (stream_id committed : ℕ) (part : List ℕ) (d : D) (d1 : D)
      → Follows part d committed
      → (device (write_of stream_id committed part) d).1 ≡ d1
      → committed + length part ≡ length (stored d1)
      → stored d1 ≡ stored d ++ part
  appended stream_id committed part d d1 (at, some_bytes) e longer =
      elim (receives.writes stream_id committed part d) [
        | inl same ↦ absurd (omega (arith, ap (λ x. length (stored x)) e, ap length same))
        | inr grown ↦ ap stored (sym e) ∙ grown
      ]

  unchanged :
      (stream_id committed : ℕ) (part : List ℕ) (d : D) (d1 : D)
      → Follows part d committed
      → (device (write_of stream_id committed part) d).1 ≡ d1
      → committed ≡ length (stored d1)
      → stored d1 ≡ stored d
  unchanged stream_id committed part d d1 (at, some_bytes) e short =
      elim (receives.writes stream_id committed part d) [
        | inl same ↦ ap stored (sym e) ∙ same
        | inr grown ↦ absurd (
            omega (
              arith,
              ap (λ x. length (stored x)) e,
              ap length grown,
              length-append (stored d) part,
            ))
      ]

  -- What a recovery has read, if it ends without an exception.
  abbrev Recovered :
      ℕ → ℕ → Outcome FileError D WriteStatus → Talk FileError D (Unit {0}) → D → Type 0
  Recovered committed target r again d' =
      (status : WriteStatus) × (d2 : D) × (r ≡ (ok status, d2))
      × ((status.committed ≡ target) × (d2 ≡ d')
          ⊎ (status.committed ≡ committed) × (again d2 ≡ (ok tt, d')))

  recover-ok :
      (is_first : Bool) (committed target : ℕ) (r : Outcome FileError D WriteStatus)
      (again : Talk FileError D (Unit {0})) (d' : D)
      → recover device is_first committed target r again ≡ (ok tt, d')
      → Recovered committed target r again d'
  recover-ok is_first committed target (err e, d) again d' h = absurd (cc)
  recover-ok is_first committed target (ok status, d) again d' h =
      elim (Bool-cases (status.committed == target)) [
        | inl y ↦ (status, d, refl, inl ((==_iff _ _).0 y, ap (λ r. r.1) (rw y at h)))
        | inr n ↦ elim (Bool-cases (status.committed == committed)) [
          | inl y ↦ (status, d, refl, inr ((==_iff _ _).0 y, second is_first (rw (n, y) at h)))
          | inr n' ↦ absurd (cc (rw (n, n') at h))
        ]
      ]
    where
      second :
          (first : Bool)
          → (if not first then (err (fault timed_out), d) else again d) ≡ (ok tt, d')
          → again d ≡ (ok tt, d')
      second true h = h
      second false h = absurd (cc)

  write_once-state :
      (stream_id committed : ℕ) (part : List ℕ) (d : D)
      → (write_once device stream_id committed part d).1
        ≡ (device (write_of stream_id committed part) d).1
  unfolding write_once ask_file
  write_once-state stream_id committed part d =
      checked-state fault (device (write_of stream_id committed part) d)
        (ack_answer stream_id (committed + length part))

  reached :
      (stream_id committed : ℕ) (part : List ℕ) (d : D) {r : Result FileError (Unit {0})} {x : D}
      → write_once device stream_id committed part d ≡ (r, x)
      → (device (write_of stream_id committed part) d).1 ≡ x
  reached stream_id committed part d e =
      sym (write_once-state stream_id committed part d) ∙ ap (λ r. r.1) e

  acknowledged :
      (stream_id committed : ℕ) (part : List ℕ) (d : D) (d' : D)
      → Follows part d committed
      → write_once device stream_id committed part d ≡ (ok tt, d')
      → stored d' ≡ stored d ++ part
  unfolding write_once ask_file
  acknowledged stream_id committed part d d' follows e =
      let (frame, p, q) =
        checked-ok fault (device (write_of stream_id committed part) d)
          (ack_answer stream_id (committed + length part)) e in
      appended stream_id committed part d d' follows (ap (λ r. r.1) p)
        (receives.acks stream_id committed part d (committed + length part) frame d' p q)

  -- Behind a timeout, by what the next attempts would do.
  recovered :
      (stream_id committed : ℕ) (part : List ℕ) (d : D) (d1 : D) (d' : D) (is_first : Bool)
      (again : Talk FileError D (Unit {0}))
      → Follows part d committed
      → ((d2 : D)
          → Follows part d2 committed
          → again d2 ≡ (ok tt, d')
          → stored d' ≡ stored d2 ++ part)
      → (device (write_of stream_id committed part) d).1 ≡ d1
      → recover device is_first committed
          (committed + length part)
          (reconcile_loop device 11 stream_id d1)
          again
        ≡ (ok tt, d')
      → stored d' ≡ stored d ++ part
  recovered stream_id committed part d d1 d' is_first again follows ih e k =
      let (status, d2, p, how) =
        recover-ok is_first committed (committed + length part)
          (reconcile_loop device 11 stream_id d1) again d' k in
      let (same, told) = reconcile-tells 11 stream_id d1 p in
      elim how [
        | inl (whole, here) ↦
            ap stored (sym here)
            ∙ (same
                ∙ appended stream_id committed part d d1 follows e
                    (sym whole ∙ (told ∙ ap length same)))
        | inr (none_yet, later) ↦
            let before : stored d2 ≡ stored d =
              same
              ∙ unchanged stream_id committed part d d1 follows e
                  (sym none_yet ∙ (told ∙ ap length same)) in
            ih d2 (follows.0 ∙ ap length (sym before), follows.1) later
            ∙ ap (λ xs. xs ++ part) before
      ]

  -- However late or lost its answers are: a part that is taken for written is stored once.
  write_attempts-stored :
      (attempts : List ℕ) (stream_id committed : ℕ) (part : List ℕ) (d : D) (d' : D)
      → Follows part d committed
      → write_attempts device attempts stream_id committed part d ≡ (ok tt, d')
      → stored d' ≡ stored d ++ part
  unfolding write_attempts
  write_attempts-stored [] stream_id committed part d d' follows h = absurd (cc)
  write_attempts-stored (attempt ∷ attempts) stream_id committed part d d' follows h =
      elim (on_timeout-ok device (write_once device stream_id committed part d) _ h) [
        | inl e ↦ acknowledged stream_id committed part d d' follows e
        | inr (d1, e, k) ↦
            recovered stream_id committed part d d1 d' (attempt == 0)
              (write_attempts device attempts stream_id committed part) follows
              (λ d2 f g. write_attempts-stored attempts stream_id committed part d2 d' f g)
              (reached stream_id committed part d e) k
      ]

  pub write_part-stored :
      (stream_id committed : ℕ) (part : List ℕ) (d : D) (d' : D)
      → committed ≡ length (stored d)
      → 0 < length part
      → write_part device stream_id committed part d ≡ (ok tt, d')
      → stored d' ≡ stored d ++ part
  unfolding write_part
  write_part-stored stream_id committed part d d' at some_bytes h =
      write_attempts-stored (0 ∷ 1 ∷ []) stream_id committed part d d' (at, some_bytes) h
