-- ===== src/SystemUpdate/Committed.antt =====
-- What a device has after an update that returns: all its components.
use esp_iris.Common.{
  ℕ, ◌==◌, not, ◌||◌, ◌≡◌, sym, ap, ◌∙◌, subst, inl, inr, List, [], ◌++◌, length, All, Option, ok,
  err, ok-injective, arith, raise_if, uint_at, bytes_eq, replicate,
}
use esp_iris.Wire.Codes.Enum.{int}
use esp_iris.Wire.Codes.Transport.{Capability, capability_enum}
use esp_iris.Wire.Codes.Services.{SystemUpdateType, system_update_type_enum}
use esp_iris.Wire.Frame.{Frame}
use esp_iris.Exchange.{
  Fault, Device, Talk, Outcome, after, after-ok, passed, passed-ok, timed_out, connection_lost,
  request_refused,
}
use esp_iris.SystemUpdate.Bundle.{
  Bundle, total_size, UpdateError, fault, no_update, invalid_operation_id,
}
use esp_iris.SystemUpdate.Status.{ask_update, update_request, update_status, lacks}
use esp_iris.SystemUpdate.Transfer.{
  Progress, Started, begin_payload, begin_pending, commit_pending, on_timeout,
}
use esp_iris.SystemUpdate.Perform.{
  Evidence, commit_response, Updated, identifier_or, begin_update, send_components, commit_evidence,
  committing_report, transfer, cancel_unless, check_evidence, run_update, perform_update,
}
use esp_iris.SystemUpdate.Written.{status-keeps}
use esp_iris.SystemUpdate.Flashing.{Flashes, IsWhole}
use esp_iris.SystemUpdate.Answers.{begin_answer_lem, commit_answer_lem, on_timeout-ok}
use esp_iris.SystemUpdate.Sent.{images, send_components-complete}

sized :
    (identifier : List ℕ)
    → raise_if
        (not (length identifier == 16) || bytes_eq identifier (replicate 16 0))
        invalid_operation_id
      ≡ ok tt
    → length identifier ≡ 16
sized identifier h = ground (arith, h)

module _ {D : Type 0} (device : Device D) (wait_ready : Talk UpdateError D ℕ)
    (progress : Progress → Talk UpdateError D (Unit {0})) (complete : D → List (List ℕ))
    (current : D → List ℕ) (flashes : Flashes device complete current)
    (quiet : (p : Progress) (d : D)
      → (complete (progress p d).1 ≡ complete d) × (current (progress p d).1 ≡ current d)) where
  commit_evidence-keeps :
      (identifier : List ℕ) (r : Outcome Fault D Frame) (evidence : Evidence) (d' : D)
      → commit_evidence device wait_ready progress identifier (passed fault r) ≡ (ok evidence, d')
      → complete d' ≡ complete r.1
  unfolding commit_evidence
  commit_evidence-keeps identifier (ok frame, d) evidence d' h = ap (λ r. complete r.1) (sym h)
  commit_evidence-keeps identifier (err timed_out, d) evidence d' h =
      let (status, d1, p, k) = after-ok (update_status device d) _ h in
      let (u, d2, q, l) = after-ok (commit_pending identifier status, d1) _ k in
      ap (λ r. complete r.1) (sym l)
      ∙ (ap (λ r. complete r.1) (sym q)
          ∙ (status-keeps device wait_ready progress complete current flashes quiet d status d1
              p).0)
  commit_evidence-keeps identifier (err connection_lost, d) evidence d' h =
      ap (λ r. complete r.1) (sym h)
  commit_evidence-keeps identifier (err request_refused, d) evidence d' h = absurd (cc)

  transfer-complete :
      (fuel : ℕ) (identifier : List ℕ) (bundle : Bundle) (started : Started) (d : D)
      (sent : ℕ × Evidence) (d' : D)
      → length identifier ≡ 16
      → All IsWhole bundle.components
      → complete d ≡ []
      → transfer device wait_ready progress fuel identifier bundle started d ≡ (ok sent, d')
      → (complete d' ≡ images bundle.components) × (sent.0 ≡ total_size bundle.components)
  unfolding transfer ask_update
  transfer-complete fuel identifier bundle started d sent d' sixteen whole fresh h =
      let total = total_size bundle.components in
      let (n, d1, p, k) =
        after-ok
          (send_components device wait_ready progress fuel identifier started total 0 0
            bundle.components d)
          _ h in
      let (u, d2, q, l) =
        after-ok (progress (committing_report device wait_ready progress started n total) d1) _ k in
      let commit = update_request SystemUpdateType.commit identifier in
      let (evidence, d3, r, m) =
        after-ok
          (commit_evidence device wait_ready progress identifier (passed fault (device commit d2)))
          _ l in
      let (all, count) =
        send_components-complete device wait_ready progress complete current flashes quiet fuel
          identifier started total 0 0 bundle.components d n d1 sixteen whole p in
      let committed =
        flashes.keeps commit d2 (omega arith, omega arith, omega arith, omega arith, omega arith) in
      (
        ap (λ r. complete r.1) (sym m)
            ∙ (commit_evidence-keeps identifier (device commit d2) evidence d3 r
                ∙ (committed.0
                    ∙ (ap (λ r. complete r.1) (sym q)
                        ∙ ((quiet (committing_report device wait_ready progress started n total)
                              d1).0
                            ∙ (all ∙ ap (λ xs. xs ++ images bundle.components) fresh))))),
        omega (arith, count, ap (λ s. s.0) (sym (ok-injective (ap (λ r. r.0) m)))),
      )

  begin_update-complete :
      (identifier : List ℕ) (bundle : Bundle) (d : D) (started : Started) (d' : D)
      → begin_update device wait_ready progress identifier bundle d ≡ (ok started, d')
      → complete d' ≡ []
  unfolding begin_update ask_update
  begin_update-complete identifier bundle d started d' h =
      let (payload, d0, p, k) = after-ok (begin_payload identifier bundle, d) _ h in
      let asked =
        λ (d : D). passed fault (device (update_request SystemUpdateType.begin payload) d) in
      let again : Talk UpdateError D Frame = λ d.
        after (update_status device d)
          (λ status d. after (begin_pending identifier bundle status, d) (λ _ d. asked d)) in
      let (frame, d1, q, l) = after-ok (on_timeout (asked d0) again) _ k in
      let kind = begin_answer_lem identifier bundle frame (ap (λ r. r.0) l) in
      let begun = λ (x : D) (e : asked x ≡ (ok frame, d1)).
        flashes.begins payload identifier bundle x frame d1
          (passed-ok fault (device (update_request SystemUpdateType.begin payload) x) e) kind in
      ap (λ r. complete r.1) (sym l) ∙ elim (on_timeout-ok (asked d0) again q) [
        | inl e ↦ begun d0 e
        | inr (x, e) ↦
            let (status, d2, r, m) = after-ok (update_status device x) _ e in
            let (u, d3, t, n) = after-ok (begin_pending identifier bundle status, d2) _ m in
            begun d3 n
      ]

  -- What an answer to COMMIT says, if there is one.
  abbrev pub IsConfirmed : Updated → Type 0
  IsConfirmed updated =
      (frame : Frame)
      → updated.evidence ≡ commit_response frame
      → (uint_at 4 16 frame.payload ≡ updated.job_id) × (uint_at 4 20 frame.payload ≡ 0)

  cancel_unless-ok :
      {A : Type 0} (identifier : List ℕ) (r : Outcome UpdateError D A) {a : A} {d' : D}
      → cancel_unless device wait_ready progress identifier r ≡ (ok a, d')
      → r ≡ (ok a, d')
  cancel_unless-ok identifier (ok a, d) h = h
  cancel_unless-ok identifier (err e, d) h = absurd (cc)

  confirmed :
      (identifier : List ℕ) (job_id : ℕ) (evidence : Evidence) (frame : Frame)
      → check_evidence device wait_ready progress identifier job_id evidence ≡ ok tt
      → evidence ≡ commit_response frame
      → (uint_at 4 16 frame.payload ≡ job_id) × (uint_at 4 20 frame.payload ≡ 0)
  confirmed identifier job_id evidence frame h e =
      commit_answer_lem identifier job_id frame
        (subst (λ x. check_evidence device wait_ready progress identifier job_id x ≡ ok tt) e h)

  run_update-complete :
      (fuel : ℕ) (identifier : List ℕ) (bundle : Bundle) (started : Started) (d : D)
      (updated : Updated) (d' : D)
      → length identifier ≡ 16
      → All IsWhole bundle.components
      → complete d ≡ []
      → run_update device wait_ready progress fuel identifier bundle started d ≡ (ok updated, d')
      → (complete d' ≡ images bundle.components)
        × (updated.bytes ≡ total_size bundle.components)
        × IsConfirmed updated
  unfolding run_update
  run_update-complete fuel identifier bundle started d updated d' sixteen whole fresh h =
      let (sent, d1, p, k) =
        after-ok
          (cancel_unless device wait_ready progress identifier
            (transfer device wait_ready progress fuel identifier bundle started d))
          _ h in
      let (u, d2, q, l) =
        after-ok (check_evidence device wait_ready progress identifier started.job_id sent.1, d1) _
          k in
      let (all, count) =
        transfer-complete fuel identifier bundle started d sent d1 sixteen whole fresh (
          cancel_unless-ok identifier
            (transfer device wait_ready progress fuel identifier bundle started d) p) in
      let result = ok-injective (ap (λ r. r.0) l) in
      (
        ap (λ r. complete r.1) (sym l) ∙ (ap (λ r. complete r.1) (sym q) ∙ all),
        ap (λ (x : Updated). x.bytes) (sym result) ∙ count,
        subst IsConfirmed result
            (λ frame e. confirmed identifier started.job_id sent.1 frame (ap (λ r. r.0) q) e),
      )

  -- An update that returns, whatever answers were late, has made the device receive each component
  -- whole, in order, and all of them; it reports their size, and an answer to COMMIT, if there is
  -- one, names its job and no error.
  pub perform_update-complete :
      (fuel : ℕ) (token : List ℕ) (operation_id : Option (List ℕ)) (bundle : Bundle) (d : D)
      (updated : Updated) (d' : D)
      → All IsWhole bundle.components
      → perform_update device wait_ready progress fuel token operation_id bundle d
        ≡ (ok updated, d')
      → (complete d' ≡ images bundle.components)
        × (updated.bytes ≡ total_size bundle.components)
        × IsConfirmed updated
  unfolding perform_update
  perform_update-complete fuel token operation_id bundle d updated d' whole h =
      let identifier = identifier_or token operation_id in
      let (capabilities, d0, p0, k0) = after-ok (wait_ready d) _ h in
      let (u1, d1, p1, k1) =
        after-ok (raise_if (lacks capabilities (int Capability.system_update)) no_update, d0) _
          k0 in
      let (u2, d2, p2, k2) =
        after-ok
          (
            raise_if (not (length identifier == 16) || bytes_eq identifier (replicate 16 0))
                invalid_operation_id,
            d1,
          )
          _ k1 in
      let (started, d3, p3, k3) =
        after-ok (begin_update device wait_ready progress identifier bundle d2) _ k2 in
      run_update-complete fuel identifier bundle started d3 updated d'
        (sized identifier (ap (λ r. r.0) p2)) whole
        (begin_update-complete identifier bundle d2 started d3 p3) k3
