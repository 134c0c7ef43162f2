-- ===== src/SystemUpdate/Written.antt =====
-- What a device has after the rounds for one component: its bytes.
use esp_iris.Common.{
  ℕ, zero, suc, ◌≤◌, ltb, ◌≡◌, refl, sym, ap, ◌∙◌, subst, inl, inr, true, List, ◌++◌, length, take,
  drop, take-whole, length-take, ok, err, ok-injective, arith, Bool-cases,
}
use esp_iris.Wire.Codes.Services.{system_update_type_enum}
use esp_iris.Wire.Frame.{Frame}
use esp_iris.Exchange.{Fault, Device, Talk, Outcome, after-ok, passed, checked-ok, timed_out}
use esp_iris.Files.Rounds.{take-append-drop_parts, take-length-take}
use esp_iris.SystemUpdate.Bundle.{Component, UpdateError, fault}
use esp_iris.SystemUpdate.Status.{UpdateStatus, ask_update, update_status, status_answer}
use esp_iris.SystemUpdate.Transfer.{Progress, chunk_at, data_answer, is_receiving}
use esp_iris.SystemUpdate.Perform.{data_next, data_round, data_loop}
use esp_iris.SystemUpdate.Flashing.{
  data_of, status_of, Flashes, IsWhole, data_answer_lem, data_pending_lem,
}

-- The bytes that are there begin those of the component.
abbrev pub Begins : List ℕ → List ℕ → Type 0
Begins bytes whole = bytes ≡ take (length bytes) whole

Begins-length : (bytes whole : List ℕ) → Begins bytes whole → length bytes ≤ length whole
Begins-length bytes whole h = omega (arith, ap length h, length-take (length bytes) whole)

-- The next chunk carries on.
Begins-chunk :
    (bytes whole : List ℕ) (chunk : ℕ)
    → Begins bytes whole
    → Begins (bytes ++ take chunk (drop (length bytes) whole)) whole
Begins-chunk bytes whole chunk h =
    take-append-drop_parts bytes (take chunk (drop (length bytes) whole)) whole h
      (sym (take-length-take chunk (drop (length bytes) whole)))

module _ {D : Type 0} (device : Device D) (wait_ready : Talk UpdateError D ℕ)
    (progress : Progress → Talk UpdateError D (Unit {0})) (complete : D → List (List ℕ))
    (current : D → List ℕ) (flashes : Flashes device complete current)
    (quiet : (p : Progress) (d : D)
      → (complete (progress p d).1 ≡ complete d) × (current (progress p d).1 ≡ current d)) where
  pub status-keeps :
      (d : D) (status : UpdateStatus) (d' : D)
      → update_status device d ≡ (ok status, d')
      → (complete d' ≡ complete d)
        × (current d' ≡ current d)
        × (is_receiving status.phase ≡ true → status.bytes_received ≡ length (current d'))
  unfolding update_status ask_update
  status-keeps d status d' h =
      let (frame, e, k) = checked-ok fault (device status_of d) status_answer h in
      let (same, same') =
        flashes.keeps status_of d
          (omega arith, omega arith, omega arith, omega arith, omega arith) in
      (
        ap (λ r. complete r.1) (sym e) ∙ same,
        ap (λ r. current r.1) (sym e) ∙ same',
        flashes.tells d frame status d' e k,
      )

  -- Where a round leaves the device: at the offset that it gives, with the bytes up to there.
  abbrev pub IsAt : Component → D → ℕ → D → Type 0
  IsAt c d offset' d' =
      (offset' ≡ length (current d')) × Begins (current d') c.bytes × (complete d' ≡ complete d)

  written :
      (identifier : List ℕ) (c : Component) (chunk : ℕ) (d d1 : D)
      → length identifier ≡ 16
      → Begins (current d) c.bytes
      → (device
          (data_of identifier c (length (current d)) (chunk_at c chunk (length (current d))))
          d).1
        ≡ d1
      → Begins (current d1) c.bytes × (complete d1 ≡ complete d)
  written identifier c chunk d d1 sixteen begins e =
      let (same, how) =
        flashes.writes identifier c (length (current d)) (chunk_at c chunk (length (current d))) d
          sixteen in
      (
        elim how [
          | inl h ↦ subst (λ xs. Begins xs c.bytes) (sym h ∙ ap current e) begins
          | inr h ↦
              subst (λ xs. Begins xs c.bytes) (sym h ∙ ap current e)
                (Begins-chunk (current d) c.bytes chunk begins)
        ],
        ap complete (sym e) ∙ same,
      )

  data_next-IsAt :
      (identifier : List ℕ) (c : Component) (chunk : ℕ) (report : ℕ → ℕ → Progress) (d : D)
      (r : Outcome Fault D Frame) (offset' : ℕ) (d' : D)
      → length identifier ≡ 16
      → Begins (current d) c.bytes
      → device (data_of identifier c (length (current d)) (chunk_at c chunk (length (current d)))) d
        ≡ r
      → data_next device wait_ready progress identifier c
          (length (current d))
          (chunk_at c chunk (length (current d)))
          report
          (passed fault r)
        ≡ (ok offset', d')
      → IsAt c d offset' d'
  unfolding data_next
  data_next-IsAt identifier c chunk report d (ok frame, d1) offset' d' sixteen begins e h =
      let chunk' = chunk_at c chunk (length (current d)) in
      let (answer, d2, p, k) =
        after-ok (data_answer identifier c (length (current d)) chunk' frame, d1) _ h in
      let (u, d3, q, l) = after-ok (progress (report answer.0 answer.1) d2) _ k in
      let (kind, size, next) =
        data_answer_lem identifier c (length (current d)) chunk' frame answer.0 answer.1
          (ap (λ r. r.0) p) in
      let (carries, same) = written identifier c chunk d d1 sixteen begins (ap (λ r. r.1) e) in
      let (quiet1, quiet2) = quiet (report answer.0 answer.1) d2 in
      let here : current d' ≡ current d1 =
        ap (λ r. current r.1) (sym l)
        ∙ (ap (λ r. current r.1) (sym q) ∙ (quiet2 ∙ ap (λ r. current r.1) (sym p))) in
      (
        sym (ok-injective (ap (λ r. r.0) l))
            ∙ (size
                ∙ (flashes.acks identifier c (length (current d)) chunk' d frame d1 e kind
                    ∙ ap length (sym here))),
        subst (λ xs. Begins xs c.bytes) (sym here) carries,
        ap (λ r. complete r.1) (sym l)
            ∙ (ap (λ r. complete r.1) (sym q) ∙ (quiet1 ∙ (ap (λ r. complete r.1) (sym p) ∙ same))),
      )
  data_next-IsAt identifier c chunk report d (err timed_out, d1) offset' d' sixteen begins e h =
      let chunk' = chunk_at c chunk (length (current d)) in
      let (status, d2, p, k) = after-ok (update_status device d1) _ h in
      let (same1, same2, told) = status-keeps d1 status d2 p in
      let (is_at, size, next) =
        data_pending_lem identifier c (length (current d)) chunk' status offset'
          (ap (λ r. r.0) k) in
      let (carries, same) = written identifier c chunk d d1 sixteen begins (ap (λ r. r.1) e) in
      let here : current d' ≡ current d2 = ap (λ r. current r.1) (sym k) in
      (
        size ∙ (told is_at ∙ ap length (sym here)),
        subst (λ xs. Begins xs c.bytes) (sym (here ∙ same2)) carries,
        ap (λ r. complete r.1) (sym k) ∙ (same1 ∙ same),
      )
  data_next-IsAt identifier c chunk report d (err _, d1) offset' d' sixteen begins e h = absurd (cc)

  pub data_loop-whole :
      (fuel : ℕ) (identifier : List ℕ) (c : Component) (chunk offset : ℕ)
      (report : ℕ → ℕ → Progress) (d d' : D)
      → length identifier ≡ 16
      → IsWhole c
      → offset ≡ length (current d)
      → Begins (current d) c.bytes
      → data_loop device wait_ready progress fuel identifier c chunk offset report d ≡ (ok tt, d')
      → (current d' ≡ c.bytes) × (complete d' ≡ complete d)
  unfolding data_loop data_round ask_update
  data_loop-whole zero identifier c chunk offset report d d' sixteen whole at begins h = absurd (cc)
  data_loop-whole (suc fuel) identifier c chunk offset report d d' sixteen whole at begins h =
      elim (Bool-cases (ltb offset c.size)) [
        | inr n ↦
            let e : d ≡ d' = ap (λ r. r.1) (rw n at h) in
            let long : length c.bytes ≤ length (current d) = ground (arith, n, at, whole) in
            (
              ap current (sym e) ∙ (begins ∙ take-whole (length (current d)) c.bytes long),
              ap complete (sym e),
            )
        | inl y ↦
            let (offset', d1, p, k) = after-ok _ _ (rw y at h) in
            let (here, carries, same) =
              data_next-IsAt identifier c chunk report d
                (device
                  (data_of identifier c (length (current d))
                    (chunk_at c chunk (length (current d))))
                  d)
                offset' d1 sixteen begins refl
                (subst
                  (λ o.
                    data_next device wait_ready progress identifier c o (chunk_at c chunk o) report
                      (passed fault (device (data_of identifier c o (chunk_at c chunk o)) d))
                    ≡ (ok offset', d1))
                  at p) in
            let (bytes, same') =
              data_loop-whole fuel identifier c chunk offset' report d1 d' sixteen whole here
                carries k in
            (bytes, same' ∙ same)
      ]
