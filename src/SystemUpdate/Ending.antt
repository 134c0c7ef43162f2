-- ===== src/SystemUpdate/Ending.antt =====
-- The rounds for one component come to an end, however many answers are late.
use esp_iris.Common.{
  ℕ, zero, suc, ◌+◌, ◌-◌, ◌≤◌, ◌<◌, ltb, min, ◌≡◌, ◌≢◌, refl, sym, ap, ◌∙◌, ◌⊎◌, inl, inr, true,
  List, length, drop, length-take, length-drop, ok, err, ok-injective, arith, Bool-cases, ltb→lt,
}
use esp_iris.Wire.Frame.{Frame}
use esp_iris.Exchange.{
  Fault, Request, Device, Talk, Outcome, after, after-ok, after-err, passed, checked-state,
  timed_out,
}
use esp_iris.SystemUpdate.Bundle.{Component, UpdateError, fault, out_of_fuel}
use esp_iris.SystemUpdate.Status.{
  decode_status, UpdateStatus, ask_update, update_status, status_answer,
}
use esp_iris.SystemUpdate.Transfer.{Progress, chunk_at, data_answer, data_pending}
use esp_iris.SystemUpdate.Perform.{data_next, data_round, data_loop}
use esp_iris.SystemUpdate.Flashing.{data_of, status_of, IsWhole, data_answer_lem, data_pending_lem}

status_answer-fuel : (frame : Frame) → status_answer frame ≢ err out_of_fuel
unfolding status_answer decode_status
status_answer-fuel frame h = ground (arith, h)

passed-fuel : {D : Type 0} (r : Outcome Fault D Frame) → (passed fault r).0 ≢ err out_of_fuel
passed-fuel (ok frame, d) h = cc
passed-fuel (err e, d) h = cc

data_answer-fuel :
    (identifier : List ℕ) (c : Component) (offset : ℕ) (chunk : List ℕ) (frame : Frame)
    → data_answer identifier c offset chunk frame ≢ err out_of_fuel
unfolding data_answer
data_answer-fuel identifier c offset chunk frame h = ground (arith, h)

data_pending-fuel :
    (identifier : List ℕ) (c : Component) (offset : ℕ) (chunk : List ℕ) (status : UpdateStatus)
    → data_pending identifier c offset chunk status ≢ err out_of_fuel
unfolding data_pending
data_pending-fuel identifier c offset chunk status h = ground (arith, h)

-- A device that is late for a DATA only so often: a late answer uses up some patience, and no request
-- brings any back.
pub record IsPatient {D : Type 0} (device : Device D) (patience : D → ℕ) : Type 0 where
  pub lasts : (request : Request) (d : D) → patience (device request d).1 ≤ patience d
  pub late :
      (identifier : List ℕ) (c : Component) (offset : ℕ) (chunk : List ℕ) (d d' : D)
      → device (data_of identifier c offset chunk) d ≡ (err timed_out, d')
      → patience d' < patience d

-- A callback that uses up no patience, and does not raise the fault of a loop without fuel.
pub record IsQuiet {D : Type 0} (progress : Progress → Talk UpdateError D (Unit {0}))
    (patience : D → ℕ) : Type 0 where
  pub lasts : (p : Progress) (d : D) → patience (progress p d).1 ≤ patience d
  pub fuelled : (p : Progress) (d : D) → (progress p d).0 ≢ err out_of_fuel

module _ {D : Type 0} (device : Device D) (wait_ready : Talk UpdateError D ℕ)
    (progress : Progress → Talk UpdateError D (Unit {0})) (patience : D → ℕ)
    (patient : IsPatient device patience) (quiet : IsQuiet progress patience) where
  update_status-fuel : (d : D) → (update_status device d).0 ≢ err out_of_fuel
  unfolding update_status ask_update
  update_status-fuel d h = elim (after-err (passed fault (device status_of d)) _ h) [
    | inl e ↦ passed-fuel (device status_of d) e
    | inr (frame, d1, p, k) ↦ status_answer-fuel frame k
  ]

  update_status-state : (d : D) → (update_status device d).1 ≡ (device status_of d).1
  unfolding update_status ask_update
  update_status-state d = checked-state fault (device status_of d) status_answer

  -- What a round leaves to do.
  abbrev Moves : ℕ → List ℕ → D → Outcome UpdateError D ℕ → Type 0
  Moves offset chunk d r =
      (r.0 ≢ err out_of_fuel)
      × ((offset' : ℕ) (d' : D)
          → r ≡ (ok offset', d')
          → ((offset' ≡ offset + length chunk) × (patience d' ≤ patience d))
            ⊎ ((offset' ≡ offset) × (patience d' < patience d)))

  data_next-Moves :
      (identifier : List ℕ) (c : Component) (offset : ℕ) (chunk : List ℕ)
      (report : ℕ → ℕ → Progress) (d : D) (r : Outcome Fault D Frame)
      → device (data_of identifier c offset chunk) d ≡ r
      → Moves offset chunk d
          (data_next device wait_ready progress identifier c offset chunk report (passed fault r))
  unfolding data_next
  data_next-Moves identifier c offset chunk report d (ok frame, d1) e = (
    λ h. elim (after-err (data_answer identifier c offset chunk frame, d1) _ h) [
      | inl k ↦ data_answer-fuel identifier c offset chunk frame k
      | inr (answer, d2, p, k) ↦ elim (after-err (progress (report answer.0 answer.1) d2) _ k) [
        | inl l ↦ quiet.fuelled (report answer.0 answer.1) d2 l
        | inr (u, d3, q, l) ↦ cc (l)
      ]
    ],
    λ offset' d' h.
        let (answer, d2, p, k) = after-ok (data_answer identifier c offset chunk frame, d1) _ h in
        let (u, d3, q, l) = after-ok (progress (report answer.0 answer.1) d2) _ k in
        let (kind, size, next) =
          data_answer_lem identifier c offset chunk frame answer.0 answer.1 (ap (λ r. r.0) p) in
        inl (
          sym (ok-injective (ap (λ r. r.0) l)) ∙ next,
          omega (
            arith,
            ap (λ r. patience r.1) l,
            ap (λ r. patience r.1) q,
            ap (λ r. patience r.1) p,
            ap (λ r. patience r.1) e,
            quiet.lasts (report answer.0 answer.1) d2,
            patient.lasts (data_of identifier c offset chunk) d,
          ),
        ),
  )
  data_next-Moves identifier c offset chunk report d (err timed_out, d1) e = (
    λ h. elim (after-err (update_status device d1) _ h) [
      | inl k ↦ update_status-fuel d1 k
      | inr (status, d2, p, k) ↦ data_pending-fuel identifier c offset chunk status k
    ],
    λ offset' d' h.
        let (status, d2, p, k) = after-ok (update_status device d1) _ h in
        let (is_at, size, next) =
          data_pending_lem identifier c offset chunk status offset' (ap (λ r. r.0) k) in
        let less : patience d' < patience d = omega (
          arith,
          ap (λ r. patience r.1) k,
          ap (λ r. patience r.1) p,
          ap patience (update_status-state d1),
          patient.lasts status_of d1,
          patient.late identifier c offset chunk d d1 e,
        ) in
        elim next [ inl m ↦ inr (m, less) | inr m ↦ inl (m, omega (arith, less)) ],
  )
  data_next-Moves identifier c offset chunk report d (err _, d1) e =
      (λ h. cc, λ offset' d' h. absurd (cc))

  chunk-length :
      (c : Component) (chunk offset : ℕ)
      → length (chunk_at c chunk offset) ≡ min chunk (length c.bytes - offset)
  chunk-length c chunk offset =
      length-take chunk (drop offset c.bytes) ∙ ap (min chunk) (length-drop offset c.bytes)

  after-fuel :
      (r : Outcome UpdateError D ℕ) (f : ℕ → Talk UpdateError D (Unit {0}))
      → r.0 ≢ err out_of_fuel
      → ((n : ℕ) (d : D) → r ≡ (ok n, d) → (f n d).0 ≢ err out_of_fuel)
      → (after r f).0 ≢ err out_of_fuel
  after-fuel (ok n, d) f fuelled h = h n d refl
  after-fuel (err e, d) f fuelled h = λ k. fuelled (cc)

  -- The transfer of a component ends within as many rounds as it has bytes and the device is late.
  pub data_loop-fuel :
      (fuel : ℕ) (identifier : List ℕ) (c : Component) (chunk offset : ℕ)
      (report : ℕ → ℕ → Progress) (d : D)
      → 0 < chunk
      → IsWhole c
      → (c.size - offset) + patience d < fuel
      → (data_loop device wait_ready progress fuel identifier c chunk offset report d).0
        ≢ err out_of_fuel
  unfolding data_loop data_round ask_update
  data_loop-fuel zero identifier c chunk offset report d positive whole h = absurd (omega arith)
  data_loop-fuel (suc fuel) identifier c chunk offset report d positive whole h =
      elim (Bool-cases (ltb offset c.size)) [
        | inr n ↦ rw n (λ k. cc)
        | inl y ↦
            let request = data_of identifier c offset (chunk_at c chunk offset) in
            let (fuelled, moves) =
              data_next-Moves identifier c offset (chunk_at c chunk offset) report d
                (device request d) refl in
            rw y (
              after-fuel _ _ fuelled (λ offset' d' e.
                data_loop-fuel fuel identifier c chunk offset' report d' positive whole
                  (nearer (moves offset' d' e) y)))
      ]
    where
      nearer :
          {offset' : ℕ} {d' : D}
          → (((offset' ≡ offset + length (chunk_at c chunk offset)) × (patience d' ≤ patience d))
              ⊎ ((offset' ≡ offset) × (patience d' < patience d)))
          → ltb offset c.size ≡ true
          → (c.size - offset') + patience d' < fuel
      nearer (inl (e, less)) y =
          omega (arith, e, less, whole, chunk-length c chunk offset, ltb→lt offset c.size y)
      nearer (inr (e, less)) y = omega (arith, e, less)
