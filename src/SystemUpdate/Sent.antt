-- ===== src/SystemUpdate/Sent.antt =====
-- The components of an update, sent one after the other: each is then complete on the device.
use esp_iris.Common.{
  ℕ, suc, ◌+◌, ◌≡◌, refl, sym, ap, ◌∙◌, subst, List, [], ◌∷◌, ◌++◌, append-nil, append_assoc,
  length, take, All, ok, ok-injective, arith, to_le,
}
use esp_iris.Wire.Codes.Transport.{capability_enum}
use esp_iris.Wire.Codes.Services.{SystemUpdateType, system_update_type_enum}
use esp_iris.Exchange.{Device, Talk, after-ok, passed, passed-ok, checked-ok}
use esp_iris.SystemUpdate.Bundle.{Component, total_size, UpdateError, fault}
use esp_iris.SystemUpdate.Status.{ask_update, update_request}
use esp_iris.SystemUpdate.Transfer.{Progress, Started, component_answer, descriptor, end_answer}
use esp_iris.SystemUpdate.Perform.{send_component, send_components}
use esp_iris.SystemUpdate.Written.{data_loop-whole}
use esp_iris.SystemUpdate.Flashing.{Flashes, IsWhole}
use esp_iris.SystemUpdate.Answers.{component_answer_lem, end_answer_lem}

-- The bytes of components.
abbrev pub images : List Component → List (List ℕ)
images [] = []
images (c ∷ components) = c.bytes ∷ images components

module _ {D : Type 0} (device : Device D) (wait_ready : Talk UpdateError D ℕ)
    (progress : Progress → Talk UpdateError D (Unit {0})) (complete : D → List (List ℕ))
    (current : D → List ℕ) (flashes : Flashes device complete current)
    (quiet : (p : Progress) (d : D)
      → (complete (progress p d).1 ≡ complete d) × (current (progress p d).1 ≡ current d)) where
  send_component-complete :
      (fuel : ℕ) (identifier : List ℕ) (started : Started) (total transferred index : ℕ)
      (c : Component) (d d' : D)
      → length identifier ≡ 16
      → IsWhole c
      → send_component device wait_ready progress fuel identifier started total transferred index c
          d
        ≡ (ok tt, d')
      → complete d' ≡ complete d ++ c.bytes ∷ []
  unfolding send_component ask_update
  send_component-complete fuel identifier started total transferred index c d d' sixteen whole h =
      let (payload, d0, p0, k0) = after-ok (descriptor identifier c, d) _ h in
      let (opened, d1, p1, k1) =
        after-ok
          (passed fault (device (update_request SystemUpdateType.component_begin payload) d0)) _
          k0 in
      let (chunk, d2, p2, k2) =
        after-ok (component_answer identifier started.chunk_size c opened, d1) _ k1 in
      let (u, d3, p3, k3) = after-ok _ _ k2 in
      let finish =
        update_request SystemUpdateType.component_end
          (identifier ++ (to_le 1 c.id ++ 0 ∷ 0 ∷ 0 ∷ [])) in
      let (ended, p4, k4) =
        checked-ok fault (device finish d3) (end_answer identifier index c) k3 in
      let (fresh, same) =
        flashes.opens payload d0 opened d1
          (passed-ok fault (device (update_request SystemUpdateType.component_begin payload) d0) p1)
          (component_answer_lem identifier started.chunk_size c opened (ap (λ r. r.0) p2)) in
      let fresh2 : current d2 ≡ [] = ap (λ r. current r.1) (sym p2) ∙ fresh in
      let (bytes, same') =
        data_loop-whole device wait_ready progress complete current flashes quiet fuel identifier c
          chunk 0 _ d2 d3 sixteen whole (ap length (sym fresh2))
          (subst (λ xs. xs ≡ take (length xs) c.bytes) (sym fresh2) refl) p3 in
      let before : complete d3 ≡ complete d =
        same' ∙ (ap (λ r. complete r.1) (sym p2) ∙ (same ∙ ap (λ r. complete r.1) (sym p0))) in
      flashes.ends (identifier ++ (to_le 1 c.id ++ 0 ∷ 0 ∷ 0 ∷ [])) d3 ended d' p4
        (end_answer_lem identifier index c ended k4)
      ∙ (ap (λ xs. xs ++ current d3 ∷ []) before ∙ ap (λ x. complete d ++ x ∷ []) bytes)

  pub send_components-complete :
      (fuel : ℕ) (identifier : List ℕ) (started : Started) (total transferred index : ℕ)
      (components : List Component) (d : D) (n : ℕ) (d' : D)
      → length identifier ≡ 16
      → All IsWhole components
      → send_components device wait_ready progress fuel identifier started total transferred index
          components d
        ≡ (ok n, d')
      → (complete d' ≡ complete d ++ images components) × (n ≡ transferred + total_size components)
  unfolding send_components
  send_components-complete fuel identifier started total transferred index [] d n d' sixteen whole
        h =
      (
        ap (λ r. complete r.1) (sym h) ∙ sym (append-nil (complete d)),
        omega (arith, ok-injective (ap (λ r. r.0) h)),
      )
  send_components-complete fuel identifier started total transferred index (c ∷ components) d n d'
        sixteen whole h =
      let (u, d1, p, k) =
        after-ok
          (send_component device wait_ready progress fuel identifier started total transferred index
            c d)
          _ h in
      let first =
        send_component-complete fuel identifier started total transferred index c d d1 sixteen
          whole.0 p in
      let (rest, count) =
        send_components-complete fuel identifier started total (transferred + c.size) (suc index)
          components d1 n d' sixteen whole.1 k in
      (
        rest
            ∙ (ap (λ xs. xs ++ images components) first
                ∙ append_assoc (complete d) (c.bytes ∷ []) (images components)),
        omega (arith, count),
      )
