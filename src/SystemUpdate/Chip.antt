-- ===== src/SystemUpdate/Chip.antt =====
-- A device for the tests of updates: it appends what it gets, and is late for DATA as often as its
-- state says.
use esp_iris.Common.{
  ℕ, zero, suc, ◌<◌, ◌≤◌, ltb, ◌≡◌, ◌≢◌, refl, sym, ap, ◌∙◌, inl, inr, ◌⊎◌, List, [], ◌∷◌, ◌++◌,
  length, drop, drop-drop, drop-append_front, ok, err, ok-injective, arith, to_le, uint_at,
  Bool-cases, ltb→lt, from_le-to_le_u32,
}
use esp_iris.Wire.Codes.Enum.{int}
use esp_iris.Wire.Codes.Transport.{channel_enum}
use esp_iris.Wire.Codes.Services.{SystemUpdateType, system_update_type_enum}
use esp_iris.Wire.Frame.{Frame}
use esp_iris.Exchange.{Request, timed_out}
use esp_iris.SystemUpdate.Bundle.{Component}
use esp_iris.SystemUpdate.Status.{UpdateStatus, status_answer, decode_status}
use esp_iris.SystemUpdate.Flashing.{Flashes, data_of, status_of}
use esp_iris.SystemUpdate.Ending.{IsPatient}
use esp_iris.SystemUpdate.ChipModel.{
  Chip, complete_of, current_of, late_of, respond, operation, after_data, tell, chip,
}

-- The chunk of a DATA that names an operation of 16 bytes.
chunk-data :
    (identifier chunk : List ℕ) (a b c e f g h i : ℕ)
    → length identifier ≡ 16
    → drop 24 (identifier ++ a ∷ b ∷ c ∷ e ∷ f ∷ g ∷ h ∷ i ∷ chunk) ≡ chunk
chunk-data identifier chunk a b c e f g h i sixteen =
    sym (drop-drop 8 16 (identifier ++ a ∷ b ∷ c ∷ e ∷ f ∷ g ∷ h ∷ i ∷ chunk))
    ∙ ap (drop 8) (
        ap (λ n. drop n (identifier ++ a ∷ b ∷ c ∷ e ∷ f ∷ g ∷ h ∷ i ∷ chunk)) (sym sixteen)
        ∙ drop-append_front identifier (a ∷ b ∷ c ∷ e ∷ f ∷ g ∷ h ∷ i ∷ chunk))

after_data-keeps :
    (n : ℕ) (bytes : List ℕ) (d : Chip)
    → ((after_data n bytes d).1.complete ≡ d.complete) × ((after_data n bytes d).1.current ≡ bytes)
after_data-keeps zero bytes d = (refl, refl)
after_data-keeps (suc n) bytes d = (refl, refl)

chip-writes :
    (identifier : List ℕ) (c : Component) (offset : ℕ) (chunk : List ℕ) (d : Chip)
    → length identifier ≡ 16
    → let d' = (chip (data_of identifier c offset chunk) d).1 in
      (d'.complete ≡ d.complete) × ((d'.current ≡ d.current) ⊎ (d'.current ≡ d.current ++ chunk))
unfolding chip
chip-writes identifier c offset chunk d sixteen =
    let request = data_of identifier c offset chunk in
    elim (Bool-cases (ltb (length (d.current ++ drop 24 request.payload)) 256)) [
      | inr n ↦ rw n (refl, inl refl)
      | inl y ↦
          let (same, grown) = after_data-keeps d.late (d.current ++ drop 24 request.payload) d in
          rw y (
            same,
            inr (
                grown
                ∙ ap (λ xs. d.current ++ xs) (chunk-data identifier chunk _ _ _ _ _ _ _ _ sixteen)),
          )
    ]

-- What an answer to DATA is made of.
answer_of : Chip → ℕ → Frame
answer_of d n =
    respond SystemUpdateType.data_response (operation ++ d.active ∷ 0 ∷ 0 ∷ 0 ∷ to_le 4 n)

answered :
    (n : ℕ) (bytes : List ℕ) (d : Chip) (frame : Frame) (d' : Chip)
    → after_data n bytes d ≡ (ok frame, d')
    → (answer_of d (length bytes) ≡ frame) × (bytes ≡ d'.current)
unfolding answer_of
answered zero bytes d frame d' h = (ok-injective (ap (λ r. r.0) h), ap (λ r. current_of r.1) h)
answered (suc n) bytes d frame d' h = absurd (cc (ap (λ r. r.0) h))

chip-acks :
    (identifier : List ℕ) (c : Component) (offset : ℕ) (chunk : List ℕ) (d : Chip) (frame : Frame)
    (d' : Chip)
    → chip (data_of identifier c offset chunk) d ≡ (ok frame, d')
    → uint_at 4 20 frame.payload ≡ length d'.current
unfolding chip answer_of
chip-acks identifier c offset chunk d frame d' h =
    let bytes = d.current ++ drop 24 (data_of identifier c offset chunk).payload in
    elim (Bool-cases (ltb (length bytes) 256)) [
      | inr n ↦ absurd (cc (ap (λ r. r.0) (rw n at h)))
      | inl y ↦
          let (e, same) = answered d.late bytes d frame d' (rw y at h) in
          ap (λ (f : Frame). uint_at 4 20 f.payload) (sym e)
          ∙ (from_le-to_le_u32 (length bytes) (ground (arith, y)) ∙ ap length same)
    ]

told :
    (n active : ℕ) (status : UpdateStatus)
    → n < 256
    → status_answer (
        respond SystemUpdateType.status_response (
          operation
          ++ (1 ∷ 0 ∷ 0 ∷ 0 ∷ 2 ∷ 2 ∷ 0 ∷ active ∷ to_le 4 n
              ++ 0 ∷ 0 ∷ 0 ∷ 0 ∷ 0 ∷ 0 ∷ 0 ∷ 0 ∷ [])))
      ≡ ok status
    → status.bytes_received ≡ n
unfolding status_answer decode_status
told n active status h k =
    ap (λ (s : UpdateStatus). s.bytes_received) (sym (ok-injective k))
    ∙ from_le-to_le_u32 n (omega arith)

chip-tells :
    (d : Chip) (frame : Frame) (status : UpdateStatus) (d' : Chip)
    → chip status_of d ≡ (ok frame, d')
    → status_answer frame ≡ ok status
    → status.bytes_received ≡ length d'.current
unfolding chip
chip-tells d frame status d' h k = elim (Bool-cases (ltb (length d.current) 256)) [
  | inr n ↦ absurd (cc (ap (λ r. r.0) (rw n at h)))
  | inl y ↦
      let e = rw y at h in
      told (length d.current) d.active status (ltb→lt (length d.current) 256 y)
        (ap status_answer (ok-injective (ap (λ r. r.0) e)) ∙ k)
      ∙ ap (λ r. length (current_of r.1)) e
]

tell-keeps : (d : Chip) → (tell d).1 ≡ d
tell-keeps d = ground (arith)

chip-keeps :
    (request : Request) (d : Chip)
    → request.type ≢ int SystemUpdateType.begin
    → request.type ≢ int SystemUpdateType.component_begin
    → request.type ≢ int SystemUpdateType.data_frame
    → request.type ≢ int SystemUpdateType.component_end
    → (chip request d).1 ≡ d
unfolding chip
chip-keeps request d a b c e = ground (arith, tell-keeps d)

pub chip-Flashes : Flashes chip complete_of current_of
unfolding chip
chip-Flashes = record {
  begins = λ payload identifier bundle d frame d' h k. ap (λ r. complete_of r.1) (sym h);
  opens = λ payload d frame d' h k.
      (ap (λ r. current_of r.1) (sym h), ap (λ r. complete_of r.1) (sym h));
  writes = chip-writes;
  acks =
      λ identifier c offset chunk d frame d' h k. chip-acks identifier c offset chunk d frame d' h;
  tells = λ d frame status d' h k r. chip-tells d frame status d' h k;
  ends = λ payload d frame d' h k. ap (λ r. complete_of r.1) (sym h);
  keeps = λ request d passive.
      let same = chip-keeps request d passive.0 passive.1 passive.2 passive.3 in
      (ap complete_of same, ap current_of same);
}

after_data-late :
    (n : ℕ) (bytes : List ℕ) (d : Chip) → n ≡ d.late → (after_data n bytes d).1.late ≤ d.late
after_data-late zero bytes d h = omega arith
after_data-late (suc n) bytes d h = omega arith

after_data-late_less :
    (n : ℕ) (bytes : List ℕ) (d : Chip) (d' : Chip)
    → n ≡ d.late
    → after_data n bytes d ≡ (err timed_out, d')
    → d'.late < d.late
after_data-late_less zero bytes d d' h k = absurd (cc (ap (λ r. r.0) k))
after_data-late_less (suc n) bytes d d' h k = omega (arith, ap (λ r. late_of r.1) k, h)

chip-lasts : (request : Request) (d : Chip) → (chip request d).1.late ≤ d.late
unfolding chip
chip-lasts request d =
    ground (arith, tell-keeps d, after_data-late d.late (d.current ++ drop 24 request.payload) d)

chip-late :
    (identifier : List ℕ) (c : Component) (offset : ℕ) (chunk : List ℕ) (d d' : Chip)
    → chip (data_of identifier c offset chunk) d ≡ (err timed_out, d')
    → d'.late < d.late
unfolding chip
chip-late identifier c offset chunk d d' h =
    let bytes = d.current ++ drop 24 (data_of identifier c offset chunk).payload in
    elim (Bool-cases (ltb (length bytes) 256)) [
      | inr n ↦ absurd (cc (ap (λ r. r.0) (rw n at h)))
      | inl y ↦ after_data-late_less d.late bytes d d' refl (rw y at h)
    ]

pub chip-IsPatient : IsPatient chip late_of
chip-IsPatient = record { lasts = chip-lasts; late = chip-late }
