-- ===== src/Files/Disk.antt =====
-- A device for the tests of uploads: it stores what follows, and loses the answer to a WRITE.
use esp_iris.Common.{
  ℕ, ◌<◌, ◌==◌, ltb, ◌&&◌, ◌≡◌, ◌≢◌, sym, ap, ◌∙◌, inl, inr, ◌⊎◌, Bool, false, if◌then◌else◌, List,
  [], ◌∷◌, ◌++◌, length, take, drop, replicate, ok, err, ok-injective, arith, pos, from_le, to_le,
  Bool-cases, ltb→lt, from_le-to_le_u64,
}
use esp_iris.Wire.Codes.Enum.{int, from_int, of_code}
use esp_iris.Wire.Codes.Transport.{Channel, channel_enum}
use esp_iris.Wire.Codes.Files.{FileType, file_type_enum, file_status_enum}
use esp_iris.Wire.Frame.{Frame}
use esp_iris.Exchange.{Request, Device, Outcome, Fault, timed_out, request_refused}
use esp_iris.Files.Writing.{status_fields, WriteStatus, ack_answer, write_status_answer}
use esp_iris.Files.Answers.{checked}
use esp_iris.Files.Receiving.{Receives, write_of, status_of}
use esp_iris.Files.Methods.{file_request}

pub record Disk : Type 0 where
  pub stored : List ℕ
  pub drops : Bool

abbrev pub stored_of : Disk → List ℕ
stored_of d = d.stored

-- An answer of the device, on its stream 7.
abbrev pub reply : FileType → List ℕ → Frame
reply type payload = record {
  channel = pos (int Channel.file);
  type = pos (int type);
  flags = pos 0;
  session_id = pos 0;
  request_id = pos 0;
  stream_id = pos 7;
  sequence = pos 0;
  payload = 0 ∷ 0 ∷ 0 ∷ 0 ∷ payload;
}

abbrev pub store_part : List ℕ → Disk → Outcome Fault Disk Frame
store_part all d =
    if d.drops
    then (err timed_out, record { stored = all; drops = false })
    else (ok (reply FileType.write_ack (to_le 8 (length all))), record d { stored = all })

abbrev pub take_write : Request → Disk → Outcome Fault Disk Frame
take_write request d =
    if (from_le (take 8 request.payload) == length d.stored)
      && ltb (length (d.stored ++ drop 12 request.payload)) 256
    then store_part (d.stored ++ drop 12 request.payload) d
    else (err request_refused, d)

abbrev pub tell_status : Disk → Outcome Fault Disk Frame
tell_status d =
    if ltb (length d.stored) 256
    then (
      ok (
          reply FileType.write_status_response
            (to_le 8 (length d.stored) ++ to_le 8 0 ++ 1 ∷ replicate 7 0)),
      d,
    )
    else (err request_refused, d)

unfoldable pub disk : Device Disk
disk request d =
    if request.type == int FileType.write_open
    then (
      ok (reply FileType.write_opened (7 ∷ 0 ∷ 0 ∷ 0 ∷ 2 ∷ 0 ∷ 0 ∷ 0 ∷ [])),
      record d { stored = [] },
    )
    else if request.type == int FileType.write
    then take_write request d
    else if request.type == int FileType.write_status
    then tell_status d
    else if request.type == int FileType.commit
    then (ok (reply FileType.commit_response (1 ∷ replicate 27 0)), d)
    else (err request_refused, d)

disk-writes :
    (stream_id offset : ℕ) (part : List ℕ) (d : Disk)
    → ((disk (write_of stream_id offset part) d).1.stored ≡ d.stored)
      ⊎ ((disk (write_of stream_id offset part) d).1.stored ≡ d.stored ++ part)
unfolding disk
disk-writes stream_id offset part d = ground (arith)

disk-keeps :
    (request : Request) (d : Disk)
    → request.type ≢ int FileType.write
    → request.type ≢ int FileType.write_open
    → (disk request d).1.stored ≡ d.stored
unfolding disk
disk-keeps request d h k = ground (arith)

ack-tells :
    (stream_id target n : ℕ)
    → n < 256
    → ack_answer stream_id target (reply FileType.write_ack (to_le 8 n)) ≡ ok tt
    → target ≡ n
unfolding ack_answer checked from_int of_code
ack-tells stream_id target n h k =
    let number : from_le (to_le 8 n) ≡ n = from_le-to_le_u64 n (omega arith) in
    ground (arith, k, number)

status-tells :
    (stream_id n : ℕ) (status : WriteStatus)
    → n < 256
    → write_status_answer stream_id
        (reply FileType.write_status_response (to_le 8 n ++ to_le 8 0 ++ 1 ∷ replicate 7 0))
      ≡ ok status
    → status.committed ≡ n
unfolding write_status_answer checked from_int of_code status_fields
status-tells stream_id n status h k =
    let number : from_le (to_le 8 n) ≡ n = from_le-to_le_u64 n (omega arith) in
    ground (arith, k, number)

-- What an answer is made of.
acked :
    (all : List ℕ) (d : Disk) (frame : Frame) (d' : Disk)
    → store_part all d ≡ (ok frame, d')
    → (frame ≡ reply FileType.write_ack (to_le 8 (length d'.stored))) × (d'.stored ≡ all)
acked all d frame d' h = elim (Bool-cases d.drops) [
  | inl y ↦ absurd (cc (ap (λ r. r.0) (rw y at h)))
  | inr n ↦
      let e = rw n at h in
      let same : all ≡ d'.stored = ap (λ r. stored_of r.1) e in
      (
        sym (ok-injective (ap (λ r. r.0) e))
            ∙ ap (λ (xs : List ℕ). reply FileType.write_ack (to_le 8 (length xs))) same,
        sym same,
      )
]

disk-acks :
    (stream_id offset : ℕ) (part : List ℕ) (d : Disk) (target : ℕ) (frame : Frame) (d' : Disk)
    → disk (write_of stream_id offset part) d ≡ (ok frame, d')
    → ack_answer stream_id target frame ≡ ok tt
    → target ≡ length d'.stored
unfolding disk
disk-acks stream_id offset part d target frame d' h k =
    elim (Bool-cases
      ((from_le (to_le 8 offset) == length d.stored) && ltb (length (d.stored ++ part)) 256)) [
        | inr n ↦ absurd (cc (ap (λ r. r.0) (rw n at h)))
        | inl y ↦
            let (e, all) = acked (d.stored ++ part) d frame d' (rw y at h) in
            ack-tells stream_id target (length d'.stored) (ground (arith, y, ap length all))
              (ap (ack_answer stream_id target) (sym e) ∙ k)
      ]

disk-tells :
    (stream_id : ℕ) (d : Disk) (frame : Frame) (status : WriteStatus) (d' : Disk)
    → disk (status_of stream_id) d ≡ (ok frame, d')
    → write_status_answer stream_id frame ≡ ok status
    → status.committed ≡ length d'.stored
unfolding disk
disk-tells stream_id d frame status d' h k = elim (Bool-cases (ltb (length d.stored) 256)) [
  | inr n ↦ absurd (cc (ap (λ r. r.0) (rw n at h)))
  | inl y ↦
      let e = rw y at h in
      status-tells stream_id (length d.stored) status (ltb→lt (length d.stored) 256 y)
        (ap (write_status_answer stream_id) (ok-injective (ap (λ r. r.0) e)) ∙ k)
      ∙ ap (λ r. length (stored_of r.1)) e
]

disk-opens :
    (payload : List ℕ) (d : Disk) (frame : Frame) (d' : Disk)
    → disk (file_request FileType.write_open payload 0) d ≡ (ok frame, d')
    → d'.stored ≡ []
unfolding disk
disk-opens payload d frame d' h = ap (λ r. stored_of r.1) (sym h)

pub disk-Receives : Receives disk stored_of
disk-Receives = record {
  writes = disk-writes;
  acks = disk-acks;
  tells = disk-tells;
  opens = disk-opens;
  keeps = λ request d h k l. disk-keeps request d h k;
}
