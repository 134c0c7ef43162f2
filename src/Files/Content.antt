-- ===== src/Files/Content.antt =====
-- What a reader of a file gets: the bytes of the file, within the range, and an end.
use esp_iris.Common.{
  ℕ, zero, suc, ◌+◌, ◌-◌, ◌≤◌, ◌<◌, ltb, ◌≡◌, ◌≢◌, refl, sym, ap, ◌∙◌, subst, inl, inr, List, ◌++◌,
  length, take, drop, Option, length-append, drop-drop, ok, err, ok-injective, arith, Bool-cases,
  ltb→lt, raise_if, to_le, uint_at,
}
use esp_iris.Wire.Codes.Files.{FileType}
use esp_iris.Wire.Frame.{Frame}
use esp_iris.Exchange.{
  Request, Device, Outcome, after, after-ok, after-err, passed, passed-ok, checked-ok, Fault,
}
use esp_iris.Files.Errors.{FileError, fault, out_of_fuel, read_offset}
use esp_iris.Files.Paths.{path_payload}
use esp_iris.Files.Methods.{ask_file, file_request}
use esp_iris.Files.Reading.{
  ReadStream, Yielded, read_opened, end_of, read_most, data_answer, start_reading, yield, read_data,
  read_loop, read_stream, open_reading, read_chunks,
}
use esp_iris.Files.Joined.{joined}
use esp_iris.Files.Rounds.{
  data_answer-IsChunk, data_answer-fuel, path_payload-fuel, passed-fuel, read_opened-fuel,
  raise_if-fuel, offset-end, take-append-drop_parts,
}

-- READ at a cursor.
abbrev pub read_of : ReadStream → ℕ → ℕ → Request
read_of stream end cursor =
    file_request FileType.read
      (to_le 8 cursor ++ (to_le 2 (read_most stream end cursor) ++ to_le 2 0)) stream.stream_id

-- What is assumed of a device that has a file: it tells the size of the file, and the bytes that it
-- sends are those at the offset that it names.
pub record HasFile {D : Type 0} (device : Device D) (file : List ℕ) : Type 0 where
  pub sized :
      (payload : List ℕ) (d : D) (frame : Frame) (stream : ReadStream) (d' : D)
      → device (file_request FileType.read_open payload 0) d ≡ (ok frame, d')
      → read_opened frame ≡ ok stream
      → stream.total_size ≡ length file
  pub reads :
      (stream : ReadStream) (end cursor : ℕ) (d : D) (frame : Frame) (d' : D)
      → device (read_of stream end cursor) d ≡ (ok frame, d')
      → uint_at 8 4 frame.payload ≡ cursor
      → drop 20 frame.payload ≡ take (length (drop 20 frame.payload)) (drop cursor file)

-- The bytes that are read from a cursor on, and how it ends.
abbrev pub IsSlice : List ℕ → ℕ → ℕ → {D : Type 0} → Yielded D → Type 0
IsSlice file end cursor y =
    (joined y.0 ≡ take (length (joined y.0)) (drop cursor file))
    × (cursor + length (joined y.0) ≤ end)
    × (y.1.0 ≡ ok tt → cursor + length (joined y.0) ≡ end)
    × (y.1.0 ≢ err out_of_fuel)

module _ {D : Type 0} (device : Device D) (file : List ℕ) (has : HasFile device file) where
  -- A chunk that is read at a cursor.
  abbrev IsPiece : ℕ → ℕ → List ℕ → Type 0
  IsPiece end cursor chunk =
      (chunk ≡ take (length chunk) (drop cursor file))
      × (0 < length chunk)
      × (cursor + length chunk ≤ end)

  read_data-IsPiece :
      (stream : ReadStream) (end cursor : ℕ) (d : D) (chunk : List ℕ) (d' : D)
      → cursor < end
      → read_data device stream end cursor d ≡ (ok chunk, d')
      → IsPiece end cursor chunk
  unfolding read_data ask_file
  read_data-IsPiece stream end cursor d chunk d' below h =
      let (frame, e, k) =
        checked-ok fault (device (read_of stream end cursor) d) (data_answer stream end cursor) h in
      let (same, some_bytes, within, at) =
        data_answer-IsChunk stream end cursor frame chunk below k in
      (
        subst (λ c. c ≡ take (length c) (drop cursor file)) (sym same)
            (has.reads stream end cursor d frame d' e at),
        some_bytes,
        within,
      )

  read_data-fuel :
      (stream : ReadStream) (end cursor : ℕ) (d : D)
      → (read_data device stream end cursor d).0 ≢ err out_of_fuel
  unfolding read_data ask_file
  read_data-fuel stream end cursor d = answered (device (read_of stream end cursor) d)
    where
      answered :
          (r : Outcome Fault D Frame)
          → (after (passed fault r) (λ frame d. (data_answer stream end cursor frame, d))).0
            ≢ err out_of_fuel
      answered (ok frame, d1) = data_answer-fuel stream end cursor frame
      answered (err e, d1) = λ h. cc

  -- One round, by what the rest of the rounds gives.
  yield-IsSlice :
      (end cursor : ℕ) (r : Outcome FileError D (List ℕ)) (rest : List ℕ → D → Yielded D)
      → cursor ≤ end
      → r.0 ≢ err out_of_fuel
      → ((chunk : List ℕ) (d : D) → r ≡ (ok chunk, d) → IsPiece end cursor chunk)
      → ((chunk : List ℕ) (d : D)
          → IsPiece end cursor chunk
          → IsSlice file end (cursor + length chunk) (rest chunk d))
      → IsSlice file end cursor (yield r rest)
  unfolding joined
  yield-IsSlice end cursor (err e, d) rest below fuelled piece ih =
      (refl, omega arith, λ h. absurd (cc), λ h. fuelled (cc))
  yield-IsSlice end cursor (ok chunk, d) rest below fuelled piece ih =
      let p = piece chunk d refl in
      let (same, within, whole, has_fuel) = ih chunk d p in
      let sum : length (chunk ++ joined (rest chunk d).0)
          ≡ length chunk + length (joined (rest chunk d).0) =
        length-append chunk (joined (rest chunk d).0) in
      (
        take-append-drop_parts chunk (joined (rest chunk d).0) (drop cursor file) p.0 (
            same
            ∙ ap (take (length (joined (rest chunk d).0)))
                (sym (drop-drop (length chunk) cursor file))),
        omega (arith, sum),
        λ h. omega (arith, sum, whole h),
        has_fuel,
      )

  read_loop-IsSlice :
      (fuel : ℕ) (stream : ReadStream) (end cursor : ℕ) (d : D)
      → cursor ≤ end
      → end < cursor + fuel
      → IsSlice file end cursor (read_loop device fuel stream end cursor d)
  unfolding read_loop joined
  read_loop-IsSlice zero stream end cursor d below h = absurd (omega arith)
  read_loop-IsSlice (suc fuel) stream end cursor d below h = elim (Bool-cases (ltb cursor end)) [
    | inl y ↦
        rw (y, read_loop)
          (yield-IsSlice end cursor (read_data device stream end cursor d) _ below
            (read_data-fuel stream end cursor d)
            (λ chunk d1 e. read_data-IsPiece stream end cursor d chunk d1 (ltb→lt cursor end y) e)
            (λ chunk d1 p.
              read_loop-IsSlice fuel stream end (cursor + length chunk) d1 p.2
                (omega (arith, p.1))))
    | inr n ↦ rw (n, read_loop) (refl, omega arith, λ e. ground (arith, n), λ e. cc)
  ]

  -- Of such a device, whatever answers are late or lost: what a reader gets are the bytes of the file from the offset
  -- on, in order and within the range; all of them, if it ends without an exception; and it ends.
  pub read_stream-IsSlice :
      (stream : ReadStream) (end offset : ℕ) (d : D)
      → offset ≤ end
      → IsSlice file end offset (read_stream device stream offset end d)
  unfolding read_stream
  read_stream-IsSlice stream end offset d below =
      read_loop-IsSlice (suc (end - offset)) stream end offset d below (omega arith)

  opened :
      (volume path : List ℕ) (offset : ℕ) (d : D) (stream : ReadStream) (d' : D)
      → open_reading device volume path offset d ≡ (ok stream, d')
      → (stream.total_size ≡ length file) × (offset ≤ stream.total_size)
  unfolding open_reading ask_file
  opened volume path offset d stream d' h =
      let (payload, d0, p, k) = after-ok (path_payload volume path, d) _ h in
      let (frame, d1, q, l) =
        after-ok (passed fault (device (file_request FileType.read_open payload 0) d0)) _ k in
      let (s, d2, r, m) = after-ok (read_opened frame, d1) _ l in
      let (u, d3, t, n) = after-ok (raise_if (ltb s.total_size offset) read_offset, d2) _ m in
      let same : s ≡ stream = ok-injective (ap (λ r. r.0) n) in
      let size : stream.total_size ≡ s.total_size =
        ap (λ (x : ReadStream). x.total_size) (sym same) in
      let e = passed-ok fault (device (file_request FileType.read_open payload 0) d0) q in
      (
        size ∙ has.sized payload d0 frame s d1 e (ap (λ r. r.0) r),
        ground (arith, ap (λ r. r.0) t, size),
      )

  open_reading-fuel :
      (volume path : List ℕ) (offset : ℕ) (d : D)
      → (open_reading device volume path offset d).0 ≢ err out_of_fuel
  unfolding open_reading ask_file
  open_reading-fuel volume path offset d h = elim (after-err (path_payload volume path, d) _ h) [
    | inl e ↦ path_payload-fuel volume path e
    | inr (payload, d0, p, k) ↦
        elim (after-err (passed fault (device (file_request FileType.read_open payload 0) d0)) _
          k) [
            | inl e ↦ passed-fuel (device (file_request FileType.read_open payload 0) d0) e
            | inr (frame, d1, q, l) ↦ elim (after-err (read_opened frame, d1) _ l) [
              | inl e ↦ read_opened-fuel frame e
              | inr (stream, d2, r, m) ↦
                  elim (after-err (raise_if (ltb stream.total_size offset) read_offset, d2) _ m) [
                    | inl e ↦ raise_if-fuel (ltb stream.total_size offset) e
                    | inr (u, d3, t, n) ↦ cc (n)
                  ]
            ]
          ]
  ]

  -- Of a device that tells the size of its file, and whose DATA carries the bytes of the file at
  -- the offset that it names, whatever answers are late, lost or refused, or name another offset:
  -- the chunks that a reader gets are the bytes of the file from the offset on, and all of those
  -- that it asked for, if the reading ends without an exception; and it ends.
  pub read_chunks_lem :
      (volume path : List ℕ) (offset : ℕ) (length' : Option ℕ) (d : D)
      → let y = read_chunks device volume path offset length' d in
        (joined y.0 ≡ take (length (joined y.0)) (drop offset file))
        × (y.1.0 ≡ ok tt → offset + length (joined y.0) ≡ end_of (length file) offset length')
        × (y.1.0 ≢ err out_of_fuel)
  unfolding read_chunks joined
  read_chunks_lem volume path offset length' d =
      started (open_reading device volume path offset d) refl
    where
      started :
          (r : Outcome FileError D ReadStream)
          → open_reading device volume path offset d ≡ r
          → let y = start_reading device r (λ stream d.
            read_stream device stream offset (end_of stream.total_size offset length') d) in
            (joined y.0 ≡ take (length (joined y.0)) (drop offset file))
            × (y.1.0 ≡ ok tt → offset + length (joined y.0) ≡ end_of (length file) offset length')
            × (y.1.0 ≢ err out_of_fuel)
      started (err e, d1) p = (
        refl,
        λ h. absurd (cc),
        λ h. open_reading-fuel volume path offset d (cc (ap (λ r. r.0) p, h)),
      )
      started (ok stream, d1) p =
          let (size, below) = opened volume path offset d stream d1 p in
          let (same, within, whole, has_fuel) =
            read_stream-IsSlice stream (end_of stream.total_size offset length') offset d1
              (offset-end stream.total_size offset length' below) in
          (same, λ h. whole h ∙ ap (λ t. end_of t offset length') size, has_fuel)
