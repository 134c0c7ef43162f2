-- ===== src/Files/Uploads.antt =====
-- What a whole upload leaves on the device: the file that was sent.
use esp_iris.Common.{
  ℕ, ◌+◌, ◌<◌, ◌==◌, ltb, ◌≡◌, refl, sym, ap, ◌∙◌, inl, inr, true, false, List, [], ◌∷◌, ◌++◌,
  append-nil, append_assoc, length, All, length-append, ok, err, ok-injective, arith, Bool-cases,
  ==_iff,
}
use esp_iris.Wire.Codes.Files.{FileType, file_type_enum}
use esp_iris.Session.Probes.{hex}
use esp_iris.Exchange.{Device, Talk, Outcome, after-ok, checked-ok}
use esp_iris.Files.Errors.{FileError, fault}
use esp_iris.Files.Answers.{Metadata}
use esp_iris.Files.Methods.{ask_file, file_request}
use esp_iris.Files.Writing.{WriteStream, write_part, write_opened}
use esp_iris.Files.Uploading.{
  Upload, Uploaded, Transfer, Closed, split_parts, write_parts, write_chunks, with_digest, uploaded,
  commit_upload, close_transfer, abort_unless, send_file, open_upload, upload, write_request,
}
use esp_iris.Files.Stored.{write_part-stored}
use esp_iris.Files.Receiving.{Receives}
use esp_iris.Files.Commits.{IsSettled, commit_upload-Closes}
use esp_iris.Files.Joined.{
  joined, IsFilled, joined-split_parts, split_parts-IsFilled, opened-positive,
}

module _ {D : Type 0} (device : Device D) (progress : ℕ → ℕ → Talk FileError D (Unit {0}))
    (sha256 : List ℕ → List ℕ) (stored : D → List ℕ) (receives : Receives device stored)
    (quiet : (n total : ℕ) (d : D) → stored (progress n total d).1 ≡ stored d) where
  -- The transfer has kept count of what is stored.
  abbrev Tracks : Transfer → D → Type 0
  Tracks t d = (t.committed ≡ length (stored d)) × (t.digested ≡ stored d)

  -- What a transfer adds to what is stored.
  abbrev Adds : List ℕ → Transfer → D → Transfer → D → Type 0
  Adds bytes t d t' d' = Tracks t' d' × (stored d' ≡ stored d ++ bytes)

  same-Adds :
      (t : Transfer) (d : D) (t' : Transfer) (d' : D)
      → Tracks t d
      → ◌≡◌ {A = Outcome FileError D Transfer} (ok t, d) (ok t', d')
      → Adds [] t d t' d'
  same-Adds t d t' d' (counted, digested) h =
      let e : t ≡ t' = ok-injective (ap (λ r. r.0) h) in
      let f : d ≡ d' = ap (λ r. r.1) h in
      (
        (
          ap (λ (x : Transfer). x.committed) (sym e) ∙ (counted ∙ ap (λ x. length (stored x)) f),
          ap (λ (x : Transfer). x.digested) (sym e) ∙ (digested ∙ ap stored f),
        ),
        ap stored (sym f) ∙ sym (append-nil (stored d)),
      )

  write_parts-Adds :
      (stream_id total : ℕ) (parts : List (List ℕ)) (t : Transfer) (d : D) (t' : Transfer) (d' : D)
      → All IsFilled parts
      → Tracks t d
      → write_parts device progress sha256 stream_id total parts t d ≡ (ok t', d')
      → Adds (joined parts) t d t' d'
  unfolding write_parts joined
  write_parts-Adds stream_id total [] t d t' d' filled (counted, digested) h =
      same-Adds t d t' d' (counted, digested) h
  write_parts-Adds stream_id total (part ∷ parts) t d t' d' (filled, rest) (counted, digested) h =
      let (x, d1, p, k) = after-ok (write_part device stream_id t.committed part d) _ h in
      let (y, d2, q, l) = after-ok (progress (t.committed + length part) total d1) _ k in
      let written : stored d1 ≡ stored d ++ part =
        write_part-stored device stored receives stream_id t.committed part d d1 counted filled p in
      let here : stored d2 ≡ stored d ++ part =
        ap (λ r. stored r.1) (sym q) ∙ (quiet (t.committed + length part) total d1 ∙ written) in
      let next =
        write_parts-Adds stream_id total parts
          (record { committed = t.committed + length part; digested = t.digested ++ part }) d2 t' d'
          rest
          (
            omega (arith, ap length here, length-append (stored d) part),
            ap (λ xs. xs ++ part) digested ∙ sym here,
          )
          l in
      (
        next.0,
        next.1 ∙ (ap (λ xs. xs ++ joined parts) here ∙ append_assoc (stored d) part (joined parts)),
      )

  write_chunks-Adds :
      (stream : WriteStream) (total : ℕ) (chunks : List (List ℕ)) (t : Transfer) (d : D)
      (t' : Transfer) (d' : D)
      → 0 < stream.chunk_max
      → Tracks t d
      → write_chunks device progress sha256 stream total chunks t d ≡ (ok t', d')
      → Adds (joined chunks) t d t' d'
  unfolding write_chunks joined
  write_chunks-Adds stream total [] t d t' d' positive tracks h = same-Adds t d t' d' tracks h
  write_chunks-Adds stream total ([] ∷ chunks) t d t' d' positive tracks h =
      write_chunks-Adds stream total chunks t d t' d' positive tracks h
  write_chunks-Adds stream total ((b ∷ bytes) ∷ chunks) t d t' d' positive tracks h =
      elim (Bool-cases (ltb total (t.committed + length (b ∷ bytes)))) [
        | inl y ↦ absurd (cc (rw y at h))
        | inr n ↦
            let parts = split_parts (length (b ∷ bytes)) stream.chunk_max (b ∷ bytes) in
            let (t1, d1, p, k) =
              after-ok (write_parts device progress sha256 stream.stream_id total parts t d)
                (write_chunks device progress sha256 stream total chunks) (rw n at h) in
            let (tracks1, added) =
              write_parts-Adds stream.stream_id total parts t d t1 d1
                (split_parts-IsFilled (length (b ∷ bytes)) stream.chunk_max (b ∷ bytes) positive)
                tracks p in
            let (tracks2, rest) =
              write_chunks-Adds stream total chunks t1 d1 t' d' positive tracks1 k in
            let whole : joined parts ≡ b ∷ bytes =
              joined-split_parts (length (b ∷ bytes)) stream.chunk_max (b ∷ bytes) positive
                (omega arith) in
            (
              tracks2,
              rest
                  ∙ (ap (λ xs. xs ++ joined chunks) (added ∙ ap (λ xs. stored d ++ xs) whole)
                      ∙ append_assoc (stored d) (b ∷ bytes) (joined chunks)),
            )
      ]

  -- A closed upload that returns is not aborted.
  returned :
      (u : Upload) (stream_id : ℕ) (digest : List ℕ) (c : Closed D Metadata) (up : Uploaded)
      (d' : D)
      → IsSettled c
      → abort_unless device progress sha256 stream_id (with_digest u digest c) ≡ (ok up, d')
      → (c.1.1 ≡ d') × (up.sha256 ≡ hex digest) × (up.replaced ≡ u.overwrite)
  unfolding uploaded
  returned u stream_id digest (true, (ok about, d)) up d' s h =
      let e = ok-injective (ap (λ r. r.0) h) in
      (
        ap (λ r. r.1) h,
        ap (λ (x : Uploaded). x.sha256) (sym e),
        ap (λ (x : Uploaded). x.replaced) (sym e),
      )
  returned u stream_id digest (false, (ok about, d)) up d' s h = absurd s
  returned u stream_id digest (true, (err e, d)) up d' s h = absurd (cc)
  returned u stream_id digest (false, (err e, d)) up d' s h = absurd (cc)

  -- What an upload that returns has stored, and what it says of it.
  abbrev pub IsStored : Upload → List ℕ → Uploaded → D → Type 0
  IsStored u bytes up d' =
      (stored d' ≡ bytes)
      × (length bytes ≡ u.total_size)
      × (up.sha256 ≡ hex (sha256 bytes))
      × (up.replaced ≡ u.overwrite)

  closed-IsStored :
      (u : Upload) (stream_id : ℕ) (bytes : List ℕ) (t : Transfer) (d : D) (up : Uploaded) (d' : D)
      → Tracks t d
      → stored d ≡ bytes
      → abort_unless device progress sha256 stream_id
          (close_transfer device progress sha256 u stream_id (ok t, d))
        ≡ (ok up, d')
      → IsStored u bytes up d'
  unfolding close_transfer
  closed-IsStored u stream_id bytes t d up d' (counted, digested) whole h =
      elim (Bool-cases (t.committed == u.total_size)) [
        | inr n ↦ absurd (cc (rw n at h))
        | inl y ↦
            let (same, is_settled) =
              commit_upload-Closes device progress sha256 stored receives u stream_id t.digested
                d in
            let (e, sha, replaced) =
              returned u stream_id (sha256 t.digested)
                (commit_upload device progress sha256 u stream_id t.digested d) up d' is_settled
                (rw y at h) in
            (
              ap stored (sym e) ∙ (same ∙ whole),
              ap length (sym whole) ∙ (sym counted ∙ (==_iff _ _).0 y),
              sha ∙ ap (λ x. hex (sha256 x)) (digested ∙ whole),
              replaced,
            )
      ]

  sent-IsStored :
      (u : Upload) (stream : WriteStream) (chunks : List (List ℕ)) (d : D) (up : Uploaded) (d' : D)
      → 0 < stream.chunk_max
      → stored d ≡ []
      → (r : Outcome FileError D Transfer)
      → write_chunks device progress sha256 stream u.total_size chunks
          (record { committed = 0; digested = [] })
          d
        ≡ r
      → abort_unless device progress sha256 stream.stream_id
          (close_transfer device progress sha256 u stream.stream_id r)
        ≡ (ok up, d')
      → IsStored u (joined chunks) up d'
  sent-IsStored u stream chunks d up d' positive fresh (ok t, d1) e h =
      let (tracks, added) =
        write_chunks-Adds stream u.total_size chunks (record { committed = 0; digested = [] }) d t
          d1 positive (ap length (sym fresh), sym fresh) e in
      closed-IsStored u stream.stream_id (joined chunks) t d1 up d' tracks
        (added ∙ ap (λ xs. xs ++ joined chunks) fresh) h
  sent-IsStored u stream chunks d up d' positive fresh (err x, d1) e h =
      absurd (unfold close_transfer in cc)

  -- An upload that returns has stored exactly the bytes of its chunks, whatever answers were late or
  -- lost; they are as many as it was told, and the digest that it returns is theirs.
  pub upload-IsStored :
      (u : Upload) (chunks : List (List ℕ)) (d : D) (up : Uploaded) (d' : D)
      → upload device progress sha256 u chunks d ≡ (ok up, d')
      → IsStored u (joined chunks) up d'
  unfolding upload send_file open_upload ask_file
  upload-IsStored u chunks d up d' h =
      let (stream, d1, p, k) =
        after-ok (open_upload device progress sha256 u d)
          (λ stream d. send_file device progress sha256 u stream chunks d) h in
      let (payload, d0, q, l) = after-ok (write_request u, d) _ p in
      let (frame, e, m) =
        checked-ok fault (device (file_request FileType.write_open payload 0) d0) write_opened l in
      sent-IsStored u stream chunks d1 up d' (opened-positive frame stream m)
        (receives.opens payload d0 frame d1 e)
        (write_chunks device progress sha256 stream u.total_size chunks
          (record { committed = 0; digested = [] }) d1)
        refl k
