-- ===== src/Files/Listed.antt =====
-- What `list_directory` returns of a directory: a page of its entries.
use esp_iris.Common.{
  ℕ, zero, suc, ◌+◌, ◌-◌, ◌≤◌, ◌<◌, ltb, leb, not, ◌&&◌, ◌||◌, ◌≡◌, ◌≢◌, refl, sym, ap, ◌∙◌, subst,
  inl, inr, ◌⊎◌, true, false, if◌then◌else◌, List, [], ◌∷◌, ◌++◌, append-nil, append_assoc, length,
  take, drop, length-append, drop-snoc, drop-past, take-front, take-whole, drop-front, drop-nil,
  length-drop, Option, none, some, ok, err, ok-injective, arith, Bool-cases, ltb→lt, raise_if,
}
use esp_iris.Wire.Codes.Files.{FileType}
use esp_iris.Wire.Frame.{Frame}
use esp_iris.Exchange.{Device, Talk, Outcome, after, after-err, passed, passed-ok, checked-ok}
use esp_iris.Files.Errors.{FileError, fault, out_of_fuel, list_range}
use esp_iris.Files.Paths.{path_payload}
use esp_iris.Files.Methods.{ask_file, file_request}
use esp_iris.Files.Listing.{
  Entry, Page, Listing, list_opened, list_page, keep_entry, count_entry, listing, next_page,
  list_loop, list_entries, list_directory,
}
use esp_iris.Files.Rounds.{path_payload-fuel, passed-fuel}
use esp_iris.Files.Pages.{list_page-fuel, list_opened-fuel, range-fuel}

abbrev pub with_entry : Option Entry → List Entry → List Entry
with_entry none entries = entries
with_entry (some entry) entries = entry ∷ entries

-- What is assumed of a device, by the entries that it has yet to send: a page brings the next of
-- them or none, it is the last one only if no entry is left, and only the last may bring none.
pub record Lists {D : Type 0} (device : Device D) (remaining : D → List Entry) (all : List Entry)
    : Type 0 where
  pub opens :
      (payload : List ℕ) (d : D) (frame : Frame) (d' : D)
      → device (file_request FileType.list_open payload 0) d ≡ (ok frame, d')
      → remaining d' ≡ all
  pub pages :
      (stream_id : ℕ) (d : D) (frame : Frame) (page : Page) (d' : D)
      → device (file_request FileType.list_next [] stream_id) d ≡ (ok frame, d')
      → list_page stream_id frame ≡ ok page
      → (remaining d ≡ with_entry page.entry (remaining d'))
        × (page.ended ≡ true → remaining d' ≡ [])
        × (page.ended ≡ false → page.entry ≢ none)

-- The page of the entries behind a cursor.
abbrev pub IsPage : List Entry → ℕ → ℕ → Listing → Type 0
IsPage all cursor limit result =
    (result.entries ≡ take limit (drop cursor all))
    × (result.next_cursor
        ≡ (if ltb (cursor + limit) (length all) then some (cursor + limit) else none))

module _ {D : Type 0} (device : Device D) (remaining : D → List Entry) (all : List Entry)
    (lists : Lists device remaining all) (cursor limit : ℕ) where
  -- The entries that were seen, and those that were kept of them.
  abbrev Progress : List Entry → List Entry → ℕ → D → Type 0
  Progress front kept seen d =
      (length front ≡ seen) × (front ++ remaining d ≡ all) × (kept ≡ drop cursor front)

  progressed :
      (front kept : List Entry) (seen : ℕ) (entry : Option Entry) (d d' : D)
      → Progress front kept seen d
      → remaining d ≡ with_entry entry (remaining d')
      → (front' : List Entry) × Progress front'
          (keep_entry cursor seen kept entry)
          (count_entry seen entry)
          d'
  progressed front kept seen none d d' (count, whole, same) e =
      (front, (count, ap (λ xs. front ++ xs) (sym e) ∙ whole, same))
  progressed front kept seen (some entry) d d' (count, whole, same) e = (
    front ++ entry ∷ [],
    (
      omega (arith, length-append front (entry ∷ []), count),
      append_assoc front (entry ∷ []) (remaining d') ∙ (ap (λ xs. front ++ xs) (sym e) ∙ whole),
      elim (Bool-cases (leb cursor seen)) [
        | inl y ↦ rw y (
            ap (λ xs. xs ++ entry ∷ []) same
            ∙ sym (drop-snoc cursor front entry (ground (arith, y, count))))
        | inr n ↦ rw n (
            same
            ∙ (drop-past cursor front (ground (arith, n, count))
                ∙ sym (
                    drop-past cursor (front ++ entry ∷ [])
                      (ground (arith, n, count, length-append front (entry ∷ []))))))
      ],
    ),
  )

  kept-length :
      (seen : ℕ) (kept : List Entry) (entry : Option Entry)
      → length (keep_entry cursor seen kept entry) ≤ length kept + 1
  kept-length seen kept none = omega arith
  kept-length seen kept (some entry) = ground (arith, length-append kept (entry ∷ []))

  -- How the loop ends: with entries behind the cursor, and either all of them or more than asked for.
  abbrev IsDone : List Entry → D → Type 0
  IsDone out d' =
      (front : List Entry) × (front ++ remaining d' ≡ all)
      × (out ≡ drop cursor front)
      × (length out ≤ limit + 1)
      × ((remaining d' ≡ []) ⊎ (limit < length out))

  abbrev Ends : Outcome FileError D (List Entry) → Type 0
  Ends r =
      (r.0 ≢ err out_of_fuel) × ((out : List Entry) (d' : D) → r ≡ (ok out, d') → IsDone out d')

  next_page-fuel : (stream_id : ℕ) (d : D) → (next_page device stream_id d).0 ≢ err out_of_fuel
  unfolding next_page ask_file
  next_page-fuel stream_id d h =
      elim (after-err (passed fault (device (file_request FileType.list_next [] stream_id) d)) _
        h) [
          | inl e ↦ passed-fuel (device (file_request FileType.list_next [] stream_id) d) e
          | inr (frame, d1, e, k) ↦ list_page-fuel stream_id frame k
        ]

  shorter :
      (entry : Option Entry) (d d' : D)
      → remaining d ≡ with_entry entry (remaining d')
      → entry ≢ none
      → length (remaining d') < length (remaining d)
  shorter none d d' e n = absurd (n refl)
  shorter (some entry) d d' e n = omega (arith, ap length e)

  -- One round, by what the rounds behind it do.
  round-Ends :
      (stream_id seen : ℕ) (front kept : List Entry) (d : D)
      (rest : List Entry → ℕ → Talk FileError D (List Entry))
      → Progress front kept seen d
      → length kept ≤ limit
      → ((front' kept' : List Entry) (seen' : ℕ) (d' : D)
          → Progress front' kept' seen' d'
          → length kept' ≤ limit
          → length (remaining d') < length (remaining d)
          → Ends (rest kept' seen' d'))
      → (r : Outcome FileError D Page) → next_page device stream_id d ≡ r
      → Ends (
          after r (λ page d.
            if page.ended || ltb limit (length (keep_entry cursor seen kept page.entry))
            then (ok (keep_entry cursor seen kept page.entry), d)
            else rest (keep_entry cursor seen kept page.entry) (count_entry seen page.entry) d))
  unfolding next_page ask_file
  round-Ends stream_id seen front kept d rest progress few ih (err e, d1) h =
      (λ k. next_page-fuel stream_id d (cc (ap (λ r. r.0) h, k)), λ out d' k. absurd (cc))
  round-Ends stream_id seen front kept d rest progress few ih (ok page, d1) h =
      let (frame, e, k) =
        checked-ok fault (device (file_request FileType.list_next [] stream_id) d)
          (list_page stream_id) h in
      let (brings, at_end, brings_some) = lists.pages stream_id d frame page d1 e k in
      let (front', progress') = progressed front kept seen page.entry d d1 progress brings in
      let grown = kept-length seen kept page.entry in
      elim (Bool-cases
        (page.ended || ltb limit (length (keep_entry cursor seen kept page.entry)))) [
          | inl y ↦ rw y (
            λ k. cc,
            λ out d' k.
                subst (λ o. IsDone o d') (ok-injective (ap (λ r. r.0) k))
                  (subst (IsDone (keep_entry cursor seen kept page.entry)) (ap (λ r. r.1) k) (
                    front',
                    progress'.1,
                    progress'.2,
                    omega (arith, grown),
                    elim (Bool-cases page.ended) [
                      | inl z ↦ inl (at_end z)
                      | inr z ↦ inr (ground (arith, y, z))
                    ],
                  )),
          )
          | inr n ↦ rw n (
              ih front' (keep_entry cursor seen kept page.entry) (count_entry seen page.entry) d1
                progress' (ground (arith, n))
                (shorter page.entry d d1 brings (brings_some (ground (arith, n)))))
        ]

  list_loop-Ends :
      (fuel stream_id seen : ℕ) (front kept : List Entry) (d : D)
      → Progress front kept seen d
      → length kept ≤ limit
      → length (remaining d) < fuel
      → Ends (list_loop device fuel stream_id cursor limit kept seen d)
  unfolding list_loop
  list_loop-Ends zero stream_id seen front kept d progress few h = absurd (omega arith)
  list_loop-Ends (suc fuel) stream_id seen front kept d progress few h =
      round-Ends stream_id seen front kept d
        (λ kept' seen' d'. list_loop device fuel stream_id cursor limit kept' seen' d') progress few
        (λ front' kept' seen' d' p f m.
          list_loop-Ends fuel stream_id seen' front' kept' d' p f (omega arith))
        (next_page device stream_id d) refl

  listing-IsPage :
      (out : List Entry) (d' : D)
      → IsDone out d'
      → IsPage all cursor limit (listing cursor limit out)
  unfolding listing
  listing-IsPage out d' (front, whole, same, few, end) =
      elim (Bool-cases (ltb limit (length out))) [
        | inl y ↦ rw y (
          ap (λ k. take k out) (omega (arith, few, ltb→lt limit (length out) y))
              ∙ (sym (
                    take-front limit out (remaining d')
                      (omega (arith, ltb→lt limit (length out) y)))
                  ∙ ap (take limit) (ap (λ xs. xs ++ remaining d') same ∙ beyond y)),
          ground (arith, sized, length-append front (remaining d'), ap length whole, few),
        )
        | inr n ↦ rw n (
          sym (take-whole limit out (ground (arith, n)))
              ∙ ap (take limit) (same ∙ ap (drop cursor) (all_seen n)),
          ground (arith, sized, ap length (all_seen n)),
        )
      ]
    where
      sized : length out ≡ length front - cursor
      sized = ap length same ∙ length-drop cursor front

      beyond : ltb limit (length out) ≡ true → drop cursor front ++ remaining d' ≡ drop cursor all
      beyond y =
          sym (
            drop-front cursor front (remaining d')
              (omega (arith, sized, ltb→lt limit (length out) y)))
          ∙ ap (drop cursor) whole

      none_left :
          (remaining d' ≡ []) ⊎ (limit < length out)
          → ltb limit (length out) ≡ false
          → remaining d' ≡ []
      none_left (inl h) n = h
      none_left (inr h) n = absurd (ground (arith, n, h))

      all_seen : ltb limit (length out) ≡ false → front ≡ all
      all_seen n = sym (append-nil front) ∙ (ap (λ xs. front ++ xs) (sym (none_left end n)) ∙ whole)

  -- A request ends within its fuel, and if it returns, with a page.
  abbrev Pages : Outcome FileError D Listing → Type 0
  Pages r =
      (r.0 ≢ err out_of_fuel)
      × ((result : Listing) → r.0 ≡ ok result → IsPage all cursor limit result)

  after-Pages :
      {A : Type 0} (r : Outcome FileError D A) (f : A → Talk FileError D Listing)
      → r.0 ≢ err out_of_fuel
      → ((a : A) (d : D) → r ≡ (ok a, d) → Pages (f a d))
      → Pages (after r f)
  after-Pages (ok a, d) f fuelled pages = pages a d refl
  after-Pages (err e, d) f fuelled pages = (λ k. fuelled (cc), λ result k. absurd (cc))

  list_entries-Pages :
      (fuel stream_id : ℕ) (d : D)
      → remaining d ≡ all
      → length all < fuel
      → Pages (list_entries device fuel cursor limit stream_id d)
  unfolding list_entries
  list_entries-Pages fuel stream_id d fresh h =
      let ends =
        list_loop-Ends fuel stream_id 0 [] [] d (refl, fresh, sym (drop-nil cursor)) (omega arith)
          (omega (arith, ap length fresh)) in
      after-Pages (list_loop device fuel stream_id cursor limit [] 0 d)
        (λ entries d. (ok (listing cursor limit entries), d)) ends.0
        (λ out d' e. (
          λ k. cc,
          λ result k.
              subst (IsPage all cursor limit) (ok-injective k)
                (listing-IsPage out d' (ends.1 out d' e)),
        ))

  -- A listing that returns is the page of the directory's entries behind the cursor, with the next
  -- cursor exactly if more entries follow; and it ends, within a page for each entry and one more.
  pub list_directory_lem :
      (fuel : ℕ) (volume path : List ℕ) (d : D)
      → length all < fuel
      → let r = list_directory device fuel volume path cursor limit d in
        (r.0 ≢ err out_of_fuel)
        × ((result : Listing) → r.0 ≡ ok result → IsPage all cursor limit result)
  unfolding list_directory ask_file
  list_directory_lem fuel volume path d h =
      after-Pages (raise_if (not (leb 1 limit && leb limit 200)) list_range, d) _
        (range-fuel (not (leb 1 limit && leb limit 200)))
        (λ u d0 p.
          after-Pages (path_payload volume path, d0) _ (path_payload-fuel volume path)
            (λ payload d1 q.
              let asked = device (file_request FileType.list_open payload 0) d1 in
              after-Pages (passed fault asked) _ (passed-fuel asked) (λ frame d2 r.
                after-Pages (list_opened frame, d2) _ (list_opened-fuel frame)
                  (λ stream_id d3 t.
                    list_entries-Pages fuel stream_id d3
                      (ap remaining (sym (ap (λ x. x.1) t))
                        ∙ lists.opens payload d1 frame d2 (passed-ok fault asked r))
                      h))))
