-- ===== src/Files/Listing.antt =====
-- `DeviceFiles.list_directory` of files.py. A device may send pages without end: the loop takes fuel.
use esp_iris.Common.{
  ℕ, zero, suc, ◌+◌, ◌-◌, ◌%◌, ◌==◌, ltb, leb, not, ◌&&◌, ◌||◌, Bool, true, if◌then◌else◌, List, [],
  ◌∷◌, ◌++◌, length, take, drop, Option, none, some, Result, ok, err, ◌>>=◌, ◌>>◌, raise_if,
  uint_at,
}
use esp_iris.Wire.Codes.Files.{FileType}
use esp_iris.Wire.Frame.{Frame}
use esp_iris.Exchange.{Device, Talk, after, finally, state_after, stream_of}
use esp_iris.Files.Errors.{
  FileError, list_range, invalid_stream, invalid_page, invalid_entry, invalid_empty_page,
  out_of_fuel,
}
use esp_iris.Files.Paths.{path_payload}
use esp_iris.Files.Answers.{Metadata, metadata, checked, checked_exactly}
use esp_iris.Files.Methods.{ask_file, file_request}

pub record Entry : Type 0 where
  pub name : List ℕ
  pub about : Metadata

pub record Page : Type 0 where
  pub ended : Bool
  pub entry : Option Entry

pub record Listing : Type 0 where
  pub entries : List Entry
  pub cursor : ℕ
  pub next_cursor : Option ℕ

-- The answer to LIST_OPEN: the stream.
unfoldable pub list_opened : Frame → Result FileError ℕ
unfolding checked_exactly
list_opened frame = do
  payload ← checked_exactly frame FileType.list_opened 8
  raise_if (uint_at 4 4 payload == 0 || not (stream_of frame == uint_at 4 4 payload)) invalid_stream
  ok (uint_at 4 4 payload)

-- `page[3] == 1`: a page with an entry.
unfoldable pub page_entry : List ℕ → Result FileError (Option Entry)
unfolding metadata
page_entry page = do
  about ← metadata true (drop 4 page)
  raise_if (not (length page == 32 + uint_at 1 5 page)) invalid_entry
  ok (some (record { name = drop 32 page; about = about }))

unfoldable pub page_content : List ℕ → Result FileError (Option Entry)
unfolding page_entry
page_content page =
    if uint_at 1 3 page == 1
    then page_entry page
    else if length page == 4
    then ok none
    else err invalid_empty_page

-- The answer to LIST_NEXT.
unfoldable pub list_page : ℕ → Frame → Result FileError Page
unfolding checked page_content
list_page stream_id frame = do
  page ← checked frame FileType.list_data 4
  raise_if
      (not (stream_of frame == stream_id) || not (uint_at 1 3 page == 0 || uint_at 1 3 page == 1))
      invalid_page
  entry ← page_content page
  ok (record { ended = uint_at 1 2 page % 2 == 1; entry = entry })

-- The entries and the count of those seen, after an entry of a page.
abbrev pub keep_entry : ℕ → ℕ → List Entry → Option Entry → List Entry
keep_entry cursor seen entries none = entries
keep_entry cursor seen entries (some entry) =
    if leb cursor seen then entries ++ entry ∷ [] else entries

abbrev pub count_entry : ℕ → Option Entry → ℕ
count_entry seen none = seen
count_entry seen (some entry) = seen + 1

-- What is returned for the entries that were collected, one more than `limit` at most.
unfoldable pub listing : ℕ → ℕ → List Entry → Listing
listing cursor limit entries =
    if ltb limit (length entries)
    then record {
      entries = take (length entries - 1) entries;
      cursor = cursor;
      next_cursor = some (cursor + (length entries - 1));
    }
    else record { entries = entries; cursor = cursor; next_cursor = none }

module _ {D : Type 0} (device : Device D) where
  unfoldable pub next_page : ℕ → Talk FileError D Page
  unfolding ask_file list_page
  next_page stream_id d =
      after (ask_file device FileType.list_next [] stream_id d)
        (λ frame d. (list_page stream_id frame, d))

  -- The loop, from the entries and the count of those seen.
  unfoldable pub list_loop : ℕ → ℕ → ℕ → ℕ → List Entry → ℕ → Talk FileError D (List Entry)
  unfolding next_page
  list_loop zero stream_id cursor limit entries seen d = (err out_of_fuel, d)
  list_loop (suc fuel) stream_id cursor limit entries seen d =
      after (next_page stream_id d) (λ page d.
        let kept = keep_entry cursor seen entries page.entry in
        let rest = list_loop fuel stream_id cursor limit kept (count_entry seen page.entry) d in
        if page.ended || ltb limit (length kept) then (ok kept, d) else rest)

  unfoldable pub list_entries : ℕ → ℕ → ℕ → ℕ → Talk FileError D Listing
  unfolding list_loop listing
  list_entries fuel cursor limit stream_id d =
      finally
        (after (list_loop fuel stream_id cursor limit [] 0 d)
          (λ entries d. (ok (listing cursor limit entries), d)))
        (state_after device (file_request FileType.close [] stream_id))

  unfoldable pub list_directory : ℕ → List ℕ → List ℕ → ℕ → ℕ → Talk FileError D Listing
  unfolding path_payload ask_file list_opened list_entries
  list_directory fuel volume path cursor limit d =
      after (raise_if (not (leb 1 limit && leb limit 200)) list_range, d)
        (λ _ d.
          after (path_payload volume path, d)
            (λ payload d. after (ask_file device FileType.list_open payload 0 d) (λ frame d.
              after (list_opened frame, d)
                (λ stream_id d. list_entries fuel cursor limit stream_id d))))
