-- ===== src/Files/Tests.antt =====
-- The file service on concrete devices.
use esp_iris.Common.{
  ℕ, zero, suc, ◌+◌, ◌≤◌, ◌==◌, ltb, ◌≡◌, ◌≢◌, refl, sym, ap, ◌∙◌, subst, inl, inr, true, false,
  if◌then◌else◌, List, [], ◌∷◌, ◌++◌, length, take, drop, replicate, All, none, some, ok, err,
  ok-injective, arith, from_le, to_le, uint_at, Bool-cases, from_le-to_le_u64,
}
use esp_iris.Wire.Codes.Enum.{int, from_int, of_code}
use esp_iris.Wire.Codes.Transport.{channel_enum}
use esp_iris.Wire.Codes.Files.{FileType, file_type_enum, file_status_enum}
use esp_iris.Wire.Frame.{Frame}
use esp_iris.Exchange.{Device, Talk, Outcome, Fault, timed_out, request_refused}
use esp_iris.Files.Errors.{FileError, fault, out_of_fuel}
use esp_iris.Files.Paths.{path_payload}
use esp_iris.Files.Names.{IsComponent, IsNamed, join_slash, path_payload_sound}
use esp_iris.Files.Answers.{Metadata, FileKind, hex_digits, checked}
use esp_iris.Files.Etags.{etag_value-hex_digits}
use esp_iris.Files.Writing.{etag_value}
use esp_iris.Files.Uploading.{Upload, Uploaded, upload}
use esp_iris.Files.Uploads.{IsStored, upload-IsStored}
use esp_iris.Files.Joined.{joined}
use esp_iris.Files.Disk.{Disk, stored_of, reply, disk, disk-Receives}
use esp_iris.Files.Reading.{ReadStream, read_opened, end_of, read_chunks}
use esp_iris.Files.Content.{HasFile, read_chunks_lem}
use esp_iris.Files.Listing.{Entry, Page, Listing, list_page, list_directory}
use esp_iris.Files.Listed.{Lists, IsPage, with_entry, list_directory_lem}
use esp_iris.Files.Rounds.{take-length-take}

abbrev volume : List ℕ
volume = b'd' ∷ b'1' ∷ []

abbrev path : List ℕ
path = b'a' ∷ b'/' ∷ b'b' ∷ []

-- Three bytes in two chunks, and a part of two bytes at most; the first answer is lost.
abbrev request : Upload
request = record { volume = volume; path = path; total_size = 3; overwrite = true; if_match = none }

abbrev no_progress : ℕ → ℕ → Talk FileError Disk (Unit {0})
no_progress n total d = (ok tt, d)

abbrev same_digest : List ℕ → List ℕ
same_digest bytes = bytes

abbrev chunks : List (List ℕ)
chunks = (5 ∷ 6 ∷ []) ∷ (7 ∷ []) ∷ []

abbrev stored_file : Uploaded
stored_file = record {
  about = record { kind = FileKind.file; size = 0; mtime_s = 0; etag = replicate 16 b'0' };
  sha256 = b'0' ∷ b'5' ∷ b'0' ∷ b'6' ∷ b'0' ∷ b'7' ∷ [];
  replaced = true;
}

upload_run :
    upload disk no_progress same_digest request chunks (record { stored = []; drops = true })
    ≡ (ok stored_file, record { stored = 5 ∷ 6 ∷ 7 ∷ []; drops = false })
unfolding upload disk
upload_run = refl

upload-IsStored_example :
    IsStored disk no_progress same_digest stored_of disk-Receives
      (λ n total d. refl)
      request
      (joined chunks)
      stored_file
      (record { stored = 5 ∷ 6 ∷ 7 ∷ []; drops = false })
upload-IsStored_example =
    upload-IsStored disk no_progress same_digest stored_of disk-Receives (λ n total d. refl) request
      chunks (record { stored = []; drops = true }) stored_file
      (record { stored = 5 ∷ 6 ∷ 7 ∷ []; drops = false }) upload_run

path_run : path_payload volume path ≡ ok (2 ∷ 0 ∷ 3 ∷ 0 ∷ b'd' ∷ b'1' ∷ b'a' ∷ b'/' ∷ b'b' ∷ [])
unfolding path_payload
path_run = refl

path_payload_sound_example :
    ((parts : List (List ℕ)) × (path ≡ join_slash parts) × All IsComponent parts)
    × (1 ≤ length volume)
    × (length volume ≤ 15)
    × (length path ≤ 255)
    × IsNamed volume path (2 ∷ 0 ∷ 3 ∷ 0 ∷ b'd' ∷ b'1' ∷ b'a' ∷ b'/' ∷ b'b' ∷ [])
path_payload_sound_example = path_payload_sound volume path _ path_run

etag_value-hex_digits_example : etag_value (some (hex_digits 16 0xdeadbeef)) ≡ ok 0xdeadbeef
etag_value-hex_digits_example = etag_value-hex_digits 0xdeadbeef (omega arith)

-- A device with a file of five bytes, which sends two at most. Its state is the number of answers to
-- READ that still arrive.
abbrev file : List ℕ
file = 1 ∷ 2 ∷ 3 ∷ 4 ∷ 5 ∷ []

abbrev send_from : ℕ → ℕ → Outcome Fault ℕ Frame
send_from offset zero = (err timed_out, zero)
send_from offset (suc left) =
    if ltb offset 5
    then (
      ok (reply FileType.data_frame (to_le 8 offset ++ to_le 8 5 ++ take 2 (drop offset file))),
      left,
    )
    else (err request_refused, left)

unfoldable reader : Device ℕ
reader request left =
    if request.type == int FileType.read_open
    then (
      ok (
          reply FileType.read_opened
            (7 ∷ 0 ∷ 0 ∷ 0 ∷ to_le 8 5 ++ replicate 16 0 ++ 2 ∷ 0 ∷ 0 ∷ 0 ∷ [])),
      left,
    )
    else if request.type == int FileType.read
    then send_from (from_le (take 8 request.payload)) left
    else (err request_refused, left)

sent_from :
    (offset cursor : ℕ) (left : ℕ) (frame : Frame) (left' : ℕ)
    → send_from offset left ≡ (ok frame, left')
    → uint_at 8 4 frame.payload ≡ cursor
    → drop 20 frame.payload ≡ take (length (drop 20 frame.payload)) (drop cursor file)
sent_from offset cursor zero frame left' h k = absurd (cc (ap (λ r. r.0) h))
sent_from offset cursor (suc left) frame left' h k = elim (Bool-cases (ltb offset 5)) [
  | inr n ↦ absurd (cc (ap (λ r. r.0) (rw n at h)))
  | inl y ↦
      let e = ok-injective (ap (λ r. r.0) (rw y at h)) in
      let number : from_le (to_le 8 offset) ≡ offset =
        from_le-to_le_u64 offset (ground (arith, y)) in
      let at : offset ≡ cursor = sym number ∙ (ap (λ (f : Frame). uint_at 8 4 f.payload) e ∙ k) in
      subst
        (λ (f : Frame). drop 20 f.payload ≡ take (length (drop 20 f.payload)) (drop cursor file)) e
        (subst
          (λ c. take 2 (drop offset file) ≡ take (length (take 2 (drop offset file))) (drop c file))
          at (sym (take-length-take 2 (drop offset file))))
]

reader-HasFile : HasFile reader file
unfolding reader read_opened checked from_int of_code
reader-HasFile = record {
  sized = λ payload d frame stream d' h k.
      ap (λ (x : ReadStream). x.total_size)
        (sym (ok-injective (ap read_opened (ok-injective (ap (λ r. r.0) h)) ∙ k)));
  reads = λ stream end cursor d frame d' h k.
      sent_from (from_le (to_le 8 cursor)) cursor d frame d' h k;
}

-- The answer to the second READ is lost.
lost_run :
    read_chunks reader volume path 1 (some 4) 1 ≡ ((2 ∷ 3 ∷ []) ∷ [], (err (fault timed_out), 0))
unfolding read_chunks reader
lost_run = refl

read_chunks_lem_example :
    let y = read_chunks reader volume path 1 (some 4) 1 in
    (joined y.0 ≡ take (length (joined y.0)) (drop 1 file))
    × (y.1.0 ≡ ok tt → 1 + length (joined y.0) ≡ end_of (length file) 1 (some 4))
    × (y.1.0 ≢ err out_of_fuel)
read_chunks_lem_example = read_chunks_lem reader file reader-HasFile volume path 1 (some 4) 1

read_run :
    read_chunks reader volume path 1 (some 4) 9 ≡ ((2 ∷ 3 ∷ []) ∷ (4 ∷ 5 ∷ []) ∷ [], (ok tt, 7))
unfolding read_chunks reader
read_run = refl

-- A device that lists a directory of as many entries as its state says.
abbrev about_entry : Metadata
about_entry = record { kind = FileKind.file; size = 0; mtime_s = 0; etag = replicate 16 b'0' }

abbrev entry : Entry
entry = record { name = b'x' ∷ []; about = about_entry }

abbrev left_over : ℕ → List Entry
left_over zero = []
left_over (suc n) = entry ∷ left_over n

-- A page with an entry, or the empty page at the end.
abbrev page_bytes : ℕ → List ℕ
page_bytes zero = 0 ∷ 0 ∷ 1 ∷ 0 ∷ []
page_bytes (suc n) = 0 ∷ 0 ∷ 0 ∷ 1 ∷ 1 ∷ 1 ∷ replicate 26 0 ++ b'x' ∷ []

abbrev page_of : ℕ → Page
page_of zero = record { ended = true; entry = none }
page_of (suc n) = record { ended = false; entry = some entry }

abbrev one_less : ℕ → ℕ
one_less zero = zero
one_less (suc n) = n

lister : Device ℕ
lister request n =
    if request.type == int FileType.list_open
    then (ok (reply FileType.list_opened (7 ∷ 0 ∷ 0 ∷ 0 ∷ [])), 3)
    else if request.type == int FileType.list_next
    then (ok (record (reply FileType.list_data []) { payload = page_bytes n }), one_less n)
    else (err request_refused, n)

pages_of :
    (n stream_id : ℕ) (page : Page)
    → list_page stream_id (record (reply FileType.list_data []) { payload = page_bytes n })
      ≡ ok page
    → page_of n ≡ page
unfolding list_page
pages_of zero stream_id page h = ground (arith, h)
pages_of (suc n) stream_id page h = ground (arith, h)

abbrev Sends : ℕ → Page → ℕ → Type 0
Sends n page n' =
    (left_over n ≡ with_entry page.entry (left_over n'))
    × (page.ended ≡ true → left_over n' ≡ [])
    × (page.ended ≡ false → page.entry ≢ none)

page_of-Sends : (n : ℕ) → Sends n (page_of n) (one_less n)
page_of-Sends zero = (refl, λ h. refl, λ h. absurd (cc))
page_of-Sends (suc n) = (refl, λ h. absurd (cc), λ h. λ k. cc)

lister-Lists : Lists lister left_over (left_over 3)
unfolding lister
lister-Lists = record {
  opens = λ payload d frame d' h. ap (λ r. left_over r.1) (sym h);
  pages = λ stream_id n frame page n' h k. subst (Sends n page) (ap (λ r. r.1) h) (
      subst (λ q. Sends n q (one_less n))
        (pages_of n stream_id page (ap (list_page stream_id) (ok-injective (ap (λ r. r.0) h)) ∙ k))
        (page_of-Sends n));
}

list_directory_lem_example :
    let r = list_directory lister 4 volume path 1 1 0 in
    (r.0 ≢ err out_of_fuel)
    × ((result : Listing) → r.0 ≡ ok result → IsPage (left_over 3) 1 1 result)
list_directory_lem_example =
    list_directory_lem lister left_over (left_over 3) lister-Lists 1 1 4 volume path 0 (omega arith)

list_run :
    list_directory lister 4 volume path 1 1 0
    ≡ (ok (record { entries = entry ∷ []; cursor = 1; next_cursor = some 2 }), 0)
unfolding list_directory lister
list_run = refl
