-- ===== src/Files/Pages.antt =====
-- The answers to LIST_OPEN and LIST_NEXT do not raise what a loop without fuel does.
use esp_iris.Common.{
  ℕ, ◌≢◌, inl, inr, Bool, true, false, List, drop, err, arith, bind-err, raise_if,
}
use esp_iris.Wire.Codes.Files.{FileType}
use esp_iris.Wire.Frame.{Frame}
use esp_iris.Files.Errors.{out_of_fuel, list_range}
use esp_iris.Files.Answers.{metadata, checked, checked_exactly}
use esp_iris.Files.Listing.{page_content, page_entry, list_opened, list_page}
use esp_iris.Files.Rounds.{checked-fuel, checked_exactly-fuel}

pub metadata-fuel :
    (list_entry : Bool) (bytes : List ℕ) → metadata list_entry bytes ≢ err out_of_fuel
unfolding metadata
metadata-fuel list_entry bytes h = ground (arith)

pub page_content-fuel : (page : List ℕ) → page_content page ≢ err out_of_fuel
unfolding page_content page_entry
page_content-fuel page h = ground (arith, metadata-fuel true (drop 4 page))

pub list_page-fuel : (stream_id : ℕ) (frame : Frame) → list_page stream_id frame ≢ err out_of_fuel
unfolding list_page
list_page-fuel stream_id frame h = elim (bind-err (checked frame FileType.list_data 4) _ h) [
  | inl e ↦ checked-fuel frame FileType.list_data 4 e
  | inr (page, e, k) ↦ ground (arith, page_content-fuel page, k)
]

pub range-fuel : (b : Bool) → raise_if b list_range ≢ err out_of_fuel
range-fuel true h = cc
range-fuel false h = cc

pub list_opened-fuel : (frame : Frame) → list_opened frame ≢ err out_of_fuel
unfolding list_opened
list_opened-fuel frame h = elim (bind-err (checked_exactly frame FileType.list_opened 8) _ h) [
  | inl e ↦ checked_exactly-fuel frame FileType.list_opened 8 e
  | inr (payload, e, k) ↦ ground (arith, k)
]
