-- ===== src/Events.antt =====
-- The log of events in store.py: the table `events`, which only grows, and the queries on it.
pub mod Paging
pub mod Appending
mod Tests
use Prim.Native.String.{String}
use text.Mathlib.Text.{◌==◌}
use esp_iris.Common.{
  ℕ, ◌+◌, ◌-◌, ◌<◌, ltb, min, max, not, ◌&&◌, ◌||◌, Bool, true, false, if◌then◌else◌, List, [], ◌∷◌,
  ◌++◌, length, take, drop, Option, none, some, Result, ok, err, ℤ, pos, negsuc, is_empty,
}

pub record EventRow : Type 0 where
  pub event_id : ℕ
  pub device_id : Option String
  pub category : String
  pub host_receive_ns : ℕ
  pub payload_json : String

-- The rows in the order of their identifiers; `last_id` is what AUTOINCREMENT has given last.
pub record EventLog : Type 0 where
  pub last_id : ℕ
  pub rows : List EventRow

abbrev pub empty_log : EventLog
empty_log = record { last_id = 0; rows = [] }

pub data EventError : Type 0 where
  no_event_id : EventError

-- A row of the table, at its primary key.
unfoldable pub put_row : EventRow → List EventRow → List EventRow
put_row row [] = row ∷ []
put_row row (r ∷ rows) =
    let rest = put_row row rows in if ltb row.event_id r.event_id then row ∷ r ∷ rows else r ∷ rest

abbrev pub event_of : String → String → ℕ → Option String → ℕ → EventRow
event_of category payload_json host_ns device_id event_id = record {
  event_id = event_id;
  device_id = device_id;
  category = category;
  host_receive_ns = host_ns;
  payload_json = payload_json;
}

-- `append_event`, and the event that it returns; the time is the payload's or the clock's, and
-- `lastrowid` is the identifier that SQLite has given to the row, if it tells one. Without it, the
-- INSERT is not committed.
unfoldable pub append_event :
    String
    → String
    → ℕ
    → Option String
    → Option ℕ
    → EventLog
    → Result EventError (EventRow × EventLog)
unfolding put_row
append_event category payload_json host_ns device_id none log = err no_event_id
append_event category payload_json host_ns device_id (some event_id) log =
    let row = event_of category payload_json host_ns device_id event_id in
    ok (row, record { last_id = event_id; rows = put_row row log.rows })

-- `if device_id: clauses.append("device_id=?")`; an empty text filters nothing.
abbrev pub of_device : Option String → Option String → Bool
of_device none own = true
of_device (some wanted) none = wanted == ""
of_device (some wanted) (some own) = (wanted == "") || (own == wanted)

abbrev pub in_texts : String → List String → Bool
in_texts text [] = false
in_texts text (t ∷ texts) = (t == text) || in_texts text texts

abbrev pub of_categories : List String → String → Bool
of_categories [] category = true
of_categories (c ∷ categories) category = in_texts category (c ∷ categories)

abbrev pub is_wanted : Option String → List String → EventRow → Bool
is_wanted device_id categories row =
    of_device device_id row.device_id && of_categories categories row.category

-- The rows behind a cursor that the other clauses keep, in the order of their identifiers.
unfoldable pub select_after : (EventRow → Bool) → ℕ → List EventRow → List EventRow
select_after wanted cursor [] = []
select_after wanted cursor (row ∷ rows) =
    let rest = select_after wanted cursor rows in
    if ltb cursor row.event_id && wanted row then row ∷ rest else rest

-- `max(1, min(limit, 5000))`
abbrev pub page_limit : ℤ → ℕ
page_limit (pos limit) = max 1 (min limit 5000)
page_limit (negsuc limit) = 1

-- `MIN(event_id)`, or 0 of an empty table.
abbrev pub oldest_id : List EventRow → ℕ
oldest_id [] = 0
oldest_id (row ∷ rows) = row.event_id

-- `bool(cursor and oldest and cursor < oldest - 1)`
abbrev pub history_gap : ℕ → ℕ → Bool
history_gap cursor oldest = ltb 0 cursor && (ltb 0 oldest && ltb cursor (oldest - 1))

unfoldable pub events_after : ℕ → Option String → List String → ℤ → EventLog → List EventRow × Bool
unfolding select_after
events_after cursor device_id categories limit log = (
  take (page_limit limit) (select_after (is_wanted device_id categories) cursor log.rows),
  history_gap cursor (oldest_id log.rows),
)

unfoldable pub select_rows : (EventRow → Bool) → List EventRow → List EventRow
select_rows wanted [] = []
select_rows wanted (row ∷ rows) =
    let rest = select_rows wanted rows in if wanted row then row ∷ rest else rest

-- `ORDER BY event_id DESC LIMIT ?`, reversed: the last rows.
unfoldable pub latest_events : Option String → List String → ℤ → EventLog → List EventRow
unfolding select_rows
latest_events device_id categories limit log =
    let rows = select_rows (is_wanted device_id categories) log.rows in
    drop (length rows - page_limit limit) rows
