-- ===== src/Events/Appending.antt =====
-- What `append_event` adds is what `events_after` then gives.
use Prim.Native.String.{String}
use esp_iris.Common.{
  ℕ, zero, suc, ◌≤◌, ◌<◌, ◌≡◌, refl, ap, ◌∙◌, arith, Bool, true, false, List, [], ◌∷◌, ◌++◌, take,
  Option, some, ℤ, All, All-append, ok, Bool-cases, inl, inr,
}
use esp_iris.Events.{
  EventRow, EventLog, put_row, event_of, select_after, is_wanted, page_limit, events_after,
  append_event,
}
use esp_iris.Events.Paging.{IsLog, Ascending-snoc, weaken, page_limit-pos}

-- The list of a row, if it is wanted.
abbrev pub if_wanted : Bool → EventRow → List EventRow
if_wanted true row = row ∷ []
if_wanted false row = []

-- The largest key goes last.
put_row-last :
    (row : EventRow) (rows : List EventRow)
    → All (λ r. r.event_id < row.event_id) rows
    → put_row row rows ≡ rows ++ row ∷ []
unfolding put_row
put_row-last row [] h = refl
put_row-last row (r ∷ rows) (h, hs) = ground (arith, put_row-last row rows hs)

select-snoc :
    (wanted : EventRow → Bool) (c : ℕ) (rows : List EventRow) (row : EventRow)
    → c < row.event_id
    → select_after wanted c (rows ++ row ∷ [])
      ≡ select_after wanted c rows ++ if_wanted (wanted row) row
unfolding select_after
select-snoc wanted c [] row h = elim (Bool-cases (wanted row)) [
  | inl y ↦ ground (arith, y)
  | inr n ↦ ground (arith, n)
]
select-snoc wanted c (r ∷ rows) row h = ground (arith, select-snoc wanted c rows row h)

select-nothing :
    (wanted : EventRow → Bool) (c : ℕ) (rows : List EventRow)
    → All (λ r. r.event_id ≤ c) rows
    → select_after wanted c rows ≡ []
unfolding select_after
select-nothing wanted c [] h = refl
select-nothing wanted c (r ∷ rows) (h, hs) = ground (arith, select-nothing wanted c rows hs)

take-if_wanted :
    (n : ℕ) (b : Bool) (row : EventRow) → 0 < n → take n (if_wanted b row) ≡ if_wanted b row
take-if_wanted zero b row h = absurd (omega arith)
take-if_wanted (suc zero) true row h = refl
take-if_wanted (suc (suc n)) true row h = refl
take-if_wanted (suc n) false row h = refl

-- The log that `append_event` leaves.
abbrev pub IsAppended : (EventRow → Bool) → ℕ → EventRow → EventLog → EventLog → Type 0
IsAppended wanted cursor row log new =
    IsLog new
    × (select_after wanted cursor new.rows
        ≡ select_after wanted cursor log.rows ++ if_wanted (wanted row) row)
    × (select_after wanted log.last_id new.rows ≡ if_wanted (wanted row) row)

appended :
    (wanted : EventRow → Bool) (cursor : ℕ) (row : EventRow) (log : EventLog)
    → IsLog log
    → log.last_id < row.event_id
    → cursor ≤ log.last_id
    → IsAppended wanted cursor row log
        (record { last_id = row.event_id; rows = log.rows ++ row ∷ [] })
appended wanted cursor row log v later below =
    let before : All (λ (r : EventRow). r.event_id < row.event_id) log.rows =
      weaken log.rows (λ r h. omega (arith, h, later)) v.given in
    (
      record {
        ascending = Ascending-snoc log.rows row v.ascending before;
        given =
            All-append (λ (r : EventRow). r.event_id ≤ row.event_id) log.rows (row ∷ [])
              (weaken log.rows (λ r h. omega (arith, h)) before) (omega arith, tt);
      },
      select-snoc wanted cursor log.rows row (omega (arith, later, below)),
      select-snoc wanted log.last_id log.rows row later
          ∙ ap (λ l. l ++ if_wanted (wanted row) row)
              (select-nothing wanted log.last_id log.rows v.given),
    )

-- An event that is appended, to a log in order and with a larger identifier than any before, leaves
-- the log in order. A reader behind any earlier cursor gets what it got before and then, if its
-- device and category are wanted, the new event with its payload and time, and a page behind the
-- last identifier is that event alone.
pub append_event_lem :
    (category payload_json : String) (host_ns : ℕ) (own : Option String) (event_id : ℕ)
    (log : EventLog) (cursor : ℕ) (device_id : Option String) (categories : List String) (limit : ℤ)
    → IsLog log
    → log.last_id < event_id
    → cursor ≤ log.last_id
    → let row : EventRow = record {
      event_id = event_id;
      device_id = own;
      category = category;
      host_receive_ns = host_ns;
      payload_json = payload_json;
    } in
      let wanted = is_wanted device_id categories in
      (new : EventLog) × (append_event category payload_json host_ns own (some event_id) log
        ≡ ok (row, new))
      × IsLog new
      × (select_after wanted cursor new.rows
          ≡ select_after wanted cursor log.rows ++ if_wanted (wanted row) row)
      × ((events_after log.last_id device_id categories limit new).0 ≡ if_wanted (wanted row) row)
unfolding append_event events_after
append_event_lem category payload_json host_ns own event_id log cursor device_id categories limit v
      later below =
    let row = event_of category payload_json host_ns own event_id in
    let wanted = is_wanted device_id categories in
    let before : All (λ (r : EventRow). r.event_id < row.event_id) log.rows =
      weaken log.rows (λ r h. omega (arith, h, later)) v.given in
    let (ordered, behind, page) = appended wanted cursor row log v later below in
    (
      record { last_id = event_id; rows = log.rows ++ row ∷ [] },
      ap (λ rows. ok (row, record { last_id = event_id; rows = rows }))
          (put_row-last row log.rows before),
      ordered,
      behind,
      ap (take (page_limit limit)) page
          ∙ take-if_wanted (page_limit limit) (wanted row) row (page_limit-pos limit),
    )
