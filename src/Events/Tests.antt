-- ===== src/Events/Tests.antt =====
-- The log on concrete events.
use esp_iris.Common.{◌≡◌, refl, List, [], ◌∷◌, ◌++◌, none, some, ok, pos, arith}
use esp_iris.Events.{
  EventRow, EventLog, empty_log, event_of, append_event, events_after, select_after, is_wanted,
  latest_events, select_rows,
}
use esp_iris.Events.Appending.{if_wanted, append_event_lem}
use esp_iris.Events.Paging.{IsLog, events_after_lem}

empty-IsLog : IsLog empty_log
empty-IsLog = record { ascending = tt; given = tt }

abbrev first_row : EventRow
first_row = event_of "log" "{}" 7 (some "esp-1") 1

abbrev second_row : EventRow
second_row = event_of "job" "{}" 8 (some "esp-1") 2

abbrev one_event : EventLog
one_event = record { last_id = 1; rows = first_row ∷ [] }

abbrev two_events : EventLog
two_events = record { last_id = 2; rows = first_row ∷ second_row ∷ [] }

append_run :
    append_event "job" "{}" 8 (some "esp-1") (some 2) one_event ≡ ok (second_row, two_events)
unfolding append_event
append_run = refl

one_event-IsLog : IsLog one_event
one_event-IsLog = record { ascending = (tt, tt); given = (omega arith, tt) }

two_events-IsLog : IsLog two_events
two_events-IsLog = record {
  ascending = ((omega arith, tt), (tt, tt));
  given = (omega arith, (omega arith, tt));
}

append_event_lem_example :
    let wanted = is_wanted (some "esp-1") ("job" ∷ []) in
    (new : EventLog) × (append_event "job" "{}" 8 (some "esp-1") (some 2) one_event
      ≡ ok (second_row, new))
    × IsLog new
    × (select_after wanted 0 new.rows
        ≡ select_after wanted 0 one_event.rows ++ if_wanted (wanted second_row) second_row)
    × ((events_after 1 (some "esp-1") ("job" ∷ []) (pos 5) new).0
        ≡ if_wanted (wanted second_row) second_row)
append_event_lem_example =
    append_event_lem "job" "{}" 8 (some "esp-1") 2 one_event 0 (some "esp-1") ("job" ∷ []) (pos 5)
      one_event-IsLog (omega arith) (omega arith)

second_page :
    latest_events (some "esp-1") ("job" ∷ []) (pos 5) two_events
    ≡ (events_after 1 none [] (pos 1) two_events).0
unfolding latest_events events_after select_after select_rows
second_page = refl

events_after_lem_example :
    ((events_after 0 (some "esp-1") [] (pos 1) two_events).0 ≡ []
      → select_after (is_wanted (some "esp-1") []) 0 two_events.rows ≡ [])
    × ((front : List EventRow) (last : EventRow)
        → (events_after 0 (some "esp-1") [] (pos 1) two_events).0 ≡ front ++ last ∷ []
        → select_after (is_wanted (some "esp-1") []) 0 two_events.rows
          ≡ (events_after 0 (some "esp-1") [] (pos 1) two_events).0
            ++ select_after (is_wanted (some "esp-1") []) last.event_id two_events.rows)
events_after_lem_example = events_after_lem 0 (some "esp-1") [] (pos 1) two_events two_events-IsLog
