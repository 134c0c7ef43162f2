-- ===== src/Events/Paging.antt =====
-- Reading the events page by page misses none and repeats none.
use esp_iris.Common.{
  ℕ, zero, suc, ◌≤◌, ◌<◌, ltb, ◌≡◌, refl, sym, ap, subst, ◌∙◌, arith, Bool, ◌&&◌, List, [], ◌∷◌,
  ◌++◌, take, Option, ℤ, pos, negsuc, All, All-append, All-take, Bool-cases, inl, inr,
}
use Prim.Native.String.{String}
use esp_iris.Events.{EventRow, EventLog, select_after, is_wanted, page_limit, events_after}

-- Rows in the strict order of their identifiers.
abbrev pub Ascending : List EventRow → Type 0
Ascending [] = Unit
Ascending (row ∷ rows) = All (λ later. row.event_id < later.event_id) rows × Ascending rows

-- The log as `append_event` keeps it.
pub record IsLog (log : EventLog) : Type 0 where
  pub ascending : Ascending log.rows
  pub given : All (λ row. row.event_id ≤ log.last_id) log.rows

pub Ascending-snoc :
    (rows : List EventRow) (last : EventRow)
    → Ascending rows
    → All (λ row. row.event_id < last.event_id) rows
    → Ascending (rows ++ last ∷ [])
Ascending-snoc [] last h k = (tt, tt)
Ascending-snoc (row ∷ rows) last (h, rest) (k, ks) = (
  All-append (λ later. row.event_id < later.event_id) rows (last ∷ []) h (k, tt),
  Ascending-snoc rows last rest ks,
)

pub weaken :
    {P Q : EventRow → Type 0} (rows : List EventRow)
    → ((row : EventRow) → P row → Q row)
    → All P rows
    → All Q rows
weaken [] f h = tt
weaken (row ∷ rows) f (h, hs) = (f row h, weaken rows f hs)

-- A cursor among smaller identifiers selects all that is wanted.
select_above :
    (wanted : EventRow → Bool) (c d : ℕ) (rows : List EventRow)
    → c ≤ d
    → All (λ row. d < row.event_id) rows
    → select_after wanted c rows ≡ select_after wanted d rows
unfolding select_after
select_above wanted c d [] le h = refl
select_above wanted c d (row ∷ rows) le (h, hs) = ground (arith, select_above wanted c d rows le hs)

select_later :
    (wanted : EventRow → Bool) (c n : ℕ) (rows : List EventRow)
    → All (λ row. n < row.event_id) rows
    → All (λ row. n < row.event_id) (select_after wanted c rows)
unfolding select_after
select_later wanted c n [] h = tt
select_later wanted c n (row ∷ rows) (h, hs) =
    elim (Bool-cases (ltb c row.event_id && wanted row)) [
      | inl y ↦ rw y (h, select_later wanted c n rows hs)
      | inr m ↦ rw m (select_later wanted c n rows hs)
    ]

-- The head is not behind a cursor that is at least its identifier.
select_past :
    (wanted : EventRow → Bool) (c : ℕ) (row : EventRow) (rows : List EventRow)
    → row.event_id ≤ c
    → select_after wanted c (row ∷ rows) ≡ select_after wanted c rows
unfolding select_after
select_past wanted c row rows h = ground arith

last-later :
    (n : ℕ) (front : List EventRow) (last : EventRow)
    → All (λ row. n < row.event_id) (front ++ last ∷ [])
    → n < last.event_id
last-later n [] last (h, _) = h
last-later n (row ∷ front) last (_, hs) = last-later n front last hs

nonempty : (front : List EventRow) (last : EventRow) → [] ≡ front ++ last ∷ [] → ⊥
nonempty [] last h = cc h
nonempty (row ∷ front) last h = cc h

abbrev no_rows : List EventRow
no_rows = []

take-nil : (n : ℕ) → take n (no_rows) ≡ []
take-nil zero = refl
take-nil (suc n) = refl

same_head : {a b : EventRow} {xs ys : List EventRow} → a ∷ xs ≡ b ∷ ys → (a ≡ b) × (xs ≡ ys)
same_head h = (cc h, cc h)

page_from_head :
    (wanted : EventRow → Bool) (c n : ℕ) (row : EventRow) (rows front : List EventRow)
    (last : EventRow)
    → c < row.event_id
    → All (λ r. row.event_id < r.event_id) rows
    → ((m : ℕ) (front : List EventRow)
        → take m (select_after wanted c rows) ≡ front ++ last ∷ []
        → (row.event_id < last.event_id)
          × (select_after wanted c rows
              ≡ (front ++ last ∷ []) ++ select_after wanted last.event_id rows))
    → take n (row ∷ select_after wanted c rows) ≡ front ++ last ∷ []
    → row ∷ select_after wanted c rows
      ≡ (front ++ last ∷ []) ++ select_after wanted last.event_id (row ∷ rows)
page_from_head wanted c zero row rows front last above later ih h = absurd (nonempty front last h)
page_from_head wanted c (suc m) row rows [] last above later ih h =
    subst (λ l. row ∷ select_after wanted c rows ≡ l ∷ select_after wanted l.event_id (row ∷ rows))
      (same_head h).0
      (ap (λ l. row ∷ l)
        (select_above wanted c row.event_id rows (omega (arith, above)) later
          ∙ sym (select_past wanted row.event_id row rows (omega arith))))
page_from_head wanted c (suc m) row rows (f ∷ front) last above later ih h =
    let (lt, e) = ih m front (same_head h).1 in
    subst
      (λ g.
        row ∷ select_after wanted c rows
        ≡ g ∷ ((front ++ last ∷ []) ++ select_after wanted last.event_id (row ∷ rows)))
      (same_head h).0
      (ap (λ l. row ∷ l)
        (e
          ∙ ap (λ l. (front ++ last ∷ []) ++ l)
              (sym (select_past wanted last.event_id row rows (omega (arith, lt))))))

page-later :
    (wanted : EventRow → Bool) (c m : ℕ) (row : EventRow) (rows front : List EventRow)
    (last : EventRow)
    → All (λ r. row.event_id < r.event_id) rows
    → take m (select_after wanted c rows) ≡ front ++ last ∷ []
    → row.event_id < last.event_id
page-later wanted c m row rows front last later k = last-later row.event_id front last (
    subst (All (λ r. row.event_id < r.event_id)) k (
      All-take (λ r. row.event_id < r.event_id) m (select_after wanted c rows)
        (select_later wanted c row.event_id rows later)))

-- What is wanted behind a page is what is wanted behind its last event.
page-rest :
    (wanted : EventRow → Bool) (c n : ℕ) (rows front : List EventRow) (last : EventRow)
    → Ascending rows
    → take n (select_after wanted c rows) ≡ front ++ last ∷ []
    → select_after wanted c rows ≡ (front ++ last ∷ []) ++ select_after wanted last.event_id rows
unfolding select_after
page-rest wanted c n [] front last asc h = absurd (nonempty front last (sym (take-nil n) ∙ h))
page-rest wanted c n (row ∷ rows) front last (later, asc) h =
    elim (Bool-cases (ltb c row.event_id && wanted row)) [
      | inr m ↦
          let k : take n (select_after wanted c rows) ≡ front ++ last ∷ [] = rw m at h in
          let lt : row.event_id < last.event_id =
            page-later wanted c n row rows front last later k in
          rw m (
            page-rest wanted c n rows front last asc k
            ∙ ap (λ l. (front ++ last ∷ []) ++ l)
                (sym (select_past wanted last.event_id row rows (omega (arith, lt)))))
      | inl y ↦ rw y (
          page_from_head wanted c n row rows front last (ground (arith, y)) later
            (λ m front1 k. (
              page-later wanted c m row rows front1 last later k,
              page-rest wanted c m rows front1 last asc k,
            ))
            (rw y at h))
    ]

some_taken : (n : ℕ) (x : EventRow) (xs : List EventRow) → 0 < n → take n (x ∷ xs) ≡ [] → ⊥
some_taken zero x xs h e = omega (arith, h)
some_taken (suc n) x xs h e = cc e

pub page_limit-pos : (limit : ℤ) → 0 < page_limit limit
page_limit-pos (negsuc k) = omega arith
page_limit-pos (pos k) = omega arith

empty_page : (limit : ℤ) (xs : List EventRow) → take (page_limit limit) xs ≡ [] → xs ≡ []
empty_page limit [] h = refl
empty_page limit (x ∷ xs) h = absurd (some_taken (page_limit limit) x xs (page_limit-pos limit) h)

-- Of a log in order, `events_after` gives a first page of all wanted events behind the cursor: if it
-- is empty, there are none, and otherwise the others are those behind its last identifier. So that
-- reading on from there misses no event and repeats none.
pub events_after_lem :
    (cursor : ℕ) (device_id : Option String) (categories : List String) (limit : ℤ) (log : EventLog)
    → IsLog log
    → ((events_after cursor device_id categories limit log).0 ≡ []
        → select_after (is_wanted device_id categories) cursor log.rows ≡ [])
      × ((front : List EventRow) (last : EventRow)
          → (events_after cursor device_id categories limit log).0 ≡ front ++ last ∷ []
          → select_after (is_wanted device_id categories) cursor log.rows
            ≡ (events_after cursor device_id categories limit log).0
              ++ select_after (is_wanted device_id categories) last.event_id log.rows)
unfolding events_after
events_after_lem cursor device_id categories limit log v = (
  λ h. empty_page limit _ h,
  λ front last h.
      page-rest (is_wanted device_id categories) cursor (page_limit limit) log.rows front last
        v.ascending h
      ∙ ap (λ l. l ++ select_after (is_wanted device_id categories) last.event_id log.rows) (sym h),
)
