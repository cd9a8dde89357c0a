-- ===== src/Audit/Events/Query.antt =====
-- The rows that a query selects.
use secure_claw.Base.{
  ℕ, zero, suc, ◌+◌, ◌≤◌, ◌≡◌, ◌⊎◌, refl, ap, ◌∙◌, Bool, true, some, List, [], ◌∷◌, length, keep,
  All, or_else,
}
use secure_claw.Base.Slices.{
  take, drop, count, count-take, length-take_le, full_or_all, keep_passes, All-of_count, All-take,
  All-drop, All-keep,
}
use secure_claw.Base.Json.{Json, JsonCodec}
use secure_claw.Sanitizer.Service.{returns}
use secure_claw.Audit.{EventRow}
use secure_claw.Audit.Rules.{LoggedEvent}
use secure_claw.Audit.Events.{QueryParams, matches, select_events, as_event, parsed_row, parse_rows}

module _ (Later : EventRow → EventRow → Type 0) where
  abbrev pub Ordered : List EventRow → Type 0
  Ordered [] = Unit
  Ordered (r ∷ rs) = All (Later r) rs × Ordered rs

  Ordered-take : (n : ℕ) (rows : List EventRow) → Ordered rows → Ordered (take n rows)
  Ordered-take zero rows h = tt
  Ordered-take (suc n) [] h = tt
  Ordered-take (suc n) (r ∷ rs) h = (All-take (Later r) n rs h.0, Ordered-take n rs h.1)

  take-before-drop :
      (n : ℕ) (rows : List EventRow)
      → Ordered rows
      → All (λ r. All (Later r) (drop n rows)) (take n rows)
  take-before-drop zero rows h = tt
  take-before-drop (suc n) [] h = tt
  take-before-drop (suc n) (r ∷ rs) h = (All-drop (Later r) n rs h.0, take-before-drop n rs h.1)

abbrev pub IsNotOlder : EventRow → EventRow → Type 0
IsNotOlder r s = s.created_at ≤ r.created_at

-- What ORDER BY created_at DESC promises: the same rows, each as often, none before a newer one.
abbrev pub SortsByTime : (List EventRow → List EventRow) → Type 1
SortsByTime newest_first =
    (rows : List EventRow)
    → Ordered IsNotOlder (newest_first rows)
      × ((p : EventRow → Bool) → count p (newest_first rows) ≡ count p rows)
      × ((P : EventRow → Type 0) → All P rows → All P (newest_first rows))

-- A selection of rows together with those that it leaves out.
abbrev pub Selects : ℕ → (EventRow → Bool) → List EventRow → List EventRow → List EventRow → Type 0
Selects limit p rows selected omitted =
    All (λ r. p r ≡ true) selected
    × Ordered IsNotOlder selected
    × (length selected ≤ limit)
    × ((q : EventRow → Bool) → count q selected + count q omitted ≡ count q (keep p rows))
    × All (λ r. All (IsNotOlder r) omitted) selected
    × ((length selected ≡ limit) ⊎ (omitted ≡ []))

-- A query selects rows that match its parameters, at most as many as its limit, the newest first;
-- with the rows that it leaves out they are the matching rows of the log, each as often as it is
-- there; none that is left out is newer than one that is selected, and rows are left out only if
-- the limit is reached.
pub select_events-Selects :
    (newest_first : List EventRow → List EventRow) (params : QueryParams) (rows : List EventRow)
    → SortsByTime newest_first
    → (omitted : List EventRow) × Selects
        (or_else params.limit 100)
        (matches params)
        rows
        (select_events newest_first params rows)
        omitted
unfolding select_events
select_events-Selects newest_first params rows sorts =
    let limit = or_else params.limit 100 in
    let found = newest_first (keep (matches params) rows) in
    let (ordered, same, kept) = sorts (keep (matches params) rows) in
    (
      drop limit found,
      (
        All-take (λ r. matches params r ≡ true) limit found
            (All-of_count (matches params) found (same _ ∙ keep_passes (matches params) rows)),
        Ordered-take IsNotOlder limit found ordered,
        length-take_le limit found,
        (λ q. count-take q limit found ∙ same q),
        take-before-drop IsNotOlder limit found ordered,
        full_or_all limit found,
      ),
    )

pub select-All :
    (P : EventRow → Type 0) (newest_first : List EventRow → List EventRow) (params : QueryParams)
    (rows : List EventRow)
    → SortsByTime newest_first
    → All P rows
    → All P (select_events newest_first params rows)
unfolding select_events
select-All P newest_first params rows sorts h =
    All-take P _ (newest_first (keep (matches params) rows))
      ((sorts (keep (matches params) rows)).2 P (All-keep P (matches params) rows h))

-- The payload of every row is the text of a JSON value.
abbrev pub HasJson : JsonCodec → EventRow → Type 0
HasJson codec r = (payload : Json) × (r.payload ≡ codec.stringify payload)

-- An event is the row with its payload parsed.
abbrev pub Parses : JsonCodec → List EventRow → List LoggedEvent → Type 0
Parses codec [] [] = Unit
Parses codec (r ∷ rs) (e ∷ es) =
    (r.payload ≡ codec.stringify e.payload) × (e ≡ as_event r e.payload) × Parses codec rs es
Parses codec [] (e ∷ es) = ⊥
Parses codec (r ∷ rs) [] = ⊥

-- `JSON.parse` reads back what `JSON.stringify` wrote into the row.
abbrev pub ReadsBack : JsonCodec → EventRow → Type 0
ReadsBack codec r = (v : Json) → r.payload ≡ codec.stringify v → codec.parse r.payload ≡ some v

pub parse_rows-Parses :
    (codec : JsonCodec) (rows : List EventRow)
    → All (ReadsBack codec) rows
    → All (HasJson codec) rows
    → (events : List LoggedEvent) × (parse_rows codec rows ≡ returns events)
      × Parses codec rows events
unfolding parse_rows
parse_rows-Parses codec [] b h = ([], refl, tt)
parse_rows-Parses codec (r ∷ rs) (back, b) ((payload, e), h) =
    let (events, returned, parsed) = parse_rows-Parses codec rs b h in
    (
      as_event r payload ∷ events,
      ap (λ o. parsed_row r o (parse_rows codec rs)) (back payload e)
          ∙ ap (parsed_row r (some payload)) returned,
      (e, refl, parsed),
    )
