-- ===== src/Tests/Sorting.antt =====
-- An insertion sort by time, as one that the queries can be run with.
use secure_claw.Base.{
  ◌≤◌, ◌≡◌, refl, ◌∙◌, Bool, List, [], ◌∷◌, if◌then◌else◌, arith, leb, All, All-imp, if_cases,
  leb→le, leb-false→lt,
}
use secure_claw.Base.Slices.{count}
use secure_claw.Audit.{EventRow}
use secure_claw.Audit.Events.Query.{Ordered, IsNotOlder, SortsByTime}

abbrev insert_row : EventRow → List EventRow → List EventRow
insert_row r [] = r ∷ []
insert_row r (s ∷ rs) =
    let rest = insert_row r rs in if leb s.created_at r.created_at then r ∷ s ∷ rs else s ∷ rest

abbrev pub sort_rows : List EventRow → List EventRow
sort_rows [] = []
sort_rows (r ∷ rs) = insert_row r (sort_rows rs)

insert_row-All :
    (P : EventRow → Type 0) (r : EventRow) (rows : List EventRow)
    → P r
    → All P rows
    → All P (insert_row r rows)
insert_row-All P r [] p h = (p, tt)
insert_row-All P r (s ∷ rs) p h =
    if_cases {A = List EventRow} (All P) (leb s.created_at r.created_at) (λ e. (p, h))
      (λ e. (h.0, insert_row-All P r rs p h.1))

insert_row-count :
    (p : EventRow → Bool) (r : EventRow) (rows : List EventRow)
    → count p (insert_row r rows) ≡ count p (r ∷ rows)
insert_row-count p r [] = refl
insert_row-count p r (s ∷ rs) =
    if_cases {A = List EventRow} (λ l. count p l ≡ count p (r ∷ s ∷ rs))
      (leb s.created_at r.created_at) (λ e. refl) (λ e. ground (arith, insert_row-count p r rs))

IsNotOlder-trans :
    (r s : EventRow) (rows : List EventRow)
    → s.created_at ≤ r.created_at
    → All (IsNotOlder s) rows
    → All (IsNotOlder r) rows
IsNotOlder-trans r s rows le h = All-imp rows (λ t m. omega arith) h

insert_row-Ordered :
    (r : EventRow) (rows : List EventRow)
    → Ordered IsNotOlder rows
    → Ordered IsNotOlder (insert_row r rows)
insert_row-Ordered r [] h = (tt, tt)
insert_row-Ordered r (s ∷ rs) h =
    if_cases {A = List EventRow} (Ordered IsNotOlder) (leb s.created_at r.created_at)
      (λ e.
        let le = leb→le s.created_at r.created_at e in ((le, IsNotOlder-trans r s rs le h.0), h))
      (λ e. (
        insert_row-All (IsNotOlder s) r rs (omega (arith, leb-false→lt s.created_at r.created_at e))
            h.0,
        insert_row-Ordered r rs h.1,
      ))

sort_rows-Ordered : (rows : List EventRow) → Ordered IsNotOlder (sort_rows rows)
sort_rows-Ordered [] = tt
sort_rows-Ordered (r ∷ rs) = insert_row-Ordered r (sort_rows rs) (sort_rows-Ordered rs)

sort_rows-count :
    (p : EventRow → Bool) (rows : List EventRow) → count p (sort_rows rows) ≡ count p rows
sort_rows-count p [] = refl
sort_rows-count p (r ∷ rs) =
    insert_row-count p r (sort_rows rs) ∙ ground (arith, sort_rows-count p rs)

sort_rows-All : (P : EventRow → Type 0) (rows : List EventRow) → All P rows → All P (sort_rows rows)
sort_rows-All P [] h = tt
sort_rows-All P (r ∷ rs) h = insert_row-All P r (sort_rows rs) h.0 (sort_rows-All P rs h.1)

pub sort_rows-SortsByTime : SortsByTime sort_rows
sort_rows-SortsByTime rows =
    (sort_rows-Ordered rows, λ p. sort_rows-count p rows, λ P h. sort_rows-All P rows h)
