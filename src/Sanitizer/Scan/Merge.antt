-- ===== src/Sanitizer/Scan/Merge.antt =====
-- `mergeMatches` of encoding/decode-layers.ts: what the merged list holds.
use secure_claw.Base.{
  ◌≤◌, String, ◌≡◌, refl, Bool, true, false, ◌&&◌, Option, none, some, List, [], ◌∷◌, arith, ◌==◌,
  if◌then◌else◌, leb, ltb, any, All, eq_iff, eq_refl, le→leb, if_cases, Option-cases, Bool-cases,
  inl, inr,
}
use secure_claw.Base.Dict
use secure_claw.Base.Dict.{Dict}
use secure_claw.Sanitizer.{InjectionMatch, order}
use secure_claw.Sanitizer.Scan.{merge_one, merge_list, merge_lists, merge_matches}

-- the list has a match of the same pattern that is at least as severe
abbrev pub covers : List InjectionMatch → InjectionMatch → Bool
covers rs m =
    any (λ r. r.pattern_id == m.pattern_id && leb (order m.severity) (order r.severity)) rs

abbrev pub NoRepeat : List InjectionMatch → Type 0
NoRepeat [] = Unit
NoRepeat (r ∷ rs) = (any (λ s. s.pattern_id == r.pattern_id) rs ≡ false) × NoRepeat rs

abbrev Keyed : Dict InjectionMatch → Type 0
Keyed = All (λ e. e.1.pattern_id ≡ e.0)

abbrev Held : Dict InjectionMatch → InjectionMatch → Type 0
Held d m =
    (r : InjectionMatch) × (Dict.get d m.pattern_id ≡ some r)
    × (order m.severity ≤ order r.severity)

Keyed-set :
    (d : Dict InjectionMatch) (m : InjectionMatch) → Keyed d → Keyed (Dict.set d m.pattern_id m)
unfolding Dict.set
Keyed-set [] m h = (refl, tt)
Keyed-set ((k, r) ∷ d) m h =
    if_cases Keyed (k == m.pattern_id) (λ e. (refl, h.1)) (λ e. (h.0, Keyed-set d m h.1))

Keyed-merge_one : (d : Dict InjectionMatch) (m : InjectionMatch) → Keyed d → Keyed (merge_one d m)
unfolding merge_one
Keyed-merge_one d m h = elim (Option-cases (Dict.get d m.pattern_id)) [
  | inl new ↦ rw (new, merge_one) (Keyed-set d m h)
  | inr (r, old) ↦
      rw (old, merge_one)
        (if_cases Keyed (ltb (order r.severity) (order m.severity)) (λ e. Keyed-set d m h) (λ e. h))
]

Distinct-merge_one :
    (d : Dict InjectionMatch) (m : InjectionMatch) → Dict.Distinct d → Dict.Distinct (merge_one d m)
unfolding merge_one
Distinct-merge_one d m h = elim (Option-cases (Dict.get d m.pattern_id)) [
  | inl new ↦ rw (new, merge_one) (Dict.set-Distinct d m.pattern_id m h)
  | inr (r, old) ↦
      rw (old, merge_one)
        (if_cases Dict.Distinct (ltb (order r.severity) (order m.severity))
          (λ e. Dict.set-Distinct d m.pattern_id m h) (λ e. h))
]

-- the match that the map keeps of the one that it has and a new one
better : Option InjectionMatch → InjectionMatch → InjectionMatch
better none m = m
better (some r) m = if ltb (order r.severity) (order m.severity) then m else r

get-merge_one :
    (d : Dict InjectionMatch) (m : InjectionMatch) (k : String)
    → Dict.get (merge_one d m) k
      ≡ (if m.pattern_id == k then some (better (Dict.get d m.pattern_id) m) else Dict.get d k)
unfolding merge_one better
get-merge_one d m k = ground (arith, Dict.get-set d m.pattern_id k m, eq_iff m.pattern_id k)

better-ge_new :
    (o : Option InjectionMatch) (m : InjectionMatch)
    → order m.severity ≤ order (better o m).severity
unfolding better
better-ge_new none m = omega arith
better-ge_new (some r) m =
    if_cases {A = InjectionMatch} (λ b. order m.severity ≤ order b.severity)
      (ltb (order r.severity) (order m.severity)) (λ e. omega arith) (λ e. ground arith)

better-ge_old : (r m : InjectionMatch) → order r.severity ≤ order (better (some r) m).severity
unfolding better
better-ge_old r m =
    if_cases {A = InjectionMatch} (λ b. order r.severity ≤ order b.severity)
      (ltb (order r.severity) (order m.severity)) (λ e. ground arith) (λ e. omega arith)

Held-merge_one_self : (d : Dict InjectionMatch) (m : InjectionMatch) → Held (merge_one d m) m
Held-merge_one_self d m = (
  better (Dict.get d m.pattern_id) m,
  rw (get-merge_one d m m.pattern_id) (rw (eq_refl m.pattern_id)),
  better-ge_new (Dict.get d m.pattern_id) m,
)

Held-merge_one :
    (d : Dict InjectionMatch) (m x : InjectionMatch) → Held d x → Held (merge_one d m) x
Held-merge_one d m x h = elim (Bool-cases (m.pattern_id == x.pattern_id)) [
  | inl same ↦
      let e = (eq_iff m.pattern_id x.pattern_id).0 same in
      (
        better (some h.0) m,
        rw (get-merge_one d m x.pattern_id) (ground (arith, h.1)),
        omega (arith, h.2, better-ge_old h.0 m),
      )
  | inr other ↦ (h.0, rw (get-merge_one d m x.pattern_id) (rw other h.1), h.2)
]

record IsMerged (d : Dict InjectionMatch) : Type 0 where
  keyed : Keyed d
  distinct : Dict.Distinct d

merge_list-IsMerged :
    (d : Dict InjectionMatch) (ms : List InjectionMatch) → IsMerged d → IsMerged (merge_list d ms)
unfolding merge_list
merge_list-IsMerged d [] h = h
merge_list-IsMerged d (m ∷ ms) h =
    merge_list-IsMerged (merge_one d m) ms
      (record { keyed = Keyed-merge_one d m h.keyed; distinct = Distinct-merge_one d m h.distinct })

merge_lists-IsMerged :
    (d : Dict InjectionMatch) (ls : List (List InjectionMatch))
    → IsMerged d
    → IsMerged (merge_lists d ls)
unfolding merge_lists
merge_lists-IsMerged d [] h = h
merge_lists-IsMerged d (l ∷ ls) h =
    merge_lists-IsMerged (merge_list d l) ls (merge_list-IsMerged d l h)

Held-merge_list :
    (d : Dict InjectionMatch) (ms : List InjectionMatch) (x : InjectionMatch)
    → Held d x
    → Held (merge_list d ms) x
unfolding merge_list
Held-merge_list d [] x h = h
Held-merge_list d (m ∷ ms) x h = Held-merge_list (merge_one d m) ms x (Held-merge_one d m x h)

Held-merge_lists :
    (d : Dict InjectionMatch) (ls : List (List InjectionMatch)) (x : InjectionMatch)
    → Held d x
    → Held (merge_lists d ls) x
unfolding merge_lists
Held-merge_lists d [] x h = h
Held-merge_lists d (l ∷ ls) x h = Held-merge_lists (merge_list d l) ls x (Held-merge_list d l x h)

merge_list_holds :
    (d : Dict InjectionMatch) (ms : List InjectionMatch) → All (Held (merge_list d ms)) ms
unfolding merge_list
merge_list_holds d [] = tt
merge_list_holds d (m ∷ ms) = (
  Held-merge_list (merge_one d m) ms m (Held-merge_one_self d m),
  merge_list_holds (merge_one d m) ms,
)

All-map {ℓ κ} :
    {A : Type ℓ} {P Q : A → Type κ} → ((x : A) → P x → Q x) → (xs : List A) → All P xs → All Q xs
All-map f [] h = tt
All-map f (x ∷ xs) h = (f x h.0, All-map f xs h.1)

merge_lists_holds :
    (d : Dict InjectionMatch) (ls : List (List InjectionMatch))
    → All (All (Held (merge_lists d ls))) ls
unfolding merge_lists
merge_lists_holds d [] = tt
merge_lists_holds d (l ∷ ls) = (
  All-map (Held-merge_lists (merge_list d l) ls) l (merge_list_holds d l),
  merge_lists_holds (merge_list d l) ls,
)

covers_of_Held :
    (d : Dict InjectionMatch)
    → Keyed d
    → (m : InjectionMatch) → Held d m
    → covers (Dict.values d) m ≡ true
unfolding Dict.values Dict.get
covers_of_Held [] k m h = cc h.1
covers_of_Held ((j, r) ∷ d) k m (x, at, le) = ground (
  arith,
  covers_of_Held d k.1 m,
  le→leb (order m.severity) (order r.severity),
  eq_iff j m.pattern_id,
  eq_iff r.pattern_id m.pattern_id,
)

absent_in_values :
    (d : Dict InjectionMatch) (k : String)
    → Keyed d
    → Dict.get d k ≡ none
    → any (λ s. s.pattern_id == k) (Dict.values d) ≡ false
unfolding Dict.values Dict.get
absent_in_values [] k h e = refl
absent_in_values ((j, r) ∷ d) k h e = ground (arith, absent_in_values d k h.1)

NoRepeat-values : (d : Dict InjectionMatch) → IsMerged d → NoRepeat (Dict.values d)
unfolding Dict.values
NoRepeat-values [] h = tt
NoRepeat-values ((j, r) ∷ d) h = (
  absent_in_values d r.pattern_id h.keyed.1 (rw h.keyed.0 h.distinct.0),
  NoRepeat-values d (record { keyed = h.keyed.1; distinct = h.distinct.1 }),
)

-- However many layers are scanned, the merged list names no pattern twice, and for every match of
-- every layer it has one of the same pattern that is at least as severe.
pub merge_matches-covers :
    (lists : List (List InjectionMatch))
    → NoRepeat (merge_matches lists) × All (All (λ m. covers (merge_matches lists) m ≡ true)) lists
unfolding merge_matches
merge_matches-covers lists =
    let merged = merge_lists-IsMerged [] lists (record { keyed = tt; distinct = tt }) in
    (
      NoRepeat-values (merge_lists [] lists) merged,
      All-map (All-map (covers_of_Held (merge_lists [] lists) merged.keyed)) lists
          (merge_lists_holds [] lists),
    )
