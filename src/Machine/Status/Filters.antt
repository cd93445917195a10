-- ===== src/Machine/Status/Filters.antt =====
-- What the filters select: the stored verdict after a recomputation, and the window of a poste that
-- is on.
use natimai_tiai.Prelude.{
  ℕ, ◌+◌, ◌≡◌, refl, Bool, true, false, not, Option, none, some, List, [], ◌∷◌, map, arith, ◌||◌,
  ◌==◌, nat_eq, Bool-cases, inl, inr, count_where, select,
}
use natimai_tiai.Prelude.Time.{Instant, seconds}
use natimai_tiai.Machine.{Machine}
use natimai_tiai.Machine.Status.{
  compute_is_up_to_date, is_online, online_clause, status_clause, up_to_date, verdict_moved,
  recompute_one, recompute_up_to_date, is_true,
}

-- The list's filter on the postes that are on agrees with the dot of each poste but for the
-- postes whose last heartbeat is exactly as old as the threshold, which it selects and the dot
-- shows as off; and the filter on the others is its complement.
online_clause-is_online :
    (now : Instant) (offline : ℕ) (m : Machine)
    → (online_clause true now offline m
        ≡ (is_online m.last_seen now offline || now == m.last_seen + seconds offline))
      × (online_clause false now offline m ≡ not (online_clause true now offline m))
unfolding online_clause is_online
online_clause-is_online now offline m = (ground arith, ground arith)

moved-same : (v : Bool) (o : Option Bool) → verdict_moved v o ≡ false → is_true o ≡ v
moved-same true none h = cc
moved-same false none h = refl
moved-same true (some true) h = refl
moved-same true (some false) h = cc
moved-same false (some true) h = cc
moved-same false (some false) h = refl

is_true-some : (b : Bool) → is_true (some b) ≡ b
is_true-some true = refl
is_true-some false = refl

moved-some : (b : Bool) → verdict_moved b (some b) ≡ false
moved-some true = refl
moved-some false = refl

recomputed_flag :
    (max_age_days : ℕ) (m : Machine)
    → is_true (recompute_one max_age_days m).is_up_to_date ≡ compute_is_up_to_date max_age_days m
unfolding recompute_one
recomputed_flag max_age_days m =
    elim (Bool-cases (verdict_moved (compute_is_up_to_date max_age_days m) m.is_up_to_date)) [
      | inl moved ↦ rw moved (is_true-some (compute_is_up_to_date max_age_days m))
      | inr same ↦ rw same (moved-same (compute_is_up_to_date max_age_days m) m.is_up_to_date same)
    ]

-- The verdict reads columns that a recomputation does not write.
verdict_kept :
    (k n : ℕ) (m : Machine)
    → compute_is_up_to_date k (recompute_one n m) ≡ compute_is_up_to_date k m
unfolding recompute_one compute_is_up_to_date
verdict_kept k n m = elim (Bool-cases (verdict_moved (compute_is_up_to_date n m) m.is_up_to_date)) [
  | inl moved ↦ rw moved refl
  | inr same ↦ rw same refl
]

settled :
    (n : ℕ) (m : Machine)
    → verdict_moved (compute_is_up_to_date n (recompute_one n m)) (recompute_one n m).is_up_to_date
      ≡ false
unfolding recompute_one compute_is_up_to_date
settled n m = elim (Bool-cases (verdict_moved (compute_is_up_to_date n m) m.is_up_to_date)) [
  | inl moved ↦ rw moved (moved-some (compute_is_up_to_date n m))
  | inr same ↦ rw same same
]

recomputed_all :
    (n : ℕ) (machines : List Machine)
    → count_where
        (λ (m : Machine). verdict_moved (compute_is_up_to_date n m) m.is_up_to_date)
        (map (recompute_one n) machines)
      ≡ 0
recomputed_all n [] = refl
recomputed_all n (m ∷ machines) = ground (arith, settled n m, recomputed_all n machines)

selected_all :
    (n k : ℕ) (now : Instant) (machines : List Machine)
    → select (status_clause up_to_date now k) (map (recompute_one n) machines)
      ≡ map (recompute_one n) (select (compute_is_up_to_date n) machines)
unfolding status_clause
selected_all n k now [] = refl
selected_all n k now (m ∷ machines) =
    ground (arith, recomputed_flag n m, selected_all n k now machines)

-- After a change of the threshold, the list's filter on the postes that are up to date selects
-- exactly those that the heartbeat's own verdict finds so under the new threshold, in their order;
-- and recomputing again writes no row.
pub recompute-agrees :
    (machines : List Machine) (max_age_days inactive_after_days : ℕ) (now : Instant)
    → (select
          (status_clause up_to_date now inactive_after_days)
          (recompute_up_to_date max_age_days machines).0
        ≡ map (recompute_one max_age_days) (select (compute_is_up_to_date max_age_days) machines))
      × ((recompute_up_to_date max_age_days (recompute_up_to_date max_age_days machines).0).1 ≡ 0)
unfolding recompute_up_to_date
recompute-agrees machines n k now = (selected_all n k now machines, recomputed_all n machines)
