-- ===== src/Runtime/Tests.antt =====
-- Runs of the selection, and its theorem at a concrete input.
use project_f.Base.{ℕ, ◌≤◌, String, true, false, none, some, List, [], ◌∷◌, ◌≡◌, refl}
use project_f.Base.Result.{ok}
use project_f.Json.{null}
use project_f.Runtime.{
  is_eligible, Trial, metric_of, scores, least, chosen, nothing_eligible, select,
}
use project_f.Runtime.Select.{In, select-least}

abbrev trial : String → ℕ → Trial
trial plan_id n = record {
  plan_id = plan_id;
  plan = null;
  base = record { revision = 0; rows = []; digest = "" };
  checks = (true, "arithmetic") ∷ [];
  metrics = ("unresolved", n) ∷ [];
  error = none;
}

abbrev rejected : Trial
rejected = record (trial "none" 0) { checks = (false, "arithmetic") ∷ [] }

abbrev trials : List Trial
trials = trial "filters" 1 ∷ rejected ∷ trial "coffee" 1 ∷ trial "partial" 2 ∷ []

-- The plan id breaks a tie.
select_tie : select "unresolved" trials ≡ ok (chosen 1 (trial "coffee" 1))
unfolding select scores least
select_tie = refl

select_nothing : select "unresolved" (rejected ∷ []) ≡ ok nothing_eligible
unfolding select scores least
select_nothing = refl

select-least_example :
    (In (trial "coffee" 1) trials
      × (is_eligible (trial "coffee" 1) ≡ true)
      × (metric_of "unresolved" (trial "coffee" 1).metrics ≡ some 1))
    × ((u : Trial)
        → In u trials
        → is_eligible u ≡ true
        → (k : ℕ) × (metric_of "unresolved" u.metrics ≡ some k) × (1 ≤ k))
select-least_example = select-least "unresolved" trials 1 (trial "coffee" 1) select_tie
