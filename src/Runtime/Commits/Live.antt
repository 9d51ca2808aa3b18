-- ===== src/Runtime/Commits/Live.antt =====
-- foresee/runtime.py: what a live run has committed when it ends, however it ends.
use project_f.Base.{ℕ, ◌≤◌, String, ◌≡◌, true, Option, some, List}
use project_f.Base.Result.{Result}
use project_f.Journal.{Journal}
use project_f.Catalog.Commit.{Outcome}
use project_f.Runtime.{Trial, is_eligible, metric_of}
use project_f.Runtime.Select.{In}
use project_f.Runtime.State.{Event, commit_made, Payload, Log, State, Action}
use project_f.Runtime.Live.{World, Setting}
use project_f.Runtime.Commits.{Chosen}

-- What is among the events of a log is told.
abbrev pub Among : {W : Type 0} → Log W → Event → Type 0
Among l e = In e l.events

-- The payload is the choice among trials that the events tell.
abbrev pub ChosenIn : List Event → Payload → Type 0
ChosenIn events p = Chosen Among (record { events = events; world = tt }) p

-- Every commit that the events tell is of a chosen payload.
abbrev pub AllCommitsChosen : List Event → Type 0
AllCommitsChosen events =
    (p : Payload) (operation : Option String) (outcome : Outcome)
    → In (commit_made p operation outcome) events
    → ChosenIn events p

More : List Event → List Event → Type 0
More events later = (e : Event) → In e events → In e later

module _ {P : Type 0} (setting : Setting P) where
  -- An action that keeps a property of the events.
  abbrev Safe : (List Event → Type 0) → {A : Type 0} → Action (World P) A → Type 0
  Safe G m = (l : Log (World P)) → G l.events → G (m l).1.events

  abbrev Unrecorded : {A : Type 0} → Action (World P) A → Type 0
  Unrecorded m = (l : Log (World P)) → (m l).1.events ≡ l.events

  payload_in : Payload → Event → Payload
  payload_in p (commit_made q operation outcome) = q
  payload_in p _ = p

  -- The events before are among the events after.
  abbrev Later : List Event → List Event → Type 0
  Later events later = AllCommitsChosen later × More events later

-- The payload is an eligible trial of these, with its score for the metric, and none that is eligible
-- scores less.
abbrev pub IsBest : Payload → List Trial → Trial → Type 0
IsBest p trials t =
    (In t trials × (is_eligible t ≡ true) × (metric_of p.metric t.metrics ≡ some p.score))
    × ((u : Trial)
        → In u trials
        → is_eligible u ≡ true
        → (k : ℕ) × (metric_of p.metric u.metrics ≡ some k) × (p.score ≤ k))
    × (p.plan ≡ t.plan)
    × (p.base ≡ t.base)
