-- ===== src/Runtime/Commits.antt =====
-- foresee/runtime.py: what a decision commits, by invariants of its evaluation.
pub mod Live
use mathlib.Core.Path.{subst}
use project_f.Base.{
  ℕ, String, ◌≡◌, refl, sym, ◌∙◌, ap, Bool, true, false, Option, none, some, List, [], ◌∷◌, ◌++◌,
  map, ◌==◌, nat_eq, Bool-cases, Option-cases, inl, inr, if◌then◌else◌,
}
use project_f.Base.Result.{Result, ok, err, or_raise-some, Result-cases}
use project_f.Json.{Value}
use project_f.Model.{Block}
use project_f.Runtime.{Trial, Fault, Selection, nothing_eligible, chosen, select}
use project_f.Runtime.Select.{In}
use project_f.Runtime.State.{
  Datum, text, number, truth, json, snap, trial_set, committed, summary_of, selected, Event,
  snapshot_read, plans_proposed, explored, chose, commit_made, Payload, Choice, Log, State, Run,
  Ended, value, fault, ◌>>=◌, next, pure, raise, lift, outside, get_env, set_env, catch, caught,
  Hooks, find_token, drop_token,
}
use project_f.Runtime.Steps.{
  set_exploration, hold_trials, keep_trials, known_trials, trials_of, first_name, set_selection,
  hold, payload_of, choice_of, keep_selection, release, release_found, with_token, find_held, spend,
  proposal_of,
}
use project_f.Runtime.Eval.{take_snapshot, ask_plans, select_trial, commit_selected, exec_body}
use project_f.Runtime.Logic.{Relation, Logic, Operations, exec_body_related, of_lift}

abbrev pub is_commit : Event → Bool
is_commit (commit_made p operation outcome) = true
is_commit _ = false

-- `T l e`: the log l tells the event e. The payload is the choice among trials that it tells.
abbrev pub Chosen : {W : Type 0} → (Log W → Event → Type 0) → Log W → Payload → Type 0
Chosen T l p =
    (trials : List Trial) × (t : Trial) × (select p.metric trials ≡ ok (chosen p.score t))
    × (p ≡ payload_of p.metric p.score t)
    × T l (explored (map summary_of trials))
    × T l (chose (choice_of p.metric p.score t))

abbrev pub Mono : {W : Type 0} → (Log W → Event → Type 0) → Log W → Log W → Type 0
Mono T l k = (e : Event) → T l e → T k e

abbrev pub Told :
    {W : Type 0} → (Log W → Event → Type 0) → Event → Ended (Unit {0}) × Log W → Type 0
Told T e (value u, l) = T l e
Told T e (fault x, l) = Unit

-- A property of the log that the operations keep, a commit if its payload has been chosen; they keep
-- what the log tells, and it tells what has been observed.
pub record Keeps {W : Type 0} (h : Hooks W) (P : Log W → Type 0) (T : Log W → Event → Type 0)
    : Type 0 where
  pub keep_observe :
      (e : Event)
      → is_commit e ≡ false
      → (l : Log W) → P l
      → P (h.observe e l).1 × Mono T l (h.observe e l).1 × Told T e (h.observe e l)
  pub keep_read :
      (resource : String) (l : Log W)
      → P l
      → P (h.read_snapshot resource l).1 × Mono T l (h.read_snapshot resource l).1
  pub keep_propose :
      (model : String) (base : _) (prompt : String) (limit : ℕ) (l : Log W)
      → P l
      → P (h.propose_plans model base prompt limit l).1
        × Mono T l (h.propose_plans model base prompt limit l).1
  pub keep_apply :
      (p : Payload) (l : Log W)
      → Chosen T l p
      → P l
      → P (h.apply_selection p l).1 × Mono T l (h.apply_selection p l).1

module _ {W : Type 0} (h : Hooks W) (P : Log W → Type 0) (T : Log W → Event → Type 0)
    (keeps : Keeps h P T) (stable_digest : Value → String) (resource_names : List String) where
  abbrev AllChosen : Log W → List (ℕ × (String × Payload)) → Type 0
  AllChosen l [] = Unit
  AllChosen l ((n, (owner, p)) ∷ held) = Chosen T l p × AllChosen l held

  abbrev Explored : Log W → List Trial → Type 0
  Explored l trials = T l (explored (map summary_of trials))

  abbrev AllExplored : Log W → List (ℕ × List Trial) → Type 0
  AllExplored l [] = Unit
  AllExplored l ((n, trials) ∷ held) = Explored l trials × AllExplored l held

  abbrev Holds : State W → Type 0
  Holds s = P s.log × AllExplored s.log s.trials × AllChosen s.log s.selections

  Chosen-Mono : (l k : Log W) (p : Payload) → Mono T l k → Chosen T l p → Chosen T k p
  Chosen-Mono l k p m (trials, t, e, same, told, choice) =
      (trials, t, e, same, m _ told, m _ choice)

  AllChosen-Mono :
      (l k : Log W) (held : List (ℕ × (String × Payload)))
      → Mono T l k
      → AllChosen l held
      → AllChosen k held
  AllChosen-Mono l k [] m all = tt
  AllChosen-Mono l k ((n, (owner, p)) ∷ held) m (c, all) =
      (Chosen-Mono l k p m c, AllChosen-Mono l k held m all)

  AllExplored-Mono :
      (l k : Log W) (held : List (ℕ × List Trial))
      → Mono T l k
      → AllExplored l held
      → AllExplored k held
  AllExplored-Mono l k [] m all = tt
  AllExplored-Mono l k ((n, trials) ∷ held) m (c, all) = (m _ c, AllExplored-Mono l k held m all)

  -- What holds before holds after, what was told is told, and the results are these.
  abbrev Gives : {A : Type 0} → Log W → (A → State W → Type 0) → Ended A × State W → Type 0
  Gives l good (value a, s) = good a s × Holds s × Mono T l s.log
  Gives l good (fault e, s) = Holds s × Mono T l s.log

  abbrev Yields : {A : Type 0} → (A → State W → Type 0) → Run W A → Type 0
  Yields good m = (s : State W) → Holds s → Gives s.log good (m s)

  abbrev Any : {A : Type 0} → A → State W → Type 0
  Any a s = Unit

  abbrev Kept : Relation W W
  Kept A b m n = Yields Any m

  Gives-Mono :
      {A : Type 0} (good : A → State W → Type 0) (l k : Log W) (q : Ended A × State W)
      → Mono T l k
      → Gives k good q
      → Gives l good q
  Gives-Mono good l k (value a, s) m (g, holds, n) = (g, holds, λ e t. n e (m e t))
  Gives-Mono good l k (fault e, s) m (holds, n) = (holds, λ e t. n e (m e t))

  Gives-next :
      {A B : Type 0} (good : A → State W → Type 0) (better : B → State W → Type 0) (f : A → Run W B)
      (l : Log W)
      → ((a : A) (s : State W) → good a s → Mono T l s.log → Holds s → Gives s.log better (f a s))
      → (p : Ended A × State W) → Gives l good p
      → Gives l better (next f p)
  unfolding next
  Gives-next good better f l k (value a, s) (g, holds, m) =
      Gives-Mono better l s.log (f a s) m (k a s g m holds)
  Gives-next good better f l k (fault e, s) holds = holds

  then-Gives :
      {A B : Type 0} (good : A → State W → Type 0) (better : B → State W → Type 0) (m : Run W A)
      (f : A → Run W B) (s : State W)
      → Gives s.log good (m s)
      → ((a : A) (t : State W)
          → good a t
          → Mono T s.log t.log
          → Holds t
          → Gives t.log better (f a t))
      → Gives s.log better ((m >>= f) s)
  unfolding ◌>>=◌
  then-Gives good better m f s y k = Gives-next good better f s.log k (m s) y

  also :
      {A B : Type 0} (m : Run W A) (f : A → Run W B)
      → Yields Any m
      → ((a : A) → Yields Any (f a))
      → Yields Any (m >>= f)
  also m f y k s holds = then-Gives Any Any m f s (y s holds) (λ a t _ _ now. k a t now)

  Gives-caught :
      (l : Log W) (p : Ended (Unit {0}) × State W) → Gives l Any p → Gives l Any (caught p)
  unfolding caught
  Gives-caught l (value a, s) (u, holds, m) = (tt, holds, m)
  Gives-caught l (fault e, s) (holds, m) = (tt, holds, m)

  kept : Logic Kept
  unfolding pure raise get_env set_env catch
  kept = record {
    of_pure = λ b a s holds. (tt, holds, λ _ t. t);
    of_raise = λ b x s holds. (holds, λ _ t. t);
    of_get = λ b s holds. (tt, holds, λ _ t. t);
    of_set = λ b env s holds. (tt, holds, λ _ t. t);
    of_catch = λ b m n r s holds. Gives-caught s.log (m s) (r s holds);
    of_bind = λ b m n f g r k. also m f r k;
  }

  abbrev Ends : {A : Type 0} → (A → Log W → Type 0) → Ended A × Log W → Type 0
  Ends good (value a, l) = good a l
  Ends good (fault e, l) = Unit

  no_more : {A : Type 0} (q : Ended A × Log W) → Ends (λ _ _. Unit) q
  no_more (value a, l) = tt
  no_more (fault e, l) = tt

  lift_eq-Gives :
      {A : Type 0} (good : State W → Type 0) (r : Result A) (s : State W)
      → good s
      → Holds s
      → Gives s.log (λ a t. (r ≡ ok a) × good t) (lift r s)
  unfolding lift pure raise
  lift_eq-Gives good (ok a) s g holds = ((refl, g), holds, λ _ t. t)
  lift_eq-Gives good (err e) s g holds = (holds, λ _ t. t)

  lift-Gives :
      {A : Type 0} (good : State W → Type 0) (r : Result A) (s : State W)
      → good s
      → Holds s
      → Gives s.log (λ _ t. good t) (lift r s)
  unfolding lift pure raise
  lift-Gives good (ok a) s g holds = (g, holds, λ _ t. t)
  lift-Gives good (err e) s g holds = (holds, λ _ t. t)

  -- What an operation leaves in the log is placed in the state.
  placed_Gives :
      {A : Type 0} (good : A → Log W → Type 0) (s : State W) (q : Ended A × Log W)
      → P q.1
      → Mono T s.log q.1
      → Ends good q
      → AllExplored s.log s.trials
      → AllChosen s.log s.selections
      → Gives s.log (λ a t. good a t.log) (q.0, record s { log = q.1 })
  placed_Gives good s (value a, l) p m g seen all = (
    g,
    (p, AllExplored-Mono s.log l s.trials m seen, AllChosen-Mono s.log l s.selections m all),
    m,
  )
  placed_Gives good s (fault e, l) p m g seen all =
      ((p, AllExplored-Mono s.log l s.trials m seen, AllChosen-Mono s.log l s.selections m all), m)

  outside-Yields :
      {A : Type 0} (m : Log W → Ended A × Log W)
      → ((l : Log W) → P l → P (m l).1 × Mono T l (m l).1)
      → Yields Any (outside m)
  unfolding outside
  outside-Yields m k s (p, seen, all) =
      let (q, n) = k s.log p in
      placed_Gives (λ _ _. Unit) s (m s.log) q n (no_more (m s.log)) seen all

  observe-Gives :
      (e : Event) (s : State W)
      → is_commit e ≡ false
      → Holds s
      → Gives s.log (λ _ t. T t.log e) (outside (h.observe e) s)
  unfolding outside
  observe-Gives e s n (p, seen, all) =
      let (q, m, told) = keeps.keep_observe e n s.log p in
      placed_Gives (λ _ l. T l e) s (h.observe e s.log) q m (tells (h.observe e s.log) told) seen
        all
    where
      tells : (q : Ended (Unit {0}) × Log W) → Told T e q → Ends (λ _ l. T l e) q
      tells (value u, l) t = t
      tells (fault x, l) t = tt

  observe-Yields : (e : Event) → is_commit e ≡ false → Yields Any (outside (h.observe e))
  observe-Yields e n =
      outside-Yields (h.observe e) (λ l p. let (q, m, told) = keeps.keep_observe e n l p in (q, m))

  abbrev FoundChosen : Log W → Option (String × Payload) → Type 0
  FoundChosen l none = Unit
  FoundChosen l (some (owner, p)) = Chosen T l p

  AllChosen-find_token :
      (l : Log W) (n : ℕ) (held : List (ℕ × (String × Payload)))
      → AllChosen l held
      → FoundChosen l (find_token n held)
  unfolding find_token
  AllChosen-find_token l n [] all = tt
  AllChosen-find_token l n ((k, (o, q)) ∷ held) all = elim (Bool-cases (nat_eq k n)) [
    | inl y ↦ rw y all.0
    | inr x ↦ rw x (AllChosen-find_token l n held all.1)
  ]

  AllChosen-drop_token :
      (l : Log W) (n : ℕ) (held : List (ℕ × (String × Payload)))
      → AllChosen l held
      → AllChosen l (drop_token n held)
  unfolding drop_token
  AllChosen-drop_token l n [] all = tt
  AllChosen-drop_token l n ((k, (o, q)) ∷ held) all = elim (Bool-cases (nat_eq k n)) [
    | inl y ↦ rw y all.1
    | inr x ↦ rw x (all.0, AllChosen-drop_token l n held all.1)
  ]

  abbrev HeldChosen : Log W → Option (ℕ × (String × Payload)) → Type 0
  HeldChosen l none = Unit
  HeldChosen l (some (n, (owner, p))) = Chosen T l p

  with_token_lem :
      (l : Log W) (n : ℕ) (o : Option (String × Payload))
      → FoundChosen l o
      → HeldChosen l (with_token n o)
  with_token_lem l n none c = tt
  with_token_lem l n (some (owner, p)) c = c

  find_held-AllChosen :
      (l : Log W) (token : Datum) (held : List (ℕ × (String × Payload)))
      → AllChosen l held
      → HeldChosen l (find_held token held)
  find_held-AllChosen l (selected n) held all =
      with_token_lem l n (find_token n held) (AllChosen-find_token l n held all)
  find_held-AllChosen l (text s) held all = tt
  find_held-AllChosen l (number n) held all = tt
  find_held-AllChosen l (truth b) held all = tt
  find_held-AllChosen l (json v) held all = tt
  find_held-AllChosen l (snap s) held all = tt
  find_held-AllChosen l (trial_set n) held all = tt
  find_held-AllChosen l (committed o) held all = tt

  abbrev NowChosen : Payload → State W → Type 0
  NowChosen p s = Chosen T s.log p

  release-Gives :
      (same : Bool) (n : ℕ) (p : Payload) (s : State W)
      → NowChosen p s
      → Holds s
      → Gives s.log NowChosen (release same n p s)
  unfolding release raise
  release-Gives true n p s c (good, seen, all) =
      (c, (good, seen, AllChosen-drop_token s.log n s.selections all), λ _ t. t)
  release-Gives false n p s c holds = (holds, λ _ t. t)

  release_found-Gives :
      (resource : String) (found : Option (ℕ × (String × Payload))) (s : State W)
      → HeldChosen s.log found
      → Holds s
      → Gives s.log NowChosen (release_found resource found s)
  unfolding release_found raise
  release_found-Gives resource none s c holds = (holds, λ _ t. t)
  release_found-Gives resource (some (n, (owner, p))) s c holds =
      release-Gives (owner == resource) n p s c holds

  spend-Yields : (resource : String) (token : Datum) → Yields NowChosen (spend resource token)
  unfolding spend
  spend-Yields resource token s (p, seen, all) =
      release_found-Gives resource (find_held token s.selections) s
        (find_held-AllChosen s.log token s.selections all) (p, seen, all)

  hold-Gives :
      (resource : String) (p : Payload) (s : State W)
      → NowChosen p s
      → Holds s
      → Gives s.log Any (hold resource p s)
  unfolding hold
  hold-Gives resource p s c (good, seen, all) = (tt, (good, seen, (c, all)), λ _ t. t)

  keep_selection-Gives :
      (metric : String) (trials : List Trial) (choice : Selection) (s : State W)
      → select metric trials ≡ ok choice
      → Explored s.log trials
      → Holds s
      → Gives s.log Any (keep_selection h resource_names metric choice s)
  unfolding keep_selection set_selection raise
  keep_selection-Gives metric trials nothing_eligible s e told holds = (holds, λ _ t. t)
  keep_selection-Gives metric trials (chosen score t) s e told holds =
      then-Gives (λ _ s. Explored s.log trials) Any (set_selection choice) _ s
        (told, holds, λ _ t. t)
        λ _ s1 told1 _ holds1.
          then-Gives (λ _ s. T s.log (chose choice)) Any (outside (h.observe (chose choice))) _ s1
            (observe-Gives (chose choice) s1 refl holds1)
            λ _ s2 chosen2 m2 holds2.
              then-Gives (λ _ s. NowChosen (payload_of metric score t) s) Any
                (lift (first_name resource_names)) _ s2
                (lift-Gives (NowChosen (payload_of metric score t)) (first_name resource_names) s2
                  (trials, t, e, refl, m2 _ told1, chosen2) holds2)
                λ r s3 c3 _ holds3. hold-Gives r (payload_of metric score t) s3 c3 holds3
    where
      choice : Choice
      choice = choice_of metric score t

  snapshot-Yields :
      (resource : String) → Yields Any (take_snapshot h stable_digest resource_names resource)
  unfolding take_snapshot pure
  snapshot-Yields resource =
      also (outside (h.read_snapshot resource)) _
        (outside-Yields (h.read_snapshot resource) (keeps.keep_read resource))
        λ base.
          also (outside (h.observe (snapshot_read resource base))) _
            (observe-Yields (snapshot_read resource base) refl) λ _ s holds. (tt, holds, λ _ t. t)

  propose-Yields :
      (model : String) (args : List Datum)
      → Yields Any (ask_plans h stable_digest resource_names model args)
  unfolding ask_plans pure
  propose-Yields model args =
      also (lift (proposal_of args)) _ (of_lift kept false (proposal_of args)) λ t.
        also (outside (h.propose_plans model t.0 t.1.0 t.1.1)) _
          (outside-Yields (h.propose_plans model t.0 t.1.0 t.1.1)
            (keeps.keep_propose model t.0 t.1.0 t.1.1))
          λ plans.
            also (outside (h.observe (plans_proposed model t.0.digest t.1.0 t.1.1 plans))) _
              (observe-Yields (plans_proposed model t.0.digest t.1.0 t.1.1 plans) refl)
              λ _ s holds. (tt, holds, λ _ t. t)

  explore-Yields : (trials : List Trial) → Yields Any (keep_trials h trials)
  unfolding keep_trials set_exploration hold_trials
  explore-Yields trials =
      also (set_exploration trials) _ (λ s holds. (tt, holds, λ _ t. t))
        λ _ s holds.
          then-Gives (λ _ s. Explored s.log trials) Any
            (outside (h.observe (explored (map summary_of trials)))) _ s
            (observe-Gives (explored (map summary_of trials)) s refl holds)
            λ _ s1 told _ (p, all, picked). (tt, (p, (told, all), picked), λ _ t. t)

  AllExplored-find_token :
      (l : Log W) (n : ℕ) (held : List (ℕ × List Trial)) (trials : List Trial)
      → AllExplored l held
      → find_token n held ≡ some trials
      → Explored l trials
  unfolding find_token
  AllExplored-find_token l n [] trials all e = cc
  AllExplored-find_token l n ((k, ts) ∷ held) trials all e = elim (Bool-cases (nat_eq k n)) [
    | inl y ↦ subst (Explored l) (some_same (rw y at e)) all.0
    | inr x ↦ AllExplored-find_token l n held trials all.1 (rw x at e)
  ]
    where
      some_same : {x z : List Trial} → some x ≡ some z → x ≡ z
      some_same e = cc

  known_trials-Explored :
      (l : Log W) (token : Datum) (held : List (ℕ × List Trial)) (trials : List Trial)
      → AllExplored l held
      → known_trials token held ≡ ok trials
      → Explored l trials
  known_trials-Explored l (trial_set n) held trials all e =
      AllExplored-find_token l n held trials all (or_raise-some (find_token n held) _ e)
  known_trials-Explored l (text s) held trials all e = cc
  known_trials-Explored l (number n) held trials all e = cc
  known_trials-Explored l (truth b) held trials all e = cc
  known_trials-Explored l (json v) held trials all e = cc
  known_trials-Explored l (snap s) held trials all e = cc
  known_trials-Explored l (selected n) held trials all e = cc
  known_trials-Explored l (committed o) held trials all e = cc

  trials-Yields : (token : Datum) → Yields (λ trials s. Explored s.log trials) (trials_of token)
  unfolding trials_of lift pure raise
  trials-Yields token s (p, all, picked) = elim (Result-cases (known_trials token s.trials)) [
    | inl (trials, e) ↦
        rw (e) (known_trials-Explored s.log token s.trials trials all e, (p, all, picked), λ _ t. t)
    | inr (x, e) ↦ rw (e) ((p, all, picked), λ _ t. t)
  ]

  select-Yields :
      (metric : String) (token : Datum)
      → Yields Any (select_trial h stable_digest resource_names metric token)
  unfolding select_trial
  select-Yields metric token s holds =
      then-Gives (λ trials s. Explored s.log trials) Any (trials_of token) _ s
        (trials-Yields token s holds)
        λ trials s1 told _ holds1.
          then-Gives (λ c s. (select metric trials ≡ ok c) × Explored s.log trials) Any
            (lift (select metric trials)) _ s1
            (lift_eq-Gives (λ s. Explored s.log trials) (select metric trials) s1 told holds1)
            λ choice s2 (e, told2) _ holds2.
              keep_selection-Gives metric trials choice s2 e told2 holds2

  applied :
      (p : Payload) (s : State W)
      → NowChosen p s
      → Holds s
      → Gives s.log Any (outside (h.apply_selection p) s)
  unfolding outside
  applied p s c (good, seen, all) =
      let (q, m) = keeps.keep_apply p s.log c good in
      placed_Gives (λ _ _. Unit) s (h.apply_selection p s.log) q m
        (no_more (h.apply_selection p s.log)) seen all

  commit-Yields :
      (resource : String) (token : Datum)
      → Yields Any (commit_selected h stable_digest resource_names resource token)
  unfolding commit_selected pure
  commit-Yields resource token s holds =
      then-Gives NowChosen Any (spend resource token) _ s (spend-Yields resource token s holds)
        λ p s1 c _ holds1.
          then-Gives Any Any (outside (h.apply_selection p)) _ s1 (applied p s1 c holds1)
            λ outcome s2 _ _ holds2. (tt, holds2, λ _ t. t)

  operations : Operations Kept h h stable_digest resource_names
  operations = record {
    of_snapshot = snapshot-Yields;
    of_propose = propose-Yields;
    of_explore = explore-Yields;
    of_select = select-Yields;
    of_commit = commit-Yields;
  }

  -- The property of the log holds after a decision if it holds before.
  pub exec_body_keeps :
      (body : Block) (s : State W)
      → P s.log
      → s.trials ≡ []
      → s.selections ≡ []
      → P (exec_body h stable_digest resource_names body s).1.log
  exec_body_keeps body s p none_explored e =
      log_of (exec_body h stable_digest resource_names body s) (
        exec_body_related kept h h stable_digest resource_names operations body s
          (p, subst (AllExplored s.log) (sym none_explored) tt, subst (AllChosen s.log) (sym e) tt))
    where
      log_of : (q : Ended (Option Datum) × State W) → Gives s.log Any q → P q.1.log
      log_of (value a, t) (u, (good, seen, all), m) = good
      log_of (fault x, t) ((good, seen, all), m) = good
