-- ===== src/Runtime/Branch.antt =====
-- foresee/runtime.py: the evaluation inside an exploration changes nothing but its own names.
use project_f.Base.{String, ◌≡◌, refl, ◌∙◌, ap, true, false, Option, none, some, List, [], ◌∷◌, map}
use project_f.Json.{Value}
use project_f.Model.{Block}
use project_f.Catalog.Snapshot.{Snapshot}
use project_f.Runtime.{Trial, Fault}
use project_f.Runtime.State.{
  snap, State, Run, Ended, value, fault, ◌>>=◌, ◌>>◌, next, pure, raise, get_env, set_env, catch,
  caught, Hooks, lift,
}
use project_f.Runtime.Steps.{
  enter, require_simulation, trial_of, close_trial, run_trial, run_trials,
}
use project_f.Runtime.Eval.{exec_branch}
use project_f.Runtime.Decision.{start_env}
use project_f.Runtime.Logic.{
  Relation, Logic, Operations, exec_branch_related, of_require_simulation,
}

-- The state without the names.
abbrev pub rest : {W : Type 0} → State W → State W
rest s = record s { env = start_env }

module _ {W : Type 0} where
  abbrev pub Quiet : Relation W W
  Quiet A b m n = b ≡ true → (s : State W) → rest (m s).1 ≡ rest s

  quiet_next :
      {A B : Type 0} (f : A → Run W B) (s : State W)
      → ((a : A) (t : State W) → rest (f a t).1 ≡ rest t)
      → (p : Ended A × State W) → rest p.1 ≡ rest s
      → rest (next f p).1 ≡ rest s
  unfolding next
  quiet_next f s h (value a, t) e = h a t ∙ e
  quiet_next f s h (fault x, t) e = e

  quiet_caught :
      (s : State W) (p : Ended (Unit {0}) × State W)
      → rest p.1 ≡ rest s
      → rest (caught p).1 ≡ rest s
  unfolding caught
  quiet_caught s (value a, t) e = e
  quiet_caught s (fault x, t) e = e

  quiet : Logic Quiet
  unfolding pure raise get_env set_env catch ◌>>=◌
  quiet = record {
    of_pure = λ b a e s. refl;
    of_raise = λ b x e s. refl;
    of_get = λ b e s. refl;
    of_set = λ b env e s. refl;
    of_catch = λ b m n r e s. quiet_caught s (m s) (r refl s);
    of_bind = λ b m n f g r h e s. quiet_next f s (λ a t. h a e t) (m s) (r e s);
  }

  module _ (h : Hooks W) (stable_digest : Value → String) (resource_names : List String) where
    no_operation : Operations Quiet h h stable_digest resource_names
    no_operation = record {
      of_snapshot = λ r e. absurd (never e);
      of_propose = λ m args e. absurd (never e);
      of_explore = λ ts e. absurd (never e);
      of_select = λ m v e. absurd (never e);
      of_commit = λ r v e. absurd (never e);
    }
      where
        never : false ≡ true → ⊥
        never e = cc

    branch_rest :
        (block : Block) (s : State W)
        → rest (exec_branch h stable_digest resource_names block s).1 ≡ rest s
    branch_rest block =
        exec_branch_related quiet h h stable_digest resource_names no_operation block refl

    -- The evaluation of a plan, were it the only one.
    abbrev evaluate :
        State W → Block → String → Snapshot → String × Value → Ended (Unit {0}) × State W
    evaluate s body item base plan =
        (exec_branch h stable_digest resource_names body >> require_simulation)
          (record s { env = enter item plan.1 (snap base) s.env })

    abbrev error_of : Ended (Unit {0}) → Option Fault
    error_of (value a) = none
    error_of (fault e) = some e

    -- Specification: the trial of one plan.
    abbrev pub alone : State W → Block → String → Snapshot → String × Value → Trial
    alone s body item base plan =
        let (r, t) = evaluate s body item base plan in trial_of plan base t.env (error_of r)

    rest-evaluate :
        (s : State W) (body : Block) (item : String) (base : Snapshot) (plan : String × Value)
        → rest (evaluate s body item base plan).1 ≡ rest s
    unfolding ◌>>=◌
    rest-evaluate s body item base plan =
        quiet_next (λ _. require_simulation) inside (λ a t. of_require_simulation quiet true refl t)
          (exec_branch h stable_digest resource_names body inside) (branch_rest body inside)
      where
        inside : State W
        inside = record s { env = enter item plan.1 (snap base) s.env }

    with_names : (s t : State W) → rest t ≡ rest s → record t { env = s.env } ≡ s
    with_names s t e = ap named e
      where
        named : State W → State W
        named r = record r { env = s.env }

    close_trial_lem :
        (s : State W) (base : Snapshot) (plan : String × Value)
        → (p : Ended (Unit {0}) × State W) → rest p.1 ≡ rest s
        → next (close_trial s.env (snap base) plan) (caught p)
          ≡ (value (trial_of plan base p.1.env (error_of p.0)), s)
    unfolding close_trial ◌>>=◌ next get_env set_env lift pure caught
    close_trial_lem s base plan (value a, t) e =
        ap (λ u. (value (trial_of plan base t.env none), u)) (with_names s t e)
    close_trial_lem s base plan (fault x, t) e =
        ap (λ u. (value (trial_of plan base t.env (some x)), u)) (with_names s t e)

    run_trial_lem :
        (body : Block) (item : String) (base : Snapshot) (plan : String × Value) (s : State W)
        → run_trial (exec_branch h stable_digest resource_names body) item (snap base) plan s
          ≡ (value (alone s body item base plan), s)
    unfolding run_trial ◌>>=◌ next get_env set_env catch
    run_trial_lem body item base plan s =
        close_trial_lem s base plan (evaluate s body item base plan)
          (rest-evaluate s body item base plan)

    -- Whatever the branch of an exploration does, evaluating it on plans from a snapshot leaves the
    -- state as it was and gives one trial for each plan, in their order: that of the plan alone,
    -- with what the branch raised as its error.
    pub run_trials_lem :
        (body : Block) (item : String) (base : Snapshot) (plans : List (String × Value))
        → (s : State W)
        → run_trials (exec_branch h stable_digest resource_names body) item (snap base) plans s
          ≡ (value (map (alone s body item base) plans), s)
    unfolding run_trials ◌>>=◌ next pure
    run_trials_lem body item base [] s = refl
    run_trials_lem body item base (plan ∷ plans) s =
        ap (next _) (run_trial_lem body item base plan s)
        ∙ ap (next _) (run_trials_lem body item base plans s)
