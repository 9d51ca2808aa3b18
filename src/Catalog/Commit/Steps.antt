-- ===== src/Catalog/Commit/Steps.antt =====
-- The steps of `commit` from an idle connection, one equation each.
use project_f.Base.{String, ◌≡◌, ◌∙◌, ap, Option, none, some}
use project_f.Base.Result.{Error, ok, err}
use project_f.Json.{Value}
use project_f.Catalog.Request.{commit_identity, check_request}
use project_f.Catalog.Target.{Receipt, Target, Connection, current, find_receipt, idle_at, rollback}
use project_f.Catalog.Commit.{
  Outcome, Hook, replay_receipt, commit_new, look_up, transact, commit, undo,
}

-- No fault hook.
abbrev pub no_hook : Hook
no_hook stage = none

-- The connection just after BEGIN IMMEDIATE.
abbrev pub begun_at : Target → Connection
begun_at t = record { durable = t; pending = some t }

module _ (sd : Value → String) (hook : Hook) (before : String) (plan : Value) (k i : String) where
  pub look_up_found :
      (c : Connection) {r : Receipt}
      → find_receipt k (current c).receipts ≡ some r
      → look_up sd hook before plan k i c ≡ replay_receipt sd hook i r c
  unfolding look_up
  look_up_found c e = rw (e, look_up)

  pub look_up_new :
      (c : Connection)
      → find_receipt k (current c).receipts ≡ none
      → look_up sd hook before plan k i c ≡ commit_new sd hook k i before plan c
  unfolding look_up
  look_up_new c e = rw (e, look_up)

module _ (sd : Value → String) (selection : Value) (program : String) (operation : Option String)
    (before : String) (plan : Value) (t : Target)
    (passes : check_request selection program operation ≡ ok (before, plan)) where
  abbrev pub key : String
  key = (commit_identity sd before plan program operation).0

  abbrev pub meaning : String
  meaning = (commit_identity sd before plan program operation).1

  pub commit_lem :
      commit sd no_hook selection program operation (idle_at t)
      ≡ undo (look_up sd no_hook before plan key meaning (begun_at t))
  unfolding commit transact
  commit_lem = rw (passes, commit)

  pub commit_of_ok :
      {o : Outcome} {c : Connection}
      → look_up sd no_hook before plan key meaning (begun_at t) ≡ (ok o, c)
      → commit sd no_hook selection program operation (idle_at t) ≡ (ok o, c)
  commit_of_ok e = commit_lem ∙ ap undo e

  pub commit_of_err :
      {x : Error} {c : Connection}
      → look_up sd no_hook before plan key meaning (begun_at t) ≡ (err x, c)
      → commit sd no_hook selection program operation (idle_at t) ≡ (err x, rollback c)
  commit_of_err e = commit_lem ∙ ap undo e
