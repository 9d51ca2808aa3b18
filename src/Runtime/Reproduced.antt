-- ===== src/Runtime/Reproduced.antt =====
-- foresee/replay.py: what the offline runtime reproduces are the recorded events.
use project_f.Base.{ℕ, String, ◌≡◌, List, ◌++◌, map}
use project_f.Base.Result.{Result}
use project_f.Json.{Value}
use project_f.Catalog.Snapshot.{Snapshot}
use project_f.Runtime.{Fault}
use project_f.Runtime.State.{Event, Log, State, Hooks}
use project_f.Runtime.Offline.{Left, kind_of, data_digest, Recorded, recorded_digest, offline}

module _ (stable_digest : Value → String) (decimal : ℕ → String) (message : Fault → String)
    (program_digest : String) where
  -- The kind of an event and the digest of its data.
  abbrev pub key : Event → String × String
  key e = (kind_of e, data_digest stable_digest decimal message program_digest e)

  abbrev pub keys : List Event → List (String × String)
  keys = map key

  abbrev pub recorded_key : Recorded → String × String
  recorded_key e = (kind_of e, recorded_digest stable_digest decimal message program_digest e)

  abbrev pub recorded_keys : List Recorded → List (String × String)
  recorded_keys = map recorded_key

  -- What is reproduced, then what is left, is what was recorded.
  abbrev Follows : List Recorded → Log Left → Type 0
  Follows events l = keys l.events ++ recorded_keys l.world ≡ recorded_keys events

  abbrev off : Hooks Left
  off = offline stable_digest decimal message program_digest
