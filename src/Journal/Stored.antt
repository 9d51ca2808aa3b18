-- ===== src/Journal/Stored.antt =====
-- foresee/journal.py: a target as the reconciliation reads it. Its rows may be of any writer: a status
-- is a text, and a revision is any value of a column without a constraint.
use project_f.Base.{
  ℕ, String, ◌≡◌, refl, ap, Option, none, some, List, [], ◌∷◌, ◌==◌, map, if◌then◌else◌, Bool-cases,
  inl, inr,
}
use project_f.Base.Int.{pos}
use project_f.Json.{Value, int}
use project_f.Catalog.Target.{Status, applied, stale, Detail, Receipt, Target, find_receipt}

pub record StoredReceipt : Type 0 where
  pub commit_id : String
  pub intent_digest : String
  pub status : String
  pub snapshot_digest : String
  pub resulting_revision : Value
  pub detail : Detail

pub record StoredTarget : Type 0 where
  pub target_id : String
  pub receipts : List StoredReceipt

-- SELECT * FROM foresee_receipts WHERE commit_id=?
unfoldable pub find_stored : String → List StoredReceipt → Option StoredReceipt
find_stored k [] = none
find_stored k (s ∷ ss) = if s.commit_id == k then some s else find_stored k ss

-- status in {"applied", "stale"}
abbrev pub status_of : String → Option Status
status_of s = if s == "applied" then some applied else if s == "stale" then some stale else none

-- type(revision) is int and revision >= 0
abbrev pub revision_of : Value → Option ℕ
revision_of (int (pos n)) = some n
revision_of _ = none

abbrev pub typed : StoredReceipt → Option Status → Option ℕ → Option Receipt
typed s (some status) (some revision) = some (record {
  commit_id = s.commit_id;
  intent_digest = s.intent_digest;
  status = status;
  snapshot_digest = s.snapshot_digest;
  resulting_revision = revision;
  detail = s.detail;
})
typed s (some status) none = none
typed s none revision = none

-- The receipt, when its status and its revision are of the kinds that a commit writes.
unfoldable pub receipt_of : StoredReceipt → Option Receipt
receipt_of s = typed s (status_of s.status) (revision_of s.resulting_revision)

abbrev pub text_of_status : Status → String
text_of_status applied = "applied"
text_of_status stale = "stale"

-- What a commit has stored.
abbrev pub stored_receipt : Receipt → StoredReceipt
stored_receipt r = record {
  commit_id = r.commit_id;
  intent_digest = r.intent_digest;
  status = text_of_status r.status;
  snapshot_digest = r.snapshot_digest;
  resulting_revision = int (pos r.resulting_revision);
  detail = r.detail;
}

abbrev pub stored : Target → StoredTarget
stored t = record { target_id = t.target_id; receipts = map stored_receipt t.receipts }

pub receipt_of-stored_receipt : (r : Receipt) → receipt_of (stored_receipt r) ≡ some r
unfolding receipt_of
receipt_of-stored_receipt r =
    ap (λ o. typed (stored_receipt r) o (some r.resulting_revision)) (told r.status)
  where
    told : (s : Status) → status_of (text_of_status s) ≡ some s
    told applied = refl
    told stale = refl

pub find_stored-stored_receipt :
    (k : String) (rs : List Receipt) {r : Receipt}
    → find_receipt k rs ≡ some r
    → find_stored k (map stored_receipt rs) ≡ some (stored_receipt r)
unfolding find_receipt find_stored
find_stored-stored_receipt k [] h = cc
find_stored-stored_receipt k (x ∷ rs) {r} h = elim (Bool-cases (x.commit_id == k)) [
  | inl y ↦ rw y (same (rw y at h))
  | inr n ↦ rw n (find_stored-stored_receipt k rs (rw n at h))
]
  where
    same : some x ≡ some r → some (stored_receipt x) ≡ some (stored_receipt r)
    same e =
        ap (λ (o : Option Receipt). elim o [ none ↦ none | some q ↦ some (stored_receipt q) ]) e
