-- ===== src/Evidence/Workflow/Verified.antt =====
-- foresee/evidence_workflow.py: what is true of a report that is verified or signed.
use mathlib.Core.Path.{subst}
use project_f.Base.{
  ℕ, ◌≤◌, leb, String, ◌≡◌, refl, sym, ◌∙◌, ap, Bool, true, false, Bool-cases, inl, inr, Option,
  some, length, ◌==◌, ==_true, arith,
}
use project_f.Base.Result.{Result, ok, err, Post, Post->>=, Post-guard, Post-ok, ok_injective}
use project_f.Evidence.{Bytes, Doc, text, Codec}
use project_f.Evidence.Format.{
  Statement, statement_doc, payload_type, key_id, pae, read_statement, prepare_statement,
  encode_envelope,
}
use project_f.Evidence.Trust.{Authenticated, authenticate_envelope, sign_statement}
use project_f.Evidence.Workflow.Prepared.{prepare_statement-written, read_statement-report}
use project_f.Evidence.Workflow.{
  ReplayBudget, Replayed, reproduced, replay_failed, Exchanged, answer, failed, Worker,
  Verification, success, budget_or_default, replayed, replay_bounded, raise_failure, verification,
  requirements_satisfied, sign_report, verify_report,
}

-- The worker has replayed these bytes within its limit, and has answered that it reproduced them.
abbrev pub IsReproduced : Bool → Worker → Bytes → ReplayBudget → Type 0
IsReproduced is_linux worker report b =
    (is_linux ≡ true) × (length report ≤ b.max_report) × (worker b report ≡ answer success)

replayed-answer : (e : Exchanged) → replayed e ≡ reproduced → e ≡ answer success
replayed-answer (failed code) h = cc
replayed-answer (answer response) h = elim (Bool-cases (response == success)) [
  | inl e ↦ ap answer (==_true response success e)
  | inr e ↦ cc
]

replay_bounded-IsReproduced :
    (is_linux : Bool) (worker : Worker) (report : Bytes) (b : ReplayBudget)
    → replay_bounded is_linux worker report (some b) ≡ reproduced
    → IsReproduced is_linux worker report b
unfolding replay_bounded
replay_bounded-IsReproduced true worker report b h =
    elim (Bool-cases (leb (length report) b.max_report)) [
      | inl e ↦ (refl, ground (arith, e), replayed-answer (worker b report) (sym (rw (e) refl) ∙ h))
      | inr e ↦ cc
    ]
replay_bounded-IsReproduced false worker report b h =
    elim (Bool-cases (leb (length report) b.max_report)) [ inl e ↦ cc | inr e ↦ cc ]

requirements-reproduced :
    (a : Authenticated) (r : Replayed)
    → requirements_satisfied (verification a r) ≡ true
    → r ≡ reproduced
requirements-reproduced a reproduced h = refl
requirements-reproduced a (replay_failed code) h = cc

Post-eq :
    {A : Type 0} (good : A → Type 0) (r : Result A) → ((a : A) → r ≡ ok a → good a) → Post good r
Post-eq good (err e) h = tt
Post-eq good (ok a) h = h a refl

raise_failure-ok : (r : Replayed) → raise_failure r ≡ ok tt → r ≡ reproduced
raise_failure-ok reproduced h = refl
raise_failure-ok (replay_failed code) h = cc

module _ (codec : Codec) (is_linux : Bool) (worker : Worker) where
  -- If a report is verified and the requirements are satisfied, then its envelope is authenticated
  -- and the worker has reproduced exactly the bytes of the report, within the limit of its budget.
  pub verify_report-IsReproduced :
      (envelope policy : Bytes) (issuer audience : String) (now max_lifetime : ℕ)
      (budget : Option ReplayBudget) (v : Verification)
      → verify_report codec is_linux worker envelope policy issuer audience now max_lifetime budget
        ≡ ok v
      → requirements_satisfied v ≡ true
      → (authenticate_envelope codec envelope policy issuer audience now max_lifetime
          ≡ ok v.authentication)
        × IsReproduced is_linux worker v.authentication.statement.report (budget_or_default budget)
  unfolding verify_report
  verify_report-IsReproduced envelope policy issuer audience now max_lifetime budget v h satisfied =
      Post-ok Good _
        (Post->>= Good
          (authenticate_envelope codec envelope policy issuer audience now max_lifetime) _
          λ a authenticated.
            (λ allowed. (authenticated ∙ ap ok (sym (kept a _)), verified a allowed)))
        h satisfied
    where
      Good : Verification → Type 0
      Good w =
          requirements_satisfied w ≡ true
          → (authenticate_envelope codec envelope policy issuer audience now max_lifetime
              ≡ ok w.authentication)
            × IsReproduced is_linux worker w.authentication.statement.report
                (budget_or_default budget)

      replay : Authenticated → Replayed
      replay a = replay_bounded is_linux worker a.statement.report (some (budget_or_default budget))

      kept : (a : Authenticated) (r : Replayed) → (verification a r).authentication ≡ a
      kept a reproduced = refl
      kept a (replay_failed code) = refl

      verified :
          (a : Authenticated)
          → requirements_satisfied (verification a (replay a)) ≡ true
          → IsReproduced is_linux worker
              (verification a (replay a)).authentication.statement.report
              (budget_or_default budget)
      verified a allowed =
          subst (λ b. IsReproduced is_linux worker b.statement.report (budget_or_default budget))
            (sym (kept a (replay a)))
            (replay_bounded-IsReproduced is_linux worker a.statement.report
              (budget_or_default budget) (requirements-reproduced a (replay a) allowed))

  -- If the JSON of the statement and the base64 of the report are read back, then a signed envelope
  -- is encoded from the payload that is written for these arguments and this report, whose statement
  -- names the key of the signer and has exactly the bytes of the report; and the worker has
  -- reproduced these bytes, within the limit of its budget.
  pub sign_report-IsReproduced :
      (report public_key : Bytes) (sign : Bytes → Bytes)
      (issuer audience issued_at expires_at : Doc) (budget : Option ReplayBudget) (raw : Bytes)
      → ((keyid : String)
          → key_id codec public_key ≡ ok keyid
          → codec.read (
              codec.write
                (statement_doc codec issuer audience (text keyid) issued_at expires_at report))
            ≡ some (statement_doc codec issuer audience (text keyid) issued_at expires_at report))
      → codec.decode_base64 (codec.encode_base64 report) ≡ some report
      → sign_report codec is_linux worker report public_key sign issuer audience issued_at
          expires_at budget
        ≡ ok raw
      → (payload : Bytes) × (s : Statement) × (read_statement codec payload ≡ ok s)
        × (key_id codec public_key ≡ ok s.keyid)
        × (s.report ≡ report)
        × (codec.write
              (statement_doc codec issuer audience (text s.keyid) issued_at expires_at report)
            ≡ payload)
        × (encode_envelope codec payload (sign (pae codec payload_type payload)) ≡ ok raw)
        × IsReproduced is_linux worker report (budget_or_default budget)
  unfolding sign_report sign_statement
  sign_report-IsReproduced report public_key sign issuer audience issued_at expires_at budget raw
        reads decodes h =
      Post-ok Good _
        (Post->>= Good (key_id codec public_key) _ λ keyid known.
          Post->>= Good
            (prepare_statement codec report issuer audience (text keyid) issued_at expires_at) _
            λ payload prepared.
              Post->>= Good
                (raise_failure
                  (replay_bounded is_linux worker report (some (budget_or_default budget))))
                _
                λ done replays. Post->>= Good (read_statement codec payload) _ λ s said.
                  Post->>= Good (key_id codec public_key) _ λ fingerprint named.
                    Post-guard Good (s.keyid == fingerprint) _ _ λ same.
                      Post-eq Good _ λ bytes encoded. (
                        payload,
                        s,
                        said,
                        named ∙ ap ok (sym (==_true s.keyid fingerprint same)),
                        of_payload keyid payload s known prepared said,
                        subst (λ k. codec.write (doc k) ≡ payload)
                            (ok_injective (sym known ∙ named)
                              ∙ sym (==_true s.keyid fingerprint same))
                            (written keyid payload prepared),
                        encoded,
                        replay_bounded-IsReproduced is_linux worker report
                            (budget_or_default budget) (raise_failure-ok _ replays),
                      ))
        h
    where
      Good : Bytes → Type 0
      Good bytes =
          (payload : Bytes) × (s : Statement) × (read_statement codec payload ≡ ok s)
          × (key_id codec public_key ≡ ok s.keyid)
          × (s.report ≡ report)
          × (codec.write
                (statement_doc codec issuer audience (text s.keyid) issued_at expires_at report)
              ≡ payload)
          × (encode_envelope codec payload (sign (pae codec payload_type payload)) ≡ ok bytes)
          × IsReproduced is_linux worker report (budget_or_default budget)

      doc : String → Doc
      doc keyid = statement_doc codec issuer audience (text keyid) issued_at expires_at report

      written :
          (keyid : String) (payload : Bytes)
          → prepare_statement codec report issuer audience (text keyid) issued_at expires_at
            ≡ ok payload
          → codec.write (doc keyid) ≡ payload
      written keyid payload prepared =
          prepare_statement-written codec report issuer audience (text keyid) issued_at expires_at
            payload prepared

      of_payload :
          (keyid : String) (payload : Bytes) (s : Statement)
          → key_id codec public_key ≡ ok keyid
          → prepare_statement codec report issuer audience (text keyid) issued_at expires_at
            ≡ ok payload
          → read_statement codec payload ≡ ok s
          → s.report ≡ report
      of_payload keyid payload s known prepared said =
          read_statement-report codec report issuer audience (text keyid) issued_at expires_at
            payload s
            (subst (λ p. codec.read p ≡ some (doc keyid)) (written keyid payload prepared)
              (reads keyid known))
            decodes said
