-- ===== src/Proposal/Accepted.antt =====
-- foresee/model_provider.py: what an answer that is accepted is.
use mathlib.Core.Path.{subst}
use project_f.Base.{
  ℕ, ◌≤◌, ltb, leb, String, ◌≡◌, refl, sym, Bool, true, false, not, ◌&&◌, Option, none, some, List,
  [], ◌∷◌, contains, if◌then◌else◌, arith,
}
use project_f.Base.Result.{Result, ok, err, or_raise, or_raise-some, >>=-eq-ok, guard->>-eq-ok}
use project_f.Json.{Value, obj, arr, str, int, bool, null, Items, nil, cons, lookup}
use project_f.Catalog.Plan.{validate_plan}
use project_f.Catalog.Snapshot.{Snapshot}
use project_f.Proposal.{Code, Answer, failure, answer, Budget}
use project_f.Proposal.Strict.{Raw, built}
use project_f.Proposal.Response.{
  item_count, patches_fit, id_of, check_plans, check_response, plans_of, has_envelope_keys,
  is_version, is_digest,
}
use project_f.Proposal.Bounded.{
  Reply, refused, timed_out, failed, not_bytes, received, Transport, Encoding, Provider,
  prepare_request, answered, read_response, accept, exchange, limited, call, release_lock, acquire,
  propose,
}

-- Each plan is valid, has no more patches than this, and an id that is none of these.
abbrev pub ArePlans : ℕ → List String → Items → Type 0
ArePlans most ids nil = Unit
ArePlans most ids (cons plan plans) =
    (id : String) × (id_of plan ≡ some id)
    × (contains ids id ≡ false)
    × (validate_plan plan ≡ ok tt)
    × (patches_fit most plan ≡ true)
    × ArePlans most (id ∷ ids) plans

check_plans-ArePlans :
    (most : ℕ) (ids : List String) (plans : Items)
    → check_plans most ids plans ≡ ok tt
    → ArePlans most ids plans
unfolding check_plans
check_plans-ArePlans most ids nil h = tt
check_plans-ArePlans most ids (cons plan plans) h =
    let (fit, h1) = guard->>-eq-ok (patches_fit most plan) _ _ h in
    let (u, valid, h2) = >>=-eq-ok (validate_plan plan) _ h1 in
    let (id, named, h3) = >>=-eq-ok (or_raise (id_of plan) _) _ h2 in
    let (new, h4) = guard->>-eq-ok (not (contains ids id)) _ _ h3 in
    (
      id,
      or_raise-some (id_of plan) _ named,
      ground (arith, new),
      valid,
      fit,
      check_plans-ArePlans most (id ∷ ids) plans h4,
    )

check_response-ArePlans :
    (most limit : ℕ) (digest : String) (v : Value) {plans : Items}
    → check_response most limit digest v ≡ ok plans
    → (item_count plans ≤ limit) × ArePlans most [] plans
unfolding check_response
check_response-ArePlans most limit digest (obj d) {plans} h =
    let (envelope, h1) =
      guard->>-eq-ok
        (has_envelope_keys d
          && is_version (lookup "version" d)
          && is_digest digest (lookup "request_digest" d))
        _ _ h in
    let (found, e, h2) = >>=-eq-ok (or_raise (plans_of (lookup "plans" d)) _) _ h1 in
    let (few, h3) = guard->>-eq-ok (leb (item_count found) limit) _ _ h2 in
    let (u, checked, h4) = >>=-eq-ok (check_plans most [] found) _ h3 in
    subst (λ x. (item_count x ≤ limit) × ArePlans most [] x) (same h4)
      (ground (arith, few), check_plans-ArePlans most [] found checked)
  where
    same : {x y : Items} → ◌≡◌ {A = Result Items} (ok x) (ok y) → x ≡ y
    same e = cc
check_response-ArePlans most limit digest (arr vs) h = cc
check_response-ArePlans most limit digest (str s) h = cc
check_response-ArePlans most limit digest (int z) h = cc
check_response-ArePlans most limit digest (bool b) h = cc
check_response-ArePlans most limit digest null h = cc

then_answer :
    {A : Type 0} (b : Bool) (x : Answer A) (c : Code) {a : A}
    → (if b then x else failure c) ≡ answer a
    → (b ≡ true) × (x ≡ answer a)
then_answer true x c h = (refl, h)
then_answer false x c h = cc

else_answer :
    {A : Type 0} (b : Bool) (x : Answer A) (c : Code) {a : A}
    → (if b then failure c else x) ≡ answer a
    → x ≡ answer a
else_answer true x c h = cc
else_answer false x c h = h

module _ {T : Type 0} (encoding : Encoding) (transport : Transport T) (budget : Budget) where
  -- The tests that an answer has passed.
  abbrev Passed : ℕ → Items → Type 0
  Passed limit plans = (item_count plans ≤ limit) × ArePlans budget.max_patches [] plans

  answered_lem :
      (r : Result Items) {plans : Items}
      → answered encoding transport budget r ≡ answer plans
      → r ≡ ok plans
  answered_lem (ok a) h = cc
  answered_lem (err e) h = cc

  read_response-Passed :
      (request : String) (limit : ℕ) (raw : Option Raw) (v : Result Value) {plans : Items}
      → read_response encoding transport budget request limit raw v ≡ answer plans
      → Passed limit plans
  read_response-Passed request limit none v h = cc
  read_response-Passed request limit (some raw) (err e) h = cc
  read_response-Passed request limit (some raw) (ok v) h =
      check_response-ArePlans budget.max_patches limit (encoding.sha256 request) v
        (answered_lem _ h)

  accept-Passed :
      (request : String) (limit : ℕ) (reply : Reply) {plans : Items}
      → accept encoding transport budget request limit reply ≡ answer plans
      → Passed limit plans
  unfolding accept
  accept-Passed request limit (refused code) h = cc
  accept-Passed request limit timed_out h = cc
  accept-Passed request limit failed h = cc
  accept-Passed request limit (not_bytes true) h = cc
  accept-Passed request limit (not_bytes false) h = cc
  accept-Passed request limit (received true response) h = cc
  accept-Passed request limit (received false response) h =
      read_response-Passed request limit (encoding.read response) (built (encoding.read response))
        (else_answer (ltb budget.max_response_bytes (encoding.byte_count response)) _ _ h)

  limited-Passed :
      (over : Bool) (text : String) (limit : ℕ) (p : Provider T) {plans : Items}
      → (limited encoding transport budget over text limit p).0 ≡ answer plans
      → Passed limit plans
  unfolding limited exchange
  limited-Passed true text limit p h = cc
  limited-Passed false text limit p h =
      accept-Passed text limit (transport.exchange text p.transport).0 h

  prepare_request_lem :
      (base : Snapshot) (prompt : String) (limit : ℕ) {text : String}
      → prepare_request encoding transport budget base prompt limit ≡ answer text
      → limit ≤ budget.max_candidates
  unfolding prepare_request
  prepare_request_lem base prompt limit h =
      let (y, _) = then_answer (leb 1 limit && leb limit budget.max_candidates) _ _ h in
      ground (arith, y)

  -- A request that can be sent asks for no more plans than the budget allows.
  call-Passed :
      (base : Snapshot) (prompt : String) (limit : ℕ) (request : Answer String) (p : Provider T)
      {plans : Items}
      → request ≡ prepare_request encoding transport budget base prompt limit
      → (call encoding transport budget limit request p).0 ≡ answer plans
      → (limit ≤ budget.max_candidates) × Passed limit plans
  unfolding call
  call-Passed base prompt limit (failure code) p e h = cc
  call-Passed base prompt limit (answer text) p e h = (
    prepare_request_lem base prompt limit (sym e),
    limited-Passed (leb budget.max_calls p.calls) text limit p h,
  )

  acquire-Passed :
      (held : Bool) (base : Snapshot) (prompt : String) (limit : ℕ) (p : Provider T) {plans : Items}
      → (acquire encoding transport budget held base prompt limit p).0 ≡ answer plans
      → (limit ≤ budget.max_candidates) × Passed limit plans
  unfolding acquire release_lock
  acquire-Passed true base prompt limit p h = cc
  acquire-Passed false base prompt limit p h =
      call-Passed base prompt limit (prepare_request encoding transport budget base prompt limit)
        (record p { locked = true }) refl h

  -- If a proposal is answered with plans, then the limit that was asked for is within the budget's
  -- candidates, there are no more plans than that, and each is a valid plan with no more patches than
  -- the budget allows and an id that no other of them has.
  pub propose-ArePlans :
      (base : Snapshot) (prompt : String) (limit : ℕ) (p : Provider T) (plans : Items)
      → (propose encoding transport budget base prompt limit p).0 ≡ answer plans
      → (limit ≤ budget.max_candidates)
        × (item_count plans ≤ limit)
        × ArePlans budget.max_patches [] plans
  unfolding propose
  propose-ArePlans base prompt limit p plans h =
      let (few, (count, ok_plans)) = acquire-Passed p.locked base prompt limit p h in
      (few, count, ok_plans)
