-- ===== src/Proposal/Limits.antt =====
-- foresee/model_provider.py: a provider uses its transport no more often than its budget says.
use project_f.Base.{
  ℕ, ◌+◌, ◌≤◌, leb, String, ◌≡◌, refl, Bool, true, false, List, [], ◌∷◌, inl, inr, Bool-cases,
  arith,
}
use project_f.Catalog.Snapshot.{Snapshot}
use project_f.Proposal.{Answer, failure, answer, Budget}
use project_f.Proposal.Bounded.{
  Transport, Encoding, Provider, prepare_request, exchange, limited, call, release_lock, acquire,
  propose,
}

-- The transport, and the number of its exchanges.
abbrev pub counted : {T : Type 0} → Transport T → Transport (T × ℕ)
counted transport = record {
  exchange =
      λ request (t, n). let (reply, t') = transport.exchange request t in (reply, (t', n + 1));
}

module _ {T : Type 0} (encoding : Encoding) (transport : Transport T) (budget : Budget) where
  -- One proposal after another, whatever they give.
  unfoldable pub propose_all : List (Snapshot × (String × ℕ)) → Provider (T × ℕ) → Provider (T × ℕ)
  propose_all [] p = p
  propose_all ((base, (prompt, limit)) ∷ requests) p =
      propose_all requests (propose encoding (counted transport) budget base prompt limit p).1

  -- The calls are those of the transport, within the budget.
  abbrev Within : Provider (T × ℕ) → Type 0
  Within p = (p.transport.1 ≡ p.calls) × (p.calls ≤ budget.max_calls)

  call-Within :
      (limit : ℕ) (request : Answer String) (p : Provider (T × ℕ))
      → Within p
      → Within (call encoding (counted transport) budget limit request p).1
  unfolding call limited exchange
  call-Within limit (failure code) p w = w
  call-Within limit (answer request) p w = elim (Bool-cases (leb budget.max_calls p.calls)) [
    | inl y ↦ rw y w
    | inr n ↦ rw n (omega (arith, w.0), ground (arith, n))
  ]

  acquire-Within :
      (held : Bool) (base : Snapshot) (prompt : String) (limit : ℕ) (p : Provider (T × ℕ))
      → Within p
      → Within (acquire encoding (counted transport) budget held base prompt limit p).1
  unfolding acquire release_lock
  acquire-Within true base prompt limit p w = w
  acquire-Within false base prompt limit p w =
      call-Within limit (prepare_request encoding (counted transport) budget base prompt limit)
        (record p { locked = true }) w

  propose-Within :
      (base : Snapshot) (prompt : String) (limit : ℕ) (p : Provider (T × ℕ))
      → Within p
      → Within (propose encoding (counted transport) budget base prompt limit p).1
  unfolding propose
  propose-Within base prompt limit p w = acquire-Within p.locked base prompt limit p w

  propose_all-Within :
      (requests : List (Snapshot × (String × ℕ))) (p : Provider (T × ℕ))
      → Within p
      → Within (propose_all requests p)
  unfolding propose_all
  propose_all-Within [] p w = w
  propose_all-Within ((base, (prompt, limit)) ∷ requests) p w =
      propose_all-Within requests _ (propose-Within base prompt limit p w)

  -- Over any sequence of proposals to a new provider, with whatever the transport answers, the
  -- transport is used no more often than `max_calls`, and each use is counted as a call.
  pub calls_bound :
      (requests : List (Snapshot × (String × ℕ))) (t : T)
      → let p : Provider (T × ℕ) =
          propose_all requests (record { calls = 0; locked = false; transport = (t, 0) }) in
        (p.transport.1 ≡ p.calls) × (p.calls ≤ budget.max_calls)
  calls_bound requests t = propose_all-Within requests _ (refl, omega arith)
