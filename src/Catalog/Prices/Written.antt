-- ===== src/Catalog/Prices/Written.antt =====
-- The UPDATE statements of a commit, and the comparison with the simulation.
use project_f.Base.{
  ℕ, String, ◌≡◌, ◌∙◌, refl, inl, inr, true, some, List, [], ◌∷◌, map, arith, Option-cases, ==_refl,
}
use project_f.Base.Int.{pos, int_eq_refl}
use project_f.Base.Result.{ok}
use project_f.Json.{Items, Fields}
use project_f.Catalog.Plan.{IsPatch, Reads, no_more, one_more}
use project_f.Catalog.Target.{CatalogRow, Target, Connection, row_fields, set_price}
use project_f.Catalog.Target.Rules.{>>=-eq_of_ok}
use project_f.Catalog.Commit.{update_price, update_prices, bind_price, dict_eq, rows_eq}
use project_f.Catalog.Prices.{
  IsOrdered, set_prices, known, all_known, count_id-known, set_price-IsOrdered, all_known-set_price,
}

abbrev pub writing : Target → Target → Connection
writing d t = record { durable = d; pending = some t }

bind_price-IsPatch :
    (d : Fields) (k : String) (n : ℕ) → IsPatch d k n → bind_price d ≡ ok (k, pos n)
bind_price-IsPatch d k n (inl e) = rw e
bind_price-IsPatch d k n (inr e) = rw e

update_price-known :
    (d t : Target) (k : String) (n : ℕ) (patch : Fields)
    → IsPatch patch k n
    → IsOrdered t.rows
    → known k t.rows ≡ true
    → update_price patch (writing d t)
      ≡ (ok tt, writing d (record t { rows = set_price k (pos n) t.rows }))
unfolding update_price
update_price-known d t k n patch h ordered there =
    rw (bind_price-IsPatch patch k n h) (rw (count_id-known k t.rows ordered, there) refl)

-- The UPDATEs of a valid plan whose rows are all there write what it specifies, and none of them
-- misses its row.
pub update_prices-Reads :
    {seen : List String} {items : Items} {ps : List (String × ℕ)} (d t : Target)
    → Reads seen items ps
    → IsOrdered t.rows
    → all_known ps t.rows ≡ true
    → update_prices items (writing d t)
      ≡ (ok tt, writing d (record t { rows = set_prices ps t.rows }))
unfolding update_prices
update_prices-Reads d t no_more ordered there = refl
update_prices-Reads d t
      (one_more {d = patch} {row_id = k} {price = n} {rest = rest} {ps = ps} h _ _ _ reads) ordered
      there =
    let t' : Target = record t { rows = set_price k (pos n) t.rows } in
    >>=-eq_of_ok (update_price patch) (λ _. update_prices rest) (writing d t)
      (update_price-known d t k n patch h ordered (ground arith))
    ∙ update_prices-Reads d t' reads (set_price-IsOrdered k (pos n) t.rows ordered)
        (all_known-set_price ps k (pos n) t.rows ∙ ground arith)

dict_eq-row_fields : (r : CatalogRow) → dict_eq (row_fields r) (row_fields r) ≡ true
dict_eq-row_fields r = elim (Option-cases r.unit_price_cents) [
  | inl e ↦ ground (arith, ==_refl r.id, ==_refl r.title)
  | inr (z, e) ↦ ground (arith, ==_refl r.id, ==_refl r.title, int_eq_refl z)
]

pub rows_eq_refl :
    (rows : List CatalogRow) → rows_eq (map row_fields rows) (map row_fields rows) ≡ true
rows_eq_refl [] = refl
rows_eq_refl (r ∷ rs) = rw (dict_eq-row_fields r, rows_eq_refl rs)
