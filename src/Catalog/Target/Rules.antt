-- ===== src/Catalog/Target/Rules.antt =====
-- Rules for the sequence of two actions on a connection.
use project_f.Base.{◌≡◌, refl, sym, ap}
use mathlib.Core.Path.{subst}
use project_f.Base.Result.{Result, Error, ok, err}
use project_f.Catalog.Target.{Connection, Exec, ◌>>=◌}

module _ {ℓ κ} {A : Type ℓ} {B : Type κ} (m : Exec A) (f : A → Exec B) (c : Connection) where
  pub >>=-eq_of_ok : {a : A} {c' : Connection} → m c ≡ (ok a, c') → (m >>= f) c ≡ f a c'
  >>=-eq_of_ok {a} h = rw (h, ◌>>=◌) (ap (λ (p : Result A × Connection). f a p.1) h)

  pub >>=-eq_of_err : {e : Error} {c' : Connection} → m c ≡ (err e, c') → (m >>= f) c ≡ (err e, c')
  >>=-eq_of_err {e} h =
      rw (h, ◌>>=◌) (ap {B = Result B × Connection} (λ (p : Result A × Connection). (err e, p.1)) h)

  -- What holds of every way on holds of the sequence.
  pub >>=-holds {ℓ'} :
      (P : Result B × Connection → Type ℓ')
      → ((a : A) → (m c).0 ≡ ok a → P (f a (m c).1))
      → ((e : Error) → (m c).0 ≡ err e → P (err e, (m c).1))
      → P ((m >>= f) c)
  >>=-holds P on_ok on_err = go (m c).0 refl
    where
      go :
          (r : Result A)
          → (m c).0 ≡ r
          → P (elim r [ ok a ↦ f a (m c).1 | err e ↦ (err e, (m c).1) ])
      go (ok a) h = on_ok a h
      go (err e) h = on_err e h

  pub >>=-holds_of_ok {ℓ'} :
      (P : Result B × Connection → Type ℓ') {a : A} {c' : Connection}
      → m c ≡ (ok a, c')
      → P (f a c')
      → P ((m >>= f) c)
  >>=-holds_of_ok P h p = subst P (sym (>>=-eq_of_ok h)) p

  pub >>=-holds_of_err {ℓ'} :
      (P : Result B × Connection → Type ℓ') {e : Error} {c' : Connection}
      → m c ≡ (err e, c')
      → P (err e, c')
      → P ((m >>= f) c)
  >>=-holds_of_err P h p = subst P (sym (>>=-eq_of_err h)) p
