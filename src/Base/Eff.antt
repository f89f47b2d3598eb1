-- ===== src/Base/Eff.antt =====
-- Code that changes a state and may fail: what was changed before a failure stays changed.
use mathlib.Core.Path.{◌≡◌, refl}
use wg_kotlin.Base.Outcome.{Result, ok, err, map_err}

abbrev pub Eff : Type 0 → Type 0 → Type 0 → Type 0
Eff S E A = S → Result E A × S

module _ {S E A B : Type 0} where
  abbrev pub continue : Result E A × S → (A → Eff S E B) → Result E B × S
  continue (ok a, s) f = f a s
  continue (err e, s) f = (err e, s)

  infixl 5 ◌>>=◌ ◌>>◌
  abbrev pub ◌>>=◌ : Eff S E A → (A → Eff S E B) → Eff S E B
  ◌>>=◌ m f s = continue (m s) f

  abbrev pub ◌>>◌ : Eff S E A → Eff S E B → Eff S E B
  ◌>>◌ m k s = continue (m s) (λ _. k)

module _ {S E A : Type 0} where
  abbrev pub pure : A → Eff S E A
  pure a s = (ok a, s)

  abbrev pub fail : E → Eff S E A
  fail e s = (err e, s)

  abbrev pub lift : Result E A → Eff S E A
  lift r s = (r, s)

  -- `let _ = m;`: the outcome is dropped and the state kept.
  abbrev pub ignore : {F : Type 0} → Eff S E A → Eff S F (Unit {0})
  ignore m s = (ok tt, (m s).1)

  abbrev pub map_fail : {F : Type 0} → (E → F) → Eff S E A → Eff S F A
  map_fail g m s = let (r, s') = m s in (map_err g r, s')

  -- A block that is run for its outcome, `(|| { … })()`.
  abbrev pub attempt : {F : Type 0} → Eff S E A → Eff S F (Result E A)
  attempt m s = let (r, s') = m s in (ok r, s')

module _ {S E A : Type 0} where
  -- A run that succeeds takes apart into its first step and the rest.
  pub continued :
      {B : Type 0} (p : Result E A × S) {f : A → Eff S E B} {b : B} {s' : S}
      → continue p f ≡ (ok b, s')
      → (a : A) × (s : S) × (p ≡ (ok a, s)) × (f a s ≡ (ok b, s'))
  continued (ok a, s) h = (a, s, refl, h)
  continued (err e, s) h = cc

  pub continued_lift :
      {B : Type 0} (r : Result E A) (s : S) (f : A → Eff S E B) {b : B} {s' : S}
      → continue (r, s) f ≡ (ok b, s')
      → (a : A) × (r ≡ ok a) × (f a s ≡ (ok b, s'))
  continued_lift (ok a) s f h = (a, refl, h)
  continued_lift (err e) s f h = cc

  pub map_fail_ok :
      {F : Type 0} (g : F → E) (m : Eff S F A) (s : S) {a : A} {s' : S}
      → map_fail g m s ≡ (ok a, s')
      → m s ≡ (ok a, s')
  map_fail_ok {F = F} g m s {a = a} {s' = s'} h = go (m s) h
    where
      go :
          (p : Result F A × S)
          → ◌≡◌ {A = Result E A × S} (map_err g p.0, p.1) (ok a, s')
          → p ≡ (ok a, s')
      go (ok x, t) h = cc
      go (err e, t) h = cc
