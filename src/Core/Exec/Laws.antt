-- ===== src/Core/Exec/Laws.antt =====
-- Taking a chain of actions apart.
use air_store.Prelude.{◌≡◌, refl, ◌⊎◌, inl, inr, arith}
use air_store.Core.Exec.{Error, Result, ok, err, Exec, ◌>>=◌, ◌>>◌}

-- A chain that returns has gone through each of its actions.
pub >>=-eq-ok :
    {S A B : Type 0} (m : Exec S A) (f : A → Exec S B) (s : S) {b : B} {u : S}
    → (m >>= f) s ≡ (ok b, u)
    → (a : A) × (t : S) × (m s ≡ (ok a, t)) × (f a t ≡ (ok b, u))
>>=-eq-ok {S} {A} {B} m f s {b} {u} h = go (m s).0 (m s).1 refl refl
  where
    go :
        (r : Result A) (t : S)
        → r ≡ (m s).0
        → t ≡ (m s).1
        → (a : A) × (t' : S) × (m s ≡ (ok a, t')) × (f a t' ≡ (ok b, u))
    go (ok a) t e k = (a, t, ground arith, ground arith)
    go (err x) t e k = absurd (ground arith)

-- So its last action returns from the state that the first one left.
pub >>-eq-ok :
    {S A B : Type 0} (m : Exec S A) (f : Exec S B) (s : S) {b : B} {u : S}
    → (m >> f) s ≡ (ok b, u)
    → f (m s).1 ≡ (ok b, u)
>>-eq-ok m f s h = let (a, t, e, k) = >>=-eq-ok m (λ x. f) s h in rw e k

-- Behind an action that returns, a chain is what stands behind it.
pub >>-after :
    {S A B : Type 0} (m : Exec S A) (f : Exec S B) (s : S) {a : A}
    → (m s).0 ≡ ok a
    → (m >> f) s ≡ f (m s).1
>>-after m f s h = ground (arith, h)

pub Result-cases :
    {A : Type 0} (r : Result A) → ((a : A) × (r ≡ ok a)) ⊎ ((e : Error) × (r ≡ err e))
Result-cases (ok a) = inl (a, refl)
Result-cases (err e) = inr (e, refl)
