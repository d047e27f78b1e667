-- ===== src/Prelude/Sort/Laws.antt =====
-- The rows of a sorted list, and their order.
use air_store.Prelude.Tests.{Bool-cases}
use air_store.Prelude.Lists.{All, Elem, length}
use air_store.Prelude.Sort.{insert_sorted, order_by}
use Prim.Native.Nat.{suc}
use mathlib.Core.Path.{◌≡◌, refl, ap, ◌∙◌}
use mathlib.Core.Logic.{inl, inr}
use mathlib.Core.Bool.{Bool, true, false}
use mathlib.Core.List.{List, [], ◌∷◌}
use native.Mathlib.Omega.{arith}

module _ {A : Type 0} (before : A → A → Bool) where
  length-insert_sorted :
      (x : A) (ys : List A) → length (insert_sorted before x ys) ≡ suc (length ys)
  unfolding insert_sorted
  length-insert_sorted x [] = refl
  length-insert_sorted x (y ∷ ys) = ground (arith, length-insert_sorted x ys)

  pub length-order_by : (xs : List A) → length (order_by before xs) ≡ length xs
  unfolding order_by
  length-order_by [] = refl
  length-order_by (x ∷ xs) =
      length-insert_sorted x (order_by before xs) ∙ ap suc (length-order_by xs)

  module _ (P : A → Type 0) where
    All-insert_sorted : (x : A) (ys : List A) → P x → All P ys → All P (insert_sorted before x ys)
    unfolding insert_sorted
    All-insert_sorted x [] p h = (p, tt)
    All-insert_sorted x (y ∷ ys) p h = elim (Bool-cases (before y x)) [
      | inl e ↦ rw e (h.0, All-insert_sorted x ys p h.1)
      | inr e ↦ rw e (p, h)
    ]

    pub All-order_by : (xs : List A) → All P xs → All P (order_by before xs)
    unfolding order_by
    All-order_by [] h = tt
    All-order_by (x ∷ xs) h = All-insert_sorted x (order_by before xs) h.0 (All-order_by xs h.1)

  Elem-insert_sorted :
      (a x : A) (ys : List A) → Elem a (x ∷ ys) → Elem a (insert_sorted before x ys)
  unfolding insert_sorted
  Elem-insert_sorted a x [] e = e
  Elem-insert_sorted a x (y ∷ ys) e = elim (Bool-cases (before y x)) [
    | inl t ↦ rw t (elim e [
      | inl p ↦ inr (Elem-insert_sorted a x ys (inl p))
      | inr (inl q) ↦ inl q
      | inr (inr r) ↦ inr (Elem-insert_sorted a x ys (inr r))
    ])
    | inr t ↦ rw t e
  ]

  pub Elem-order_by : (a : A) (xs : List A) → Elem a xs → Elem a (order_by before xs)
  unfolding order_by
  Elem-order_by a [] e = e
  Elem-order_by a (x ∷ xs) (inl e) = Elem-insert_sorted a x (order_by before xs) (inl e)
  Elem-order_by a (x ∷ xs) (inr e) =
      Elem-insert_sorted a x (order_by before xs) (inr (Elem-order_by a xs e))

  -- No row stands behind one that it must precede.
  abbrev pub IsOrdered : List A → Type 0
  IsOrdered [] = Unit
  IsOrdered (x ∷ xs) = All (λ y. before y x ≡ false) xs × IsOrdered xs

  insert_sorted_first :
      (x : A) (ys : List A) → All (λ y. before y x ≡ false) ys → insert_sorted before x ys ≡ x ∷ ys
  unfolding insert_sorted
  insert_sorted_first x [] h = refl
  insert_sorted_first x (y ∷ ys) h = ground (arith, h.0)

  -- What is in order stays as it is.
  pub order_by-eq_self : (xs : List A) → IsOrdered xs → order_by before xs ≡ xs
  unfolding order_by
  order_by-eq_self [] h = refl
  order_by-eq_self (x ∷ xs) h = rw (order_by-eq_self xs h.1) (insert_sorted_first x xs h.0)

  module _ (asym : (x y : A) → before x y ≡ true → before y x ≡ false)
      (trans : (x y z : A) → before y x ≡ false → before z y ≡ false → before z x ≡ false) where
    weaken :
        (x y : A) (zs : List A)
        → before y x ≡ false
        → All (λ z. before z y ≡ false) zs
        → All (λ z. before z x ≡ false) zs
    weaken x y [] e h = tt
    weaken x y (z ∷ zs) e h = (trans x y z e h.0, weaken x y zs e h.1)

    insert_sorted-IsOrdered :
        (x : A) (ys : List A) → IsOrdered ys → IsOrdered (insert_sorted before x ys)
    unfolding insert_sorted
    insert_sorted-IsOrdered x [] h = (tt, tt)
    insert_sorted-IsOrdered x (y ∷ ys) h = elim (Bool-cases (before y x)) [
      | inl e ↦ rw e (
        All-insert_sorted (λ z. before z y ≡ false) x ys (asym y x e) h.0,
        insert_sorted-IsOrdered x ys h.1,
      )
      | inr e ↦ rw e ((e, weaken x y ys e h.0), h)
    ]

    pub order_by-IsOrdered : (xs : List A) → IsOrdered (order_by before xs)
    unfolding order_by
    order_by-IsOrdered [] = tt
    order_by-IsOrdered (x ∷ xs) =
        insert_sorted-IsOrdered x (order_by before xs) (order_by-IsOrdered xs)
