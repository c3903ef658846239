-- ===== src/Base/Sorted.antt =====
-- `ORDER BY` gives an ordered list, and commutes with `WHERE`.
use mathlib.Core.Path.{◌≡◌, refl, ◌∙◌}
use mathlib.Core.Bool.{Bool, true, false}
use mathlib.Core.List.{List, [], ◌∷◌}
use native.Mathlib.Omega.{arith}
use social_promotion_automat.Base.Tests.{if◌then◌else◌}
use social_promotion_automat.Base.Table.{All, All-select, All-weaken, select}
use social_promotion_automat.Base.Order.{insert_by, order_by, All-insert_by, All-order_by}

module _ {A : Type 0} where
  -- a relation between each element and all later ones
  abbrev pub Pairwise : (A → A → Type 0) → List A → Type 0
  Pairwise R [] = Unit
  Pairwise R (x ∷ xs) = All (R x) xs × Pairwise R xs

  pub Pairwise-select :
      (R : A → A → Type 0) (p : A → Bool) (xs : List A) → Pairwise R xs → Pairwise R (select p xs)
  unfolding select
  Pairwise-select R p [] h = tt
  Pairwise-select R p (x ∷ xs) h = go (p x) (Pairwise-select R p xs h.1)
    where
      kept : All (R x) (select p xs)
      kept =
          All-weaken (λ y. R x y × (p y ≡ true)) (R x) (select p xs) (λ y r. r.0)
            (All-select (R x) p xs h.0)

      go :
          (b : Bool)
          → Pairwise R (select p xs)
          → Pairwise R (if b then x ∷ select p xs else select p xs)
      go true rest = (kept, rest)
      go false rest = rest

module _ {A : Type 0} (before : A → A → Bool) (R : A → A → Type 0) where
  -- An insertion keeps what holds between any two elements, in either order.
  Pairwise-insert_by :
      (x : A) (xs : List A)
      → ((y z : A) → R y z → R z y)
      → All (R x) xs
      → Pairwise R xs
      → Pairwise R (insert_by before x xs)
  unfolding insert_by
  Pairwise-insert_by x [] flip h r = (tt, tt)
  Pairwise-insert_by x (y ∷ ys) flip h r = go (before x y) (Pairwise-insert_by x ys flip h.1 r.1)
    where
      go :
          (b : Bool)
          → Pairwise R (insert_by before x ys)
          → Pairwise R (if b then x ∷ y ∷ ys else y ∷ insert_by before x ys)
      go true rest = (h, r)
      go false rest = (All-insert_by before (R y) x ys (flip x y h.0) r.0, rest)

  pub Pairwise-order_by :
      (xs : List A) → ((y z : A) → R y z → R z y) → Pairwise R xs → Pairwise R (order_by before xs)
  unfolding order_by
  Pairwise-order_by [] flip r = tt
  Pairwise-order_by (x ∷ xs) flip r =
      Pairwise-insert_by x (order_by before xs) flip (All-order_by before (R x) xs r.0)
        (Pairwise-order_by xs flip r.1)

module _ {A : Type 0} (before : A → A → Bool)
    (total : (x y : A) → before x y ≡ false → before y x ≡ true)
    (trans : (x y z : A) → before x y ≡ true → before y z ≡ true → before x z ≡ true) where
  abbrev IsOrdered : List A → Type 0
  IsOrdered = Pairwise (λ x y. before x y ≡ true)

  insert_by-IsOrdered : (x : A) (xs : List A) → IsOrdered xs → IsOrdered (insert_by before x xs)
  unfolding insert_by
  insert_by-IsOrdered x [] r = (tt, tt)
  insert_by-IsOrdered x (y ∷ ys) r = go (before x y) refl (insert_by-IsOrdered x ys r.1)
    where
      go :
          (b : Bool)
          → before x y ≡ b
          → IsOrdered (insert_by before x ys)
          → IsOrdered (if b then x ∷ y ∷ ys else y ∷ insert_by before x ys)
      go true e rest = (
        (
          e,
          All-weaken (λ z. before y z ≡ true) (λ z. before x z ≡ true) ys (λ z h. trans x y z e h)
              r.0,
        ),
        r,
      )
      go false e rest = (All-insert_by before (λ z. before y z ≡ true) x ys (total x y e) r.0, rest)

  pub order_by-IsOrdered : (xs : List A) → IsOrdered (order_by before xs)
  unfolding order_by
  order_by-IsOrdered [] = tt
  order_by-IsOrdered (x ∷ xs) = insert_by-IsOrdered x (order_by before xs) (order_by-IsOrdered xs)

  insert_by_first :
      (x : A) (ys : List A) → All (λ z. before x z ≡ true) ys → insert_by before x ys ≡ x ∷ ys
  unfolding insert_by
  insert_by_first x [] h = refl
  insert_by_first x (y ∷ ys) h = rw h.0 refl

  select-insert_by :
      (p : A → Bool) (x : A) (ys : List A)
      → IsOrdered ys
      → select p (insert_by before x ys)
        ≡ (if p x then insert_by before x (select p ys) else select p ys)
  unfolding insert_by select
  select-insert_by p x [] r = refl
  select-insert_by p x (y ∷ ys) r = go (before x y) refl (select-insert_by p x ys r.1)
    where
      kept : before x y ≡ true → All (λ z. before x z ≡ true) (select p (y ∷ ys))
      kept e =
          All-weaken (λ z. (before x z ≡ true) × (p z ≡ true)) (λ z. before x z ≡ true)
            (select p (y ∷ ys)) (λ z h. h.0)
            (All-select (λ z. before x z ≡ true) p (y ∷ ys)
              (
                e,
                All-weaken (λ z. before y z ≡ true) (λ z. before x z ≡ true) ys
                    (λ z h. trans x y z e h) r.0,
              ))

      go :
          (b : Bool)
          → before x y ≡ b
          → select p (insert_by before x ys)
            ≡ (if p x then insert_by before x (select p ys) else select p ys)
          → select p (if b then x ∷ y ∷ ys else y ∷ insert_by before x ys)
            ≡ (if p x then insert_by before x (select p (y ∷ ys)) else select p (y ∷ ys))
      go true e ih = ground (arith, insert_by_first x (select p (y ∷ ys)) (kept e))
      go false e ih = ground (arith, e, ih)

  -- `SELECT ... WHERE p ORDER BY before` may order first.
  pub select-order_by :
      (p : A → Bool) (xs : List A) → select p (order_by before xs) ≡ order_by before (select p xs)
  unfolding order_by select
  select-order_by p [] = refl
  select-order_by p (x ∷ xs) =
      select-insert_by p x (order_by before xs) (order_by-IsOrdered xs)
      ∙ ground (arith, select-order_by p xs)
