-- ===== src/Base/Reads.antt =====
-- The rows of a table, and what a statement that reads keeps of them.
use mathlib.Core.Path.{◌≡◌, refl, sym, ap, subst}
use mathlib.Core.Bool.{Bool, true, false}
use mathlib.Core.Option.{some}
use mathlib.Core.List.{List, [], ◌∷◌}
use mathlib.Core.Logic.{inl, inr}
use native.Mathlib.Omega.{arith}
use social_promotion_automat.Base.Tests.{Bool-cases}
use social_promotion_automat.Base.Table.{Member, find, select, any}
use social_promotion_automat.Base.Order.{insert_by, order_by}

module _ {A : Type 0} where
  pub Member-find : (p : A → Bool) (x : A) (xs : List A) → find p xs ≡ some x → Member x xs
  unfolding find
  Member-find p x [] h = absurd (ground arith)
  Member-find p x (y ∷ ys) h = elim (Bool-cases (p y)) [
    | inl here ↦ inl (ground arith)
    | inr later ↦ inr (Member-find p x ys (ground arith))
  ]

  pub Member-select :
      (p : A → Bool) (x : A) (xs : List A) → p x ≡ true → Member x xs → Member x (select p xs)
  unfolding select
  Member-select p x [] h m = elim m [ ]
  Member-select p x (y ∷ ys) h m = elim (Bool-cases (p y)) [
    | inl kept ↦
        rw kept (elim m [ inl here ↦ inl here | inr later ↦ inr (Member-select p x ys h later) ])
    | inr dropped ↦ rw dropped (elim m [
      | inl here ↦ absurd (cc (h, ap p here, dropped))
      | inr later ↦ Member-select p x ys h later
    ])
  ]

  module _ (before : A → A → Bool) where
    Member-insert_by :
        (x y : A) (ys : List A) → Member x (y ∷ ys) → Member x (insert_by before y ys)
    unfolding insert_by
    Member-insert_by x y [] m = m
    Member-insert_by x y (z ∷ zs) m = elim (Bool-cases (before y z)) [
      | inl first ↦ rw first m
      | inr later ↦ rw later (elim m [
        | inl here ↦ inr (Member-insert_by x y zs (inl here))
        | inr rest ↦ elim rest [
          | inl next ↦ inl next
          | inr more ↦ inr (Member-insert_by x y zs (inr more))
        ]
      ])
    ]

    pub Member-order_by : (x : A) (xs : List A) → Member x xs → Member x (order_by before xs)
    unfolding order_by
    Member-order_by x [] m = elim m [ ]
    Member-order_by x (y ∷ ys) (inl here) = Member-insert_by x y (order_by before ys) (inl here)
    Member-order_by x (y ∷ ys) (inr later) =
        Member-insert_by x y (order_by before ys) (inr (Member-order_by x ys later))

module _ {A : Type 0} where
  pub Member-any :
      (p : A → Bool) (xs : List A) → any p xs ≡ true → (x : A) × Member x xs × (p x ≡ true)
  unfolding any
  Member-any p [] h = absurd (ground arith)
  Member-any p (x ∷ xs) h = elim (Bool-cases (p x)) [
    | inl here ↦ (x, inl refl, here)
    | inr later ↦ let (y, there, holds) = Member-any p xs (ground arith) in (y, inr there, holds)
  ]

  pub any-Member : (p : A → Bool) (x : A) (xs : List A) → Member x xs → p x ≡ true → any p xs ≡ true
  unfolding any
  any-Member p x [] m h = elim m [ ]
  any-Member p x (y ∷ ys) (inl e) h = ground (arith, subst (λ z. p z ≡ true) (sym e) h)
  any-Member p x (y ∷ ys) (inr m) h = ground (arith, any-Member p x ys m h)

  pub any-false :
      (p : A → Bool) (x : A) (xs : List A) → any p xs ≡ false → Member x xs → p x ≡ false
  unfolding any
  any-false p x [] h m = elim m [ ]
  any-false p x (y ∷ ys) h (inl here) = subst (λ z. p z ≡ false) here (ground arith)
  any-false p x (y ∷ ys) h (inr later) = any-false p x ys (ground arith) later
