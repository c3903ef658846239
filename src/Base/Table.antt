-- ===== src/Base/Table.antt =====
-- Tables as lists of rows: the `UPDATE ... WHERE ... RETURNING`, `INSERT` and `SELECT` statements
-- that the repositories use.
use Prim.Native.Nat.{ℕ, zero, suc, ◌≤◌}
use mathlib.Core.Path.{◌≡◌, refl, ap, subst}
use mathlib.Core.Bool.{Bool, true, false, ◌&&◌, ◌||◌}
use mathlib.Core.Option
use mathlib.Core.Option.{Option, none, some}
use mathlib.Core.List.{map, List, [], ◌∷◌, ◌++◌}
use mathlib.Core.Logic.{◌⊎◌, inl, inr}
use native.Mathlib.Omega.{arith}
use social_promotion_automat.Base.Tests.{if◌then◌else◌}

module _ {ℓ} {A : Type ℓ} where
  abbrev pub length : List A → ℕ
  length [] = 0
  length (x ∷ xs) = suc (length xs)

  abbrev pub get_elem? : List A → ℕ → Option A
  get_elem? [] i = none
  get_elem? (x ∷ xs) zero = some x
  get_elem? (x ∷ xs) (suc i) = get_elem? xs i

  -- the first row that a condition selects
  unfoldable pub find : (A → Bool) → List A → Option A
  find p [] = none
  find p (x ∷ xs) = if p x then some x else find p xs

  -- `UPDATE t SET f WHERE p`
  unfoldable pub update : (A → Bool) → (A → A) → List A → List A
  update p f [] = []
  update p f (x ∷ xs) = (if p x then f x else x) ∷ update p f xs

  -- `SELECT * FROM t WHERE p`
  unfoldable pub select : (A → Bool) → List A → List A
  select p [] = []
  select p (x ∷ xs) = if p x then x ∷ select p xs else select p xs

  -- `[...].some(p)` and `[...].every(p)`
  unfoldable pub any : (A → Bool) → List A → Bool
  any p [] = false
  any p (x ∷ xs) = p x || any p xs

  unfoldable pub all : (A → Bool) → List A → Bool
  all p [] = true
  all p (x ∷ xs) = p x && all p xs

  -- a predicate of every row
  abbrev pub All {κ} : (A → Type κ) → List A → Type κ
  All P [] = Unit
  All P (x ∷ xs) = P x × All P xs

module _ {ℓ} {A : Type ℓ} where
  -- the row that `UPDATE` returns, where the condition selects at most one
  abbrev pub returning : (A → Bool) → (A → A) → List A → Option A
  returning p f xs = Option.map f (find p xs)

  abbrev pub apply_if : (A → Bool) → (A → A) → A → A
  apply_if p f x = if p x then f x else x

  -- A read after an update, where the update does not move rows across the read's condition.
  pub find-update :
      (q p : A → Bool) (f : A → A) (xs : List A)
      → ((x : A) → p x ≡ true → q (f x) ≡ q x)
      → find q (update p f xs) ≡ Option.map (apply_if p f) (find q xs)
  unfolding find update
  find-update q p f [] keep = refl
  find-update q p f (x ∷ xs) keep = ground (arith, keep x, find-update q p f xs keep)

  pub find_holds : (p : A → Bool) (xs : List A) (x : A) → find p xs ≡ some x → p x ≡ true
  unfolding find
  find_holds p [] x h = ground arith
  find_holds p (y ∷ xs) x h = ground (arith, find_holds p xs x)

  pub length-update : (p : A → Bool) (f : A → A) (xs : List A) → length (update p f xs) ≡ length xs
  unfolding update
  length-update p f [] = refl
  length-update p f (x ∷ xs) = ground (arith, length-update p f xs)

  pub length-select : (p : A → Bool) (xs : List A) → length (select p xs) ≤ length xs
  unfolding select
  length-select p [] = omega arith
  length-select p (x ∷ xs) = ground (arith, length-select p xs)

  pub All-update {κ} :
      (P : A → Type κ) (p : A → Bool) (f : A → A) (xs : List A)
      → ((x : A) → p x ≡ true → P x → P (f x))
      → All P xs
      → All P (update p f xs)
  unfolding update
  All-update P p f [] keep h = tt
  All-update P p f (x ∷ xs) keep h = (head (p x) (keep x), All-update P p f xs keep h.1)
    where
      head : (b : Bool) → (b ≡ true → P x → P (f x)) → P (if b then f x else x)
      head true k = k refl h.0
      head false k = h.0

  pub All-append {κ} : (P : A → Type κ) (xs ys : List A) → All P xs → All P ys → All P (xs ++ ys)
  All-append P [] ys hx hy = hy
  All-append P (x ∷ xs) ys hx hy = (hx.0, All-append P xs ys hx.1 hy)

module _ {A : Type 0} where
  -- a row of a table
  abbrev pub Member : A → List A → Type 0
  Member x [] = ⊥
  Member x (y ∷ ys) = (y ≡ x) ⊎ Member x ys

  pub All-intro {κ} : (P : A → Type κ) (xs : List A) → ((x : A) → Member x xs → P x) → All P xs
  All-intro P [] h = tt
  All-intro P (x ∷ xs) h = (h x (inl refl), All-intro P xs (λ y m. h y (inr m)))

  pub All-weaken {κ ι} :
      (P : A → Type κ) (Q : A → Type ι) (xs : List A) → ((x : A) → P x → Q x) → All P xs → All Q xs
  All-weaken P Q [] w h = tt
  All-weaken P Q (x ∷ xs) w h = (w x h.0, All-weaken P Q xs w h.1)

  pub All-member {κ} : (P : A → Type κ) (x : A) (xs : List A) → All P xs → Member x xs → P x
  All-member P x [] h m = elim m [ ]
  All-member P x (y ∷ ys) h (inl e) = subst P e h.0
  All-member P x (y ∷ ys) h (inr m) = All-member P x ys h.1 m

  -- the rows that a condition selects meet it
  pub All-select {κ} :
      (P : A → Type κ) (p : A → Bool) (xs : List A)
      → All P xs
      → All (λ x. P x × (p x ≡ true)) (select p xs)
  unfolding select
  All-select P p [] h = tt
  All-select P p (x ∷ xs) h = go (p x) refl (All-select P p xs h.1)
    where
      go :
          (b : Bool)
          → p x ≡ b
          → All (λ x. P x × (p x ≡ true)) (select p xs)
          → All (λ x. P x × (p x ≡ true)) (if b then x ∷ select p xs else select p xs)
      go true e r = ((h.0, e), r)
      go false e r = r

pub length-map {ℓ κ} :
    {A : Type ℓ} {B : Type κ} (f : A → B) (xs : List A) → length (map f xs) ≡ length xs
length-map f [] = refl
length-map f (x ∷ xs) = ap suc (length-map f xs)
