-- ===== src/Adapters/Laws.antt =====
-- How a chain of calls of an adapter is taken apart.
use social_promotion_automat.Base.{
  String, true, Option, some, truthy, arith, ◌≡◌, refl, ◌⊎◌, inl, inr,
}
use social_promotion_automat.Retry.{Thrown}
use social_promotion_automat.Publishing.{Attempt, returned, threw}
use social_promotion_automat.Adapters.{Json, string_of, Act, lift, and_then, ◌>>=◌}

pub Attempt-cases :
    {A : Type 0} (a : Attempt A) → ((e : Thrown) × (a ≡ threw e)) ⊎ ((v : A) × (a ≡ returned v))
Attempt-cases (threw e) = inl (e, refl)
Attempt-cases (returned v) = inr (v, refl)

pub returned_injective : {A : Type 0} {a b : A} → returned a ≡ returned b → a ≡ b
returned_injective h = cc

pub string_of-truthy : (v : Option Json) (s : String) → string_of v ≡ some s → truthy s ≡ true
unfolding string_of
string_of-truthy v s h = ground arith

pub and_then-returned :
    {A B : Type 0} (m : Attempt A) (f : A → Attempt B) (b : B)
    → and_then m f ≡ returned b
    → (a : A) × (m ≡ returned a) × (f a ≡ returned b)
and_then-returned (returned a) f b h = (a, refl, h)
and_then-returned (threw e) f b h = cc

-- What a chain that came through has passed, and the state that it leaves.
pub bind_returned :
    {S A B : Type 0} (m : Act S A) (f : A → Act S B) (s : S) (b : B)
    → ((m >>= f) s).0 ≡ returned b
    → (a : A) × ((m s).0 ≡ returned a)
      × ((f a (m s).1).0 ≡ returned b)
      × (((m >>= f) s).1 ≡ (f a (m s).1).1)
unfolding ◌>>=◌
bind_returned {S} {A} {B} m f s b h = go (m s).0 (m s).1 h
  where
    go :
        (r : Attempt A) (t : S)
        → (elim r as (λ x. Attempt B × S) [ returned a ↦ f a t | threw e ↦ (threw e, t) ]).0
          ≡ returned b
        → (a : A) × (r ≡ returned a)
          × ((f a t).0 ≡ returned b)
          × ((elim r as (λ x. Attempt B × S) [ returned a ↦ f a t | threw e ↦ (threw e, t) ]).1
              ≡ (f a t).1)
    go (returned a) t h = (a, refl, h, refl)
    go (threw e) t h = absurd (cc h)

-- A relation between the state before and after, that each part of a chain keeps to.
module _ {S : Type 0} (R : S → S → Type 0) (id : (s : S) → R s s)
    (trans : (s t u : S) → R s t → R t u → R s u) where
  pub record Keeps {A : Type 0} (m : Act S A) : Type 0 where
    pub along : (s : S) → R s (m s).1

  pub Keeps-lift : {A : Type 0} {a : Attempt A} → Keeps (lift a)
  Keeps-lift = record { along = λ s. id s }

  -- A look at the state.
  pub Keeps-read : {A : Type 0} {f : S → Attempt A} → Keeps (λ s. (f s, s))
  Keeps-read = record { along = λ s. id s }

  after :
      {A B : Type 0} (f : A → Act S B)
      → ((a : A) → Keeps (f a))
      → (s t : S) (r : Attempt A) → R s t
      → R s (elim r as (λ x. Attempt B × S) [ returned a ↦ f a t | threw e ↦ (threw e, t) ]).1
  after f k s t (returned a) h = trans s t (f a t).1 h ((k a).along t)
  after f k s t (threw e) h = h

  pub Keeps-bind :
      {A B : Type 0} {m : Act S A} {f : A → Act S B}
      → Keeps m
      → ((a : A) → Keeps (f a))
      → Keeps (m >>= f)
  unfolding ◌>>=◌
  Keeps-bind {m} {f} hm hf = record { along = λ s. after f hf s (m s).1 (m s).0 (hm.along s) }
