-- ===== src/Result.antt =====
-- Results of code that may throw. `raised` carries the exception.
use social_promotion_automat.Base.{String, Bool, true, false, ◌≡◌, refl, some}

-- The exceptions that the modelled code throws, by the text that tells them apart.
pub data Error : Type 0 where
  bad_request conflict not_found unauthorized forbidden unavailable type_error range_error
        not_implemented failed :
      String → Error

pub data Result {ℓ} (A : Type ℓ) : Type ℓ where
  ok : A → Result A
  raised : Error → Result A

infixl 5 ◌>>=◌ ◌>>◌
abbrev pub ◌>>=◌ {ℓ κ} : {A : Type ℓ} {B : Type κ} → Result A → (A → Result B) → Result B
ok a >>= f = f a
raised e >>= f = raised e

abbrev pub ◌>>◌ {ℓ κ} : {A : Type ℓ} {B : Type κ} → Result A → Result B → Result B
m >> k = m >>= λ _. k

-- `if (b) throw e;`
abbrev pub raise_if : Bool → Error → Result (Unit {0})
raise_if true e = raised e
raise_if false e = ok tt

pub ok-injective {ℓ} : {A : Type ℓ} {a b : A} → ok a ≡ ok b → a ≡ b
ok-injective e = cc

pub some_inj {ℓ} : {A : Type ℓ} {a b : A} → some a ≡ some b → a ≡ b
some_inj e = cc

-- What a chain that came through has passed.
pub bind_ok {ℓ κ} :
    {A : Type ℓ} {B : Type κ} (m : Result A) (f : A → Result B) (b : B)
    → (m >>= f) ≡ ok b
    → (a : A) × (m ≡ ok a) × (f a ≡ ok b)
bind_ok (ok a) f b h = (a, refl, h)
bind_ok (raised e) f b h = absurd (raised-ne-ok e b h)
  where
    raised-ne-ok : {B : Type κ} (e : Error) (b : B) → ◌≡◌ {A = Result B} (raised e) (ok b) → ⊥
    raised-ne-ok e b h = cc

pub raise_if_ok : (b : Bool) (e : Error) (u : Unit {0}) → raise_if b e ≡ ok u → b ≡ false
raise_if_ok false e u h = refl
raise_if_ok true e u h = absurd (raised-ne-ok h)
  where
    raised-ne-ok : ◌≡◌ {A = Result (Unit {0})} (raised e) (ok u) → ⊥
    raised-ne-ok h = cc
