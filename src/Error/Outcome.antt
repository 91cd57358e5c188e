-- ===== src/Error/Outcome.antt =====
-- What a call of the program ends in: a value, a `DbError`, or a panic.
use smol_db.Common.{Option, none, some}
use smol_db.Error.{DbError}

pub data Outcome {ℓ} (A : Type ℓ) : Type ℓ where
  ok : A → Outcome A
  err : DbError → Outcome A
  panic : Outcome A

infixl 5 ◌>>=◌
abbrev pub ◌>>=◌ {ℓ κ} : {A : Type ℓ} {B : Type κ} → Outcome A → (A → Outcome B) → Outcome B
ok a >>= f = f a
err e >>= f = err e
panic >>= f = panic

-- `v[i]`: out of range it panics.
abbrev pub or_panic {ℓ} : {A : Type ℓ} → Option A → Outcome A
or_panic none = panic
or_panic (some a) = ok a

-- A method on `&mut self`: what it returns, and the state that it leaves, also on an error.
abbrev pub Run : Type 0 → Type 0 → Type 0
Run S A = Outcome A × S

-- `e?` in such a method, where the state is `s` and `e` does not change it
abbrev pub try : {S A B : Type 0} → S → Outcome A → (A → Run S B) → Run S B
try s (ok a) k = k a
try s (err e) k = (err e, s)
try s panic k = (panic, s)

-- What a computation yields, where it returns.
abbrev pub Yields : {A : Type 0} → (A → Type 0) → Outcome A → Type 0
Yields P (ok a) = P a
Yields P (err e) = Unit
Yields P panic = Unit

pub bind-Yields :
    {A B : Type 0} (P : A → Type 0) (Q : B → Type 0) (o : Outcome A) (f : A → Outcome B)
    → Yields P o
    → ((a : A) → P a → Yields Q (f a))
    → Yields Q (o >>= f)
bind-Yields P Q (ok a) f h next = next a h
bind-Yields P Q (err e) f h next = tt
bind-Yields P Q panic f h next = tt

pub any-Yields : {A : Type 0} (o : Outcome A) → Yields (λ _. Unit {0}) o
any-Yields (ok a) = tt
any-Yields (err e) = tt
any-Yields panic = tt
