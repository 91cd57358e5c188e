-- ===== src/Error/Method.antt =====
-- Methods on `&mut self` as a state monad: `do` blocks whose steps may change the state and end the
-- method by an error or a panic, with the state as it is then.
use smol_db.Common.{◌≡◌, refl, ap}
use smol_db.Error.Outcome.{Outcome, ok, err, panic, Run}

abbrev pub Method : Type 0 → Type 0 → Type 0
Method S A = S → Run S A

-- what follows a run
abbrev pub go_on : {S A B : Type 0} → Run S A → (A → Method S B) → Run S B
go_on (ok a, s) k = k a s
go_on (err e, s) k = (err e, s)
go_on (panic, s) k = (panic, s)

infixl 5 ◌>>=◌ ◌>>◌
abbrev pub ◌>>=◌ : {S A B : Type 0} → Method S A → (A → Method S B) → Method S B
◌>>=◌ m k s = go_on (m s) k

abbrev pub ◌>>◌ : {S B : Type 0} → Method S (Unit {0}) → Method S B → Method S B
m >> k = m >>= λ _. k

abbrev pub return : {S A : Type 0} → A → Method S A
return a s = (ok a, s)

abbrev pub lift : {S A : Type 0} → Outcome A → Method S A
lift x s = (x, s)

-- `e?` of a part of the state
abbrev pub put_back : {S T A : Type 0} → (T → S) → Run T A → Run S A
put_back store (x, t) = (x, store t)

-- What holds of the state goes on to hold, however the run ends, where the first step keeps it and
-- the rest does.
pub go_on-Always :
    {S A B : Type 0} (P : S → Type 0) (m : Run S A) (k : A → Method S B)
    → P m.1
    → ((a : A) (s : S) → P s → P (k a s).1)
    → P (go_on m k).1
go_on-Always P (ok a, s) k h next = next a s h
go_on-Always P (err e, s) k h next = h
go_on-Always P (panic, s) k h next = h

-- A run that returns leaves a state with `Q`, and any other run one with `P`.
abbrev pub Ends : {S A : Type 0} → (S → Type 0) → (A → S → Type 0) → Run S A → Type 0
Ends P Q (ok a, s) = Q a s
Ends P Q (err e, s) = P s
Ends P Q (panic, s) = P s

pub go_on-Ends :
    {S A B : Type 0} (P : S → Type 0) (Q : A → S → Type 0) (R : B → S → Type 0) (m : Run S A)
    (k : A → Method S B)
    → Ends P Q m
    → ((a : A) (s : S) → Q a s → Ends P R (k a s))
    → Ends P R (go_on m k)
go_on-Ends P Q R (ok a, s) k h next = next a s h
go_on-Ends P Q R (err e, s) k h next = h
go_on-Ends P Q R (panic, s) k h next = h

-- what a run keeps gives what holds where it ends
pub Always-Ends :
    {S A : Type 0} (P K : S → Type 0) (Q : A → S → Type 0) (m : Run S A)
    → K m.1
    → ((s : S) → K s → P s)
    → ((a : A) (s : S) → K s → Q a s)
    → Ends P Q m
Always-Ends P K Q (ok a, s) h weak post = post a s h
Always-Ends P K Q (err e, s) h weak post = weak s h
Always-Ends P K Q (panic, s) h weak post = weak s h

pub Ends-Always :
    {S A : Type 0} (P : S → Type 0) (Q : A → S → Type 0) (m : Run S A)
    → Ends P Q m
    → ((a : A) (s : S) → Q a s → P s)
    → P m.1
Ends-Always P Q (ok a, s) h weak = weak a s h
Ends-Always P Q (err e, s) h weak = h
Ends-Always P Q (panic, s) h weak = h

pub weaken-Ends :
    {S A : Type 0} (P P' : S → Type 0) (Q Q' : A → S → Type 0) (m : Run S A)
    → Ends P Q m
    → ((s : S) → P s → P' s)
    → ((a : A) (s : S) → Q a s → Q' a s)
    → Ends P' Q' m
weaken-Ends P P' Q Q' (ok a, s) h weak post = post a s h
weaken-Ends P P' Q Q' (err e, s) h weak post = weak s h
weaken-Ends P P' Q Q' (panic, s) h weak post = weak s h

-- a run that returns has passed each of its steps
pub go_on-ok :
    {S A B : Type 0} (m : Run S A) (k : A → Method S B) (b : B) (s : S)
    → go_on m k ≡ (ok b, s)
    → (a : A) × (s' : S) × (m ≡ (ok a, s')) × (k a s' ≡ (ok b, s))
go_on-ok (ok a, s') k b s e = (a, s', refl, e)
go_on-ok {S = S} {B = B} (err x, s') k b s e = cc (ap (λ (r : Run S B). r.0) e)
go_on-ok {S = S} {B = B} (panic, s') k b s e = cc (ap (λ (r : Run S B). r.0) e)

pub go_on_assoc :
    {S A B C : Type 0} (m : Run S A) (k : A → Method S B) (j : B → Method S C)
    → go_on m (λ a s. go_on (k a s) j) ≡ go_on (go_on m k) j
go_on_assoc (ok a, s) k j = refl
go_on_assoc (err e, s) k j = refl
go_on_assoc (panic, s) k j = refl
