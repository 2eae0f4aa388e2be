-- ===== src/Prelude/Results.antt =====
-- What a call that may throw gives back, and chains of such calls.
use mathlib.Core.Path.{◌≡◌, refl, ap}
use mathlib.Core.Bool.{Bool, true, false}
use anti_soon.Prelude.Tests.{if◌then◌else◌}

pub data Result (E : Type 0) (A : Type 0) : Type 0 where
  err : (thrown : E) → Result E A
  ok : (returned : A) → Result E A

-- `if (!holds) throw thrown`
abbrev pub demand : {E : Type 0} (holds : Bool) (thrown : E) → Result E (Unit {0})
demand false thrown = err thrown
demand true thrown = ok tt

-- the statement `call`, and the rest of the function after it
abbrev pub ◌>>=◌ : {E A B : Type 0} (call : Result E A) (rest : A → Result E B) → Result E B
err thrown >>= rest = err thrown
ok returned >>= rest = rest returned

abbrev pub ◌>>◌ : {E B : Type 0} (check : Result E (Unit {0})) (rest : Result E B) → Result E B
check >> rest = check >>= λ _. rest

infixl 5 ◌>>=◌ ◌>>◌
-- what a function has passed through when it returns
pub bind_parts :
    {E A B : Type 0} (call : Result E A) (rest : A → Result E B) {last : B}
    → (call >>= rest) ≡ ok last
    → (returned : A) × (call ≡ ok returned) × (rest returned ≡ ok last)
bind_parts (err thrown) rest h = cc
bind_parts (ok returned) rest h = (returned, refl, h)

pub demand_then :
    {E B : Type 0} (c : Bool) (e : E) (k : Result E B) {b : B}
    → (demand c e >> k) ≡ ok b
    → (c ≡ true) × (k ≡ ok b)
demand_then true e k h = (refl, h)
demand_then false e k h = cc

-- a call has one result
pub ok_unique : {E A : Type 0} {m : Result E A} {a b : A} → m ≡ ok a → m ≡ ok b → a ≡ b
ok_unique h k = cc

pub >>=-ok : {E A : Type 0} (m : Result E A) → (m >>= λ a. ok a) ≡ m
>>=-ok (ok a) = refl
>>=-ok (err e) = refl

pub bind_ok :
    {E A B : Type 0} {m : Result E A} {a : A} (f : A → Result E B) → m ≡ ok a → (m >>= f) ≡ f a
bind_ok f h = ap (λ m. m >>= f) h

pub demand_holds :
    {E B : Type 0} {c : Bool} (e : E) (k : Result E B) → c ≡ true → (demand c e >> k) ≡ k
demand_holds e k h = ap (λ c. demand c e >> k) h

pub test_ok :
    {E A : Type 0} (t : Bool) (a : A) (e : E) {b : A}
    → (if t then ok a else err e) ≡ ok b
    → (t ≡ true) × (a ≡ b)
test_ok true a e h = (refl, cc)
test_ok false a e h = cc

-- the result, or `a` after an error
abbrev pub ok_or : {E A : Type 0} → Result E A → A → A
ok_or (ok x) a = x
ok_or (err e) a = a
