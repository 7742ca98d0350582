-- ===== src/Common/Outcome.antt =====
-- A call that returns a value or throws an error.
use mathlib.Core.Path.{◌≡◌, refl, sym, ap}
use mathlib.Core.Bool.{Bool, true, false, true≢false}
use mathlib.Core.Logic.{◌⊎◌, inl, inr}

pub data Result {ℓ} (E : Type 0) (A : Type ℓ) : Type ℓ where
  ok : A → Result E A
  throw : E → Result E A

infixl 5 ◌>>=◌
abbrev pub ◌>>=◌ {ℓ κ} :
    {E : Type 0} {A : Type ℓ} {B : Type κ} → Result E A → (A → Result E B) → Result E B
throw message >>= rest = throw message
ok value >>= rest = rest value

-- A call that also leaves a state, and what follows it unless it threw.
abbrev pub run_then {ℓ κ ι} :
    {E : Type 0} {A : Type ℓ} {B : Type κ} {S : Type ι}
    → Result E A × S
    → (A → S → Result E B × S)
    → Result E B × S
run_then (throw message, s) rest = (throw message, s)
run_then (ok value, s) rest = rest value s

-- `try { return m } catch { return d }`.
abbrev pub catch_with {ℓ} : {E : Type 0} {A : Type ℓ} → A → Result E A → A
catch_with d (ok a) = a
catch_with d (throw e) = d

-- To split on how a call ended.
pub Result-cases {ℓ} :
    {E : Type 0} {A : Type ℓ} (call : Result E A)
    → ((value : A) × (call ≡ ok value)) ⊎ ((message : E) × (call ≡ throw message))
Result-cases (ok value) = inl (value, refl)
Result-cases (throw message) = inr (message, refl)

abbrev pub is_thrown {ℓ} : {E : Type 0} {A : Type ℓ} → Result E A → Bool
is_thrown (ok value) = false
is_thrown (throw message) = true

pub ok_inj {ℓ} : {E : Type 0} {A : Type ℓ} (x y : A) → ◌≡◌ {A = Result E A} (ok x) (ok y) → y ≡ x
ok_inj x y h = ap (catch_with x) (sym h)

-- A call that returned is followed by the rest, on its value and state.
pub run_then_ok {ℓ κ ι} :
    {E : Type 0} {A : Type ℓ} {B : Type κ} {S : Type ι} (call : Result E A × S) (value : A)
    (rest : A → S → Result E B × S)
    → call.0 ≡ ok value
    → run_then call rest ≡ rest value call.1
run_then_ok (throw message, s) value rest h = absurd (true≢false (ap is_thrown h))
run_then_ok (ok x, s) value rest h = ap (λ y. rest y s) (sym (ok_inj x value h))

-- A call that threw is followed by nothing.
pub run_then_throw {ℓ κ ι} :
    {E : Type 0} {A : Type ℓ} {B : Type κ} {S : Type ι} (call : Result E A × S) (message : E)
    (rest : A → S → Result E B × S)
    → call.0 ≡ throw message
    → is_thrown (run_then call rest).0 ≡ true
run_then_throw (throw e, s) message rest h = refl
run_then_throw (ok x, s) message rest h = absurd (true≢false (sym (ap is_thrown h)))
