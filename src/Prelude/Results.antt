-- ===== src/Prelude/Results.antt =====
-- What a Go call gives back: a value, an `error`, or a panic, which nothing in the program recovers.
use mathlib.Core.Path.{◌≡◌, refl, transport}
use mathlib.Core.Logic.{◌⊎◌, inl, inr}
use mathlib.Core.Bool.{Bool, true, false}
use meemaw.Prelude.Tests.{if◌then◌else◌}
use meemaw.Prelude.Text.{Str}

-- utils/types/errors.go, the sentinel errors that the program tests for, and `text` for an error
-- that is known by its message only (errors.New, fmt.Errorf, and the errors of libraries). Of a
-- formatted message it has the constant part; no handler looks for what is formatted into one.
pub data GoError : Type 0 where
  not_found unauthorized bad_request tss_process_failed conflict time_out : GoError
  no_rows conversion not_enough_peers absent_curve pub_key_mismatch : GoError
  text : Str → GoError
  wrapped : Str → GoError → GoError  -- fmt.Errorf("prefix%w", err)

pub data Outcome {ℓ} (A : Type ℓ) : Type ℓ where
  panic : Outcome A
  ok : A → Outcome A
  err : GoError → Outcome A

module _ {ℓ κ} {A : Type ℓ} {B : Type κ} where
  infixl 5 ◌>>=◌
  -- Errors and panics end a chain.
  abbrev pub ◌>>=◌ : Outcome A → (A → Outcome B) → Outcome B
  panic >>= next = panic
  err e >>= next = err e
  ok x >>= next = next x

  -- A successful chain ran each of its parts successfully.
  pub >>=-eq-ok :
      (step : Outcome A) (next : A → Outcome B) {y : B}
      → (step >>= next) ≡ ok y
      → (x : A) × (step ≡ ok x) × (next x ≡ ok y)
  >>=-eq-ok panic next h = cc
  >>=-eq-ok (err e) next h = cc
  >>=-eq-ok (ok x) next h = (x, refl, h)

module _ {κ} {B : Type κ} where
  infixl 5 ◌>>◌
  abbrev pub ◌>>◌ : Outcome (Unit {0}) → Outcome B → Outcome B
  check >> next = check >>= λ _. next

pub Outcome-cases {ℓ} :
    {A : Type ℓ} (r : Outcome A)
    → ((a : A) × (r ≡ ok a)) ⊎ ((e : GoError) × (r ≡ err e)) ⊎ (r ≡ panic)
Outcome-cases (ok a) = inl (a, refl)
Outcome-cases (err e) = inr (inl (e, refl))
Outcome-cases panic = inr (inr refl)

-- What comes after a guard that returned an error.
pub guard-eq-ok {ℓ} :
    {A : Type ℓ} (b : Bool) (e : GoError) (m : Outcome A) {a : A}
    → (if b then err e else m) ≡ ok a
    → (b ≡ false) × (m ≡ ok a)
guard-eq-ok true e m h = cc h
guard-eq-ok false e m h = (refl, h)

-- A postcondition of a call: its value, if it has one, has the property.
unfoldable pub Ends {ℓ κ} : {A : Type ℓ} → (A → Type κ) → Outcome A → Type κ
Ends P (ok x) = P x
Ends P (err e) = Unit
Ends P panic = Unit

pub >>=-Ends {ℓ κ λ₁} :
    {A : Type ℓ} {B : Type κ} (P : B → Type λ₁) (r : Outcome A) (k : A → Outcome B)
    → ((x : A) → Ends P (k x))
    → Ends P (r >>= k)
unfolding Ends
>>=-Ends P (ok x) k h = h x
>>=-Ends P (err e) k h = tt
>>=-Ends P panic k h = tt

-- The postcondition of the first call, handed on.
pub Ends->>= {ℓ κ λ₁ λ₂} :
    {A : Type ℓ} {B : Type κ} (P : A → Type λ₁) (Q : B → Type λ₂) (r : Outcome A)
    (k : A → Outcome B)
    → Ends P r
    → ((x : A) → P x → Ends Q (k x))
    → Ends Q (r >>= k)
unfolding Ends
Ends->>= P Q (ok x) k h next = next x h
Ends->>= P Q (err e) k h next = tt
Ends->>= P Q panic k h next = tt

pub if-Ends {ℓ κ} :
    {A : Type ℓ} (P : A → Type κ) (b : Bool) (r₁ r₂ : Outcome A)
    → Ends P r₁
    → Ends P r₂
    → Ends P (if b then r₁ else r₂)
if-Ends P true r₁ r₂ h₁ h₂ = h₁
if-Ends P false r₁ r₂ h₁ h₂ = h₂

pub Ends-ok {ℓ κ} :
    {A : Type ℓ} (P : A → Type κ) {x : A} (r : Outcome A) → r ≡ ok x → Ends P r → P x
unfolding Ends
Ends-ok P r eq h = transport (λ i. Ends P (eq i)) h
