-- ===== src/Base/Results.antt =====
-- What a call of the program does: it returns, it returns `Err(e)`, or it panics. `Error` is
-- `Error` of src/error.rs; the text of a message is not kept. An `assert!` that fails, a `panic!`,
-- an `expect` on `None` and an arithmetic overflow are the outcome `panic`.
use Prim.Native.Nat.{ℕ, ◌+◌, ◌^◌, ◌<◌}
use mathlib.Core.Path.{◌≡◌, refl}
use mathlib.Core.Logic.{◌⊎◌, inl, inr}
use mathlib.Core.Bool.{Bool, true, false}
use native.Mathlib.Omega.{arith}
use raft_rust.Base.Tests.{ltb, if◌then◌else◌}

pub data Error : Type 0 where
  abort invalid_data invalid_input io : Error

-- Whether every node that applies the same entry meets the same error.
pub is_deterministic : Error → Bool
is_deterministic abort = false
is_deterministic invalid_data = false
is_deterministic invalid_input = true
is_deterministic io = false

pub data Outcome {ℓ} (A : Type ℓ) : Type ℓ where
  ok : A → Outcome A
  err : Error → Outcome A
  panic : Outcome A

-- `call?` and what follows it
infixl 5 ◌>>=◌
abbrev pub ◌>>=◌ {ℓ κ} : {A : Type ℓ} {B : Type κ} → Outcome A → (A → Outcome B) → Outcome B
panic >>= then_do = panic
err e >>= then_do = err e
ok value >>= then_do = then_do value

infixl 5 ◌>>◌
abbrev pub ◌>>◌ {κ} : {B : Type κ} → Outcome (Unit {0}) → Outcome B → Outcome B
check >> then_do = check >>= λ _. then_do

-- `assert!(b)`
abbrev pub assert : Bool → Outcome (Unit {0})
assert true = ok tt
assert false = panic

-- Inversion of a call that returned.
pub >>=-eq-ok {ℓ κ} :
    {A : Type ℓ} {B : Type κ} (call : Outcome A) (then_do : A → Outcome B) {result : B}
    → (call >>= then_do) ≡ ok result
    → (value : A) × (call ≡ ok value) × (then_do value ≡ ok result)
>>=-eq-ok panic then_do returned = cc
>>=-eq-ok (err e) then_do returned = cc
>>=-eq-ok (ok value) then_do returned = (value, refl, returned)

-- To split on a call and keep the equation.
pub Outcome-cases {ℓ} :
    {A : Type ℓ} (call : Outcome A)
    → ((value : A) × (call ≡ ok value)) ⊎ (((e : Error) × (call ≡ err e)) ⊎ (call ≡ panic))
Outcome-cases (ok value) = inl (value, refl)
Outcome-cases (err e) = inr (inl (e, refl))
Outcome-cases panic = inr (inr refl)

pub assert-eq-ok {κ} :
    {B : Type κ} (b : Bool) (k : Outcome B) {r : B}
    → (assert b >> k) ≡ ok r
    → (b ≡ true) × (k ≡ ok r)
assert-eq-ok true k h = (refl, h)
assert-eq-ok false k h = cc

unfoldable pub u64_limit : ℕ
u64_limit = 2 ^ 64

pub one-lt-u64_limit : 1 < u64_limit
unfolding u64_limit
one-lt-u64_limit = omega arith

-- `a + b` on `u64` in a build that checks for overflow.
unfoldable pub u64_add : ℕ → ℕ → Outcome ℕ
u64_add a b = if ltb (a + b) u64_limit then ok (a + b) else panic

pub u64_add-eq-ok : (a b : ℕ) {c : ℕ} → u64_add a b ≡ ok c → (c ≡ a + b) × (c < u64_limit)
unfolding u64_add
u64_add-eq-ok a b h = ground arith
