-- ===== src/Prelude/Fuel.antt =====
-- Computations on fuel that come to an end.
use Prim.Native.Nat.{ℕ, ◌+◌, ◌≤◌}
use mathlib.Core.Path.{◌≡◌, refl}
use mathlib.Core.Bool.{Bool, true, false}
use mathlib.Core.Option.{Option, none, some}
use native.Mathlib.Omega.{arith}
use dag_rider.Prelude.Tests.{◌>>=◌, if◌then◌else◌}

-- From some fuel on, the result is there and is always the same.
pub record Settles {ℓ} {A : Type ℓ} (f : ℕ → Option A) : Type ℓ where
  pub bound : ℕ
  pub result : A
  pub settled : (fuel : ℕ) → bound ≤ fuel → f fuel ≡ some result

unfoldable pub Settles-some {ℓ} : {A : Type ℓ} (a : A) → Settles (λ fuel. some a)
Settles-some a = record { bound = 0; result = a; settled = λ fuel h. refl }

pub bind_settled {ℓ κ} :
    {A : Type ℓ} {B : Type κ} (f : ℕ → Option A) (k : ℕ → A → Option B) (s : Settles f)
    (t : Settles (λ fuel. k fuel s.result)) (fuel : ℕ)
    → s.bound + t.bound ≤ fuel
    → (f fuel >>= k fuel) ≡ some t.result
bind_settled f k s t fuel h = rw (s.settled fuel (omega arith)) (t.settled fuel (omega arith))

unfoldable pub Settles-bind {ℓ κ} :
    {A : Type ℓ} {B : Type κ} (f : ℕ → Option A) (k : ℕ → A → Option B) (s : Settles f)
    → Settles (λ fuel. k fuel s.result)
    → Settles (λ fuel. f fuel >>= k fuel)
Settles-bind f k s t = record {
  bound = s.bound + t.bound;
  result = t.result;
  settled = bind_settled f k s t;
}

pub Settles-Bool {ℓ} :
    {A : Type ℓ} (b : Bool) (f g : ℕ → Option A)
    → Settles f
    → Settles g
    → Settles (λ fuel. elim b [ true ↦ f fuel | false ↦ g fuel ])
Settles-Bool true f g s t = s
Settles-Bool false f g s t = t

pub Settles-if {ℓ} :
    {A : Type ℓ} (b : Bool) (f g : ℕ → Option A)
    → Settles f
    → Settles g
    → Settles (λ fuel. if b then f fuel else g fuel)
Settles-if true f g s t = s
Settles-if false f g s t = t

pub Settles-Option {ℓ κ} :
    {A : Type ℓ} {B : Type κ} (o : Option A) (f : ℕ → Option B) (g : ℕ → A → Option B)
    → Settles f
    → ((a : A) → o ≡ some a → Settles (λ fuel. g fuel a))
    → Settles (λ fuel. elim o [ none ↦ f fuel | some a ↦ g fuel a ])
Settles-Option none f g s t = s
Settles-Option (some a) f g s t = t a refl

-- What needs no fuel.
unfoldable pub Settles-const {ℓ} :
    {A : Type ℓ} (o : Option A) (a : A) → o ≡ some a → Settles (λ fuel. o)
Settles-const o a e = record { bound = 0; result = a; settled = λ fuel h. e }
