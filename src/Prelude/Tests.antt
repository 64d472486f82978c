-- ===== src/Prelude/Tests.antt =====
-- Boolean tests on the native numbers, the conditional, and decisions read as Booleans.
use Prim.Native.Nat.{ℕ, compare, Ordering}
use mathlib.Core.Path.{◌≡◌, refl}
use mathlib.Core.Logic.{◌⊎◌, inl, inr}
use mathlib.Core.Bool.{Bool, true, false}
use mathlib.Core.Option.{Option, none, some}
use native.Mathlib.Decide.{ℕ_discrete}

abbrev pub ltb : ℕ → ℕ → Bool
ltb a b = elim (compare a b) [ Ordering.lt ↦ true | _ ↦ false ]

abbrev pub leb : ℕ → ℕ → Bool
leb a b = elim (compare a b) [ Ordering.gt ↦ false | _ ↦ true ]

infix 1 if◌then◌else◌
abbrev pub if◌then◌else◌ {ℓ} : {A : Type ℓ} → Bool → A → A → A
if true then x else y = x
if false then x else y = y

-- What the program derives as `PartialEq`, by a decision.
pub record Eq {ℓ} (A : Type ℓ) : Type ℓ where
  pub dec : Discrete A

infix 50 ◌==◌
abbrev pub ◌==◌ {ℓ} : {A : Type ℓ} ⦃e : Eq A⦄ → A → A → Bool
◌==◌ ⦃e⦄ a b = elim (e.dec a b) [ yes _ ↦ true | no _ ↦ false ]

infix 50 ◌!=◌
abbrev pub ◌!=◌ {ℓ} : {A : Type ℓ} ⦃e : Eq A⦄ → A → A → Bool
◌!=◌ ⦃e⦄ a b = elim (e.dec a b) [ yes _ ↦ false | no _ ↦ true ]

instance abbrev pub nat_eq : Eq ℕ
nat_eq = record { dec = ℕ_discrete }

unfoldable pub OptionBool-discrete : Discrete (Option Bool)
OptionBool-discrete = hlevel

instance abbrev pub option_bool_eq : Eq (Option Bool)
option_bool_eq = record { dec = OptionBool-discrete }

unfoldable pub OptionNat-discrete : Discrete (Option ℕ)
OptionNat-discrete = hlevel ℕ_discrete

instance abbrev pub option_nat_eq : Eq (Option ℕ)
option_nat_eq = record { dec = OptionNat-discrete }

-- `Option<PathBuf>` and the like, from the value
abbrev pub and_then {ℓ κ} : {A : Type ℓ} {B : Type κ} → Option A → (A → Option B) → Option B
and_then none f = none
and_then (some a) f = f a

-- To split on a computed value and keep the equation.
pub Bool-cases : (b : Bool) → (b ≡ true) ⊎ (b ≡ false)
Bool-cases true = inl refl
Bool-cases false = inr refl

pub Option-cases {ℓ} : {A : Type ℓ} (o : Option A) → ((a : A) × (o ≡ some a)) ⊎ (o ≡ none)
Option-cases none = inr refl
Option-cases (some a) = inl (a, refl)

-- `Option::is_some`
abbrev pub is_some {ℓ} : {A : Type ℓ} → Option A → Bool
is_some none = false
is_some (some _) = true

pub ==-true {ℓ} : {A : Type ℓ} ⦃e : Eq A⦄ (a b : A) → (a == b) ≡ true → a ≡ b
==-true ⦃e⦄ a b h =
    elim (e.dec a b) as (λ d. elim d [ yes _ ↦ true | no _ ↦ false ] ≡ true → a ≡ b) [
      | yes p ↦ λ _. p
      | no _ ↦ λ k. cc
    ]
      h

pub !=-false {ℓ} : {A : Type ℓ} ⦃e : Eq A⦄ (a b : A) → (a != b) ≡ false → a ≡ b
!=-false ⦃e⦄ a b h =
    elim (e.dec a b) as (λ d. elim d [ yes _ ↦ false | no _ ↦ true ] ≡ false → a ≡ b) [
      | yes p ↦ λ _. p
      | no _ ↦ λ k. cc
    ]
      h

pub is_some-false {ℓ} : {A : Type ℓ} (o : Option A) → is_some o ≡ false → o ≡ none
is_some-false none h = refl
is_some-false (some a) h = cc

pub !=-refl {ℓ} : {A : Type ℓ} ⦃e : Eq A⦄ (a : A) → (a != a) ≡ false
!=-refl ⦃e⦄ a = elim (e.dec a a) as (λ d. elim d [ yes _ ↦ false | no _ ↦ true ] ≡ false) [
  | yes _ ↦ refl
  | no h ↦ absurd (h refl)
]

pub ==-refl {ℓ} : {A : Type ℓ} ⦃e : Eq A⦄ (a : A) → (a == a) ≡ true
==-refl ⦃e⦄ a = elim (e.dec a a) as (λ d. elim d [ yes _ ↦ true | no _ ↦ false ] ≡ true) [
  | yes p ↦ refl
  | no n ↦ elim (n refl) [ ]
]
