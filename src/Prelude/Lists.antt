-- ===== src/Prelude/Lists.antt =====
-- Lists measured by native numbers under the library's names, and the tests on slices that the
-- program calls: `iter().any`, `iter().all`, `contains`, `is_empty`.
use Prim.Native.Nat.{ℕ, zero, suc, ◌+◌, min}
use mathlib.Core.Path.{◌≡◌, refl, sym, subst}
use mathlib.Core.Logic.{◌⊎◌, inl, inr}
use mathlib.Core.Bool.{Bool, true, false, ◌&&◌, ◌||◌}
use mathlib.Core.List.{List, [], ◌∷◌, ◌++◌, reverse_aux}
use native.Mathlib.Omega.{arith}
use optic_code.Prelude.Tests.{Bool-cases, Eq, ==-refl, ◌==◌}

-- `usize::MAX`, and `saturating_add` on it
abbrev pub usize_max : ℕ
usize_max = 18446744073709551615

abbrev pub saturating_add : ℕ → ℕ → ℕ
saturating_add a b = min (a + b) usize_max

module _ {ℓ} {A : Type ℓ} where
  abbrev pub length : List A → ℕ
  length [] = 0
  length (x ∷ xs) = suc (length xs)

  abbrev pub is_empty : List A → Bool
  is_empty [] = true
  is_empty (_ ∷ _) = false

  abbrev pub take : ℕ → List A → List A
  take zero xs = []
  take (suc n) [] = []
  take (suc n) (x ∷ xs) = x ∷ take n xs

  abbrev pub any : (A → Bool) → List A → Bool
  any p [] = false
  any p (x ∷ xs) = p x || any p xs

  abbrev pub all : (A → Bool) → List A → Bool
  all p [] = true
  all p (x ∷ xs) = p x && all p xs

  -- A predicate on every element.
  abbrev pub All {κ} : (A → Type κ) → List A → Type κ
  All P [] = Unit
  All P (x ∷ xs) = P x × All P xs

  pub length-append : (xs ys : List A) → length (xs ++ ys) ≡ length xs + length ys
  length-append [] ys = omega arith
  length-append (x ∷ xs) ys = omega (arith, length-append xs ys)

  pub length-take : (n : ℕ) (xs : List A) → length (take n xs) ≡ min n (length xs)
  length-take zero xs = omega arith
  length-take (suc n) [] = omega arith
  length-take (suc n) (x ∷ xs) = omega (arith, length-take n xs)

  pub all-All : (p : A → Bool) (xs : List A) → all p xs ≡ true → All (λ x. p x ≡ true) xs
  all-All p [] h = tt
  all-All p (x ∷ xs) h = (ground arith, all-All p xs (ground arith))

  pub any-All : (p : A → Bool) (xs : List A) → any p xs ≡ false → All (λ x. p x ≡ false) xs
  any-All p [] h = tt
  any-All p (x ∷ xs) h = (ground arith, any-All p xs (ground arith))

abbrev pub contains {ℓ} : {A : Type ℓ} ⦃e : Eq A⦄ → List A → A → Bool
contains [] a = false
contains (x ∷ xs) a = x == a || contains xs a

module _ {A : Type 0} where
  -- `x` is an element.
  abbrev pub Among : A → List A → Type 0
  Among x [] = ⊥
  Among x (y ∷ ys) = (x ≡ y) ⊎ Among x ys

  pub All-Among : {P : A → Type 0} (xs : List A) → ((x : A) → Among x xs → P x) → All P xs
  All-Among [] h = tt
  All-Among (x ∷ xs) h = (h x (inl refl), All-Among xs (λ y m. h y (inr m)))

  pub Among-All : (P : A → Type 0) (xs : List A) → All P xs → (x : A) → Among x xs → P x
  Among-All P [] h x m = elim m [ ]
  Among-All P (y ∷ xs) h x (inl e) = subst P (sym e) h.0
  Among-All P (y ∷ xs) h x (inr m) = Among-All P xs h.1 x m

  pub All-reverse_aux :
      (P : A → Type 0) (xs ys : List A) → All P xs → All P ys → All P (reverse_aux xs ys)
  All-reverse_aux P [] ys h k = k
  All-reverse_aux P (x ∷ xs) ys h k = All-reverse_aux P xs (x ∷ ys) h.1 (h.0, k)

  pub All-of_reverse_aux :
      (P : A → Type 0) (xs ys : List A) → All P (reverse_aux xs ys) → All P xs × All P ys
  All-of_reverse_aux P [] ys h = (tt, h)
  All-of_reverse_aux P (x ∷ xs) ys h =
      let (later, both) = All-of_reverse_aux P xs (x ∷ ys) h in ((both.0, later), both.1)

  pub is_empty-true : (xs : List A) → is_empty xs ≡ true → xs ≡ []
  is_empty-true [] h = refl
  is_empty-true (x ∷ xs) h = cc

  pub append-nil_right : (xs ys : List A) → xs ++ ys ≡ [] → ys ≡ []
  append-nil_right [] ys h = h
  append-nil_right (x ∷ xs) ys h = cc

  pub append-nil_left : (xs ys : List A) → xs ++ ys ≡ [] → xs ≡ []
  append-nil_left [] ys h = refl
  append-nil_left (x ∷ xs) ys h = cc

pub contains-Among :
    {A : Type 0} ⦃e : Eq A⦄ (xs : List A) (x : A) → Among x xs → contains xs x ≡ true
contains-Among [] x i = elim i [ ]
contains-Among (y ∷ xs) x (inl p) = rw p (rw (==-refl y) refl)
contains-Among (y ∷ xs) x (inr i) = elim (Bool-cases (y == x)) [
  | inl e ↦ rw e refl
  | inr e ↦ rw e (contains-Among xs x i)
]
