-- ===== src/Validate/Bounds.antt =====
-- `bounded` of crates/opticcode-policy/src/engine.rs keeps its bound and cuts no character in two.
use optic_code.Prelude.{
  Bool-cases, arith, false, inl, inr, leb, length, length-append, length-take, min, nat_eq, refl,
  suc, take, true, zero, ℕ, ◌++◌, ◌-◌, ◌<◌, ◌==◌, ◌≡◌, ◌≤◌,
}
use optic_code.Text.{Text, bytes}
use optic_code.Validate.{bounded, floor_boundary, is_char_boundary}

floor_boundary-le : (s : Text) (n : ℕ) → floor_boundary s n ≤ n
unfolding floor_boundary
floor_boundary-le s zero = omega arith
floor_boundary-le s (suc n) = ground (arith, floor_boundary-le s n)

is_char_boundary-zero : (s : Text) → is_char_boundary s 0 ≡ true
unfolding is_char_boundary
is_char_boundary-zero s = ground arith

floor_boundary-boundary : (s : Text) (n : ℕ) → is_char_boundary s (floor_boundary s n) ≡ true
unfolding floor_boundary
floor_boundary-boundary s zero = is_char_boundary-zero s
floor_boundary-boundary s (suc n) = ground (arith, floor_boundary-boundary s n)

-- the last start of a character up to a position
abbrev pub IsLastBoundary : Text → ℕ → ℕ → Type 0
IsLastBoundary s limit n =
    (n ≤ limit)
    × (is_char_boundary s n ≡ true)
    × ((k : ℕ) → n < k → k ≤ limit → is_char_boundary s k ≡ false)

floor_boundary-last :
    (s : Text) (n k : ℕ) → floor_boundary s n < k → k ≤ n → is_char_boundary s k ≡ false
unfolding floor_boundary
floor_boundary-last s zero k h b = absurd (omega arith)
floor_boundary-last s (suc n) k h b = elim (Bool-cases (is_char_boundary s (suc n))) [
  | inl e ↦ absurd (let h1 = rw e at h in omega arith)
  | inr e ↦ elim (Bool-cases (k == suc n)) [
    | inl same ↦ let q : k ≡ suc n = ground arith in rw q e
    | inr other ↦ floor_boundary-last s n k (rw e at h) (ground arith)
  ]
]

floor_boundary-IsLastBoundary : (s : Text) (n : ℕ) → IsLastBoundary s n (floor_boundary s n)
floor_boundary-IsLastBoundary s n =
    (floor_boundary-le s n, floor_boundary-boundary s n, floor_boundary-last s n)

marker-length : length (bytes "...[truncated]") ≡ 14
unfolding bytes
marker-length = refl

cut-length :
    (s : Text) (n max : ℕ)
    → n ≤ max - 16
    → 16 ≤ max
    → length (take n s ++ bytes "...[truncated]") ≤ max
cut-length s n max small room =
    omega (arith, length-append (take n s) (bytes "...[truncated]"), length-take n s, marker-length)

-- Where the bound leaves room for the marker: the answer fits; a reason that fits is kept as it is; a
-- longer one is cut at the last start of a character that stands 16 bytes or more before the bound,
-- and ends in the marker.
pub bounded-fits :
    (value : Text) (max : ℕ)
    → 16 ≤ max
    → (length (bounded value max) ≤ max)
      × (length value ≤ max → bounded value max ≡ value)
      × (max < length value
          → (n : ℕ) × IsLastBoundary value (max - 16) n
            × (bounded value max ≡ take n value ++ bytes "...[truncated]"))
unfolding bounded
bounded-fits value max room = (
  elim (Bool-cases (leb (length value) max)) [
    | inl fits ↦ ground arith
    | inr long ↦
        let n = floor_boundary value (min (max - 16) (length value)) in
        let small = floor_boundary-le value (min (max - 16) (length value)) in
        let cut = cut-length value n max (omega arith) room in ground arith
  ],
  λ fits. ground arith,
  λ long. (
    floor_boundary value (max - 16),
    floor_boundary-IsLastBoundary value (max - 16),
    cut_at long,
  ),
)
  where
    cut_at :
        max < length value
        → bounded value max ≡ take (floor_boundary value (max - 16)) value ++ bytes "...[truncated]"
    cut_at long =
        let e : min (max - 16) (length value) ≡ max - 16 = omega arith in
        let c : leb (length value) max ≡ false = ground arith in rw c (rw e refl)
