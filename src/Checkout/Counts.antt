-- ===== src/Checkout/Counts.antt =====
-- Unique indexes as counts of rows.
use payments_boilerplate.Base.{
  ℕ, suc, ◌≤◌, ◌≡◌, refl, inl, inr, Bool, true, false, List, [], ◌∷◌, if◌then◌else◌, arith,
  Bool-cases,
}
use payments_boilerplate.Checkout.Tables.{any}
use payments_boilerplate.Checkout.Rows.{IsUnique}

-- The number of rows that satisfy a test.
abbrev pub count : {R : Type 0} → (R → Bool) → List R → ℕ
count p [] = 0
count p (r ∷ rs) = let rest = count p rs in if p r then suc rest else rest

count-zero :
    {R : Type 0} (p clashes : R → Bool) (rs : List R)
    → ((r : R) → p r ≡ true → clashes r ≡ true)
    → any clashes rs ≡ false
    → count p rs ≡ 0
count-zero p clashes [] meets h = refl
count-zero p clashes (r ∷ rs) meets h = elim (Bool-cases (clashes r)) [
  | inl clash ↦ absurd (cc (rw clash at h))
  | inr clear ↦ elim (Bool-cases (p r)) [
    | inl holds ↦ absurd (cc (meets r holds, clear))
    | inr other ↦ rw other (count-zero p clashes rs meets (rw clear at h))
  ]
]

-- Rows that clash whenever both satisfy a test do so at most once.
pub count-le :
    {R : Type 0} (p : R → Bool) (clashes : R → R → Bool) (rs : List R)
    → ((r s : R) → p r ≡ true → p s ≡ true → clashes r s ≡ true)
    → IsUnique clashes rs
    → count p rs ≤ 1
unfolding IsUnique
count-le p clashes [] meets u = omega arith
count-le p clashes (r ∷ rs) meets (apart, u) = elim (Bool-cases (p r)) [
  | inr other ↦ rw other (count-le p clashes rs meets u)
  | inl holds ↦ rw holds (omega (arith, count-zero p (clashes r) rs (λ s. meets r s holds) apart))
]

count-tail : {R : Type 0} (p : R → Bool) (r : R) (rs : List R) → count p rs ≤ count p (r ∷ rs)
count-tail p r rs = ground arith

-- A row of the list that satisfies a test is counted.
met :
    {R : Type 0} (clashes : R → Bool) (rs : List R)
    → any clashes rs ≡ true
    → (s : R) × (clashes s ≡ true) × ((p : R → Bool) → p s ≡ true → 1 ≤ count p rs)
met clashes [] h = absurd (cc h)
met clashes (r ∷ rs) h = elim (Bool-cases (clashes r)) [
  | inl clash ↦ (r, clash, λ p holds. rw holds (omega arith))
  | inr clear ↦
      let (s, meets, counted) = met clashes rs (rw clear at h) in
      (s, meets, λ p holds. omega (arith, counted p holds, count-tail p r rs))
]

-- Two rows that clash satisfy one test, of which there is one row at most.
abbrev pub Separated : {R : Type 0} → (R → R → Bool) → List R → Type 0
Separated {R = R} clashes rs =
    (r s : R) → clashes r s ≡ true → (p : R → Bool) × (p r ≡ true) × (p s ≡ true) × (count p rs ≤ 1)

pub Separated-IsUnique :
    {R : Type 0} (clashes : R → R → Bool) (rs : List R) → Separated clashes rs → IsUnique clashes rs
unfolding IsUnique
Separated-IsUnique clashes [] h = tt
Separated-IsUnique clashes (r ∷ rs) h = elim (Bool-cases (any (clashes r) rs)) [
  | inr clear ↦ (
    clear,
    Separated-IsUnique clashes rs (λ a b clash.
        let (p, one, two, le) = h a b clash in (p, one, two, omega (arith, le, count-tail p r rs))),
  )
  | inl meets ↦
      let (s, clash, counted) = met (clashes r) rs meets in
      let (p, one, two, le) = h r s clash in
      let twice : suc (count p rs) ≤ 1 = rw one at le in
      absurd (omega (arith, twice, counted p two))
]
