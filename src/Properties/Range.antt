-- ===== src/Properties/Range.antt =====
-- src/crsdkpy/properties.py: what a range contains and what a property accepts.
use native.Mathlib.Nat.{zero-mod, suc-mul, add-mod_right, div-add-mod'}
use cr_sdkpy.Base.{
  ℕ, zero, suc, ap, ◌∙◌, ==_iff, Bool-cases, ◌*◌, ◌/◌, ◌%◌, Bool, true, false, ◌&&◌, Option, none,
  some, ◌==◌, if◌then◌else◌, ◌≡◌, refl, ◌↔◌, ◌⊎◌, inl, inr, arith,
}
use cr_sdkpy.Base.Int.{ℤ, pos, ◌+ℤ◌, ◌-ℤ◌, ◌≤ℤ◌, leb_ℤ, magnitude, to_nat}
use cr_sdkpy.Properties.{PropertyRange, on_step, range_contains}

-- The size of a step; none and 0 both ask for nothing.
abbrev pub step_size : Option ℤ → ℕ
step_size none = 0
step_size (some step) = magnitude step

-- A value is reached from the minimum by whole steps.
abbrev pub Reached : PropertyRange → ℤ → Type 0
Reached r value =
    (r.minimum ≤ℤ value)
    × (value ≤ℤ r.maximum)
    × ((step_size r.step ≡ 0) ⊎ ((k : ℕ) × (value ≡ r.minimum +ℤ pos (k * step_size r.step))))

mul-mod_self : (k m : ℕ) → (k * m) % m ≡ 0
mul-mod_self zero m = omega (arith, zero-mod m)
mul-mod_self (suc k) m =
    ap (λ n. n % m) (omega (arith, suc-mul k m)) ∙ (add-mod_right (k * m) m ∙ mul-mod_self k m)

on_step_sound :
    (step : Option ℤ) (d : ℕ)
    → on_step step d ≡ true
    → (step_size step ≡ 0) ⊎ ((k : ℕ) × (d ≡ k * step_size step))
on_step_sound none d h = inl refl
on_step_sound (some s) d h = elim (Bool-cases (magnitude s == 0)) [
  | inl whole ↦ inl ((==_iff _ _).0 whole)
  | inr stepped ↦ inr (
    d / magnitude s,
    omega (arith, div-add-mod' d (magnitude s), (==_iff _ _).0 (rw stepped at h)),
  )
]

on_step_complete :
    (step : Option ℤ) (d : ℕ)
    → (step_size step ≡ 0) ⊎ ((k : ℕ) × (d ≡ k * step_size step))
    → on_step step d ≡ true
on_step_complete none d h = refl
on_step_complete (some s) d (inl h) = ground arith
on_step_complete (some s) d (inr (k, h)) =
    ground (arith, mul-mod_self k (magnitude s), ap (λ n. n % magnitude s) h)

-- The distance from the minimum is the number of the steps' sum.
from_minimum : (m v : ℤ) (d : ℕ) → m ≤ℤ v → (to_nat (v -ℤ m) ≡ d) ↔ (v ≡ m +ℤ pos d)
from_minimum m v d h = ground arith

leb_ℤ_iff : (a b : ℤ) → (leb_ℤ a b ≡ true) ↔ (a ≤ℤ b)
leb_ℤ_iff a b = ground arith

all_three :
    (a b c : Bool) → ((if a && b then c else false) ≡ true) ↔ ((a ≡ true) × (b ≡ true) × (c ≡ true))
all_three a b c = ground arith

-- The distance in steps, and back.
steps_up :
    (m v : ℤ) (size : ℕ)
    → m ≤ℤ v
    → ((size ≡ 0) ⊎ ((k : ℕ) × (to_nat (v -ℤ m) ≡ k * size)))
      ↔ ((size ≡ 0) ⊎ ((k : ℕ) × (v ≡ m +ℤ pos (k * size))))
steps_up m v size h = (up, down)
  where
    up :
        (size ≡ 0) ⊎ ((k : ℕ) × (to_nat (v -ℤ m) ≡ k * size))
        → (size ≡ 0) ⊎ ((k : ℕ) × (v ≡ m +ℤ pos (k * size)))
    up (inl z) = inl z
    up (inr (k, e)) = inr (k, (from_minimum m v (k * size) h).0 e)

    down :
        (size ≡ 0) ⊎ ((k : ℕ) × (v ≡ m +ℤ pos (k * size)))
        → (size ≡ 0) ⊎ ((k : ℕ) × (to_nat (v -ℤ m) ≡ k * size))
    down (inl z) = inl z
    down (inr (k, e)) = inr (k, (from_minimum m v (k * size) h).1 e)

sound : (r : PropertyRange) (value : ℤ) → range_contains r value ≡ true → Reached r value
unfolding range_contains
sound r value h =
    let parts = (all_three (leb_ℤ r.minimum value) (leb_ℤ value r.maximum) _).0 h in
    let low = (leb_ℤ_iff r.minimum value).0 parts.0 in
    (
      low,
      (leb_ℤ_iff value r.maximum).0 parts.1,
      (steps_up r.minimum value (step_size r.step) low).0
          (on_step_sound r.step (to_nat (value -ℤ r.minimum)) parts.2),
    )

complete : (r : PropertyRange) (value : ℤ) → Reached r value → range_contains r value ≡ true
unfolding range_contains
complete r value h = (all_three (leb_ℤ r.minimum value) (leb_ℤ value r.maximum) _).1 (
  (leb_ℤ_iff r.minimum value).1 h.0,
  (leb_ℤ_iff value r.maximum).1 h.1,
  on_step_complete r.step (to_nat (value -ℤ r.minimum))
      ((steps_up r.minimum value (step_size r.step) h.0).1 h.2),
)

-- A range contains a value exactly where the value lies between the bounds and, where there is a
-- step other than 0, is a whole number of steps above the minimum, whatever the step's sign.
pub range_contains_iff :
    (r : PropertyRange) (value : ℤ) → (range_contains r value ≡ true) ↔ Reached r value
range_contains_iff r value = (sound r value, complete r value)
