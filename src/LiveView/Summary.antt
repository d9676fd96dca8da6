-- ===== src/LiveView/Summary.antt =====
-- src/crsdkpy/liveview.py: what the counters of `LiveView.measure` say of its rounds.
use cr_sdkpy.Base.{
  ℕ, ◌+◌, ◌≤◌, min, max, Option, none, some, List, [], ◌∷◌, ◌≡◌, refl, length, arith, elem, true,
  ◌⊎◌, inl, inr, ap, ◌∙◌,
}
use mathlib.Core.Path.{subst⁻¹}
use cr_sdkpy.Contract.{Preview}
use cr_sdkpy.LiveView.{Tally, Round, observe, empty_tally, least, greatest}

abbrev size_of : Option Preview → List ℕ → List ℕ
size_of none sizes = sizes
size_of (some frame) sizes = length frame.bytes ∷ sizes

-- The sizes of the frames that the rounds fetched.
abbrev pub sizes : List Round → List ℕ
sizes [] = []
sizes (r ∷ rs) = size_of r.frame (sizes rs)

abbrev pub sum : List ℕ → ℕ
sum [] = 0
sum (n ∷ ns) = n + sum ns

abbrev pub IsBelowAll : ℕ → List ℕ → Type 0
IsBelowAll m [] = Unit
IsBelowAll m (n ∷ ns) = (m ≤ n) × IsBelowAll m ns

abbrev pub IsAboveAll : ℕ → List ℕ → Type 0
IsAboveAll m [] = Unit
IsAboveAll m (n ∷ ns) = (n ≤ m) × IsAboveAll m ns

-- The bound is absent where there is no size, and else the least of the sizes.
abbrev pub IsLeast : Option ℕ → List ℕ → Type 0
IsLeast none ns = ns ≡ []
IsLeast (some m) ns = (elem m ns ≡ true) × IsBelowAll m ns

abbrev pub IsGreatest : Option ℕ → List ℕ → Type 0
IsGreatest none ns = ns ≡ []
IsGreatest (some m) ns = (elem m ns ≡ true) × IsAboveAll m ns

below_wider : (m k : ℕ) → k ≤ m → (ns : List ℕ) → IsBelowAll m ns → IsBelowAll k ns
below_wider m k le [] h = h
below_wider m k le (n ∷ ns) h = (omega (arith, h.0, le), below_wider m k le ns h.1)

above_wider : (m k : ℕ) → m ≤ k → (ns : List ℕ) → IsAboveAll m ns → IsAboveAll k ns
above_wider m k le [] h = h
above_wider m k le (n ∷ ns) h = (omega (arith, h.0, le), above_wider m k le ns h.1)

elem_head : (m n : ℕ) (ns : List ℕ) → m ≡ n → elem m (n ∷ ns) ≡ true
elem_head m n ns e = ground arith

elem_tail : (m n : ℕ) (ns : List ℕ) → elem m ns ≡ true → elem m (n ∷ ns) ≡ true
elem_tail m n ns h = ground arith

min_choice : (m n : ℕ) → ((min m n ≡ m) × (m ≤ n)) ⊎ ((min m n ≡ n) × (n ≤ m))
min_choice m n = ground arith

max_choice : (m n : ℕ) → ((max m n ≡ m) × (n ≤ m)) ⊎ ((max m n ≡ n) × (m ≤ n))
max_choice m n = ground arith

below_none : (n : ℕ) (ns : List ℕ) → ns ≡ [] → IsBelowAll n ns
below_none n ns e = subst⁻¹ (IsBelowAll n) e tt

above_none : (n : ℕ) (ns : List ℕ) → ns ≡ [] → IsAboveAll n ns
above_none n ns e = subst⁻¹ (IsAboveAll n) e tt

least-IsLeast :
    (bound : Option ℕ) (n : ℕ) (ns : List ℕ) → IsLeast bound ns → IsLeast (least bound n) (n ∷ ns)
least-IsLeast none n ns h = (elem_head n n ns refl, (omega arith, below_none n ns h))
least-IsLeast (some m) n ns h = elim (min_choice m n) [
  | inl c ↦ (
    elem_tail (min m n) n ns (ap (λ k. elem k ns) c.0 ∙ h.0),
    (omega (arith, c.0, c.1), below_wider m (min m n) (omega (arith, c.0)) ns h.1),
  )
  | inr c ↦ (
    elem_head (min m n) n ns c.0,
    (omega (arith, c.0), below_wider m (min m n) (omega (arith, c.0, c.1)) ns h.1),
  )
]

greatest-IsGreatest :
    (bound : Option ℕ) (n : ℕ) (ns : List ℕ)
    → IsGreatest bound ns
    → IsGreatest (greatest bound n) (n ∷ ns)
greatest-IsGreatest none n ns h = (elem_head n n ns refl, (omega arith, above_none n ns h))
greatest-IsGreatest (some m) n ns h = elim (max_choice m n) [
  | inl c ↦ (
    elem_tail (max m n) n ns (ap (λ k. elem k ns) c.0 ∙ h.0),
    (omega (arith, c.0, c.1), above_wider m (max m n) (omega (arith, c.0)) ns h.1),
  )
  | inr c ↦ (
    elem_head (max m n) n ns c.0,
    (omega (arith, c.0), above_wider m (max m n) (omega (arith, c.0, c.1)) ns h.1),
  )
]

-- The counters of `measure` agree with the rounds that it ran.
pub record IsSummary (rs : List Round) (t : Tally) : Type 0 where
  every_round : t.frames + t.empty_polls ≡ length rs
  every_frame : t.frames ≡ length (sizes rs)
  all_bytes : t.total_bytes ≡ sum (sizes rs)
  smallest : IsLeast t.min_bytes (sizes rs)
  largest : IsGreatest t.max_bytes (sizes rs)

pub observe_lem :
    (b a : ℕ) (frame : Option Preview) (rs : List Round) (t : Tally)
    → IsSummary rs t
    → IsSummary
        (record { before = b; after = a; frame = frame } ∷ rs)
        (observe (record { before = b; after = a; frame = frame }) t)
unfolding observe
observe_lem b a none rs t h = record {
  every_round = omega (arith, h.every_round);
  every_frame = h.every_frame;
  all_bytes = h.all_bytes;
  smallest = h.smallest;
  largest = h.largest;
}
observe_lem b a (some frame) rs t h = record {
  every_round = omega (arith, h.every_round);
  every_frame = omega (arith, h.every_frame);
  all_bytes = omega (arith, h.all_bytes);
  smallest = least-IsLeast t.min_bytes (length frame.bytes) (sizes rs) h.smallest;
  largest = greatest-IsGreatest t.max_bytes (length frame.bytes) (sizes rs) h.largest;
}

pub empty-IsSummary : IsSummary [] empty_tally
empty-IsSummary = record {
  every_round = refl;
  every_frame = refl;
  all_bytes = refl;
  smallest = refl;
  largest = refl;
}
