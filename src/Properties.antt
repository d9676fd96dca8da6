-- ===== src/Properties.antt =====
-- src/crsdkpy/properties.py: properties as the camera reports them, their constraints, and the
-- snapshot of all of them. A code is its number; the table of names is a parameter.
pub mod Range
pub mod Snapshot
pub mod Tests
use Prim.Native.String.{String}
use cr_sdkpy.Base.{
  ℕ, ◌+◌, ◌%◌, ◌≤◌, Bool, true, false, not, ◌&&◌, Option, none, some, List, [], ◌∷◌, map, ltb, leb,
  ◌==◌, if◌then◌else◌, contains, select, length, nat_identity, ◌≡◌, ◌↔◌, arith, Result, ok, err,
}
use cr_sdkpy.Base.Dict.{Dict, lookup, has_key, insert}
use cr_sdkpy.Base.Identity.{Identity}
use cr_sdkpy.Base.Int.{ℤ, pos, ◌-ℤ◌, leb_ℤ, magnitude, to_nat, int_identity}
use cr_sdkpy.Enums.{PropertyAccess, PropertyValueType}
use cr_sdkpy.Events.{Text}

-- `PropertyRange`
pub record PropertyRange : Type 0 where
  pub minimum : ℤ
  pub maximum : ℤ
  pub step : Option ℤ

-- The test of the step in `contains`: a step of 0 is none, and a number is a multiple of a step
-- where it is one of the step's magnitude.
abbrev pub on_step : Option ℤ → ℕ → Bool
on_step none distance = true
on_step (some step) distance = if magnitude step == 0 then true else distance % magnitude step == 0

-- `PropertyRange.contains`
unfoldable pub range_contains : PropertyRange → ℤ → Bool
range_contains r value =
    if leb_ℤ r.minimum value && leb_ℤ value r.maximum
    then on_step r.step (to_nat (value -ℤ r.minimum))
    else false

-- The values that a property has: none, an integer, or a text.
pub data PropertyValue : Type 0 where
  absent : PropertyValue
  num : ℤ → PropertyValue
  text : Text → PropertyValue

-- `Property`; of the metadata what the backends put there.
pub record Property : Type 0 where
  pub code : ℕ
  pub value : PropertyValue
  pub value_type : PropertyValueType
  pub access : PropertyAccess
  pub allowed_values : List ℤ
  pub value_range : Option PropertyRange
  pub allowed_count : ℕ
  pub values_undecoded : Bool

-- `value in self.allowed_values`, where those are integers.
abbrev is_allowed : PropertyValue → List ℤ → Bool
is_allowed (num v) allowed = contains v allowed
is_allowed absent allowed = false
is_allowed (text t) allowed = false

abbrev in_range : PropertyValue → Option PropertyRange → Bool
in_range (num v) (some r) = range_contains r v
in_range _ _ = true

abbrev is_empty {ℓ} : {A : Type ℓ} → List A → Bool
is_empty [] = true
is_empty (x ∷ xs) = false

-- `Property.accepts`
unfoldable pub accepts : Property → PropertyValue → Bool
unfolding range_contains
accepts p v =
    if is_empty p.allowed_values then in_range v p.value_range else is_allowed v p.allowed_values

-- `PropertySnapshot`
pub record PropertySnapshot : Type 0 where
  pub by_code : Dict ℕ Property
  pub timestamp_ms : ℕ

-- `{int(p.code): p for p in properties}`, behind what has been entered already.
unfoldable pub enter : Dict ℕ Property → List Property → Dict ℕ Property
enter d [] = d
enter d (p ∷ ps) = enter (insert p.code p d) ps

-- `PropertySnapshot.__init__`
unfoldable pub snapshot : List Property → ℕ → PropertySnapshot
unfolding enter
snapshot ps timestamp_ms = record { by_code = enter [] ps; timestamp_ms = timestamp_ms }

-- `PropertySnapshot.__getitem__`; `none` is a `KeyError`.
unfoldable pub get_item : PropertySnapshot → ℕ → Option Property
get_item s code = lookup code s.by_code

-- `PropertySnapshot.__contains__` and `__len__`
unfoldable pub has_code : PropertySnapshot → ℕ → Bool
has_code s code = has_key code s.by_code

unfoldable pub size : PropertySnapshot → ℕ
size s = length s.by_code

-- `sorted`, on codes.
abbrev pub insert_sorted : ℕ → List ℕ → List ℕ
insert_sorted c [] = c ∷ []
insert_sorted c (d ∷ ds) = if leb c d then c ∷ d ∷ ds else d ∷ insert_sorted c ds

abbrev pub sorted : List ℕ → List ℕ
sorted [] = []
sorted (c ∷ cs) = insert_sorted c (sorted cs)

-- `PropertySnapshot.codes`, and what `__iter__` yields.
unfoldable pub codes : PropertySnapshot → List ℕ
codes s = sorted (map (λ entry. entry.0) s.by_code)

-- `PropertySnapshot.value_of`
unfoldable pub value_of : PropertySnapshot → ℕ → PropertyValue → PropertyValue
value_of s code default = elim (lookup code s.by_code) [ none ↦ default | some p ↦ p.value ]

-- `PropertyCode.known`, over `KNOWN_PROPERTY_NAMES`.
unfoldable pub known : Dict ℕ String → ℕ → Bool
known names code = has_key code names

-- `register_property_name`
unfoldable pub register_property_name : ℕ → String → Dict ℕ String → Dict ℕ String
register_property_name code name names = insert code name names

-- `PropertySnapshot.unknown_codes`
unfoldable pub unknown_codes : Dict ℕ String → PropertySnapshot → List ℕ
unfolding codes known
unknown_codes names s = select (λ c. not (known names c)) (codes s)
