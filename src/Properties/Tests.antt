-- ===== src/Properties/Tests.antt =====
-- Concrete ranges and snapshots of src/crsdkpy/properties.py.
use cr_sdkpy.Base.{ℕ, true, false, some, List, [], ◌∷◌, ◌≡◌, ◌↔◌, refl}
use cr_sdkpy.Base.Int.{pos, negsuc}
use cr_sdkpy.Enums.{PropertyAccess, PropertyValueType}
use cr_sdkpy.Properties.{
  PropertyRange, range_contains, Property, PropertyValue, accepts, snapshot, codes, unknown_codes,
  value_of,
}
use cr_sdkpy.Properties.Range.{Reached, range_contains_iff}
use cr_sdkpy.Properties.Snapshot.{IsSnapshotOf, snapshot-IsSnapshotOf}

-- From -5 to 10 in steps of 3.
abbrev by_threes : PropertyRange
by_threes = record { minimum = negsuc 4; maximum = pos 10; step = some (pos 3) }

on_a_step : range_contains by_threes (pos 4) ≡ true
unfolding range_contains
on_a_step = refl

off_a_step : range_contains by_threes (pos 5) ≡ false
unfolding range_contains
off_a_step = refl

range_contains_iff_example : (range_contains by_threes (pos 4) ≡ true) ↔ Reached by_threes (pos 4)
range_contains_iff_example = range_contains_iff by_threes (pos 4)

abbrev plain : ℕ → ℕ → Property
plain code value = record {
  code = code;
  value = PropertyValue.num (pos value);
  value_type = PropertyValueType.int;
  access = PropertyAccess.read_write;
  allowed_values = [];
  value_range = some by_threes;
  allowed_count = 0;
  values_undecoded = false;
}

abbrev reported : List Property
reported = plain 9 1 ∷ plain 4 2 ∷ plain 9 3 ∷ []

sorted_codes : codes (snapshot reported 50) ≡ 4 ∷ 9 ∷ []
unfolding codes snapshot
sorted_codes = refl

last_wins : value_of (snapshot reported 50) 9 PropertyValue.absent ≡ PropertyValue.num (pos 3)
unfolding value_of snapshot
last_wins = refl

unnamed : unknown_codes ((4, "AEL") ∷ []) (snapshot reported 50) ≡ 9 ∷ []
unfolding unknown_codes snapshot
unnamed = refl

within : accepts (plain 9 1) (PropertyValue.num (pos 7)) ≡ true
unfolding accepts
within = refl

snapshot_example : IsSnapshotOf reported (snapshot reported 50)
snapshot_example = snapshot-IsSnapshotOf reported 50
