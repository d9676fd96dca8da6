-- ===== src/Properties/Snapshot.antt =====
-- src/crsdkpy/properties.py: what a snapshot holds, against the list that it was made of.
use cr_sdkpy.Base.{
  ℕ, ◌<◌, false, ◌||◌, Option, none, some, List, [], ◌∷◌, map, leb, ◌==◌, if◌then◌else◌, contains,
  nat_identity, ◌≡◌, refl, ◌∙◌, ap, inl, inr, Bool-cases, ==_iff, arith, All,
}
use cr_sdkpy.Base.Dict.{Dict, lookup, has_key, insert}
use cr_sdkpy.Properties.{
  Property, PropertySnapshot, enter, snapshot, get_item, has_code, insert_sorted, sorted, codes,
}

-- The last property of a code, or what was found before.
abbrev pub last_of : ℕ → Option Property → List Property → Option Property
last_of code found [] = found
last_of code found (p ∷ ps) = last_of code (if code == p.code then some p else found) ps

lookup-insert :
    (c k : ℕ) (p : Property) (d : Dict ℕ Property)
    → lookup c (insert k p d) ≡ (if c == k then some p else lookup c d)
lookup-insert c k p [] = refl
lookup-insert c k p ((j, q) ∷ d) =
    ground (arith, ==_iff c k, ==_iff k j, ==_iff c j, lookup-insert c k p d)

enter-lookup :
    (ps : List Property) (code : ℕ) (d : Dict ℕ Property)
    → lookup code (enter d ps) ≡ last_of code (lookup code d) ps
unfolding enter
enter-lookup [] code d = refl
enter-lookup (p ∷ ps) code d =
    enter-lookup ps code (insert p.code p d)
    ∙ ap (λ found. last_of code found ps) (lookup-insert code p.code p d)

-- Every code is below those behind it.
abbrev pub IsAscending : List ℕ → Type 0
IsAscending [] = Unit
IsAscending (c ∷ cs) = All (λ d. c < d) cs × IsAscending cs

abbrev Distinct : List ℕ → Type 0
Distinct [] = Unit
Distinct (c ∷ cs) = (contains c cs ≡ false) × Distinct cs

abbrev keys : Dict ℕ Property → List ℕ
keys d = map (λ entry. entry.0) d

contains-keys : (c : ℕ) (d : Dict ℕ Property) → contains c (keys d) ≡ has_key c d
contains-keys c [] = refl
contains-keys c ((j, q) ∷ d) = ground (arith, contains-keys c d)

keys-insert :
    (c k : ℕ) (p : Property) (d : Dict ℕ Property)
    → contains c (keys (insert k p d)) ≡ (c == k || contains c (keys d))
keys-insert c k p [] = refl
keys-insert c k p ((j, q) ∷ d) =
    ground (arith, ==_iff c k, ==_iff k j, ==_iff c j, keys-insert c k p d)

insert-Distinct :
    (k : ℕ) (p : Property) (d : Dict ℕ Property)
    → Distinct (keys d)
    → Distinct (keys (insert k p d))
insert-Distinct k p [] h = (refl, tt)
insert-Distinct k p ((j, q) ∷ d) h =
    ground (arith, ==_iff k j, ==_iff j k, keys-insert j k p d, insert-Distinct k p d h.1)

enter-Distinct :
    (ps : List Property) (d : Dict ℕ Property) → Distinct (keys d) → Distinct (keys (enter d ps))
unfolding enter
enter-Distinct [] d h = h
enter-Distinct (p ∷ ps) d h = enter-Distinct ps (insert p.code p d) (insert-Distinct p.code p d h)

contains-insert_sorted :
    (c k : ℕ) (ks : List ℕ) → contains c (insert_sorted k ks) ≡ (c == k || contains c ks)
contains-insert_sorted c k [] = refl
contains-insert_sorted c k (j ∷ ks) = ground (arith, contains-insert_sorted c k ks)

contains-sorted : (c : ℕ) (ks : List ℕ) → contains c (sorted ks) ≡ contains c ks
contains-sorted c [] = refl
contains-sorted c (k ∷ ks) =
    contains-insert_sorted c k (sorted ks) ∙ ap (λ b. c == k || b) (contains-sorted c ks)

All-lt_mono : (a b : ℕ) (ks : List ℕ) → a < b → All (λ k. b < k) ks → All (λ k. a < k) ks
All-lt_mono a b [] h hs = tt
All-lt_mono a b (k ∷ ks) h hs = (omega (arith, hs.0), All-lt_mono a b ks h hs.1)

All-lt-insert_sorted :
    (a k : ℕ) (ks : List ℕ) → a < k → All (λ j. a < j) ks → All (λ j. a < j) (insert_sorted k ks)
All-lt-insert_sorted a k [] h hs = (h, tt)
All-lt-insert_sorted a k (j ∷ ks) h hs = elim (Bool-cases (leb k j)) [
  | inl le ↦ rw le (h, hs)
  | inr gt ↦ rw gt (hs.0, All-lt-insert_sorted a k ks h hs.1)
]

insert_sorted-IsAscending :
    (k : ℕ) (ks : List ℕ)
    → contains k ks ≡ false
    → IsAscending ks
    → IsAscending (insert_sorted k ks)
insert_sorted-IsAscending k [] new h = (tt, tt)
insert_sorted-IsAscending k (j ∷ ks) new h = elim (Bool-cases (leb k j)) [
  | inl le ↦
      let below : k < j = ground (arith, ==_iff k j) in
      rw le ((below, All-lt_mono k j ks below h.0), h)
  | inr gt ↦ rw gt (
    All-lt-insert_sorted j k ks (ground arith) h.0,
    insert_sorted-IsAscending k ks (ground arith) h.1,
  )
]

sorted-IsAscending : (ks : List ℕ) → Distinct ks → IsAscending (sorted ks)
sorted-IsAscending [] h = tt
sorted-IsAscending (k ∷ ks) h =
    insert_sorted-IsAscending k (sorted ks) (contains-sorted k ks ∙ h.0) (sorted-IsAscending ks h.1)

-- What a snapshot is to the list of properties that it was made of.
pub record IsSnapshotOf (ps : List Property) (s : PropertySnapshot) : Type 0 where
  looks_up : (code : ℕ) → get_item s code ≡ last_of code none ps
  ascending : IsAscending (codes s)
  all_codes : (code : ℕ) → contains code (codes s) ≡ has_code s code

-- A snapshot of a list of properties holds for each code the last property of the list that has
-- it, or nothing where none has it. Its codes are in ascending order with none twice, and a code
-- is among them exactly where the snapshot has it.
pub snapshot-IsSnapshotOf :
    (ps : List Property) (timestamp_ms : ℕ) → IsSnapshotOf ps (snapshot ps timestamp_ms)
unfolding snapshot get_item codes has_code
snapshot-IsSnapshotOf ps timestamp_ms = record {
  looks_up = λ code. enter-lookup ps code [];
  ascending = sorted-IsAscending (keys (enter [] ps)) (enter-Distinct ps [] tt);
  all_codes = λ code. contains-sorted code (keys (enter [] ps)) ∙ contains-keys code (enter [] ps);
}
