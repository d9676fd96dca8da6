-- ===== src/Capabilities/Missing.antt =====
-- src/crsdkpy/capabilities.py: what `missing` reports, against the look-ups.
use Prim.Native.String.{String}
use native.Mathlib.Omega.{arith}
use cr_sdkpy.Base.{
  Bool, true, false, not, ◌&&◌, ◌||◌, List, [], ◌∷◌, ◌++◌, map, contains, select, string_identity,
  ◌≡◌, ◌↔◌, refl, ap, ◌∙◌,
}
use cr_sdkpy.Base.Dict.{Dict, has_key}
use cr_sdkpy.Capabilities.{SessionCapabilities, fields, get, names, names_capability, missing}

same_answer :
    (p : String → Bool) (name x : String) → string_identity.same name x ≡ true → p name ≡ p x
same_answer p name x h = ap p ((string_identity.same_iff name x).0 h)

contains-select :
    (p : String → Bool) (name : String) (xs : List String)
    → contains name (select p xs) ≡ (contains name xs && p name)
contains-select p name [] = refl
contains-select p name (x ∷ xs) = ground (arith, contains-select p name xs, same_answer p name x)

contains-keys :
    (name : String) (d : Dict String Bool)
    → contains name (map (λ entry. entry.0) d) ≡ has_key name d
contains-keys name [] = refl
contains-keys name (x ∷ d) = ground (arith, contains-keys name d)

contains-append :
    (name : String) (d e : Dict String Bool)
    → contains name (map (λ entry. entry.0) (d ++ e)) ≡ (has_key name d || has_key name e)
contains-append name [] e = contains-keys name e
contains-append name (x ∷ d) e = ground (arith, contains-append name d e)

or_by_last : (a b : Bool) → (a || b) ≡ (elim b [ true ↦ true | false ↦ a ])
or_by_last true true = refl
or_by_last true false = refl
or_by_last false true = refl
or_by_last false false = refl

names-contains :
    (c : SessionCapabilities) (name : String) → contains name (names c) ≡ names_capability c name
unfolding names names_capability
names-contains c name =
    contains-append name (fields c) c.extra
    ∙ or_by_last (has_key name (fields c)) (has_key name c.extra)

missing-contains :
    (c : SessionCapabilities) (name : String)
    → contains name (missing c) ≡ (names_capability c name && not (get c name false))
unfolding missing
missing-contains c name =
    contains-select (λ n. not (get c n false)) name (names c)
    ∙ ap (λ b. b && not (get c name false)) (names-contains c name)

both_iff : (a b d : Bool) → a ≡ (b && not d) → (a ≡ true) ↔ ((b ≡ true) × (d ≡ false))
both_iff a b d h = ground arith

-- A capability is reported missing exactly where the session names it, as a field or as an extra,
-- and get answers false for it.
pub missing_iff :
    (c : SessionCapabilities) (name : String)
    → (contains name (missing c) ≡ true)
      ↔ ((names_capability c name ≡ true) × (get c name false ≡ false))
missing_iff c name =
    both_iff (contains name (missing c)) (names_capability c name) (get c name false)
      (missing-contains c name)
