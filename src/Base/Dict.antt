-- ===== src/Base/Dict.antt =====
-- A Python dict as an association list in insertion order.
use mathlib.Core.Path.{◌≡◌, refl}
use mathlib.Core.Bool.{Bool, true, false}
use mathlib.Core.Logic.{◌≢◌}
use mathlib.Core.Option.{Option, none, some}
use mathlib.Core.List.{List, [], ◌∷◌}
use native.Mathlib.Omega.{arith}
use cr_sdkpy.Base.Tests.{if◌then◌else◌}
use cr_sdkpy.Base.Identity.{Identity}
use cr_sdkpy.Base.Lists.{All}

abbrev pub Dict : Type 0 → Type 0 → Type 0
Dict K V = List (K × V)

module _ {K V : Type 0} ⦃i : Identity K⦄ where
  -- `d.get(k)`
  abbrev pub lookup : K → Dict K V → Option V
  lookup k [] = none
  lookup k ((j, v) ∷ d) = if i.same k j then some v else lookup k d

  -- `k in d`
  abbrev pub has_key : K → Dict K V → Bool
  has_key k d = elim (lookup k d) [ none ↦ false | some _ ↦ true ]

  -- `d[k] = v`
  abbrev pub insert : K → V → Dict K V → Dict K V
  insert k v [] = (k, v) ∷ []
  insert k v ((j, w) ∷ d) = if i.same k j then (j, v) ∷ d else (j, w) ∷ insert k v d

  -- `d.pop(k, None)`
  abbrev pub erase : K → Dict K V → Dict K V
  erase k [] = []
  erase k ((j, w) ∷ d) = if i.same k j then d else (j, w) ∷ erase k d

  pub lookup-insert_self : (k : K) (v : V) (d : Dict K V) → lookup k (insert k v d) ≡ some v
  lookup-insert_self k v [] = ground (arith, i.same_iff k k)
  lookup-insert_self k v ((j, w) ∷ d) = ground (arith, lookup-insert_self k v d)

  pub lookup-insert_ne :
      (j k : K) (v : V) (d : Dict K V) → j ≢ k → lookup j (insert k v d) ≡ lookup j d
  lookup-insert_ne j k v [] h = ground (arith, i.same_iff j k)
  lookup-insert_ne j k v ((m, w) ∷ d) h =
      ground (arith, i.same_iff j k, i.same_iff j m, i.same_iff k m, lookup-insert_ne j k v d h)

-- Keys, and what an insertion and a removal do to them, whatever the values.
abbrev pub keys : {K V : Type 0} → Dict K V → List K
keys [] = []
keys ((k, v) ∷ d) = k ∷ keys d

module _ {K : Type 0} ⦃i : Identity K⦄ where
  abbrev pub enter_key : K → List K → List K
  enter_key k [] = k ∷ []
  enter_key k (j ∷ ks) = if i.same k j then j ∷ ks else j ∷ enter_key k ks

  abbrev pub drop_key : K → List K → List K
  drop_key k [] = []
  drop_key k (j ∷ ks) = if i.same k j then ks else j ∷ drop_key k ks

  pub keys-insert :
      {V : Type 0} (k : K) (v : V) (d : Dict K V) → keys (insert k v d) ≡ enter_key k (keys d)
  keys-insert k v [] = refl
  keys-insert k v ((j, w) ∷ d) = ground (arith, keys-insert k v d)

  pub keys-erase : {V : Type 0} (k : K) (d : Dict K V) → keys (erase k d) ≡ drop_key k (keys d)
  keys-erase k [] = refl
  keys-erase k ((j, w) ∷ d) = ground (arith, keys-erase k d)

  pick-All :
      (Q : K → Type 0) (b : Bool) (xs ys : List K)
      → All Q xs
      → All Q ys
      → All Q (if b then xs else ys)
  pick-All Q true xs ys p q = p
  pick-All Q false xs ys p q = q

  pub enter_key-All :
      (Q : K → Type 0) (k : K) (ks : List K) → Q k → All Q ks → All Q (enter_key k ks)
  enter_key-All Q k [] q qs = (q, tt)
  enter_key-All Q k (j ∷ ks) q qs =
      pick-All Q (i.same k j) (j ∷ ks) (j ∷ enter_key k ks) qs (qs.0, enter_key-All Q k ks q qs.1)

  pub drop_key-All : (Q : K → Type 0) (k : K) (ks : List K) → All Q ks → All Q (drop_key k ks)
  drop_key-All Q k [] qs = tt
  drop_key-All Q k (j ∷ ks) qs =
      pick-All Q (i.same k j) ks (j ∷ drop_key k ks) qs.1 (qs.0, drop_key-All Q k ks qs.1)
