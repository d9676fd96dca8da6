-- ===== src/Base/Identity.antt =====
-- Equality of keys and of the members of enumerations, as an interface.
use Prim.Native.Nat.{ℕ}
use Prim.Native.String.{String}
use mathlib.Core.Path.{◌≡◌}
use mathlib.Core.Logic.{◌↔◌}
use mathlib.Core.Bool.{Bool, true, false, ◌||◌}
use mathlib.Core.List.{List, [], ◌∷◌}
use text.Mathlib.Text.{◌==◌ as str_eq}
use text.Mathlib.TextEquality.{eq_iff}
use cr_sdkpy.Base.Tests.{◌==◌, ==_iff}

pub record Identity (A : Type 0) : Type 0 where
  pub same : A → A → Bool
  pub same_iff : (a b : A) → (same a b ≡ true) ↔ (a ≡ b)

-- Python's `is` on the members of an enumeration, `==` on keys.
infix 50 ◌is◌
abbrev pub ◌is◌ : {A : Type 0} ⦃i : Identity A⦄ → A → A → Bool
◌is◌ ⦃i⦄ = i.same

instance abbrev pub nat_identity : Identity ℕ
nat_identity = record { same = ◌==◌; same_iff = ==_iff }

instance abbrev pub string_identity : Identity String
string_identity = record { same = str_eq; same_iff = eq_iff }

-- `x in xs`
module _ {A : Type 0} ⦃i : Identity A⦄ where
  abbrev pub contains : A → List A → Bool
  contains x [] = false
  contains x (y ∷ ys) = i.same x y || contains x ys
