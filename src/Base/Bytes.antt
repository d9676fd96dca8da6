-- ===== src/Base/Bytes.antt =====
-- Bytes as numbers below 256, and the fixed-width integers of Python's `struct` module:
-- little-endian for the wire protocol, big-endian for JPEG segments.
use Prim.Native.Nat.{ℕ, zero, suc, ◌+◌, ◌*◌, ◌/◌, ◌%◌, ◌^◌, ◌<◌}
use mathlib.Core.Path.{◌≡◌}
use mathlib.Core.List.{List, [], ◌∷◌, ◌++◌}
use native.Mathlib.Omega.{arith}
use native.Mathlib.Nat.{pow-suc}
use cr_sdkpy.Base.Lists.{All}

abbrev pub IsByte : ℕ → Type 0
IsByte b = b < 256

-- `struct.pack("<...", n)` into `k` bytes.
abbrev pub le_bytes : ℕ → ℕ → List ℕ
le_bytes zero n = []
le_bytes (suc k) n = (n % 256) ∷ le_bytes k (n / 256)

-- `struct.unpack("<...", bytes)`
abbrev pub from_le : List ℕ → ℕ
from_le [] = 0
from_le (b ∷ bs) = b + 256 * from_le bs

-- `struct.unpack(">H", bytes)` on its two bytes.
abbrev pub from_be16 : ℕ → ℕ → ℕ
from_be16 high low = 256 * high + low

pub from_le-le_bytes : (k n : ℕ) → n < 256 ^ k → from_le (le_bytes k n) ≡ n
from_le-le_bytes zero n h = omega arith
from_le-le_bytes (suc k) n h =
    omega (arith, from_le-le_bytes k (n / 256) (omega (arith, pow-suc 256 k)))

pub All-append {ℓ κ} :
    {A : Type ℓ} (P : A → Type κ) (xs ys : List A) → All P xs → All P ys → All P (xs ++ ys)
All-append P [] ys h k = k
All-append P (x ∷ xs) ys h k = (h.0, All-append P xs ys h.1 k)
