-- ===== src/Base/Words.antt =====
-- The bytes of a `u32`.
use Prim.Native.Nat.{ℕ, ◌+◌, ◌*◌, ◌/◌, ◌%◌, ◌^◌, ◌<◌}
use mathlib.Core.Path.{◌≡◌}
use mathlib.Core.List.{List, [], ◌∷◌}
use native.Mathlib.Omega.{arith}

-- `(n as u32).to_be_bytes()`
unfoldable pub u32_be : ℕ → List ℕ
u32_be n = n / 2 ^ 24 % 256 ∷ n / 2 ^ 16 % 256 ∷ n / 2 ^ 8 % 256 ∷ n % 256 ∷ []

-- `u32::from_be_bytes`
unfoldable pub from_be : ℕ → ℕ → ℕ → ℕ → ℕ
from_be a b c d = a * 2 ^ 24 + b * 2 ^ 16 + c * 2 ^ 8 + d

-- `(n as u32).to_le_bytes()`
unfoldable pub u32_le : ℕ → List ℕ
u32_le n = n % 256 ∷ n / 2 ^ 8 % 256 ∷ n / 2 ^ 16 % 256 ∷ n / 2 ^ 24 % 256 ∷ []

-- A number that fits is read back.
pub from_be-u32_be :
    (n : ℕ)
    → n < 2 ^ 32
    → from_be (n / 2 ^ 24 % 256) (n / 2 ^ 16 % 256) (n / 2 ^ 8 % 256) (n % 256) ≡ n
unfolding from_be
from_be-u32_be n lt = omega arith
