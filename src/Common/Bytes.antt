-- ===== src/Common/Bytes.antt =====
-- Package encoding/binary: little- and big-endian bytes of unsigned numbers.
use Prim.Native.Nat.{ℕ, zero, suc, ◌+◌, ◌-◌, ◌*◌, ◌/◌, ◌%◌, ◌^◌, ◌<◌}
use mathlib.Core.Path.{◌≡◌, refl, ap}
use mathlib.Core.List.{List, [], ◌∷◌}
use native.Mathlib.Omega.{arith}
use xdp_invisible_armor.Common.Lists.{length, take, drop}

-- `PutUint32` is `le_bytes 4`, `PutUint64` is `le_bytes 8`.
unfoldable pub le_bytes : ℕ → ℕ → List ℕ
le_bytes zero v = []
le_bytes (suc k) v = (v % 256) ∷ le_bytes k (v / 256)

-- `Uint32` and `Uint64` of the bytes.
unfoldable pub from_le : List ℕ → ℕ
from_le [] = 0
from_le (b ∷ bs) = b + 256 * from_le bs

-- `As4()`: the bytes of an IPv4 address, the highest first.
unfoldable pub as4 : ℕ → List ℕ
as4 a = (a / 2 ^ 24 % 256) ∷ (a / 2 ^ 16 % 256) ∷ (a / 2 ^ 8 % 256) ∷ (a % 256) ∷ []

unfoldable pub from_be : List ℕ → ℕ
from_be (a ∷ b ∷ c ∷ d ∷ rest) = ((a * 256 + b) * 256 + c) * 256 + d
from_be _ = 0

-- `b[lo:hi]`
abbrev pub slice {ℓ} : {A : Type ℓ} → ℕ → ℕ → List A → List A
slice lo hi b = take (hi - lo) (drop lo b)

pub length-le_bytes : (k v : ℕ) → length (le_bytes k v) ≡ k
unfolding le_bytes
length-le_bytes zero v = refl
length-le_bytes (suc k) v = ap suc (length-le_bytes k (v / 256))

pub from_le-le_bytes : (k v : ℕ) → v < 256 ^ k → from_le (le_bytes k v) ≡ v
unfolding from_le le_bytes
from_le-le_bytes zero v h = omega arith
from_le-le_bytes (suc k) v h = omega (arith, from_le-le_bytes k (v / 256) (bound k v h))
  where
    bound : (k v : ℕ) → v < 256 ^ suc k → v / 256 < 256 ^ k
    bound k v h = omega arith

pub from_be-as4 : (a : ℕ) → a < 2 ^ 32 → from_be (as4 a) ≡ a
unfolding from_be as4
from_be-as4 a h = omega arith
