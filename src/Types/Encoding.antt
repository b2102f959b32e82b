-- ===== src/Types/Encoding.antt =====
-- Byte strings: little-endian integers, and reading from the front of a buffer.
use goods_db.Prelude.{
  ℕ, zero, suc, ◌+◌, ◌*◌, ◌/◌, ◌%◌, ◌^◌, ◌<◌, ◌≡◌, refl, List, [], ◌∷◌, ◌++◌, Option, none, some,
  arith, length, ap,
}

infixl 5 ◌>>=◌
abbrev pub ◌>>=◌ {ℓ κ} : {A : Type ℓ} {B : Type κ} → Option A → (A → Option B) → Option B
none >>= f = none
some a >>= f = f a

-- The `n` bytes of an integer.
unfoldable pub to_bytes : ℕ → ℕ → List ℕ
to_bytes zero v = []
to_bytes (suc n) v = v % 256 ∷ to_bytes n (v / 256)

unfoldable pub from_bytes : List ℕ → ℕ
from_bytes [] = 0
from_bytes (b ∷ l) = b + 256 * from_bytes l

-- The next `n` bytes and what follows them, if there are so many.
unfoldable pub split_at : ℕ → List ℕ → Option (List ℕ × List ℕ)
split_at zero l = some ([], l)
split_at (suc n) [] = none
split_at (suc n) (b ∷ l) = split_at n l >>= λ r. some (b ∷ r.0, r.1)

pub split_at-append : (a r : List ℕ) → split_at (length a) (a ++ r) ≡ some (a, r)
unfolding split_at
split_at-append [] r = refl
split_at-append (b ∷ a) r = rw (split_at-append a r) refl

pub from_bytes-to_bytes2 : (v : ℕ) → v < 65536 → from_bytes (to_bytes 2 v) ≡ v
unfolding from_bytes to_bytes
from_bytes-to_bytes2 v h = omega arith

pub from_bytes-to_bytes4 : (v : ℕ) → v < 2 ^ 32 → from_bytes (to_bytes 4 v) ≡ v
unfolding from_bytes to_bytes
from_bytes-to_bytes4 v h = omega arith

pub split_at-to_bytes :
    (n v : ℕ) (r : List ℕ) → split_at n (to_bytes n v ++ r) ≡ some (to_bytes n v, r)
unfolding split_at to_bytes
split_at-to_bytes zero v r = refl
split_at-to_bytes (suc n) v r = rw (split_at-to_bytes n (v / 256) r) refl

pub split_at-one : (b : ℕ) (r : List ℕ) → split_at 1 (b ∷ r) ≡ some (b ∷ [], r)
unfolding split_at
split_at-one b r = refl

pub from_bytes-one : (b : ℕ) → from_bytes (b ∷ []) ≡ b
unfolding from_bytes
from_bytes-one b = omega arith

-- The numbers of `n` bytes.
abbrev pub limit : ℕ → ℕ
limit zero = 1
limit (suc n) = 256 * limit n

pub length-to_bytes : (n v : ℕ) → length (to_bytes n v) ≡ n
unfolding to_bytes
length-to_bytes zero v = refl
length-to_bytes (suc n) v = ap suc (length-to_bytes n (v / 256))

pub from_bytes-to_bytes : (n v : ℕ) → v < limit n → from_bytes (to_bytes n v) ≡ v
unfolding from_bytes to_bytes
from_bytes-to_bytes zero v h = omega arith
from_bytes-to_bytes (suc n) v h = omega (arith, from_bytes-to_bytes n (v / 256) (omega arith))
