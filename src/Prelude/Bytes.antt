-- ===== src/Prelude/Bytes.antt =====
-- Raw memory as a function from offsets to bytes, and the `memcpy` of little-endian integers.
use Prim.Native.Nat.{ℕ, zero, suc, ◌+◌, ◌-◌, ◌*◌, ◌/◌, ◌%◌, ◌^◌, ◌≤◌, ◌<◌}
use mathlib.Core.Path.{◌≡◌, refl, ◌∙◌, ap, fun_ext}
use mathlib.Core.List.{List, [], ◌∷◌, ◌++◌}
use mathlib.Core.Bool.{◌&&◌}
use mathlib.Core.Logic.{◌⊎◌, inl, inr}
use native.Mathlib.Omega.{arith}
use goods_db.Prelude.Tests.{◌==◌, ltb, leb, if◌then◌else◌, Bool-cases}
use goods_db.Prelude.Lists.{length, get_or, length-append, get_or-append_left, get_or-append_right}

abbrev pub Bytes : Type 0
Bytes = ℕ → ℕ

-- `memset(p, 0, …)`
abbrev pub zeros : Bytes
zeros i = 0

unfoldable pub read_u16 : Bytes → ℕ → ℕ
read_u16 m o = m o + 256 * m (o + 1)

unfoldable pub write_u16 : Bytes → ℕ → ℕ → Bytes
write_u16 m o v i = if i == o then v % 256 else if i == o + 1 then v / 256 % 256 else m i

unfoldable pub read_u32 : Bytes → ℕ → ℕ
read_u32 m o = read_u16 m o + 65536 * read_u16 m (o + 2)

unfoldable pub write_u32 : Bytes → ℕ → ℕ → Bytes
write_u32 m o v = write_u16 (write_u16 m o (v % 65536)) (o + 2) (v / 65536)

-- `memcpy(m + o, l, l.size())`
unfoldable pub write_bytes : Bytes → ℕ → List ℕ → Bytes
write_bytes m o l i = if leb o i && ltb i (o + length l) then get_or l (i - o) 0 else m i

-- `n` bytes from offset `o`.
unfoldable pub read_bytes : Bytes → ℕ → ℕ → List ℕ
read_bytes m o zero = []
read_bytes m o (suc n) = m o ∷ read_bytes m (o + 1) n

pub read_u16-write_u16 : (m : Bytes) (o v : ℕ) → v < 65536 → read_u16 (write_u16 m o v) o ≡ v
unfolding read_u16 write_u16
read_u16-write_u16 m o v h = ground arith

pub read_u16-write_u16_ne :
    (m : Bytes) (o p v : ℕ)
    → (o + 2 ≤ p) ⊎ (p + 2 ≤ o)
    → read_u16 (write_u16 m o v) p ≡ read_u16 m p
unfolding read_u16 write_u16
read_u16-write_u16_ne m o p v h = ground arith

pub write_u16_ne : (m : Bytes) (o p v : ℕ) → (p < o) ⊎ (o + 2 ≤ p) → write_u16 m o v p ≡ m p
unfolding write_u16
write_u16_ne m o p v h = ground arith

pub read_u16-write_u32_ne :
    (m : Bytes) (o p v : ℕ)
    → (o + 4 ≤ p) ⊎ (p + 2 ≤ o)
    → read_u16 (write_u32 m o v) p ≡ read_u16 m p
unfolding write_u32
read_u16-write_u32_ne m o p v (inl h) =
    read_u16-write_u16_ne _ (o + 2) p (v / 65536) (inl (omega arith))
    ∙ read_u16-write_u16_ne m o p (v % 65536) (inl (omega arith))
read_u16-write_u32_ne m o p v (inr h) =
    read_u16-write_u16_ne _ (o + 2) p (v / 65536) (inr (omega arith))
    ∙ read_u16-write_u16_ne m o p (v % 65536) (inr h)

pub read_u32-write_u32 : (m : Bytes) (o v : ℕ) → v < 2 ^ 32 → read_u32 (write_u32 m o v) o ≡ v
unfolding read_u32 write_u32
read_u32-write_u32 m o v h =
    let first = write_u16 m o (v % 65536) in
    let low : read_u16 (write_u16 first (o + 2) (v / 65536)) o ≡ v % 65536 =
      read_u16-write_u16_ne first (o + 2) o (v / 65536) (inr (omega arith))
      ∙ read_u16-write_u16 m o (v % 65536) (omega arith) in
    let high = read_u16-write_u16 first (o + 2) (v / 65536) (omega (arith, h)) in
    omega (arith, low, high)

pub read_u32-write_u32_ne :
    (m : Bytes) (o p v : ℕ)
    → (o + 4 ≤ p) ⊎ (p + 4 ≤ o)
    → read_u32 (write_u32 m o v) p ≡ read_u32 m p
unfolding read_u32
read_u32-write_u32_ne m o p v (inl h) = omega (
  arith,
  read_u16-write_u32_ne m o p v (inl h),
  read_u16-write_u32_ne m o (p + 2) v (inl (omega arith)),
)
read_u32-write_u32_ne m o p v (inr h) = omega (
  arith,
  read_u16-write_u32_ne m o p v (inr (omega arith)),
  read_u16-write_u32_ne m o (p + 2) v (inr (omega arith)),
)

pub write_bytes_ne :
    (m : Bytes) (o p : ℕ) (l : List ℕ) → (p < o) ⊎ (o + length l ≤ p) → write_bytes m o l p ≡ m p
unfolding write_bytes
write_bytes_ne m o p l h = ground arith

pub read_u16-write_bytes_ne :
    (m : Bytes) (o p : ℕ) (l : List ℕ)
    → (p + 2 ≤ o) ⊎ (o + length l ≤ p)
    → read_u16 (write_bytes m o l) p ≡ read_u16 m p
unfolding read_u16
read_u16-write_bytes_ne m o p l (inl h) = ground (
  arith,
  write_bytes_ne m o p l (inl (omega arith)),
  write_bytes_ne m o (p + 1) l (inl (omega arith)),
)
read_u16-write_bytes_ne m o p l (inr h) = ground (
  arith,
  write_bytes_ne m o p l (inr (omega arith)),
  write_bytes_ne m o (p + 1) l (inr (omega arith)),
)

-- Reading depends on the bytes of the range alone.
pub read_bytes_cong :
    (m w : Bytes) (o n : ℕ)
    → ((i : ℕ) → o ≤ i → i < o + n → m i ≡ w i)
    → read_bytes m o n ≡ read_bytes w o n
unfolding read_bytes
read_bytes_cong m w o zero h = refl
read_bytes_cong m w o (suc n) h = ground (
  arith,
  h o (omega arith) (omega arith),
  read_bytes_cong m w (o + 1) n (λ i a b. h i (omega arith) (omega arith)),
)

read_bytes_get :
    (m : Bytes) (o : ℕ) (l : List ℕ)
    → ((i : ℕ) → i < length l → m (o + i) ≡ get_or l i 0)
    → read_bytes m o (length l) ≡ l
unfolding read_bytes
read_bytes_get m o [] h = refl
read_bytes_get m o (x ∷ l) h =
    let first : m o ≡ x = ap m (let e : o ≡ o + 0 = omega arith in e) ∙ h 0 (omega arith) in
    let rest : read_bytes m (o + 1) (length l) ≡ l =
      read_bytes_get m (o + 1) l (λ i b.
        ap m (let e : o + 1 + i ≡ o + suc i = omega arith in e) ∙ h (suc i) (omega arith)) in
    cc

pub read_bytes-write_bytes :
    (m : Bytes) (o : ℕ) (l : List ℕ) → read_bytes (write_bytes m o l) o (length l) ≡ l
read_bytes-write_bytes m o l = read_bytes_get (write_bytes m o l) o l at_offset
  where
    at_offset : (i : ℕ) → i < length l → write_bytes m o l (o + i) ≡ get_or l i 0
    at_offset i h =
        let e : o + i - o ≡ i = omega arith in
        unfold write_bytes in ground (arith, ap (λ k. get_or l k 0) e)

-- A block of two parts is the second one and the first.
pub write_bytes-append :
    (m : Bytes) (o : ℕ) (a b : List ℕ)
    → write_bytes m o (a ++ b) ≡ write_bytes (write_bytes m (o + length a) b) o a
write_bytes-append m o a b = fun_ext at_byte
  where
    at_byte :
        (i : ℕ) → write_bytes m o (a ++ b) i ≡ write_bytes (write_bytes m (o + length a) b) o a i
    at_byte i = elim (Bool-cases (ltb i o)) [
      | inl before ↦ unfold write_bytes in ground arith
      | inr from ↦ elim (Bool-cases (ltb i (o + length a))) [
        | inl left ↦
            unfold write_bytes in
            ground (
              arith,
              length-append a b,
              get_or-append_left a b (i - o) 0 (ground (arith, from, left)),
            )
        | inr right ↦
            let e : i - o ≡ length a + (i - (o + length a)) = ground (arith, right) in
            unfold write_bytes in
            ground (
              arith,
              length-append a b,
              ap (λ k. get_or (a ++ b) k 0) e,
              get_or-append_right a b (i - (o + length a)) 0,
            )
      ]
    ]

-- What the two parts of a block read as.
pub read_bytes-write_bytes_left :
    (m : Bytes) (o : ℕ) (a b : List ℕ) → read_bytes (write_bytes m o (a ++ b)) o (length a) ≡ a
read_bytes-write_bytes_left m o a b =
    rw (write_bytes-append m o a b) (read_bytes-write_bytes (write_bytes m (o + length a) b) o a)

pub read_bytes-write_bytes_right :
    (m : Bytes) (o : ℕ) (a b : List ℕ)
    → read_bytes (write_bytes m o (a ++ b)) (o + length a) (length b) ≡ b
read_bytes-write_bytes_right m o a b = rw (write_bytes-append m o a b) (
    read_bytes_cong (write_bytes (write_bytes m (o + length a) b) o a)
      (write_bytes m (o + length a) b) (o + length a) (length b)
      (λ i from to. write_bytes_ne (write_bytes m (o + length a) b) o i a (inr from))
    ∙ read_bytes-write_bytes m (o + length a) b)

pub write_bytes-one :
    (m : Bytes) (o b p : ℕ) → write_bytes m o (b ∷ []) p ≡ (if p == o then b else m p)
write_bytes-one m o b p = elim (Bool-cases (p == o)) [
  | inl same ↦
      let e : p - o ≡ 0 = ground (arith, same) in
      unfold write_bytes in ground (arith, same, ap (λ k. get_or (b ∷ []) k 0) e)
  | inr other ↦ unfold write_bytes in ground (arith, other)
]
