-- ===== src/Sql/Locks/Agrees.antt =====
-- What the entry of a table of goods_db/src/sql/lock_manager.cpp says of the modes that are held.
use goods_db.Prelude.{
  ◌+◌, ◌-◌, ◌<◌, ◌≡◌, ◌≢◌, refl, Bool, true, false, List, [], ◌∷◌, ◌++◌, Option, none, some, arith,
  leb, if◌then◌else◌, length, Bool-cases, inl, inr, ap, sym, ◌∙◌, subst, length-append,
}
use goods_db.Sql.Locks.{
  LockMode, LockEntry, is_exclusive, modes_compatible, new_entry, exclusive, shared,
  intention_shared, intention_exclusive, shared_intention_exclusive,
}
use goods_db.Sql.Locks.Table.{entry_after, may_grant, entry_released}

abbrev pub has_exclusive : List LockMode → Bool
has_exclusive [] = false
has_exclusive (m ∷ l) = if is_exclusive m then true else has_exclusive l

-- The entry of a table counts its holders, and an exclusive holder is alone.
pub data Agrees : Option LockEntry → List LockMode → Type 0 where
  free : Agrees none []
  exclusive_held :
      (e : LockEntry) → e.mode ≡ exclusive → e.count ≡ 1 → Agrees (some e) (exclusive ∷ [])
  shared_held :
      (e : LockEntry) (l : List LockMode)
      → is_exclusive e.mode ≡ false
      → e.count ≡ length l
      → 0 < length l
      → has_exclusive l ≡ false
      → Agrees (some e) l

compatible_exclusive :
    (held mode : LockMode) → modes_compatible held mode ≡ true → is_exclusive mode ≡ false
unfolding modes_compatible
compatible_exclusive shared exclusive h = absurd (cc h)
compatible_exclusive exclusive exclusive h = absurd (cc h)
compatible_exclusive intention_shared exclusive h = absurd (cc h)
compatible_exclusive intention_exclusive exclusive h = absurd (cc h)
compatible_exclusive shared_intention_exclusive exclusive h = absurd (cc h)
compatible_exclusive held shared h = refl
compatible_exclusive held intention_shared h = refl
compatible_exclusive held intention_exclusive h = refl
compatible_exclusive held shared_intention_exclusive h = refl

held_exclusive : (held mode : LockMode) → modes_compatible held mode ≡ true → held ≢ exclusive
unfolding modes_compatible
held_exclusive held mode h e = absurd (cc (subst (λ x. modes_compatible x mode ≡ true) e h))

new_entry-Agrees : (mode : LockMode) → Agrees (some (new_entry mode)) (mode ∷ [])
new_entry-Agrees exclusive = exclusive_held (new_entry exclusive) refl refl
new_entry-Agrees shared = shared_held (new_entry shared) (shared ∷ []) refl refl (omega arith) refl
new_entry-Agrees intention_shared =
    shared_held (new_entry intention_shared) (intention_shared ∷ []) refl refl (omega arith) refl
new_entry-Agrees intention_exclusive =
    shared_held (new_entry intention_exclusive) (intention_exclusive ∷ []) refl refl (omega arith)
      refl
new_entry-Agrees shared_intention_exclusive =
    shared_held (new_entry shared_intention_exclusive) (shared_intention_exclusive ∷ []) refl refl
      (omega arith) refl

pub grant-Agrees :
    (o : Option LockEntry) (l : List LockMode) (mode : LockMode)
    → Agrees o l
    → may_grant o mode ≡ true
    → Agrees (some (entry_after o mode)) (mode ∷ l)
grant-Agrees o l mode free h = new_entry-Agrees mode
grant-Agrees o l mode (exclusive_held e x c) h = absurd (held_exclusive e.mode mode h x)
grant-Agrees o l mode (shared_held e k x c n none_x) h =
    let ok = compatible_exclusive e.mode mode h in
    shared_held (record e { count = e.count + 1 }) (mode ∷ k) x (omega (arith, c)) (omega arith)
      (rw ok none_x)

has_exclusive-remove :
    (l r : List LockMode) (mode : LockMode)
    → has_exclusive (l ++ mode ∷ r) ≡ false
    → has_exclusive (l ++ r) ≡ false
has_exclusive-remove [] r mode h = ground arith
has_exclusive-remove (x ∷ l) r mode h = elim (Bool-cases (is_exclusive x)) [
  | inl yes_x ↦ absurd (ground arith)
  | inr not_x ↦ rw not_x (has_exclusive-remove l r mode (ground arith))
]

length-remove :
    (l r : List LockMode) (mode : LockMode) → length (l ++ mode ∷ r) ≡ length (l ++ r) + 1
length-remove l r mode = omega (arith, length-append l (mode ∷ r), length-append l r)

empty-Agrees : (l : List LockMode) → length l ≡ 0 → Agrees none l
empty-Agrees [] h = free
empty-Agrees (x ∷ l) h = absurd (omega (arith, h))

pub release-Agrees :
    (o : Option LockEntry) (k l r : List LockMode) (mode : LockMode)
    → Agrees o k
    → k ≡ l ++ mode ∷ r
    → Agrees (entry_released o) (l ++ r)
release-Agrees o k l r mode free e = absurd (omega (arith, ap length e, length-remove l r mode))
release-Agrees o k l r mode (exclusive_held x m c) e =
    let gone : length (l ++ r) ≡ 0 = omega (arith, ap length e, length-remove l r mode) in
    rw c (empty-Agrees (l ++ r) gone)
release-Agrees o k l r mode (shared_held x k' m c n none_x) e =
    let size = length-remove l r mode in
    let same = ap length e in
    elim (Bool-cases (leb x.count 1)) [
      | inl last ↦ rw last (empty-Agrees (l ++ r) (ground (arith, size, same, c)))
      | inr more ↦ rw more (
          shared_held (record x { count = x.count - 1 }) (l ++ r) m (ground (arith, size, same, c))
            (ground (arith, size, same, c))
            (has_exclusive-remove l r mode (subst (λ q. has_exclusive q ≡ false) e none_x)))
    ]

pub alone :
    (o : Option LockEntry) (l : List LockMode)
    → Agrees o l
    → has_exclusive l ≡ true
    → l ≡ exclusive ∷ []
alone o l free h = absurd (cc h)
alone o l (exclusive_held e x c) h = refl
alone o l (shared_held e k x c n none_x) h = absurd (cc (sym h ∙ none_x))

pub counted :
    (o : Option LockEntry) (l : List LockMode)
    → Agrees o l
    → length l ≡ elim o [ none ↦ 0 | some e ↦ e.count ]
counted o l free = refl
counted o l (exclusive_held e x c) = sym c
counted o l (shared_held e k x c n none_x) = sym c
