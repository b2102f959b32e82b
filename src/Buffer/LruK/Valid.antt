-- ===== src/Buffer/LruK/Valid.antt =====
-- The invariant of LRU-K, and what its calls keep.
use goods_db.Prelude.{
  ℕ, zero, suc, ◌+◌, ◌-◌, ◌≤◌, ◌≡◌, refl, Bool, true, false, List, [], ◌∷◌, none, some, arith, ltb,
  ◌==◌, if◌then◌else◌, inl, inr, ◌∙◌, sym, ap, Bool-cases, length, take, ◌≢◌,
}
use goods_db.Prelude.Assoc.{
  lookup, erase, put, lookup-erase, lookup-put, Distinct, erase-Distinct, put-Distinct,
  erase_absent, length-erase,
}
use goods_db.Buffer.LruK.{
  LrukReplacer, init, history, pop_back, push_access, record_access, remove_victim, holds, pin,
  unpin,
}

pop_back-take : (h : List ℕ) (n : ℕ) → length h ≡ suc n → pop_back h ≡ take n h
unfolding pop_back
pop_back-take [] n e = absurd (omega arith)
pop_back-take (x ∷ []) n e = let z : n ≡ 0 = omega arith in rw z
pop_back-take (x ∷ y ∷ l) zero e = absurd (omega arith)
pop_back-take (x ∷ y ∷ l) (suc n) e = ap (◌∷◌ x) (pop_back-take (y ∷ l) n (omega arith))

take_of_length-le {ℓ} : {A : Type ℓ} (n : ℕ) (l : List A) → length l ≤ n → take n l ≡ l
take_of_length-le zero [] h = refl
take_of_length-le zero (x ∷ l) h = absurd (omega arith)
take_of_length-le (suc n) [] h = refl
take_of_length-le (suc n) (x ∷ l) h = ap (◌∷◌ x) (take_of_length-le n l (omega arith))

-- An access recorded in a history of at most `k` entries leaves the `k` most recent accesses.
pub push_access-take : (k t : ℕ) (h : List ℕ) → length h ≤ k → push_access k t h ≡ take k (t ∷ h)
unfolding push_access
push_access-take k t h b = elim (Bool-cases (ltb k (length (t ∷ h)))) [
  | inl e ↦ rw e (pop_back-take (t ∷ h) k (ground arith))
  | inr e ↦ rw e (sym (take_of_length-le k (t ∷ h) (ground arith)))
]

length-take-le {ℓ} : {A : Type ℓ} (n : ℕ) (l : List A) → length (take n l) ≤ n
length-take-le zero l = omega arith
length-take-le (suc n) [] = omega arith
length-take-le (suc n) (x ∷ l) = omega (arith, length-take-le n l)

pub record IsValid (s : LrukReplacer) : Type 0 where
  pub distinct : Distinct s.evictable
  pub flags : (f : ℕ) → lookup f s.evictable ≢ some false
  pub counted : s.curr_size ≡ length s.evictable
  pub short : (f : ℕ) → length (history s f) ≤ s.k

pub init-IsValid : (k : ℕ) → IsValid (init k)
unfolding init lookup history
init-IsValid k = ground arith

history-record_access :
    (s : LrukReplacer) (f g : ℕ)
    → history (record_access s f) g
      ≡ (if f == g then push_access s.k (s.curr_timestamp + 1) (history s f) else history s g)
unfolding history record_access
history-record_access s f g =
    ground (
      arith,
      lookup-put f g (push_access s.k (s.curr_timestamp + 1) (history s f)) s.access_history,
    )

record_access-short :
    (s : LrukReplacer) (f g : ℕ) → IsValid s → length (history (record_access s f) g) ≤ s.k
record_access-short s f g v = ground (
  arith,
  history-record_access s f g,
  push_access-take s.k (s.curr_timestamp + 1) (history s f),
  length-take-le s.k ((s.curr_timestamp + 1) ∷ history s f),
  v.short f,
  v.short g,
)

record_access-IsValid : (s : LrukReplacer) (f : ℕ) → IsValid s → IsValid (record_access s f)
record_access-IsValid s f v =
    unfold record_access in
    record {
      distinct = v.distinct;
      flags = v.flags;
      counted = v.counted;
      short = λ g. record_access-short s f g v;
    }

holds-some :
    (s : LrukReplacer) (f : ℕ) → holds s f ≡ true → (b : Bool) × (lookup f s.evictable ≡ some b)
unfolding holds
holds-some s f h = ground arith

drop-IsValid :
    (s : LrukReplacer) (f : ℕ)
    → IsValid s
    → holds s f ≡ true
    → IsValid (record s { evictable = erase f s.evictable; curr_size = s.curr_size - 1 })
unfolding history
drop-IsValid s f v h =
    let (b, found) = holds-some s f h in
    record {
      distinct = erase-Distinct f s.evictable v.distinct;
      flags = λ g e. v.flags g (ground (arith, lookup-erase f g s.evictable));
      counted = omega (arith, v.counted, length-erase f s.evictable b v.distinct found);
      short = v.short;
    }

pub pin-IsValid : (s : LrukReplacer) (f : ℕ) → IsValid s → IsValid (pin s f)
unfolding pin
pin-IsValid s f v = elim (Bool-cases (holds (record_access s f) f)) [
  | inl h ↦ rw h (drop-IsValid (record_access s f) f (record_access-IsValid s f v) h)
  | inr h ↦ rw h (record_access-IsValid s f v)
]

add-IsValid :
    (s : LrukReplacer) (f : ℕ)
    → IsValid s
    → holds s f ≡ false
    → IsValid (record s { evictable = put f true s.evictable; curr_size = s.curr_size + 1 })
unfolding history put
add-IsValid s f v h =
    let absent : lookup f s.evictable ≡ none = unfold holds in ground arith in
    record {
      distinct = put-Distinct f true s.evictable v.distinct;
      flags = λ g e. v.flags g (ground (arith, lookup-put f g true s.evictable));
      counted = omega (arith, v.counted, ap length (erase_absent f s.evictable absent));
      short = v.short;
    }

holds-record_access : (s : LrukReplacer) (f g : ℕ) → holds (record_access s f) g ≡ holds s g
unfolding holds record_access
holds-record_access s f g = refl

pub unpin-IsValid : (s : LrukReplacer) (f : ℕ) → IsValid s → IsValid (unpin s f)
unfolding unpin
unpin-IsValid s f v = elim (Bool-cases (holds s f)) [
  | inl h ↦ rw h v
  | inr h ↦ rw h (
      add-IsValid (record_access s f) f (record_access-IsValid s f v)
        (holds-record_access s f f ∙ h))
]

history-erase_le :
    (s : LrukReplacer) (f g : ℕ) → IsValid s → length (history (remove_victim s f) g) ≤ s.k
unfolding history remove_victim
history-erase_le s f g v = ground (arith, lookup-erase f g s.access_history, v.short g)

pub remove_victim-IsValid :
    (s : LrukReplacer) (f : ℕ) → IsValid s → holds s f ≡ true → IsValid (remove_victim s f)
remove_victim-IsValid s f v h =
    let d = drop-IsValid s f v h in
    let short' : (g : ℕ) → length (history (remove_victim s f) g) ≤ s.k =
      λ g. history-erase_le s f g v in
    unfold remove_victim in
    record { distinct = d.distinct; flags = d.flags; counted = d.counted; short = short' }

-- A valid map holds a frame exactly with the flag set.
pub holds-lookup :
    (s : LrukReplacer) (f : ℕ) → IsValid s → holds s f ≡ true → lookup f s.evictable ≡ some true
holds-lookup s f v h =
    let (b, found) = holds-some s f h in
    elim (Bool-cases b) [ inl e ↦ rw e at found | inr e ↦ absurd (v.flags f (rw e at found)) ]
