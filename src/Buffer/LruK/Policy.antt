-- ===== src/Buffer/LruK/Policy.antt =====
-- LRU-K keeps the promises of `Replacer`, and evicts a frame of the largest backward k-distance.
use goods_db.Prelude.{
  ℕ, ◌≤◌, ◌<◌, ◌≡◌, Bool, true, false, List, [], ◌∷◌, none, some, arith, ◌==◌, if◌then◌else◌, inl,
  inr, Bool-cases, Option-cases, length, subst,
}
use goods_db.Prelude.Assoc.{lookup, lookup-erase, lookup-put}
use goods_db.Buffer.Replacer.{Replacer}
use goods_db.Buffer.LruK.{
  LrukReplacer, record_access, get_k_distance, choose, remove_victim, victim, holds, pin, unpin,
}
use goods_db.Buffer.LruK.Choice.{AtLeast, choose_max, choose_from}
use goods_db.Buffer.LruK.Valid.{
  IsValid, pin-IsValid, unpin-IsValid, remove_victim-IsValid, holds-lookup,
}

-- What `Victim` does, when it succeeds and when it fails.
victim_found :
    (s : LrukReplacer) (f : ℕ)
    → (victim s).1 ≡ some f
    → (d : ℕ) × (choose (get_k_distance s) s.evictable none ≡ some (f, d))
      × ((victim s).0 ≡ remove_victim s f)
unfolding victim
victim_found s f e = elim (Option-cases (choose (get_k_distance s) s.evictable none)) [
  | inl missed ↦ absurd (ground arith)
  | inr ((g, d), found) ↦ elim (Bool-cases (s.curr_size == 0)) [
    | inl z ↦ absurd (ground arith)
    | inr z ↦
        let same : g ≡ f = ground arith in (d, rw (← same) found, rw (z, found, victim, ← same))
  ]
]

victim_missed : (s : LrukReplacer) → (victim s).1 ≡ none → (victim s).0 ≡ s
unfolding victim
victim_missed s e = ground arith

lookup-holds :
    (s : LrukReplacer) (f : ℕ) (b : Bool) → lookup f s.evictable ≡ some b → holds s f ≡ true
unfolding holds
lookup-holds s f b e = rw (e, holds)

choose-holds :
    (s : LrukReplacer) (f d : ℕ)
    → choose (get_k_distance s) s.evictable none ≡ some (f, d)
    → (d ≡ get_k_distance s f) × (holds s f ≡ true)
choose-holds s f d e = elim (choose_from (get_k_distance s) s.evictable none f d e) [
  | inl clash ↦ absurd (cc clash)
  | inr (own, b, found) ↦ (own, lookup-holds s f b found)
]

pub victim-IsValid : (s : LrukReplacer) → IsValid s → IsValid (victim s).0
victim-IsValid s v = elim (Option-cases (victim s).1) [
  | inl missed ↦ rw (victim_missed s missed) v
  | inr (f, found) ↦
      let (d, chosen, after) = victim_found s f found in
      rw after (remove_victim-IsValid s f v (choose-holds s f d chosen).1)
]

holds-remove_victim :
    (s : LrukReplacer) (f g : ℕ)
    → holds (remove_victim s f) g ≡ (if f == g then false else holds s g)
unfolding holds remove_victim
holds-remove_victim s f g = ground (arith, lookup-erase f g s.evictable)

pub victim-some :
    (s : LrukReplacer) (f : ℕ)
    → IsValid s
    → (victim s).1 ≡ some f
    → (holds s f ≡ true) × ((g : ℕ) → holds (victim s).0 g ≡ (if f == g then false else holds s g))
victim-some s f v e =
    let (d, chosen, after) = victim_found s f e in
    ((choose-holds s f d chosen).1, λ g. rw after (holds-remove_victim s f g))

pub victim-none :
    (s : LrukReplacer)
    → IsValid s
    → (victim s).1 ≡ none
    → (g : ℕ) → holds (victim s).0 g ≡ holds s g
victim-none s v e g = rw (victim_missed s e)

pub holds-pin :
    (s : LrukReplacer) (f g : ℕ)
    → IsValid s
    → holds (pin s f) g ≡ (if f == g then false else holds s g)
unfolding pin holds record_access
holds-pin s f g v = ground (arith, lookup-erase f g s.evictable)

pub holds-unpin_ne :
    (s : LrukReplacer) (f g : ℕ) → IsValid s → (f == g) ≡ false → holds (unpin s f) g ≡ holds s g
unfolding unpin holds record_access
holds-unpin_ne s f g v ne = ground (arith, lookup-put f g true s.evictable)

-- No evictable frame has a greater `K`-distance than the frame that `Victim` evicts, on a valid
-- replacer.
pub victim_furthest :
    (s : LrukReplacer) (f g : ℕ)
    → IsValid s
    → (victim s).1 ≡ some f
    → holds s g ≡ true
    → get_k_distance s g ≤ get_k_distance s f
victim_furthest s f g v e h =
    let (d, chosen, after) = victim_found s f e in
    let far = choose_max (get_k_distance s) s.evictable none g (holds-lookup s g v h) in
    omega (arith, (choose-holds s f d chosen).0, subst (AtLeast (get_k_distance s g)) chosen far)

holds-first : (l : List (ℕ × Bool)) → 0 < length l → (f : ℕ) × (b : Bool) × (lookup f l ≡ some b)
unfolding lookup
holds-first [] h = elim h [ ]
holds-first ((f, b) ∷ l) h = (f, b, ground arith)

-- On a valid replacer of a positive size, `Victim` finds a frame.
pub victim_total :
    (s : LrukReplacer) → IsValid s → 0 < s.curr_size → (f : ℕ) × ((victim s).1 ≡ some f)
unfolding victim
victim_total s v h =
    let (g, b, held) = holds-first s.evictable (omega (arith, v.counted)) in
    let on = holds-lookup s g v (lookup-holds s g b held) in
    let far = choose_max (get_k_distance s) s.evictable none g on in
    elim (Option-cases (choose (get_k_distance s) s.evictable none)) [
      | inl missed ↦ absurd (subst (AtLeast (get_k_distance s g)) missed far)
      | inr ((f, d), found) ↦ elim (Bool-cases (s.curr_size == 0)) [
        | inl z ↦ absurd (ground arith)
        | inr z ↦ (f, rw (z, found, victim))
      ]
    ]

-- `LRUKReplacer` as the buffer pool sees it.
abbrev pub lru_k : Replacer
lru_k = record {
  State = LrukReplacer;
  victim = victim;
  pin = pin;
  unpin = unpin;
  evictable = holds;
  IsValid = IsValid;
  victim-IsValid = victim-IsValid;
  pin-IsValid = pin-IsValid;
  unpin-IsValid = unpin-IsValid;
  victim-some = victim-some;
  victim-none = victim-none;
  evictable-pin = holds-pin;
  evictable-unpin_ne = holds-unpin_ne;
}
