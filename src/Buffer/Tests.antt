-- ===== src/Buffer/Tests.antt =====
-- Runs of the two policies.
use goods_db.Prelude.{ℕ, ◌≤◌, ◌≡◌, ◌≢◌, refl, List, [], ◌∷◌, some, arith}
use goods_db.Prelude.Assoc.{lookup, erase, put}
use goods_db.Buffer.Clock.{
  ClockReplacer, init, evict_at_hand, pass_hand, takes, sweep, victim, pin, unpin,
}
use goods_db.Buffer.Clock.Valid.{IsValid, init-IsValid, unpin-IsValid}
use goods_db.Buffer.Clock.SecondChance.{victim_twice}
use goods_db.Buffer.Clock.Policy.{clock}
use goods_db.Buffer.Replacer.Calls.{Call, run}
use goods_db.Buffer.Pinned.{pinned_spared}
use goods_db.Buffer.LruK.{
  LrukReplacer, init as lru_init, history, pop_back, back, push_access, record_access,
  get_k_distance, consider, choose, remove_victim, victim as lru_victim, holds, pin as lru_pin,
  unpin as lru_unpin,
}
use goods_db.Buffer.LruK.Valid.{
  IsValid as LrukIsValid, init-IsValid as lru_init-IsValid, unpin-IsValid as lru_unpin-IsValid,
  pin-IsValid as lru_pin-IsValid,
}
use goods_db.Buffer.LruK.Policy.{lru_k, victim_furthest}

program : Unit {0}
unfolding init evict_at_hand pass_hand takes sweep victim pin unpin lookup erase put lru_init
    history pop_back back push_access record_access get_k_distance consider choose remove_victim
    lru_victim holds lru_pin lru_unpin
program = tt

-- Frames 0 and 2 of three are unpinned, so their reference bits are set.
abbrev ring : ClockReplacer
ring = unpin (unpin (init 3) 0) 2

ring-IsValid : IsValid ring
ring-IsValid = unpin-IsValid (unpin (init 3) 0) 2 (unpin-IsValid (init 3) 0 (init-IsValid 3))

victim_twice_example : (f : ℕ) × ((victim (victim ring).0).1 ≡ some f)
unfolding program
victim_twice_example = victim_twice ring ring-IsValid (omega arith) refl

second_victim : (victim (victim ring).0).1 ≡ some 0
unfolding program
second_victim = refl

abbrev calls : List Call
calls = Call.evict ∷ Call.unpin 1 ∷ Call.evict ∷ Call.pin 0 ∷ Call.evict ∷ []

abbrev first_calls : List Call
first_calls = Call.unpin 0 ∷ Call.unpin 2 ∷ []

pinned_spared_example :
    ((victim (run clock (pin (run clock (init 3) first_calls) 2) calls)).1 ≢ some 2)
    × ((lru_victim (run lru_k (lru_pin (run lru_k (lru_init 2) first_calls) 2) calls)).1 ≢ some 2)
pinned_spared_example = pinned_spared 3 2 2 first_calls calls refl

-- With `K` 2: frame 0 was accessed at times 1 and 3, frame 1 at times 2 and 5, frame 2 at time 4.
abbrev accessed : LrukReplacer
accessed = lru_unpin (lru_unpin (lru_unpin (lru_pin (lru_pin (lru_init 2) 0) 1) 0) 2) 1

accessed_valid : LrukIsValid accessed
accessed_valid =
    lru_unpin-IsValid (lru_unpin (lru_unpin (lru_pin (lru_pin (lru_init 2) 0) 1) 0) 2) 1 (
      lru_unpin-IsValid (lru_unpin (lru_pin (lru_pin (lru_init 2) 0) 1) 0) 2 (
        lru_unpin-IsValid (lru_pin (lru_pin (lru_init 2) 0) 1) 0 (
          lru_pin-IsValid (lru_pin (lru_init 2) 0) 1
            (lru_pin-IsValid (lru_init 2) 0 (lru_init-IsValid 2)))))

victim_furthest_example : get_k_distance accessed 0 ≤ get_k_distance accessed 2
unfolding program
victim_furthest_example = victim_furthest accessed 2 0 accessed_valid refl refl
