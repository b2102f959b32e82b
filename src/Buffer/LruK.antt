-- ===== src/Buffer/LruK.antt =====
-- goods_db/src/buffer/lru_k_replacer.cpp: LRU-K. Timestamps are taken not to wrap (they are
-- `size_t`).
use goods_db.Prelude.{
  ℕ, zero, suc, ◌+◌, ◌-◌, ◌^◌, Bool, true, false, List, [], ◌∷◌, ◌||◌, not, Option, none, some, ltb,
  ◌==◌, if◌then◌else◌, length,
}
use goods_db.Prelude.Assoc.{lookup, erase, put}
pub mod Choice
pub mod Valid
pub mod Policy

pub record LrukReplacer : Type 0 where
  pub k : ℕ
  -- Most recent first.
  pub access_history : List (ℕ × List ℕ)
  -- In the order of the loop of `Victim`, which the C++ leaves open.
  pub evictable : List (ℕ × Bool)
  pub curr_size : ℕ
  pub curr_timestamp : ℕ

unfoldable pub init : ℕ → LrukReplacer
init k = record { k = k; access_history = []; evictable = []; curr_size = 0; curr_timestamp = 0 }

-- `access_history_[frame_id]`, the empty list where there is none.
unfoldable pub history : LrukReplacer → ℕ → List ℕ
history s f = elim (lookup f s.access_history) [ none ↦ [] | some h ↦ h ]

-- `list::pop_back` and `list::back`.
unfoldable pub pop_back : List ℕ → List ℕ
pop_back [] = []
pop_back (x ∷ []) = []
pop_back (x ∷ y ∷ l) = x ∷ pop_back (y ∷ l)

unfoldable pub back : List ℕ → ℕ
back [] = 0
back (x ∷ []) = x
back (x ∷ y ∷ l) = back (y ∷ l)

-- `push_front`, then at most `k` entries.
unfoldable pub push_access : ℕ → ℕ → List ℕ → List ℕ
push_access k t h = if ltb k (length (t ∷ h)) then pop_back (t ∷ h) else t ∷ h

unfoldable pub record_access : LrukReplacer → ℕ → LrukReplacer
record_access s f = record s {
  curr_timestamp = s.curr_timestamp + 1;
  access_history = put f (push_access s.k (s.curr_timestamp + 1) (history s f)) s.access_history;
}

-- `std::numeric_limits<size_t>::max()`
abbrev pub infinite : ℕ
infinite = 2 ^ 64 - 1

abbrev is_nil : List ℕ → Bool
is_nil [] = true
is_nil (x ∷ l) = false

unfoldable pub get_k_distance : LrukReplacer → ℕ → ℕ
get_k_distance s f =
    if is_nil (history s f) || ltb (length (history s f)) s.k
    then infinite
    else s.curr_timestamp - back (history s f)

-- The variables `victim`, `max_distance` and `found` of `Victim`.
abbrev pub Best : Type 0
Best = Option (ℕ × ℕ)

-- The body of the loop, for a frame at a distance.
unfoldable pub consider : (ℕ → ℕ) → ℕ × Bool → Best → Best
consider dist (f, false) b = b
consider dist (f, true) none = some (f, dist f)
consider dist (f, true) (some (g, d)) = if ltb d (dist f) then some (f, dist f) else some (g, d)

unfoldable pub choose : (ℕ → ℕ) → List (ℕ × Bool) → Best → Best
choose dist [] b = b
choose dist (e ∷ l) b = choose dist l (consider dist e b)

unfoldable pub remove_victim : LrukReplacer → ℕ → LrukReplacer
remove_victim s f = record s {
  evictable = erase f s.evictable;
  access_history = erase f s.access_history;
  curr_size = s.curr_size - 1;
}

unfoldable pub victim : LrukReplacer → LrukReplacer × Option ℕ
victim s =
    if s.curr_size == 0 then (s, none) else elim (choose (get_k_distance s) s.evictable none) [
      | none ↦ (s, none)
      | some (f, d) ↦ (remove_victim s f, some f)
    ]

-- Does `evictable_` hold the frame?
unfoldable pub holds : LrukReplacer → ℕ → Bool
holds s f = elim (lookup f s.evictable) [ none ↦ false | some b ↦ true ]

unfoldable pub pin : LrukReplacer → ℕ → LrukReplacer
pin s f =
    let s' = record_access s f in
    if holds s' f
    then record s' { evictable = erase f s'.evictable; curr_size = s'.curr_size - 1 }
    else s'

unfoldable pub unpin : LrukReplacer → ℕ → LrukReplacer
unpin s f =
    if holds s f
    then s
    else (let s' = record_access s f in
        record s' { evictable = put f true s'.evictable; curr_size = s'.curr_size + 1 })
