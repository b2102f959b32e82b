-- ===== src/Buffer/Pinned.antt =====
-- Histories of the calls of goods_db/src/buffer/clock_replacer.cpp and lru_k_replacer.cpp.
use goods_db.Prelude.{ℕ, ◌≡◌, ◌≢◌, false, List, some}
use goods_db.Buffer.Replacer.Calls.{Call, unpins, run, spared-pin}
use goods_db.Buffer.Clock.{init, victim, pin}
use goods_db.Buffer.Clock.Policy.{clock}
use goods_db.Buffer.Clock.Valid.{init-IsValid}
use goods_db.Buffer.LruK.{init as lru_init, victim as lru_victim, pin as lru_pin}
use goods_db.Buffer.LruK.Policy.{lru_k}
use goods_db.Buffer.LruK.Valid.{init-IsValid as lru_init-IsValid}

-- From the start on and after any calls, a frame that `Pin` takes is not what `Victim` gives before
-- the next `Unpin` of it, whatever calls are between, for `ClockReplacer` of any size and
-- `LRUKReplacer` of any K.
pub pinned_spared :
    (n k f : ℕ) (before after : List Call)
    → unpins f after ≡ false
    → ((victim (run clock (pin (run clock (init n) before) f) after)).1 ≢ some f)
      × ((lru_victim (run lru_k (lru_pin (run lru_k (lru_init k) before) f) after)).1 ≢ some f)
pinned_spared n k f before after u = (
  spared-pin clock (init n) f before after (init-IsValid n) u,
  spared-pin lru_k (lru_init k) f before after (lru_init-IsValid k) u,
)
