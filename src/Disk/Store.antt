-- ===== src/Disk/Store.antt =====
-- goods_db/src/include/storage/disk/disk_manager.h: what the buffer pool uses of `DiskManager`.
use goods_db.Prelude.{ℕ, ◌<◌, ◌≡◌, Bool, true, false, Option, none, some, ◌==◌, if◌then◌else◌}
use goods_db.Prelude.Bytes.{Bytes}
use goods_db.Disk.{id_limit}

-- Page 0 of a file is its header.
pub record Store : Type 1 where
  pub State : Type 0
  -- `ReadPage` into a buffer: the result, and the buffer after it.
  pub read : State → ℕ → Bytes → Bool × Bytes
  -- `WritePage`: `none` is `false`.
  pub write : State → ℕ → Bytes → Option State
  pub allocate : State → ℕ → State × ℕ
  pub deallocate : State → ℕ → State
  pub sync : State → ℕ → State
  -- What the disk holds under a page id.
  pub stored : State → ℕ → Option Bytes
  pub read-stored :
      (d : State) (p : ℕ) (buffer b : Bytes) → stored d p ≡ some b → read d p buffer ≡ (true, b)
  pub read-missing :
      (d : State) (p : ℕ) (buffer : Bytes) → stored d p ≡ none → (read d p buffer).0 ≡ false
  pub stored-write_self :
      (d d' : State) (p : ℕ) (b : Bytes) → write d p b ≡ some d' → stored d' p ≡ some b
  -- A page that the disk holds keeps its bytes while another is written.
  pub stored-write :
      (d d' : State) (p q : ℕ) (b c : Bytes)
      → p < id_limit
      → q < id_limit
      → write d p b ≡ some d'
      → stored d q ≡ some c
      → stored d' q ≡ (if p == q then some b else some c)
  pub allocate-lt : (d : State) (file : ℕ) → (allocate d file).1 < id_limit
  pub stored-sync : (d : State) (file q : ℕ) → stored (sync d file) q ≡ stored d q

-- States of the disk in which it takes writes of some pages, and stays in such a state.
pub record Accepts (D : Store) : Type 1 where
  pub IsGood : D.State → Type 0
  pub IsKnown : ℕ → Type 0
  pub takes :
      (d : D.State) (p : ℕ) (b : Bytes)
      → IsGood d
      → IsKnown p
      → (d' : D.State) × (D.write d p b ≡ some d') × IsGood d'
