-- ===== src/Sql/Locks/Mode.antt =====
-- The modes of locks of goods_db/src/include/common/lock_manager.h, and which two can be held
-- at once.
use goods_db.Prelude.{Bool, true, false, not, ◌||◌}

pub data LockMode : Type 0 where
  shared : LockMode
  exclusive : LockMode
  intention_shared : LockMode
  intention_exclusive : LockMode
  shared_intention_exclusive : LockMode

abbrev pub is_shared : LockMode → Bool
is_shared shared = true
is_shared exclusive = false
is_shared intention_shared = false
is_shared intention_exclusive = false
is_shared shared_intention_exclusive = false

abbrev pub is_exclusive : LockMode → Bool
is_exclusive shared = false
is_exclusive exclusive = true
is_exclusive intention_shared = false
is_exclusive intention_exclusive = false
is_exclusive shared_intention_exclusive = false

abbrev pub is_intention_shared : LockMode → Bool
is_intention_shared shared = false
is_intention_shared exclusive = false
is_intention_shared intention_shared = true
is_intention_shared intention_exclusive = false
is_intention_shared shared_intention_exclusive = false

abbrev pub is_intention_exclusive : LockMode → Bool
is_intention_exclusive shared = false
is_intention_exclusive exclusive = false
is_intention_exclusive intention_shared = false
is_intention_exclusive intention_exclusive = true
is_intention_exclusive shared_intention_exclusive = false

unfoldable pub modes_compatible : LockMode → LockMode → Bool
modes_compatible shared requested = is_shared requested || is_intention_shared requested
modes_compatible exclusive requested = false
modes_compatible intention_shared requested = not (is_exclusive requested)
modes_compatible intention_exclusive requested =
    is_intention_shared requested || is_intention_exclusive requested
modes_compatible shared_intention_exclusive requested = is_intention_shared requested
