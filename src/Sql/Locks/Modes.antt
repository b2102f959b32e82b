-- ===== src/Sql/Locks/Modes.antt =====
-- The compatibility matrix of goods_db/src/sql/lock_manager.cpp against what the modes mean.
use goods_db.Prelude.{◌≡◌, refl, Bool, true, false, not, ◌||◌, ◌&&◌}
use goods_db.Sql.Locks.{
  LockMode, shared, exclusive, intention_shared, intention_exclusive, shared_intention_exclusive,
  modes_compatible,
}

-- What a mode on a table lets its holder do: read or write every row without further locks, or some
-- rows under locks of their own.
pub record Rights : Type 0 where
  pub reads_all : Bool
  pub writes_all : Bool
  pub reads_some : Bool
  pub writes_some : Bool

abbrev pub rights : LockMode → Rights
rights shared = record {
  reads_all = true;
  writes_all = false;
  reads_some = true;
  writes_some = false;
}
rights exclusive = record {
  reads_all = true;
  writes_all = true;
  reads_some = true;
  writes_some = true;
}
rights intention_shared = record {
  reads_all = false;
  writes_all = false;
  reads_some = true;
  writes_some = false;
}
rights intention_exclusive = record {
  reads_all = false;
  writes_all = false;
  reads_some = true;
  writes_some = true;
}
rights shared_intention_exclusive = record {
  reads_all = true;
  writes_all = false;
  reads_some = true;
  writes_some = true;
}

-- `a` may touch a row that `b` uses without a lock on the row, and one of them writes.
abbrev pub disturbs : Rights → Rights → Bool
disturbs a b = (b.reads_all && a.writes_some) || (b.writes_all && a.reads_some)

-- Two modes are compatible exactly when neither disturbs the other: one that uses all rows without
-- row locks excludes writers, and one that writes all rows excludes everyone.
pub modes_compatible_lem :
    (held requested : LockMode)
    → modes_compatible held requested
      ≡ not (disturbs (rights held) (rights requested) || disturbs (rights requested) (rights held))
unfolding modes_compatible
modes_compatible_lem shared shared = refl
modes_compatible_lem shared exclusive = refl
modes_compatible_lem shared intention_shared = refl
modes_compatible_lem shared intention_exclusive = refl
modes_compatible_lem shared shared_intention_exclusive = refl
modes_compatible_lem exclusive shared = refl
modes_compatible_lem exclusive exclusive = refl
modes_compatible_lem exclusive intention_shared = refl
modes_compatible_lem exclusive intention_exclusive = refl
modes_compatible_lem exclusive shared_intention_exclusive = refl
modes_compatible_lem intention_shared shared = refl
modes_compatible_lem intention_shared exclusive = refl
modes_compatible_lem intention_shared intention_shared = refl
modes_compatible_lem intention_shared intention_exclusive = refl
modes_compatible_lem intention_shared shared_intention_exclusive = refl
modes_compatible_lem intention_exclusive shared = refl
modes_compatible_lem intention_exclusive exclusive = refl
modes_compatible_lem intention_exclusive intention_shared = refl
modes_compatible_lem intention_exclusive intention_exclusive = refl
modes_compatible_lem intention_exclusive shared_intention_exclusive = refl
modes_compatible_lem shared_intention_exclusive shared = refl
modes_compatible_lem shared_intention_exclusive exclusive = refl
modes_compatible_lem shared_intention_exclusive intention_shared = refl
modes_compatible_lem shared_intention_exclusive intention_exclusive = refl
modes_compatible_lem shared_intention_exclusive shared_intention_exclusive = refl
