-- ===== src/Buffer/Guards.antt =====
-- goods_db/src/buffer/page_guard.cpp: guards that hold a page of the pool pinned. The latches are not
-- modelled; a guard is the frame that its pointer leads to, `none` for `nullptr`.
use goods_db.Prelude.{ℕ, Bool, true, false, Option, none, some, if◌then◌else◌}
use goods_db.Disk.Store.{Store}
use goods_db.Buffer.Replacer.{Replacer}
use goods_db.Buffer.Pool.{Pool, unpin_page}
pub mod Pins
pub mod Balance
pub mod Tests

-- Of both classes: `writes` says whether it is a `WritePageGuard`.
pub record PageGuard : Type 0 where
  pub writes : Bool
  pub page : Option ℕ

module _ (R : Replacer) (D : Store) where
  -- `Drop`, which the destructor calls: a write guard passes on the dirty flag of the page.
  unfoldable pub drop : Pool R D → PageGuard → Pool R D × PageGuard
  drop s guard = elim guard.page [
    | none ↦ (s, guard)
    | some f ↦ (
      (unpin_page R D s (s.pages f).page_id
          (if guard.writes then (s.pages f).is_dirty else false)).0,
      record guard { page = none },
    )
  ]

  -- `operator=` from another guard than itself: the target's page goes, and the source is left empty.
  unfoldable pub move_assign : Pool R D → PageGuard → PageGuard → Pool R D × PageGuard × PageGuard
  move_assign s target source =
      ((drop s target).0, record target { page = source.page }, record source { page = none })
