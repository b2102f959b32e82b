-- ===== src/Storage/TablePage/Tests.antt =====
-- Runs of a page with two tuples.
use goods_db.Prelude.{ℕ, zero, suc, ◌≤◌, ◌≡◌, refl, true, false, List, [], ◌∷◌, some, arith}
use goods_db.Prelude.Bytes.{
  Bytes, read_u16, write_u16, read_u32, write_u32, write_bytes, read_bytes,
}
use goods_db.Storage.TablePage.{
  init, get_slot_count, get_slot_offset, slot_tuple_offset, slot_tuple_size, set_slot_info,
  set_slot_deleted, is_deleted, is_live, lowest_from, lowest_tuple, new_tuple_offset, place_tuple,
  insert_tuple, get_tuple, mark_delete, overwrite, update_tuple, reinsert, compact, shift_slots,
  apply_delete,
}
use goods_db.Storage.TablePage.Valid.{IsValid, init-IsValid, live-below}
use goods_db.Storage.TablePage.Client.{get_tuple-insert_tuple, get_tuple-insert_tuple_ne}
use goods_db.Storage.TablePage.Delete.{get_tuple-mark_delete}
use goods_db.Storage.TablePage.Apply.{HasFields, get_tuple-apply_delete}
use goods_db.Storage.TablePage.Update.{get_tuple-update_tuple}
use goods_db.Storage.TablePage.Moved.{get_tuple-update_tuple_larger}

program : Unit {0}
unfolding read_u16 write_u16 read_u32 write_u32 write_bytes read_bytes init get_slot_count
    get_slot_offset slot_tuple_offset slot_tuple_size set_slot_info set_slot_deleted is_deleted
    is_live lowest_from lowest_tuple new_tuple_offset place_tuple insert_tuple get_tuple mark_delete
    overwrite update_tuple reinsert compact shift_slots apply_delete
program = tt

abbrev pen : List ℕ
pen = 112 ∷ 101 ∷ 110 ∷ []

abbrev ink : List ℕ
ink = 105 ∷ 110 ∷ 107 ∷ 33 ∷ []

abbrev empty : Bytes
empty = init 65537

abbrev one : Bytes
one = place_tuple empty pen

get_tuple-insert_tuple_example : IsValid one × (get_tuple one 0 ≡ some pen)
unfolding program
get_tuple-insert_tuple_example =
    get_tuple-insert_tuple empty one pen 0 (init-IsValid 65537) (omega arith) refl

abbrev two : Bytes
two = place_tuple one ink

two-IsValid : IsValid two
unfolding program
two-IsValid =
    (get_tuple-insert_tuple one two ink 1
      (get_tuple-insert_tuple empty one pen 0 (init-IsValid 65537) (omega arith) refl).0
      (omega arith) refl).0

get_tuple-insert_tuple_ne_example : get_tuple two 0 ≡ get_tuple one 0
unfolding program
get_tuple-insert_tuple_ne_example =
    get_tuple-insert_tuple_ne one two ink 1 0 (omega arith) refl refl

get_tuple-mark_delete_example :
    ((mark_delete two 0).1 ≡ true)
    × IsValid (mark_delete two 0).0
    × (get_tuple (mark_delete two 0).0 1 ≡ some ink)
unfolding program
get_tuple-mark_delete_example = get_tuple-mark_delete two 0 1 two-IsValid refl

get_tuple-update_tuple_example :
    ((update_tuple two 1 pen).1 ≡ true)
    × IsValid (update_tuple two 1 pen).0
    × (get_tuple (update_tuple two 1 pen).0 1 ≡ some pen)
unfolding program
get_tuple-update_tuple_example = get_tuple-update_tuple two 1 1 pen two-IsValid refl (omega arith)

get_tuple-update_tuple_larger_example :
    ((update_tuple two 0 ink).1 ≡ false)
    × IsValid (update_tuple two 0 ink).0
    × (get_tuple (update_tuple two 0 ink).0 2 ≡ some ink)
unfolding program
get_tuple-update_tuple_larger_example =
    get_tuple-update_tuple_larger two (place_tuple (set_slot_deleted two 0) ink) 0 2 ink two-IsValid
      refl (omega arith) (omega arith) refl

two-HasFields : HasFields two
unfolding program
two-HasFields zero h = (omega arith, omega arith)
two-HasFields (suc zero) h = (omega arith, omega arith)
two-HasFields (suc (suc k)) h = absurd (omega (arith, h))

-- The first tuple is at the end of the page.
two-highest : (k : ℕ) → is_live two k ≡ true → slot_tuple_offset two k ≤ slot_tuple_offset two 0
unfolding program
two-highest zero h = omega arith
two-highest (suc zero) h = omega arith
two-highest (suc (suc k)) h = absurd (omega (arith, (live-below two (suc (suc k)) h).0))

get_tuple-apply_delete_example :
    ((apply_delete two 0).1 ≡ true) × (get_tuple (apply_delete two 0).0 0 ≡ some ink)
unfolding program
get_tuple-apply_delete_example =
    get_tuple-apply_delete two 0 0 two-IsValid two-HasFields refl two-highest

-- One tuple at offset 60.
abbrev crowded : Bytes
crowded = write_u16 (set_slot_info empty 0 60 10) 20 1
