-- ===== src/Storage/TableIterator/Tests.antt =====
-- Runs of an iterator over the table of one page.
use goods_db.Prelude.{◌≡◌, refl, [], ◌∷◌, some, arith}
use goods_db.Buffer.LruK.Policy.{lru_k}
use goods_db.Buffer.Pool.Tests.{D}
use goods_db.Storage.TableHeap.Tests.{
  program as heap_program, roomy, pen, start-IsValid, start-IsCoherent, roomy-Chain,
}
use goods_db.Storage.TableIterator.{
  first_live, release, leave_page, hold, give_up, advance_pages, advance_from,
  advance_to_next_valid, reset, make_iterator, has_next, current_row, next, scan, count_from, count,
}
use goods_db.Storage.TableIterator.Slots.{slots_from}
use goods_db.Storage.TableIterator.Scan.{Scans}
use goods_db.Storage.TableIterator.Rows.{Scanned, scan-Scans}

program : Unit {0}
unfolding heap_program first_live release leave_page hold give_up advance_pages advance_from
    advance_to_next_valid reset make_iterator has_next current_row next scan count_from count
    slots_from
program = tt

scan_one :
    (scan lru_k D 2 2 (make_iterator lru_k D 2 roomy 65537)).1
    ≡ (record { page_id = 65537; slot_id = 0 }, some pen) ∷ []
unfolding program
scan_one = refl

scan-Scans_example :
    Scanned {R = lru_k} {D = D} roomy
      (λ z. Scans {R = lru_k} {D = D} roomy z (65537 ∷ []))
      (scan lru_k D 2 2 (make_iterator lru_k D 2 roomy 65537))
unfolding program
scan-Scans_example =
    scan-Scans {R = lru_k} {D = D} 2 2 65537 roomy (65537 ∷ []) (start-IsValid 16000)
      (start-IsCoherent 16000) roomy-Chain (omega arith) (omega arith)
