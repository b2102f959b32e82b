-- ===== src/Buffer/Pool/FlushTests.antt =====
-- A flush of a pool with one dirty page to an open file.
use goods_db.Prelude.{ℕ, ◌≡◌, refl, true, some, arith, ◌==◌, Bool-cases, inl, inr, subst}
use goods_db.Prelude.Assoc.{lookup}
use goods_db.Prelude.Bytes.{zeros}
use goods_db.Disk.{get_file_id}
use goods_db.Disk.Manager.Pages.{stored}
use goods_db.Buffer.LruK.Policy.{lru_k}
use goods_db.Buffer.Pool.{flush_page, flush_all_pages}
use goods_db.Buffer.Pool.Content.{content}
use goods_db.Buffer.Pool.Flush.{flush_page_durable}
use goods_db.Buffer.Pool.Durable.{IsHealthy, flush_all_pages-stored}
use goods_db.Buffer.Pool.Tests.{file, D, program, nines, written, written-IsValid, written_reads}

healthy : (q g : ℕ) → lookup q written.page_table ≡ some g → IsHealthy written.disk (get_file_id q)
unfolding program
healthy q g at = elim (Bool-cases (65537 == q)) [
  | inl same ↦
      let e : 65537 ≡ q = ground arith in
      subst (λ k. IsHealthy written.disk (get_file_id k)) e
        (record { entry = file; opened = refl; well = refl; writable = refl })
  | inr apart ↦ absurd (ground arith)
]

flush_all_pages-stored_example : stored (flush_all_pages lru_k D written).disk 65537 ≡ some nines
unfolding program
flush_all_pages-stored_example =
    flush_all_pages-stored {R = lru_k} zeros written 65537 0 healthy written-IsValid written_reads.0
      refl

flush_page_durable_example :
    stored (flush_page lru_k D written 65537 true).0.disk 65537
    ≡ content {R = lru_k} {D = D} written 65537
unfolding program
flush_page_durable_example =
    flush_page_durable {R = lru_k} {D = D} written 65537 true written-IsValid written_reads.0
      (omega arith) refl
