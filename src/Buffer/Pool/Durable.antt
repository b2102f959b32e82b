-- ===== src/Buffer/Pool/Durable.antt =====
-- `FlushAllPages` of goods_db/src/buffer/buffer_pool_manager.cpp on the files of the disk manager.
use goods_db.Prelude.{ℕ, ◌≡◌, false, true, some, ◌==◌, Bool-cases, inl, inr, ◌∙◌, refl}
use goods_db.Prelude.Assoc.{lookup, put, lookup-put}
use goods_db.Prelude.Bytes.{Bytes}
use goods_db.Disk.{get_file_id}
use goods_db.Disk.Store.{Accepts}
use goods_db.Disk.Manager.{FileEntry, DiskManager}
use goods_db.Disk.Manager.Pages.{stored, write, written, write_well, written-healthy}
use goods_db.Disk.Manager.AsStore.{disk_store}
use goods_db.Buffer.Replacer.{Replacer}
use goods_db.Buffer.Pool.{Pool, flush_all_pages}
use goods_db.Buffer.Pool.Valid.{IsValid}
use goods_db.Buffer.Pool.Content.{IsCoherent}
use goods_db.Buffer.Pool.Flush.{flush_all_pages_durable}

-- A file that is open, has no error, and whose medium takes writes.
pub record IsHealthy (m : DiskManager) (file_id : ℕ) : Type 0 where
  pub entry : FileEntry
  pub opened : lookup file_id m.files ≡ some entry
  pub well : entry.stream.failed ≡ false
  pub writable : entry.stream.writable ≡ true

-- A write to a healthy file succeeds, and leaves every healthy file healthy.
write-IsHealthy :
    (m : DiskManager) (p : ℕ) (b : Bytes)
    → IsHealthy m (get_file_id p)
    → (m' : DiskManager) × (write m p b ≡ some m') × ((id : ℕ) → IsHealthy m id → IsHealthy m' id)
write-IsHealthy m p b h =
    let e' = written m p h.entry b in
    let after = record m { files = put (get_file_id p) e' m.files } in
    let (well, takes) = written-healthy m p h.entry b h.well h.writable in
    (
      after,
      write_well m p h.entry b h.opened well,
      λ id k.
          let found = lookup-put (get_file_id p) id e' m.files in
          elim (Bool-cases (get_file_id p == id)) [
            | inl same ↦ record {
              entry = e';
              opened = found ∙ rw same refl;
              well = well;
              writable = takes;
            }
            | inr apart ↦ record {
              entry = k.entry;
              opened = found ∙ rw apart k.opened;
              well = k.well;
              writable = k.writable;
            }
          ],
    )

module _ {R : Replacer} (stack : Bytes) where
  -- Where each file with a page in the pool is open, without an error and on a medium that takes
  -- writes, `FlushAllPages` on a valid pool whose clean frames agree with the disk leaves every page of
  -- the pool on the disk, with the bytes of its frame.
  pub flush_all_pages-stored :
      (s : Pool R (disk_store stack)) (p f : ℕ)
      → ((q g : ℕ) → lookup q s.page_table ≡ some g → IsHealthy s.disk (get_file_id q))
      → IsValid s
      → IsCoherent s
      → lookup p s.page_table ≡ some f
      → stored (flush_all_pages R (disk_store stack) s).disk p ≡ some (s.pages f).bytes
  flush_all_pages-stored s p f healthy v c at =
      let files : Accepts (disk_store stack) = record {
        IsGood = λ m. (id : ℕ) → IsHealthy s.disk id → IsHealthy m id;
        IsKnown = λ q. IsHealthy s.disk (get_file_id q);
        takes = λ m q b good known.
            let (m', done, keeps) = write-IsHealthy m q b (good (get_file_id q) known) in
            (m', done, λ id h. keeps id (good id h));
      } in
      flush_all_pages_durable files s p f (λ id h. h) v c healthy at
