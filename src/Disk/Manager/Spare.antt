-- ===== src/Disk/Manager/Spare.antt =====
-- `AllocatePage` of goods_db/src/storage/disk/disk_manager.cpp beside the other pages of the file.
use goods_db.Prelude.{
  ℕ, ◌+◌, ◌%◌, ◌<◌, ◌≡◌, ◌≢◌, refl, true, false, Option, none, some, arith, ltb, ◌==◌,
  if◌then◌else◌, Bool-cases, inl, inr, sym, ap, ◌∙◌, subst,
}
use goods_db.Prelude.Assoc.{lookup, put, lookup-put}
use goods_db.Prelude.Bytes.{Bytes, zeros, read_u16, write_u16}
use goods_db.Disk.{id_limit, get_file_id, get_page_no, make_page_id}
use goods_db.Disk.Manager.{
  DiskManager, FileEntry, Stream, stream_read, stream_write, reuse_page, grow_file, allocate_in,
  allocate_page, first_free_offset, total_pages_offset,
}
use goods_db.Disk.Manager.Pages.{page_of, stored, stored_open, same_entry}

-- A stream without an error that has the header and the head of the free chain.
pub record IsSound (s : Stream) : Type 0 where
  pub well : s.failed ≡ false
  pub writable : s.writable ≡ true
  pub header : 0 < s.extent
  pub chained : read_u16 (s.pages 0) first_free_offset < s.extent

stream_page : Stream → ℕ → Option Bytes
stream_page s n = if s.failed then none else if ltb n s.extent then some (s.pages n) else none

page_of-stream_page : (e : FileEntry) (n : ℕ) → page_of e n ≡ stream_page e.stream n
unfolding stream_page
page_of-stream_page e n = refl

-- A write keeps the other pages.
written_ne :
    (s : Stream) (n k : ℕ) (b c : Bytes)
    → s.failed ≡ false
    → s.writable ≡ true
    → n ≢ k
    → stream_page s k ≡ some c
    → (stream_page (stream_write s n b) k ≡ some c)
      × ((stream_write s n b).failed ≡ false)
      × ((stream_write s n b).writable ≡ true)
unfolding stream_page stream_write
written_ne s n k b c well taking ne h = (ground arith, ground arith, ground arith)

-- `AllocatePage` in one file: the pages but the header and the one that is given out.
module _ (stack : Bytes) (e : FileEntry) (sound : IsSound e.stream) where
  header_read : stream_read e.stream 0 stack ≡ (e.stream, e.stream.pages 0)
  unfolding stream_read
  header_read = ground (arith, sound.well, sound.header)

  abbrev first_free : ℕ
  first_free = read_u16 (e.stream.pages 0) first_free_offset

  grown : first_free ≡ 0 → allocate_in stack e ≡ grow_file stack e e.stream (e.stream.pages 0)
  unfolding allocate_in
  grown h = rw header_read (ground (arith, h))

  reused : first_free ≢ 0 → allocate_in stack e ≡ reuse_page stack e e.stream (e.stream.pages 0)
  unfolding allocate_in
  reused h = rw header_read (ground (arith, h))

  free_read : stream_read e.stream first_free stack ≡ (e.stream, e.stream.pages first_free)
  unfolding stream_read
  free_read = ground (arith, sound.well, sound.chained)

  grow_kept :
      (k : ℕ) (c : Bytes)
      → k ≢ 0
      → (grow_file stack e e.stream (e.stream.pages 0)).1 ≢ k
      → stream_page e.stream k ≡ some c
      → stream_page (grow_file stack e e.stream (e.stream.pages 0)).0.stream k ≡ some c
  unfolding grow_file
  grow_kept k c nz ne h =
      let (here, well, taking) =
        written_ne e.stream 0 k
          (write_u16 (e.stream.pages 0) total_pages_offset ((e.num_pages + 1) % 65536)) c sound.well
          sound.writable (λ i. nz (sym i)) h in
      (written_ne _ e.num_pages k zeros c well taking ne here).0

  reuse_kept :
      (k : ℕ) (c : Bytes)
      → k ≢ 0
      → stream_page e.stream k ≡ some c
      → stream_page (reuse_page stack e e.stream (e.stream.pages 0)).0.stream k ≡ some c
  unfolding reuse_page
  reuse_kept k c nz h =
      rw free_read
        (written_ne e.stream 0 k
          (write_u16 (e.stream.pages 0) first_free_offset (read_u16 (e.stream.pages first_free) 0))
          c sound.well sound.writable (λ i. nz (sym i)) h).0

  allocate_in_kept :
      (k : ℕ) (c : Bytes)
      → k ≢ 0
      → (allocate_in stack e).1 ≢ k
      → page_of e k ≡ some c
      → page_of (allocate_in stack e).0 k ≡ some c
  allocate_in_kept k c nz ne h =
      let old : stream_page e.stream k ≡ some c = sym (page_of-stream_page e k) ∙ h in
      page_of-stream_page (allocate_in stack e).0 k ∙ elim (Bool-cases (first_free == 0)) [
        | inl z ↦
            let eq = grown (ground arith) in
            ap (λ r. stream_page r.0.stream k) eq
            ∙ grow_kept k c nz (λ i. ne (ap (λ r. r.1) eq ∙ i)) old
        | inr z ↦ ap (λ r. stream_page r.0.stream k) (reused (ground arith)) ∙ reuse_kept k c nz old
      ]

allocated_page :
    (stack : Bytes) (m : DiskManager) (file : ℕ) (e : FileEntry)
    → lookup file m.files ≡ some e
    → allocate_page stack m file ≡ (
      record m { files = put file (allocate_in stack e).0 m.files },
      make_page_id file (allocate_in stack e).1,
    )
unfolding allocate_page
allocated_page stack m file e at = rw (at, allocate_page) refl

page_id_parts :
    (q file n : ℕ)
    → q < id_limit
    → file ≡ get_file_id q
    → n ≡ get_page_no q
    → make_page_id file n ≡ q
unfolding make_page_id get_file_id get_page_no
page_id_parts q file n low i k = omega arith

-- In an open file whose stream is sound, AllocatePage keeps the bytes of every page that the disk
-- holds but the header and the page that it gives out, in this file and in every other.
pub stored-allocate_page :
    (stack : Bytes) (m : DiskManager) (file : ℕ) (e : FileEntry) (q : ℕ) (c : Bytes)
    → lookup file m.files ≡ some e
    → IsSound e.stream
    → q < id_limit
    → get_page_no q ≢ 0
    → (allocate_page stack m file).1 ≢ q
    → stored m q ≡ some c
    → stored (allocate_page stack m file).0 q ≡ some c
stored-allocate_page stack m file e q c at sound low nz ne h =
    let m' = (allocate_page stack m file).0 in
    let put_at : lookup (get_file_id q) m'.files ≡ (
        if file == get_file_id q
        then some (allocate_in stack e).0
        else lookup (get_file_id q) m.files) =
      ap (λ r. lookup (get_file_id q) r.0.files) (allocated_page stack m file e at)
      ∙ lookup-put file (get_file_id q) (allocate_in stack e).0 m.files in
    elim (Bool-cases (file == get_file_id q)) [
      | inl same ↦
          let i : file ≡ get_file_id q = ground arith in
          let here : lookup (get_file_id q) m'.files ≡ some (allocate_in stack e).0 =
            put_at ∙ rw same refl in
          let held : page_of e (get_page_no q) ≡ some c =
            sym (stored_open m q e (subst (λ x. lookup x m.files ≡ some e) i at)) ∙ h in
          let id : (allocate_page stack m file).1 ≡ make_page_id file (allocate_in stack e).1 =
            ap (λ r. r.1) (allocated_page stack m file e at) in
          stored_open m' q (allocate_in stack e).0 here
          ∙ allocate_in_kept stack e sound (get_page_no q) c nz
              (λ k. ne (id ∙ page_id_parts q file (allocate_in stack e).1 low i k)) held
      | inr other ↦ same_entry m m' q (put_at ∙ rw other refl) ∙ h
    ]
