-- ===== src/Disk/Manager/Pages.antt =====
-- What an open file of goods_db/src/storage/disk/disk_manager.cpp holds, and how the calls read
-- and write it.

use goods_db.Prelude.{
  ℕ, ◌<◌, ◌≡◌, ◌≢◌, refl, Bool, true, false, not, ◌||◌, Option, none, some, arith, ltb,
  if◌then◌else◌, Bool-cases, Option-cases, inl, inr, sym, ◌∙◌,
}
use mathlib.Core.Option.{some-injective}
use goods_db.Prelude.Assoc.{lookup, put}
use goods_db.Prelude.Bytes.{Bytes}
use goods_db.Disk.{id_limit, get_file_id, get_page_no}
use goods_db.Disk.Manager.{
  DiskManager, FileEntry, stream_read, stream_write, set_stream, read_page, write_page,
}

-- What an open file holds under a page number.
abbrev pub page_of : FileEntry → ℕ → Option Bytes
page_of e n =
    if e.stream.failed
    then none
    else if ltb n e.stream.extent
    then some (e.stream.pages n)
    else none

unfoldable pub stored : DiskManager → ℕ → Option Bytes
stored m p = elim (lookup (get_file_id p) m.files) [
  | none ↦ none
  | some e ↦ page_of e (get_page_no p)
]

unfoldable pub read : DiskManager → ℕ → Bytes → Bool × Bytes
read m p buffer = let (m', done, b) = read_page m p buffer in (done, b)

unfoldable pub write : DiskManager → ℕ → Bytes → Option DiskManager
write m p b = let (m', done) = write_page m p b in if done then some m' else none

pub same_entry :
    (m m' : DiskManager) (q : ℕ)
    → lookup (get_file_id q) m'.files ≡ lookup (get_file_id q) m.files
    → stored m' q ≡ stored m q
unfolding stored
same_entry m m' q h = rw (stored, h) refl

-- The file and the page number determine the page id.
pub id_parts :
    (p q : ℕ)
    → p < id_limit
    → q < id_limit
    → get_file_id p ≡ get_file_id q
    → get_page_no p ≡ get_page_no q
    → p ≡ q
unfolding get_file_id get_page_no
id_parts p q h k e f = omega arith

module _ (m : DiskManager) (p : ℕ) where
  pub read_closed :
      (b : Bytes)
      → lookup (get_file_id p) m.files ≡ none
      → (read m p b ≡ (false, b)) × (stored m p ≡ none)
  unfolding read read_page stored
  read_closed b h = (ground arith, ground arith)

  pub read_open :
      (e : FileEntry) (b : Bytes)
      → lookup (get_file_id p) m.files ≡ some e
      → read m p b ≡ (
          if e.stream.failed || not (ltb (get_page_no p) e.stream.extent)
          then (false, b)
          else (true, e.stream.pages (get_page_no p)))
  unfolding read read_page stream_read
  read_open e b h = ground arith

  pub stored_open :
      (e : FileEntry)
      → lookup (get_file_id p) m.files ≡ some e
      → stored m p ≡ page_of e (get_page_no p)
  unfolding stored
  stored_open e h = ground arith

  -- The file after a write that succeeds.
  pub written : FileEntry → Bytes → FileEntry
  written e b = record e { stream = stream_write e.stream (get_page_no p) b }

  write_closed : (b : Bytes) → lookup (get_file_id p) m.files ≡ none → write m p b ≡ none
  unfolding write write_page
  write_closed b h = ground arith

  write_open :
      (e : FileEntry) (b : Bytes)
      → lookup (get_file_id p) m.files ≡ some e
      → write m p b ≡ (
          if (stream_write e.stream (get_page_no p) b).failed
          then none
          else some (record m { files = put (get_file_id p) (written e b) m.files }))
  unfolding write write_page set_stream written
  write_open e b h = ground arith

  write_failed :
      (e : FileEntry) (b : Bytes)
      → lookup (get_file_id p) m.files ≡ some e
      → (written e b).stream.failed ≡ true
      → write m p b ≡ none
  unfolding written
  write_failed e b h bad = write_open e b h ∙ rw bad refl

  pub write_well :
      (e : FileEntry) (b : Bytes)
      → lookup (get_file_id p) m.files ≡ some e
      → (written e b).stream.failed ≡ false
      → write m p b ≡ some (record m { files = put (get_file_id p) (written e b) m.files })
  unfolding written
  write_well e b h well = write_open e b h ∙ rw well refl

  -- A write that succeeds changes the entry of its file alone.
  pub write_some :
      (m' : DiskManager) (b : Bytes)
      → write m p b ≡ some m'
      → (e : FileEntry) × (lookup (get_file_id p) m.files ≡ some e)
        × ((written e b).stream.failed ≡ false)
        × (m' ≡ record m { files = put (get_file_id p) (written e b) m.files })
  write_some m' b h = elim (Option-cases (lookup (get_file_id p) m.files)) [
    | inl out ↦ absurd (ground (arith, write_closed b out))
    | inr (e, at) ↦ elim (Bool-cases (written e b).stream.failed) [
      | inl bad ↦ absurd (ground (arith, write_failed e b at bad))
      | inr well ↦ (
        e,
        at,
        well,
        some-injective m' (record m { files = put (get_file_id p) (written e b) m.files })
            (sym h ∙ write_well e b at well),
      )
    ]
  ]

  -- A page of the file after the write.
  pub page_of-written :
      (e : FileEntry) (b : Bytes)
      → (written e b).stream.failed ≡ false
      → page_of (written e b) (get_page_no p) ≡ some b
  unfolding written stream_write
  page_of-written e b well = ground arith

  pub page_of-written_ne :
      (e : FileEntry) (b c : Bytes) (n : ℕ)
      → (written e b).stream.failed ≡ false
      → n ≢ get_page_no p
      → page_of e n ≡ some c
      → page_of (written e b) n ≡ some c
  unfolding written stream_write
  page_of-written_ne e b c n well ne k = ground arith

  -- A medium that takes writes goes on to take them.
  pub written-healthy :
      (e : FileEntry) (b : Bytes)
      → e.stream.failed ≡ false
      → e.stream.writable ≡ true
      → ((written e b).stream.failed ≡ false) × ((written e b).stream.writable ≡ true)
  unfolding written stream_write
  written-healthy e b h k = ground arith
