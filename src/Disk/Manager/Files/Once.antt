-- ===== src/Disk/Manager/Files/Once.antt =====
-- Histories of the files of goods_db/src/storage/disk/disk_manager.cpp, with the paths of the file
-- system.
use goods_db.Prelude.{
  ℕ, ◌<◌, ◌≡◌, ◌≢◌, refl, Bool, true, false, List, [], none, some, arith, Bool-cases, Option-cases,
  inl, inr, sym, ap, ◌∙◌, subst, if◌then◌else◌,
}
use mathlib.Core.Option.{some-injective}
use goods_db.Prelude.Assoc.{lookup, put, put-cases, erase-kept}
use goods_db.Types.Schema.{same_name}
use goods_db.Types.Schema.Columns.{same_name-eq, same_name_refl}
use goods_db.Disk.Manager.{Stream, FileEntry, DiskManager, close_file}
use goods_db.Disk.Manager.Files.{open_id, register, open_file, create_file, delete_file}
use goods_db.Disk.Manager.Files.Ids.{
  Files, open_id-none, register-Files, close_file-Files, touch-Files,
}

-- The paths that name a file, and what creating or removing one changes.
abbrev pub Paths : Type 0
Paths = List ℕ → Bool

abbrev pub mark : List ℕ → Bool → Paths → Paths
mark path there paths q = if same_name path q then there else paths q

-- A manager and the paths of the file system, from the start on, with fewer than 65535 ids given out.
-- `std::fstream` opens only a path that names a file, and creates what it truncates. `DeleteFile` is
-- called with the id and the path of an open file, and nothing else removes a file.
pub data Run : DiskManager → Paths → Type 0 where
  start : (paths : Paths) → Run (record { files = []; next_file_id = 0 }) paths
  opens :
      {m : DiskManager} {paths : Paths} (name path : List ℕ) (s : Stream)
      → Run m paths
      → m.next_file_id < 65535
      → paths path ≡ true
      → Run (open_file m name path (some s)).0 paths
  opens_none :
      {m : DiskManager} {paths : Paths} (name path : List ℕ)
      → Run m paths
      → m.next_file_id < 65535
      → Run (open_file m name path none).0 paths
  creates :
      {m m' : DiskManager} {paths : Paths} (name path : List ℕ) (s : Stream) (id : ℕ)
      → Run m paths
      → m.next_file_id < 65535
      → paths path ≡ false
      → create_file m name path none (some s) ≡ some (m', id)
      → Run m' (mark path true paths)
  creates_none :
      {m m' : DiskManager} {paths : Paths} (name path : List ℕ) (id : ℕ)
      → Run m paths
      → create_file m name path none none ≡ some (m', id)
      → Run m' paths
  closes : {m : DiskManager} {paths : Paths} (id : ℕ) → Run m paths → Run (close_file m id) paths
  deletes :
      {m : DiskManager} {paths : Paths} (id : ℕ) (e : FileEntry)
      → Run m paths
      → lookup id m.files ≡ some e
      → Run (delete_file m id) (mark e.db_path false paths)
  touches :
      {m : DiskManager} {paths : Paths} (id n : ℕ) (e : FileEntry) (s : Stream)
      → Run m paths
      → lookup id m.files ≡ some e
      → Run (record m { files = put id (record e { stream = s; num_pages = n }) m.files }) paths

-- What holds on the way: an open file is one that its path names.
record Held (m : DiskManager) (paths : Paths) : Type 0 where
  files : Files m
  named : (k : ℕ) (e : FileEntry) → lookup k m.files ≡ some e → paths e.db_path ≡ true

register-Held :
    (m : DiskManager) (paths : Paths) (entry : FileEntry)
    → Held m paths
    → m.next_file_id < 65535
    → ((k : ℕ) (e : FileEntry) → lookup k m.files ≡ some e → e.db_path ≢ entry.db_path)
    → paths entry.db_path ≡ true
    → Held (register m entry).0 paths
unfolding register
register-Held m paths entry v room fresh there = record {
  files = register-Files m entry v.files room fresh;
  named = λ k e h. elim (put-cases m.next_file_id k entry e m.files h) [
    | inl (_, this) ↦ subst (λ (f : FileEntry). paths f.db_path ≡ true) this there
    | inr old ↦ v.named k e old
  ];
}

open_file-Held :
    (m : DiskManager) (paths : Paths) (name path : List ℕ) (s : Stream)
    → Held m paths
    → m.next_file_id < 65535
    → paths path ≡ true
    → Held (open_file m name path (some s)).0 paths
unfolding open_file
open_file-Held m paths name path s v room there = elim (Option-cases (open_id path m.files)) [
  | inr (id, known) ↦ rw (open_file, known) v
  | inl new ↦
      rw (open_file, new)
        (register-Held m paths _ v room (λ k e h. open_id-none path m.files k e new h) there)
]

open_file-none : (m : DiskManager) (name path : List ℕ) → (open_file m name path none).0 ≡ m
unfolding open_file
open_file-none m name path = ground arith

mark_self : (path : List ℕ) (there : Bool) (paths : Paths) → mark path there paths path ≡ there
mark_self path there paths = ground (arith, same_name_refl path)

mark_ne :
    (path q : List ℕ) (there : Bool) (paths : Paths) → q ≢ path → mark path there paths q ≡ paths q
mark_ne path q there paths ne = elim (Bool-cases (same_name path q)) [
  | inl same ↦ absurd (ne (sym (same_name-eq path q same)))
  | inr apart ↦ rw apart refl
]

-- A path that names no file is the path of no open file.
create_file-Held :
    (m m' : DiskManager) (paths : Paths) (name path : List ℕ) (s : Stream) (id : ℕ)
    → Held m paths
    → m.next_file_id < 65535
    → paths path ≡ false
    → create_file m name path none (some s) ≡ some (m', id)
    → Held m' (mark path true paths)
unfolding create_file
create_file-Held m m' paths name path s id v room absent e =
    let fresh = λ (k : ℕ) (f : FileEntry) (h : lookup k m.files ≡ some f) (q : f.db_path ≡ path).
      (let clash : true ≡ false = sym (v.named k f h) ∙ ap paths q ∙ absent in absurd (cc clash)) in
    let v' : Held m (mark path true paths) = record {
      files = v.files;
      named = λ k f h. mark_ne path f.db_path true paths (fresh k f h) ∙ v.named k f h;
    } in
    subst (λ n. Held n (mark path true paths)) (ap (λ r. r.0) (some-injective _ _ e))
      (register-Held m (mark path true paths) _ v' room fresh (mark_self path true paths))

create_file-none :
    (m m' : DiskManager) (name path : List ℕ) (id : ℕ)
    → create_file m name path none none ≡ some (m', id)
    → m ≡ m'
unfolding create_file
create_file-none m m' name path id e = ap (λ r. r.0) (some-injective _ _ e)

close_file-Held :
    (m : DiskManager) (paths : Paths) (id : ℕ) → Held m paths → Held (close_file m id) paths
unfolding close_file
close_file-Held m paths id v = record {
  files = close_file-Files m id v.files;
  named = λ k e h. v.named k e (erase-kept id k e m.files h).1;
}

-- What else is open has another path.
delete_file-Held :
    (m : DiskManager) (paths : Paths) (id : ℕ) (e : FileEntry)
    → Held m paths
    → lookup id m.files ≡ some e
    → Held (delete_file m id) (mark e.db_path false paths)
unfolding delete_file close_file
delete_file-Held m paths id e v at =
    let left = λ (k : ℕ) (f : FileEntry). erase-kept id k f m.files in
    record {
      files = close_file-Files m id v.files;
      named = λ k f h.
          mark_ne e.db_path f.db_path false paths (λ same.
            let k≡id = v.files.once k id f e (left k f h).1 at same in
            absurd (ground (arith, (left k f h).0)))
          ∙ v.named k f (left k f h).1;
    }

Run-Held : {m : DiskManager} {paths : Paths} → Run m paths → Held m paths
unfolding lookup
Run-Held (start paths) = ground arith
Run-Held (opens {m} {paths} name path s r room there) =
    open_file-Held m paths name path s (Run-Held r) room there
Run-Held (opens_none {m} {paths} name path r room) =
    subst (λ n. Held n paths) (sym (open_file-none m name path)) (Run-Held r)
Run-Held (creates {m} {m'} {paths} name path s id r room absent e) =
    create_file-Held m m' paths name path s id (Run-Held r) room absent e
Run-Held (creates_none {m} {m'} {paths} name path id r e) =
    subst (λ n. Held n paths) (create_file-none m m' name path id e) (Run-Held r)
Run-Held (closes {m} {paths} id r) = close_file-Held m paths id (Run-Held r)
Run-Held (deletes {m} {paths} id e r at) = delete_file-Held m paths id e (Run-Held r) at
Run-Held (touches {m} {paths} id n e s r at) =
    let v = Run-Held r in
    record {
      files = touch-Files m id n e s at v.files;
      named = λ k f h. elim (put-cases id k (record e { stream = s; num_pages = n }) f m.files h) [
        | inl (_, this) ↦ subst (λ (g : FileEntry). paths g.db_path ≡ true) this (v.named id e at)
        | inr old ↦ v.named k f old
      ];
    }

-- In every history of opening, creating, closing and deleting files and of calls on their pages, with
-- fewer than 65535 ids given out, where files are removed by `DeleteFile` alone and under their own
-- paths: the path of an open file names a file, its id is below the next one, and two open files with
-- the same path have the same id.
pub open_once :
    {m : DiskManager} {paths : Paths} (k j : ℕ) (e f : FileEntry)
    → Run m paths
    → lookup k m.files ≡ some e
    → lookup j m.files ≡ some f
    → e.db_path ≡ f.db_path
    → (paths e.db_path ≡ true) × (k < m.next_file_id) × (k ≡ j)
open_once {m} {paths} k j e f r h g same =
    let v = Run-Held r in (v.named k e h, v.files.below k e h, v.files.once k j e f h g same)
