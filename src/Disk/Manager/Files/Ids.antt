-- ===== src/Disk/Manager/Files/Ids.antt =====
-- The ids of the open files of goods_db/src/storage/disk/disk_manager.cpp.
use goods_db.Prelude.{
  ℕ, ◌<◌, ◌≡◌, ◌≢◌, refl, List, [], ◌∷◌, none, some, arith, ◌==◌, Bool-cases, inl, inr, sym, ap,
  ◌∙◌, subst,
}
use mathlib.Core.Option.{some-injective}
use goods_db.Prelude.Assoc.{lookup, put, put-cases, erase-kept}
use goods_db.Types.Schema.{same_name}
use goods_db.Types.Schema.Columns.{same_name_refl}
use goods_db.Disk.Manager.{Stream, FileEntry, DiskManager, close_file}
use goods_db.Disk.Manager.Files.{open_id, register}

-- Ids are below the next one, and no path stands under two of them.
pub record Files (m : DiskManager) : Type 0 where
  pub below : (k : ℕ) (e : FileEntry) → lookup k m.files ≡ some e → k < m.next_file_id
  pub once :
      (k j : ℕ) (e f : FileEntry)
      → lookup k m.files ≡ some e
      → lookup j m.files ≡ some f
      → e.db_path ≡ f.db_path
      → k ≡ j

abbrev path_of : FileEntry → List ℕ
path_of e = e.db_path

-- A path that the loop does not find is of no open file.
pub open_id-none :
    (path : List ℕ) (files : List (ℕ × FileEntry)) (k : ℕ) (e : FileEntry)
    → open_id path files ≡ none
    → lookup k files ≡ some e
    → e.db_path ≢ path
unfolding open_id lookup
open_id-none path [] k e h at same = absurd (cc at)
open_id-none path ((j, f) ∷ files) k e h at same = elim (Bool-cases (same_name f.db_path path)) [
  | inl found ↦ absurd (ground (arith, h))
  | inr other ↦ elim (Bool-cases (j == k)) [
    | inl here ↦
        let g : f ≡ e = some-injective f e (ground (arith, at)) in
        let p : f.db_path ≡ path = ap path_of g ∙ same in
        absurd (cc (sym other ∙ ap (λ x. same_name x path) p ∙ same_name_refl path))
    | inr there ↦ open_id-none path files k e (ground (arith, h)) (ground (arith, at)) same
  ]
]

pub register-Files :
    (m : DiskManager) (entry : FileEntry)
    → Files m
    → m.next_file_id < 65535
    → ((k : ℕ) (e : FileEntry) → lookup k m.files ≡ some e → e.db_path ≢ entry.db_path)
    → Files (register m entry).0
unfolding register
register-Files m entry v room fresh =
    let n = m.next_file_id in
    record {
      below = λ k e h. elim (put-cases n k entry e m.files h) [
        | inl (new, _) ↦ omega arith
        | inr old ↦ omega (arith, v.below k e old)
      ];
      once = λ k j e f h g same. elim (put-cases n k entry e m.files h) [
        | inl (new, this) ↦ elim (put-cases n j entry f m.files g) [
          | inl (also, _) ↦ omega arith
          | inr old ↦ absurd (fresh j f old (sym same ∙ ap path_of (sym this)))
        ]
        | inr old ↦ elim (put-cases n j entry f m.files g) [
          | inl (new, this) ↦ absurd (fresh k e old (same ∙ ap path_of (sym this)))
          | inr before ↦ v.once k j e f old before same
        ]
      ];
    }

pub close_file-Files : (m : DiskManager) (id : ℕ) → Files m → Files (close_file m id)
unfolding close_file
close_file-Files m id v =
    let left = λ (k : ℕ) (e : FileEntry). erase-kept id k e m.files in
    record {
      below = λ k e h. v.below k e (left k e h).1;
      once = λ k j e f h g same. v.once k j e f (left k e h).1 (left j f g).1 same;
    }

-- A call on pages, which changes the stream and the number of pages of an open file.
pub touch-Files :
    (m : DiskManager) (id n : ℕ) (e : FileEntry) (s : Stream)
    → lookup id m.files ≡ some e
    → Files m
    → Files (record m { files = put id (record e { stream = s; num_pages = n }) m.files })
touch-Files m id n e s at v = record {
  below = λ k f h. let (g, l, _) = before k f h in v.below k g l;
  once = λ k j f g h l same.
      let (f', a, p) = before k f h in
      let (g', b, q) = before j g l in v.once k j f' g' a b (p ∙ same ∙ sym q);
}
  where
    before :
        (k : ℕ) (f : FileEntry)
        → lookup k (put id (record e { stream = s; num_pages = n }) m.files) ≡ some f
        → (g : FileEntry) × (lookup k m.files ≡ some g) × (g.db_path ≡ f.db_path)
    before k f h =
        let e' = record e { stream = s; num_pages = n } in
        elim (put-cases id k e' f m.files h) [
          | inl (same, this) ↦ (e, subst (λ x. lookup x m.files ≡ some e) same at, ap path_of this)
          | inr old ↦ (f, old, refl)
        ]
