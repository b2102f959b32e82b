-- ===== src/Disk/Manager/Free.antt =====
-- The free pages of a file of goods_db/src/storage/disk/disk_manager.cpp, on a healthy medium.
use Prim.Native.Nat.{max}
use goods_db.Prelude.{
  ℕ, ◌+◌, ◌≤◌, ◌<◌, ◌≡◌, Bool, true, false, List, [], ◌∷◌, arith, ltb, ◌==◌, if◌then◌else◌, sym,
  subst,
}
use goods_db.Prelude.Bytes.{Bytes, zeros, read_u16}
use goods_db.Disk.Manager.{Stream, FileEntry, stream_read, stream_write, first_free_offset}

abbrev pub listed : ℕ → List ℕ → Bool
listed p [] = false
listed p (q ∷ l) = if p == q then true else listed p l

-- Free pages from `head` on: each is a data page of the file, and none comes twice.
abbrev pub Chain : (ℕ → Bytes) → ℕ → ℕ → List ℕ → Type 0
Chain pages n head [] = head ≡ 0
Chain pages n head (p ∷ l) =
    (head ≡ p) × (0 < p) × (p < n) × (listed p l ≡ false) × Chain pages n (read_u16 (pages p) 0) l

-- The free pages of an open file on a healthy medium, in the order in which they are given out.
pub record HasFree (e : FileEntry) (l : List ℕ) : Type 0 where
  pub healthy : (e.stream.failed ≡ false) × (e.stream.writable ≡ true)
  pub sized : e.stream.extent ≡ e.num_pages
  pub header : 0 < e.num_pages
  pub within : e.num_pages < 65536
  pub chain : Chain e.stream.pages e.num_pages (read_u16 (e.stream.pages 0) first_free_offset) l

pub Chain-cong :
    (pages pages' : ℕ → Bytes) (n n' head : ℕ) (l : List ℕ)
    → ((p : ℕ) → listed p l ≡ true → 0 < p → p < n → pages' p ≡ pages p)
    → n ≤ n'
    → Chain pages n head l
    → Chain pages' n' head l
Chain-cong pages pages' n n' head [] h le c = c
Chain-cong pages pages' n n' head (p ∷ l) h le (e, pos, below, once, c) = (
  e,
  pos,
  omega arith,
  once,
  subst (λ (b : Bytes). Chain pages' n' (read_u16 b 0) l) (sym (h p (ground arith) pos below))
      (Chain-cong pages pages' n n' (read_u16 (pages p) 0) l (λ q m z b. h q (ground arith) z b) le
        c),
)

pub Chain-lt :
    (pages : ℕ → Bytes) (n head : ℕ) (l : List ℕ) → n < 65536 → Chain pages n head l → head < 65536
Chain-lt pages n head [] h c = omega arith
Chain-lt pages n head (p ∷ l) h (e, pos, below, once, c) = omega arith

-- What the calls of the stream do on a healthy file.
pub read_healthy :
    (s : Stream) (n : ℕ) (b : Bytes)
    → s.failed ≡ false
    → n < s.extent
    → stream_read s n b ≡ (s, s.pages n)
unfolding stream_read
read_healthy s n b e h = ground arith

abbrev pub written : Stream → ℕ → Bytes → Stream
written s n b = record s {
  pages = λ k. if k == n then b else if ltb k s.extent then s.pages k else zeros;
  extent = max s.extent (n + 1);
}

pub write_healthy :
    (s : Stream) (n : ℕ) (b : Bytes)
    → s.failed ≡ false
    → s.writable ≡ true
    → stream_write s n b ≡ written s n b
unfolding stream_write
write_healthy s n b e w = rw e (rw w)
