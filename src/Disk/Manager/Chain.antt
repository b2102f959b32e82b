-- ===== src/Disk/Manager/Chain.antt =====
-- The chain of free pages of a file is a stack: `DeallocatePage` pushes and `AllocatePage` pops.

use goods_db.Prelude.{
  ℕ, ◌+◌, ◌<◌, ◌%◌, ◌≡◌, refl, false, List, [], ◌∷◌, arith, ◌==◌, inl, sym, ap, ◌∙◌, subst,
}
use goods_db.Prelude.Bytes.{
  Bytes, zeros, read_u16, write_u16, read_u16-write_u16, read_u16-write_u16_ne,
}
use goods_db.Disk.Manager.{
  Stream, FileEntry, first_free_offset, total_pages_offset, reuse_page, grow_file, allocate_in,
  deallocate_in,
}
use goods_db.Disk.Manager.Free.{
  listed, Chain, HasFree, Chain-cong, Chain-lt, read_healthy, written, write_healthy,
}

module _ (stack : Bytes) where
  abbrev first_free : FileEntry → ℕ
  first_free e = read_u16 (e.stream.pages 0) first_free_offset

  allocate_reuse_lem :
      (e : FileEntry) (p : ℕ) (l : List ℕ)
      → HasFree e (p ∷ l)
      → allocate_in stack e ≡ (
        record e {
          stream =
              written e.stream 0
                (write_u16 (e.stream.pages 0) first_free_offset (read_u16 (e.stream.pages p) 0));
        },
        p,
      )
  unfolding allocate_in reuse_page
  allocate_reuse_lem e p l f =
      let (head, pos, below, _, _) = f.chain in
      let (well, takes) = f.healthy in
      let used : (p == 0) ≡ false = ground arith in
      rw
        (
          read_healthy e.stream 0 stack well (omega (arith, f.sized, f.header)),
          head,
          used,
          read_healthy e.stream p stack well (omega (arith, f.sized)),
        )
        (rw (
          write_healthy e.stream 0
            (write_u16 (e.stream.pages 0) first_free_offset (read_u16 (e.stream.pages p) 0)) well
            takes))

  -- On a file whose free chain is `p ∷ l`, `AllocatePage` gives out `p`, leaves the chain `l`, and
  -- does not change the number of pages.
  pub allocate_in_reuse :
      (e : FileEntry) (p : ℕ) (l : List ℕ)
      → HasFree e (p ∷ l)
      → ((allocate_in stack e).1 ≡ p)
        × HasFree (allocate_in stack e).0 l
        × ((allocate_in stack e).0.num_pages ≡ e.num_pages)
  allocate_in_reuse e p l f =
      let (head, pos, below, once, rest) = f.chain in
      let next = read_u16 (e.stream.pages p) 0 in
      let header' = write_u16 (e.stream.pages 0) first_free_offset next in
      rw (allocate_reuse_lem e p l f) (
        refl,
        record {
          healthy = f.healthy;
          sized = omega (arith, f.sized, f.header);
          header = f.header;
          within = f.within;
          chain =
              subst (λ h. Chain (written e.stream 0 header').pages e.num_pages h l)
                (sym (
                  read_u16-write_u16 (e.stream.pages 0) first_free_offset next
                    (Chain-lt e.stream.pages e.num_pages next l f.within rest)))
                (Chain-cong e.stream.pages (written e.stream 0 header').pages e.num_pages
                  e.num_pages next l (λ q m z b. ground (arith, f.sized)) (omega arith) rest);
        },
        refl,
      )

  allocate_grow_lem :
      (e : FileEntry)
      → HasFree e []
      → allocate_in stack e ≡ (
        record e {
          stream =
              written
                (written e.stream 0
                  (write_u16 (e.stream.pages 0) total_pages_offset ((e.num_pages + 1) % 65536)))
                e.num_pages
                zeros;
          num_pages = (e.num_pages + 1) % 65536;
        },
        e.num_pages,
      )
  unfolding allocate_in grow_file
  allocate_grow_lem e f =
      let (well, takes) = f.healthy in
      let header' = write_u16 (e.stream.pages 0) total_pages_offset ((e.num_pages + 1) % 65536) in
      rw (
        read_healthy e.stream 0 stack well (omega (arith, f.sized, f.header)),
        f.chain,
        write_healthy e.stream 0 header' well takes,
        write_healthy (written e.stream 0 header') e.num_pages zeros well takes,
      )

  abbrev grown : FileEntry → Stream
  grown e =
      written
        (written e.stream 0
          (write_u16 (e.stream.pages 0) total_pages_offset ((e.num_pages + 1) % 65536)))
        e.num_pages zeros

  grown_header : (e : FileEntry) → HasFree e [] → read_u16 ((grown e).pages 0) first_free_offset ≡ 0
  grown_header e f =
      let n = (e.num_pages + 1) % 65536 in
      let page : (grown e).pages 0 ≡ write_u16 (e.stream.pages 0) total_pages_offset n =
        ground (arith, f.header) in
      ap (λ b. read_u16 b first_free_offset) page
      ∙ read_u16-write_u16_ne (e.stream.pages 0) total_pages_offset first_free_offset n
          (inl (omega arith))
      ∙ f.chain

  -- On a file without free pages, where the count does not wrap, `AllocatePage` adds one page of
  -- zeros at the end and gives it out.
  pub allocate_in_grow :
      (e : FileEntry)
      → HasFree e []
      → e.num_pages + 1 < 65536
      → ((allocate_in stack e).1 ≡ e.num_pages)
        × HasFree (allocate_in stack e).0 []
        × ((allocate_in stack e).0.num_pages ≡ e.num_pages + 1)
        × ((allocate_in stack e).0.stream.pages e.num_pages ≡ zeros)
  allocate_in_grow e f room =
      let n : (e.num_pages + 1) % 65536 ≡ e.num_pages + 1 = omega arith in
      rw (allocate_grow_lem e f) (
        refl,
        record {
          healthy = f.healthy;
          sized = omega (arith, f.sized, f.header, n);
          header = omega (arith, n);
          within = omega (arith, n);
          chain = grown_header e f;
        },
        n,
        ground arith,
      )

  allocate_in_empty :
      (e : FileEntry)
      → e.stream.failed ≡ false
      → 0 < e.stream.extent
      → first_free e ≡ 0
      → (allocate_in stack e).1 ≡ e.num_pages
  unfolding allocate_in grow_file
  allocate_in_empty e well some_page none_free =
      rw (read_healthy e.stream 0 stack well some_page, none_free)

  -- On a file of 65535 pages without free ones, `AllocatePage` sets the count to 0, and the next
  -- call gives out page 0, the header of the file.
  pub allocate_in_wraps :
      (e : FileEntry)
      → HasFree e []
      → e.num_pages ≡ 65535
      → ((allocate_in stack e).0.num_pages ≡ 0)
        × ((allocate_in stack (allocate_in stack e).0).1 ≡ 0)
  allocate_in_wraps e f full =
      let n : (e.num_pages + 1) % 65536 ≡ 0 = omega arith in
      let eq = ap (λ r. r.0) (allocate_grow_lem e f) in
      let count : (allocate_in stack e).0.num_pages ≡ 0 = ap (λ r. r.num_pages) eq ∙ n in
      (
        count,
        allocate_in_empty (allocate_in stack e).0 (rw eq f.healthy.0) (rw eq (omega arith))
              (rw eq (grown_header e f))
            ∙ count,
      )

  abbrev freed : FileEntry → ℕ → Stream
  freed e p =
      written (written e.stream p (write_u16 zeros 0 (first_free e))) 0
        (write_u16 (e.stream.pages 0) first_free_offset p)

  deallocate_lem :
      (e : FileEntry) (p : ℕ) {l : List ℕ}
      → HasFree e l
      → deallocate_in stack e p ≡ record e { stream = freed e p }
  unfolding deallocate_in
  deallocate_lem e p f =
      let (well, takes) = f.healthy in
      let link = write_u16 zeros 0 (first_free e) in
      rw (
        read_healthy e.stream 0 stack well (omega (arith, f.sized, f.header)),
        write_healthy e.stream p link well takes,
        write_healthy (written e.stream p link) 0 (write_u16 (e.stream.pages 0) first_free_offset p)
            well takes,
      )

  freed_link :
      (e : FileEntry) (p : ℕ) (l : List ℕ)
      → HasFree e l
      → 0 < p
      → read_u16 ((freed e p).pages p) 0 ≡ first_free e
  freed_link e p l f pos =
      let page : (freed e p).pages p ≡ write_u16 zeros 0 (first_free e) = ground arith in
      ap (λ b. read_u16 b 0) page
      ∙ read_u16-write_u16 zeros 0 (first_free e)
          (Chain-lt e.stream.pages e.num_pages (first_free e) l f.within f.chain)

  -- `DeallocatePage` of a data page of the file that is not free puts it in front of the free chain.
  pub deallocate_in-HasFree :
      (e : FileEntry) (p : ℕ) (l : List ℕ)
      → HasFree e l
      → 0 < p
      → p < e.num_pages
      → listed p l ≡ false
      → HasFree (deallocate_in stack e p) (p ∷ l)
  deallocate_in-HasFree e p l f pos below new =
      let old = read_u16 (e.stream.pages 0) first_free_offset in
      let s' = freed e p in
      rw (deallocate_lem e p f) (record {
        healthy = f.healthy;
        sized = omega (arith, f.sized, f.header);
        header = f.header;
        within = f.within;
        chain = (
          read_u16-write_u16 (e.stream.pages 0) first_free_offset p (omega (arith, f.within)),
          pos,
          below,
          new,
          subst (λ h. Chain s'.pages e.num_pages h l) (sym (freed_link e p l f pos))
              (Chain-cong e.stream.pages s'.pages e.num_pages e.num_pages old l
                (λ q m z b. ground (arith, f.sized, new)) (omega arith) f.chain),
        );
      })

  -- `AllocatePage` after `DeallocatePage` of a data page that is not free gives out the same page,
  -- and leaves the free chain as it was.
  pub allocate-deallocate :
      (e : FileEntry) (p : ℕ) (l : List ℕ)
      → HasFree e l
      → 0 < p
      → p < e.num_pages
      → listed p l ≡ false
      → ((allocate_in stack (deallocate_in stack e p)).1 ≡ p)
        × HasFree (allocate_in stack (deallocate_in stack e p)).0 l
  allocate-deallocate e p l f pos below new =
      let (same, rest, _) =
        allocate_in_reuse (deallocate_in stack e p) p l
          (deallocate_in-HasFree e p l f pos below new) in
      (same, rest)
