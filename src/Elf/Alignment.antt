-- ===== src/Elf/Alignment.antt =====
-- The greatest and the least alignment of the loadable segments.
use fake_linker.Prelude.{
  ℕ, ◌≤◌, ◌≡◌, refl, Bool, true, false, not, ◌&&◌, ◌||◌, List, [], ◌∷◌, arith, ltb, ◌==◌, any,
}
use fake_linker.Elf.{
  Phdr, is_passed_over, maximum_loop, phdr_table_get_maximum_alignment, minimum_loop,
  phdr_table_get_minimum_alignment,
}

-- The segment counts for the greatest alignment: it is loadable, and its alignment is a power of
-- two or 0.
abbrev pub counts : Phdr → Bool
counts p = not (is_passed_over p)

-- The segment counts for the least alignment.
abbrev pub counts_above_one : Phdr → Bool
counts_above_one p = counts p && ltb 1 p.p_align

maximum_loop-any :
    (phdrs : List Phdr) (start : ℕ)
    → (start ≤ maximum_loop phdrs start)
      × (any (λ (p : Phdr). counts p && ltb (maximum_loop phdrs start) p.p_align) phdrs ≡ false)
      × (((maximum_loop phdrs start == start)
            || any (λ (p : Phdr). counts p && (p.p_align == maximum_loop phdrs start)) phdrs)
          ≡ true)
unfolding maximum_loop
maximum_loop-any [] start = (omega arith, refl, ground arith)
maximum_loop-any (p ∷ ps) start =
    ground (arith, maximum_loop-any ps start, maximum_loop-any ps p.p_align)

-- `phdr_table_get_maximum_alignment` is at least the page size, no alignment of a segment that
-- counts is above it, and it is the page size or the alignment of such a segment.
pub phdr_table_get_maximum_alignment-any :
    (page : ℕ) (phdrs : List Phdr)
    → (page ≤ phdr_table_get_maximum_alignment page phdrs)
      × (any
            (λ (p : Phdr). counts p && ltb (phdr_table_get_maximum_alignment page phdrs) p.p_align)
            phdrs
          ≡ false)
      × (((phdr_table_get_maximum_alignment page phdrs == page)
            || any
                (λ (p : Phdr).
                  counts p && (p.p_align == phdr_table_get_maximum_alignment page phdrs))
                phdrs)
          ≡ true)
unfolding phdr_table_get_maximum_alignment
phdr_table_get_maximum_alignment-any page phdrs = maximum_loop-any phdrs page

minimum_loop-any :
    (phdrs : List Phdr) (start : ℕ)
    → (minimum_loop phdrs start ≤ start)
      × (any (λ (p : Phdr). counts_above_one p && ltb p.p_align (minimum_loop phdrs start)) phdrs
          ≡ false)
      × (((minimum_loop phdrs start == start)
            || any
                (λ (p : Phdr). counts_above_one p && (p.p_align == minimum_loop phdrs start))
                phdrs)
          ≡ true)
unfolding minimum_loop
minimum_loop-any [] start = (omega arith, refl, ground arith)
minimum_loop-any (p ∷ ps) start =
    ground (arith, minimum_loop-any ps start, minimum_loop-any ps p.p_align)

-- `phdr_table_get_minimum_alignment` is at most the page size, no alignment above 1 of a segment
-- that counts is below it, and it is the page size or the alignment of such a segment.
pub phdr_table_get_minimum_alignment-any :
    (page : ℕ) (phdrs : List Phdr)
    → (phdr_table_get_minimum_alignment page phdrs ≤ page)
      × (any
            (λ (p : Phdr).
              counts_above_one p && ltb p.p_align (phdr_table_get_minimum_alignment page phdrs))
            phdrs
          ≡ false)
      × (((phdr_table_get_minimum_alignment page phdrs == page)
            || any
                (λ (p : Phdr).
                  counts_above_one p && (p.p_align == phdr_table_get_minimum_alignment page phdrs))
                phdrs)
          ≡ true)
unfolding phdr_table_get_minimum_alignment
phdr_table_get_minimum_alignment-any page phdrs = minimum_loop-any phdrs page
