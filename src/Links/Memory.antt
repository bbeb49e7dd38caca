-- ===== src/Links/Memory.antt =====
-- The allocation, the link and the release of one entry, and what a list is in memory.
use fake_linker.Prelude.{ℕ, ◌≡◌, refl, ◌≢◌, true, false, none, some, List, ◌∷◌, arith, ◌==◌, ==→eq}
use fake_linker.Links.{
  null, Entry, Cells, write, Allocator, Store, LinkedList, load, new_entry, set_next, free_entry,
}
use fake_linker.Links.Cells.{Row, start, end_of, has, elements, IsChain, has-end_of, not_has-null}

-- Memory outside the blocks in use holds no entry.
abbrev pub IsStore : (A : Allocator) → Store A → Type 0
IsStore A s = A.IsValid s.pool × ((a : ℕ) → A.used a s.pool ≡ false → s.cells a ≡ none)

abbrev pub IsList : (A : Allocator) → LinkedList A → Row → Type 0
IsList A l xs =
    IsStore A l.store
    × IsChain l.store.cells null xs
    × (l.head ≡ start null xs)
    × (l.tail ≡ end_of null xs)

-- The list in memory stands for a sequence of elements.
abbrev pub IsSequence : (A : Allocator) → LinkedList A → List ℕ → Type 0
IsSequence A l vs = (xs : Row) × IsList A l xs × (elements xs ≡ vs)

pub not_end_of :
    (cells : Cells) (b p : ℕ) (x : ℕ × ℕ) (xs : Row)
    → has b (x ∷ xs) ≡ false
    → (end_of p (x ∷ xs) == b) ≡ false
not_end_of cells b p x xs out = ground (arith, ==→eq (end_of p (x ∷ xs)) b, has-end_of p x xs)

pub end_of-ne-null :
    (cells : Cells) (p : ℕ) (x : ℕ × ℕ) (xs : Row)
    → IsChain cells null (x ∷ xs)
    → (end_of p (x ∷ xs) == null) ≡ false
end_of-ne-null cells p x xs chain =
    not_end_of cells null p x xs (not_has-null cells null (x ∷ xs) chain)

module _ (A : Allocator) where
  pub load-some :
      (s : Store A) (a : ℕ) (e : Entry) → a ≢ null → s.cells a ≡ some e → load A a s ≡ some e
  load-some s a e ne at = ground (arith, ne, at)

  pub new_entry_lem :
      (e : Entry) (s : Store A)
      → IsStore A s
      → ((new_entry A e s).0 ≢ null)
        × (s.cells (new_entry A e s).0 ≡ none)
        × ((new_entry A e s).1.cells ≡ write s.cells (new_entry A e s).0 (some e))
        × IsStore A (new_entry A e s).1
  unfolding new_entry
  new_entry_lem e s ok = (
    A.alloc-ne-null s.pool ok.0,
    ok.1 _ (A.alloc-unused s.pool ok.0),
    refl,
    (
      A.alloc-IsValid s.pool ok.0,
      λ b unused. ground (arith, A.alloc-used s.pool b ok.0, ok.1 b, unused),
    ),
  )

  pub used_at :
      (s : Store A) (a : ℕ) (e : Entry) → IsStore A s → s.cells a ≡ some e → A.used a s.pool ≡ true
  used_at s a e ok at = ground (arith, ok.1 a, at)

  pub free_entry_lem :
      (s : Store A) (a : ℕ) (e : Entry)
      → IsStore A s
      → s.cells a ≡ some e
      → (s' : Store A) × (free_entry A a s ≡ some s')
        × (s'.cells ≡ write s.cells a none)
        × IsStore A s'
  unfolding free_entry
  free_entry_lem s a e ok at =
      let (q, freed, valid, used) = A.free-used s.pool a ok.0 (used_at s a e ok at) in
      (
        record { cells = write s.cells a none; pool = q },
        rw freed,
        refl,
        (valid, λ b unused. ground (arith, used b, ok.1 b, unused)),
      )

  pub set_next_lem :
      (s : Store A) (p q : ℕ) (e : Entry)
      → IsStore A s
      → p ≢ null
      → s.cells p ≡ some e
      → (s' : Store A) × (set_next A p q s ≡ some s')
        × (s'.cells ≡ write s.cells p (some (record e { next = q })))
        × IsStore A s'
  unfolding set_next
  set_next_lem s p q e ok ne at = (
    record s { cells = write s.cells p (some (record e { next = q })) },
    rw (load-some s p e ne at),
    refl,
    (ok.0, λ b unused. ground (arith, ok.1 b, unused, at)),
  )
