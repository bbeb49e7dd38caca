-- ===== src/Links/Removal.antt =====
-- The entries that a test selects are taken out.
use fake_linker.Prelude.{
  ℕ, zero, suc, ◌<◌, ◌≡◌, refl, sym, ap, ◌∙◌, inl, inr, Bool, false, none, some, List, [], ◌∷◌,
  ◌++◌, arith, ◌==◌, if◌then◌else◌, Bool-cases, length,
}
use mathlib.Core.Path.{subst}
use fake_linker.Namespace.{remove_if}
use fake_linker.Links.{
  null, Entry, Cells, write, Allocator, Store, LinkedList, load, set_next, free_entry, remove_entry,
  remove_loop,
}
use fake_linker.Links as Links
use fake_linker.Links.Cells.{
  Row, start, end_of, has, elements, IsChain, IsChain-unlink, start-append, end_of-append, entry_at,
  append-shift, length-elements,
}
use fake_linker.Links.Memory.{IsList, IsSequence, not_end_of, free_entry_lem, set_next_lem}
use fake_linker.Links.Takes.{free_first}

-- The tail once `e`, behind `p`, is gone.
tail_without :
    (t e p : ℕ) (cells : Cells) (rest : Row)
    → has e rest ≡ false
    → t ≡ end_of e rest
    → (if t == e then p else t) ≡ end_of p rest
tail_without t e p cells [] out same = ground (arith, same)
tail_without t e p cells (x ∷ rest) out same = ground (arith, not_end_of cells e p x rest out, same)

module _ (A : Allocator) where
  abbrev Removes : ℕ → ℕ → Entry → LinkedList A → Row → Type 0
  Removes e p entry l xs =
      (l' : LinkedList A) × (remove_entry A e p entry l ≡ some l') × IsList A l' xs

  remove_entry-first :
      (l : LinkedList A) (e v : ℕ) (rest : Row)
      → IsList A l ((e, v) ∷ rest)
      → Removes e null (record { next = start null rest; element = v }) l rest
  unfolding remove_entry
  remove_entry-first l e v rest (ok, chain, head, tail) =
      let (s', freed, ok', chain') = free_first A l.store e v rest ok chain in
      (
        record { store = s'; head = start null rest; tail = if l.tail == e then null else l.tail },
        ground (arith, freed),
        (ok', chain', refl, tail_without l.tail e null s'.cells rest chain.2 tail),
      )

  remove_entry-behind :
      (l : LinkedList A) (ys : Row) (p w e v : ℕ) (rest : Row)
      → IsList A l (ys ++ (p, w) ∷ (e, v) ∷ rest)
      → Removes e p (record { next = start null rest; element = v }) l (ys ++ (p, w) ∷ rest)
  unfolding remove_entry
  remove_entry-behind l ys p w e v rest (ok, chain, head, tail) =
      let (ne, at, out) = entry_at l.store.cells null p w ys ((e, v) ∷ rest) chain in
      let (_, at_e, out_e) =
        entry_at l.store.cells null e v (ys ++ (p, w) ∷ []) rest (
          subst (IsChain l.store.cells null) (sym (append-shift ys (p, w) ((e, v) ∷ rest)))
            chain) in
      let (s1, linked, after1, ok1) = set_next_lem A l.store p (start null rest) _ ok ne at in
      let at_e1 : s1.cells e ≡ some (record { next = start null rest; element = v }) =
        ap (λ (c : Cells). c e) after1 ∙ ground (arith, at_e, out) in
      let (s2, freed, after2, ok2) = free_entry_lem A s1 e _ ok1 at_e1 in
      let after = after2 ∙ ap (λ (c : Cells). write c e none) after1 in
      let l' : LinkedList A = record {
        store = s2;
        head = l.head;
        tail = if l.tail == e then p else l.tail;
      } in
      let done : remove_entry A e p (record { next = start null rest; element = v }) l ≡ some l' =
        ground (arith, ne, linked, freed) in
      (
        l',
        done,
        (
          ok2,
          subst (λ (c : Cells). IsChain c null (ys ++ (p, w) ∷ rest)) (sym after)
              (IsChain-unlink l.store.cells p w e v ys rest chain),
          head ∙ start-append null ys _ ∙ sym (start-append null ys _),
          tail_without l.tail e p s2.cells rest out_e (tail ∙ end_of-append null ys _)
              ∙ sym (end_of-append null ys _),
        ),
      )

  abbrev Leaves : (ℕ → Bool) → ℕ → ℕ → LinkedList A → Row → Row → Type 0
  Leaves predicate fuel p l front rest =
      (l' : LinkedList A) × (zs : Row) × (remove_loop A predicate fuel (start null rest) p l
        ≡ some l')
      × IsList A l' (front ++ zs)
      × (elements zs ≡ remove_if predicate (elements rest))

  remove_loop-behind :
      (predicate : ℕ → Bool) (fuel : ℕ) (l : LinkedList A) (ys : Row) (p w : ℕ) (rest : Row)
      → IsList A l (ys ++ (p, w) ∷ rest)
      → length rest < fuel
      → Leaves predicate fuel p l (ys ++ (p, w) ∷ []) rest
  unfolding remove_loop remove_if
  remove_loop-behind predicate zero l ys p w rest list enough = absurd (omega arith)
  remove_loop-behind predicate (suc fuel) l ys p w [] list enough =
      (l, [], refl, subst (IsList A l) (sym (append-shift ys (p, w) [])) list, refl)
  remove_loop-behind predicate (suc fuel) l ys p w ((e, v) ∷ rest) list enough =
      let entry : Entry = record { next = start null rest; element = v } in
      let list' = subst (IsList A l) (sym (append-shift ys (p, w) ((e, v) ∷ rest))) list in
      let (ne, at, _) = entry_at l.store.cells null e v (ys ++ (p, w) ∷ []) rest list'.1 in
      elim (Bool-cases (predicate v)) [
        | inl gone ↦
            let (l1, removed, list1) = remove_entry-behind l ys p w e v rest list in
            let (l2, zs, done, list2, es) =
              remove_loop-behind predicate fuel l1 ys p w rest list1 (omega arith) in
            (l2, zs, ground (arith, ne, at, gone, removed, done), list2, ground (arith, gone, es))
        | inr stays ↦
            let (l2, zs, done, list2, es) =
              remove_loop-behind predicate fuel l (ys ++ (p, w) ∷ []) e v rest list'
                (omega arith) in
            (
              l2,
              (e, v) ∷ zs,
              ground (arith, ne, at, stays, done),
              subst (IsList A l2) (append-shift (ys ++ (p, w) ∷ []) (e, v) zs) list2,
              ground (arith, stays, es),
            )
      ]

  remove_loop-first :
      (predicate : ℕ → Bool) (fuel : ℕ) (l : LinkedList A) (rest : Row)
      → IsList A l rest
      → length rest < fuel
      → Leaves predicate fuel null l [] rest
  unfolding remove_loop remove_if
  remove_loop-first predicate zero l rest list enough = absurd (omega arith)
  remove_loop-first predicate (suc fuel) l [] list enough = (l, [], refl, list, refl)
  remove_loop-first predicate (suc fuel) l ((e, v) ∷ rest) list enough =
      elim (Bool-cases (predicate v)) [
        | inl gone ↦
            let (l1, removed, list1) = remove_entry-first l e v rest list in
            let (l2, zs, done, list2, es) =
              remove_loop-first predicate fuel l1 rest list1 (omega arith) in
            (
              l2,
              zs,
              ground (arith, list.1.0, list.1.1, gone, removed, done),
              list2,
              ground (arith, gone, es),
            )
        | inr stays ↦
            let (l2, zs, done, list2, es) =
              remove_loop-behind predicate fuel l [] e v rest list (omega arith) in
            (
              l2,
              (e, v) ∷ zs,
              ground (arith, list.1.0, list.1.1, stays, done),
              list2,
              ground (arith, stays, es),
            )
      ]

  pub remove_if-IsSequence :
      (predicate : ℕ → Bool) (fuel : ℕ) (l : LinkedList A) (vs : List ℕ)
      → IsSequence A l vs
      → length vs < fuel
      → (l' : LinkedList A) × (Links.remove_if A predicate fuel l ≡ some l')
        × IsSequence A l' (remove_if predicate vs)
  unfolding Links.remove_if
  remove_if-IsSequence predicate fuel l vs (xs, list, es) enough =
      let few : length xs < fuel =
        subst (λ n. n < fuel) (ap (λ (t : List ℕ). length t) (sym es) ∙ length-elements xs)
          enough in
      let (l', zs, done, list', es') = remove_loop-first predicate fuel l xs list few in
      (
        l',
        ap (λ h. remove_loop A predicate fuel h null l) list.2 ∙ done,
        (zs, list', es' ∙ ap (λ (t : List ℕ). remove_if predicate t) es),
      )
