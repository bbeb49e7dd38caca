-- ===== src/Links/Takes.antt =====
-- The first entry is taken out, and all entries.
use fake_linker.Prelude.{
  ℕ, zero, suc, ◌<◌, ◌≡◌, refl, sym, ap, ◌∙◌, ◌≢◌, Option, none, some, List, [], ◌∷◌, arith, ◌==◌,
  if◌then◌else◌, length,
}
use mathlib.Core.Path.{subst}
use fake_linker.Links.{
  null, Cells, Allocator, Store, LinkedList, load, free_entry, clear_loop, pop_front, clear,
}
use fake_linker.Links.Cells.{Row, start, end_of, elements, IsChain, IsChain-write, length-elements}
use fake_linker.Links.Memory.{IsStore, IsList, IsSequence, load-some, free_entry_lem}

-- What `pop_front` answers for a sequence, and the sequence it leaves.
abbrev pub first_of : List ℕ → Option ℕ × List ℕ
first_of [] = (none, [])
first_of (v ∷ vs) = (some v, vs)

kept : (n t : ℕ) → n ≢ null → (if n == null then null else t) ≡ t
kept n t ne = ground (arith, ne)

tail_left :
    (t a : ℕ) (cells : Cells) (xs : Row)
    → IsChain cells null xs
    → t ≡ end_of a xs
    → (if start null xs == null then null else t) ≡ end_of null xs
tail_left t a cells [] chain e = refl
tail_left t a cells (x ∷ xs) chain e = kept x.0 t chain.0 ∙ e

module _ (A : Allocator) where
  -- The entry `a` is given back, the chain behind it stays.
  pub free_first :
      (s : Store A) (a v : ℕ) (xs : Row)
      → IsStore A s
      → IsChain s.cells null ((a, v) ∷ xs)
      → (s' : Store A) × (free_entry A a s ≡ some s') × IsStore A s' × IsChain s'.cells null xs
  free_first s a v xs ok chain =
      let (s', freed, after, ok') = free_entry_lem A s a _ ok chain.1 in
      (
        s',
        freed,
        ok',
        subst (λ (c : Cells). IsChain c null xs) (sym after)
            (IsChain-write s.cells null a none xs chain.2 chain.3),
      )

  pop_front_lem :
      (l : LinkedList A) (xs : Row)
      → IsList A l xs
      → (l' : LinkedList A) × (pop_front A l ≡ some ((first_of (elements xs)).0, l'))
        × IsSequence A l' (first_of (elements xs)).1
  unfolding pop_front
  pop_front_lem l [] list = (l, ground (arith, list.2), ([], list, refl))
  pop_front_lem l ((a, v) ∷ xs) (ok, chain, head, tail) =
      let (s', freed, ok', chain') = free_first l.store a v xs ok chain in
      let at : load A l.head l.store ≡ some (record { next = start null xs; element = v }) =
        load-some A l.store l.head _ (ground (arith, chain.0, head))
          (ap l.store.cells head ∙ chain.1) in
      let freed' : free_entry A l.head l.store ≡ some s' =
        ap (λ a. free_entry A a l.store) head ∙ freed in
      let t = if start null xs == null then null else l.tail in
      let left = tail_left l.tail a s'.cells xs chain' tail in
      (
        record { store = s'; head = start null xs; tail = t },
        ground (arith, chain.0, head, at, freed'),
        (xs, (ok', chain', refl, left), refl),
      )

  -- `pop_front` answers the first element and leaves the others; an empty list answers null.
  pub pop_front-IsSequence :
      (l : LinkedList A) (vs : List ℕ)
      → IsSequence A l vs
      → (l' : LinkedList A) × (pop_front A l ≡ some ((first_of vs).0, l'))
        × IsSequence A l' (first_of vs).1
  pop_front-IsSequence l vs (xs, list, es) =
      subst
        (λ (t : List ℕ).
          (l' : LinkedList A) × (pop_front A l ≡ some ((first_of t).0, l'))
          × IsSequence A l' (first_of t).1)
        es (pop_front_lem l xs list)

  clear_loop_lem :
      (fuel : ℕ) (s : Store A) (xs : Row)
      → IsStore A s
      → IsChain s.cells null xs
      → length xs < fuel
      → (s' : Store A) × (clear_loop A fuel (start null xs) s ≡ some s') × IsStore A s'
  unfolding clear_loop
  clear_loop_lem zero s xs ok chain enough = absurd (omega arith)
  clear_loop_lem (suc fuel) s [] ok chain enough = (s, refl, ok)
  clear_loop_lem (suc fuel) s ((a, v) ∷ xs) ok chain enough =
      let (s1, freed, ok1, chain1) = free_first s a v xs ok chain in
      let (s2, done, ok2) = clear_loop_lem fuel s1 xs ok1 chain1 (omega arith) in
      (s2, ground (arith, chain.0, chain.1, freed, done), ok2)

  pub clear-IsSequence :
      (fuel : ℕ) (l : LinkedList A) (vs : List ℕ)
      → IsSequence A l vs
      → length vs < fuel
      → (l' : LinkedList A) × (clear A fuel l ≡ some l') × IsSequence A l' []
  unfolding clear
  clear-IsSequence fuel l vs (xs, (ok, chain, head, tail), es) enough =
      let few : length xs < fuel =
        subst (λ n. n < fuel) (ap (λ (t : List ℕ). length t) (sym es) ∙ length-elements xs)
          enough in
      let (s', done, ok') = clear_loop_lem fuel l.store xs ok chain few in
      let done' : clear_loop A fuel l.head l.store ≡ some s' =
        ap (λ a. clear_loop A fuel a l.store) head ∙ done in
      (record { store = s'; head = null; tail = null }, rw done', ([], (ok', tt, refl, refl), refl))
