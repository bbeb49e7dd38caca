-- ===== src/Links/Pushes.antt =====
-- The new entries in front and behind.
use fake_linker.Prelude.{
  ℕ, zero, suc, ◌<◌, ◌≡◌, refl, sym, ap, ◌∙◌, ◌⊎◌, inl, inr, not, some, List, [], ◌∷◌, ◌++◌, arith,
  ◌==◌, if◌then◌else◌, Bool-cases, length, any,
}
use mathlib.Core.Path.{subst}
use fake_linker.Namespace.{push_back}
use fake_linker.Links.{
  null, Entry, Cells, write, Allocator, Store, LinkedList, new_entry, set_next, find, append_entry,
}
use fake_linker.Links as Links
use fake_linker.Links.Cells.{
  Row, start, end_of, elements, IsChain, IsChain-write, IsChain-snoc, IsChain-one, not_has_unused,
  start-append, end_of-append, elements-append, length-elements, entry_at, append-shift,
}
use fake_linker.Links.Memory.{IsList, IsSequence, end_of-ne-null, new_entry_lem, set_next_lem}

-- The last entry of a list, if it has one.
last_cases : (xs : Row) → (xs ≡ []) ⊎ ((ys : Row) × (p : ℕ) × (w : ℕ) × (xs ≡ ys ++ (p, w) ∷ []))
last_cases [] = inl refl
last_cases ((a, v) ∷ xs) = inr (elim (last_cases xs) [
  | inl empty ↦ ([], a, v, ap (λ (t : Row). (a, v) ∷ t) empty)
  | inr (ys, p, w, e) ↦ ((a, v) ∷ ys, p, w, ap (λ (t : Row). (a, v) ∷ t) e)
])

module _ (A : Allocator) where
  tail_of :
      (a v t : ℕ) (cells : Cells) (xs : Row)
      → IsChain cells null xs
      → t ≡ end_of null xs
      → (if t == null then a else t) ≡ end_of null ((a, v) ∷ xs)
  tail_of a v t cells [] chain e = ground arith
  tail_of a v t cells (x ∷ xs) chain e = ground (arith, end_of-ne-null cells null x xs chain, e)

  pub push_front-IsSequence :
      (v : ℕ) (l : LinkedList A) (vs : List ℕ)
      → IsSequence A l vs
      → IsSequence A (Links.push_front A v l) (v ∷ vs)
  unfolding Links.push_front
  push_front-IsSequence v l vs (xs, (ok, chain, head, tail), es) =
      let e : Entry = record { next = l.head; element = v } in
      let a = (new_entry A e l.store).0 in
      let (ne, unused, after, ok') = new_entry_lem A e l.store ok in
      let out = not_has_unused l.store.cells null a xs chain unused in
      (
        (a, v) ∷ xs,
        (
          ok',
          subst (λ (c : Cells). IsChain c null ((a, v) ∷ xs)) (sym after)
              (
                ne,
                ground (arith, head),
                out,
                IsChain-write l.store.cells null a (some e) xs out chain,
              ),
          refl,
          tail_of a v l.tail l.store.cells xs chain tail,
        ),
        ap (λ (t : List ℕ). v ∷ t) es,
      )

  abbrev Appends : ℕ → LinkedList A → Row → Type 0
  Appends v l xs =
      (l' : LinkedList A) × (append_entry A v l ≡ some l')
      × ((a : ℕ) × IsList A l' (xs ++ (a, v) ∷ []))

  append_entry-empty : (v : ℕ) (l : LinkedList A) → IsList A l [] → Appends v l []
  unfolding append_entry
  append_entry-empty v l (ok, chain, head, tail) =
      let e : Entry = record { next = null; element = v } in
      let (a, s) = new_entry A e l.store in
      let (ne, unused, after, ok') = new_entry_lem A e l.store ok in
      (
        record { store = s; head = a; tail = a },
        rw tail,
        (
          a,
          (
            ok',
            IsChain-one s.cells a v ne (ap (λ (c : Cells). c a) after ∙ ground arith),
            refl,
            refl,
          ),
        ),
      )

  append_entry-last :
      (v : ℕ) (l : LinkedList A) (ys : Row) (p w : ℕ)
      → IsList A l (ys ++ (p, w) ∷ [])
      → Appends v l (ys ++ (p, w) ∷ [])
  unfolding append_entry
  append_entry-last v l ys p w (ok, chain, head, tail) =
      let e : Entry = record { next = null; element = v } in
      let (a, s) = new_entry A e l.store in
      let (ne, unused, after, ok') = new_entry_lem A e l.store ok in
      let (nep, at, _) = entry_at l.store.cells null p w ys [] chain in
      let at_end : l.tail ≡ p = tail ∙ end_of-append null ys ((p, w) ∷ []) in
      let at' : s.cells p ≡ some (record { next = null; element = w }) =
        ap (λ (c : Cells). c p) after ∙ ground (arith, at, unused) in
      let (s', linked, after', ok'') = set_next_lem A s p a _ ok' nep at' in
      let done : append_entry A v l ≡ some (record { store = s'; head = l.head; tail = a }) =
        ground (arith, at_end, nep, linked) in
      (
        record { store = s'; head = l.head; tail = a },
        done,
        (
          a,
          subst (λ (t : Row). IsList A (record { store = s'; head = l.head; tail = a }) t)
              (sym (append-shift ys (p, w) ((a, v) ∷ [])))
              (
                ok'',
                subst (λ (c : Cells). IsChain c null (ys ++ (p, w) ∷ (a, v) ∷ []))
                    (sym (
                      after'
                      ∙ ap (λ (c : Cells). write c p (some (record { next = a; element = w })))
                          after))
                    (IsChain-snoc l.store.cells a v p w ys chain unused ne),
                head ∙ start-append null ys _ ∙ sym (start-append null ys _),
                sym (end_of-append null ys ((p, w) ∷ (a, v) ∷ [])),
              ),
        ),
      )

  append_entry_lem : (v : ℕ) (l : LinkedList A) (xs : Row) → IsList A l xs → Appends v l xs
  append_entry_lem v l xs list = elim (last_cases xs) [
    | inl empty ↦
        subst (Appends v l) (sym empty) (append_entry-empty v l (subst (IsList A l) empty list))
    | inr (ys, p, w, e) ↦
        subst (Appends v l) (sym e) (append_entry-last v l ys p w (subst (IsList A l) e list))
  ]

  pub find_lem :
      (fuel v : ℕ) (s : Store A) (xs : Row)
      → IsChain s.cells null xs
      → length xs < fuel
      → (p : ℕ) × (find A fuel s (start null xs) v ≡ some p)
        × ((p == null) ≡ not (any (λ e. e == v) (elements xs)))
  unfolding find
  find_lem zero v s xs chain enough = absurd (omega arith)
  find_lem (suc fuel) v s [] chain enough = (null, refl, refl)
  find_lem (suc fuel) v s ((a, w) ∷ xs) chain enough = elim (Bool-cases (w == v)) [
    | inl here ↦ (a, ground (arith, chain.0, chain.1, here), ground (arith, chain.0, here))
    | inr other ↦
        let (p, found, is) = find_lem fuel v s xs chain.3 (omega arith) in
        (p, ground (arith, chain.0, chain.1, other, found), ground (arith, is, other))
  ]

  pub push_back-IsSequence :
      (fuel v : ℕ) (l : LinkedList A) (vs : List ℕ)
      → IsSequence A l vs
      → length vs < fuel
      → (l' : LinkedList A) × (Links.push_back A fuel v l ≡ some l')
        × IsSequence A l' (push_back 0 v vs)
  unfolding Links.push_back push_back
  push_back-IsSequence fuel v l vs (xs, list, es) enough =
      let few : length xs < fuel =
        subst (λ n. n < fuel) (ap (λ (t : List ℕ). length t) (sym es) ∙ length-elements xs)
          enough in
      let (p, found, is) = find_lem fuel v l.store xs list.1 few in
      let found' : find A fuel l.store l.head v ≡ some p =
        subst (λ h. find A fuel l.store h v ≡ some p) (sym list.2) found in
      let is' : (p == null) ≡ not (any (λ e. e == v) vs) =
        subst (λ (t : List ℕ). (p == null) ≡ not (any (λ e. e == v) t)) es is in
      elim (Bool-cases (any (λ e. e == v) vs)) [
        | inl inside ↦
            (l, ground (arith, found', is', inside), (xs, list, ground (arith, inside, es)))
        | inr outside ↦
            let (l', done, (a, list')) = append_entry_lem v l xs list in
            (
              l',
              ground (arith, found', is', outside, done),
              (
                xs ++ (a, v) ∷ [],
                list',
                elements-append xs ((a, v) ∷ [])
                    ∙ ap (λ (t : List ℕ). t ++ v ∷ []) es
                    ∙ ground (arith, outside),
              ),
            )
      ]
