-- ===== src/Relocate/Groups/Unpack.antt =====
-- A packed table of relocations stands for the relocations of its groups, in order.
use fake_linker.Prelude.{
  ℕ, zero, suc, ◌+◌, ◌<◌, ◌≡◌, refl, sym, ap, ◌∙◌, true, List, [], ◌∷◌, ◌++◌, arith, ltb, length,
  length-append, Bytes, bytes,
}
use fake_linker.Bits.Align.{word}
use fake_linker.Relocate.Groups.{
  PackedReloc, Outcome, fatal, no_meaning, out_of_fuel, refused, done, ◌>>=◌, Cursor, at, added,
  Header, reloc_of, group_loop, groups_loop, for_all_packed_relocs,
}
use fake_linker.Relocate.Groups.Described.{
  Reads, Group, header, prepared, Chain, last_of, body_numbers, numbers, AreGroups, all_relocs,
  visit,
}
use mathlib.Core.Path.{fun_ext}
use fake_linker.Relocate.Groups.Read.{read_header-head_numbers, read_reloc-reloc_numbers}

module _ {S : Type 0} (callback : PackedReloc → S → Outcome S S) where
  >>=_assoc :
      {A B C : Type 0} (m : Outcome S A) (f : A → Outcome S B) (g : B → Outcome S C)
      → ((m >>= f) >>= g) ≡ (m >>= λ a. f a >>= g)
  >>=_assoc fatal f g = refl
  >>=_assoc no_meaning f g = refl
  >>=_assoc out_of_fuel f g = refl
  >>=_assoc (refused s) f g = refl
  >>=_assoc (done a) f g = refl

  visit-append :
      (rs more : List PackedReloc) (s : S)
      → visit callback (rs ++ more) s ≡ (visit callback rs s >>= visit callback more)
  visit-append [] more s = refl
  visit-append (r ∷ rs) more s =
      ap (λ f. callback r s >>= f) (fun_ext (visit-append rs more))
      ∙ sym (>>=_assoc (callback r s) (visit callback rs) (visit callback more))

  -- The end of a loop over a group.
  abbrev finished : PackedReloc → Bytes → S → Outcome S (Cursor PackedReloc × S)
  finished reloc next s = done (at reloc next, s)

  group_loop-body_numbers :
      (h : Header) (rs : List PackedReloc) (before : PackedReloc) (current : Bytes) (vs : List ℕ)
      (rest : Bytes)
      → Chain h before rs
      → Reads current (body_numbers h before rs vs) rest
      → (next : Bytes) × ((s : S)
          → group_loop callback h (length rs) before current s
            ≡ (visit callback rs s >>= finished (last_of before rs) next))
        × Reads next vs rest
  unfolding group_loop
  group_loop-body_numbers h [] before current vs rest c reads = (current, λ s. refl, reads)
  group_loop-body_numbers h (r ∷ rs) before current vs rest c reads =
      let (c1, e1, r1) = read_reloc-reloc_numbers S h before r current _ rest c.0 reads in
      let (c2, e2, r2) = group_loop-body_numbers h rs r c1 vs rest c.1 r1 in
      (
        c2,
        λ s.
            ap
              (λ m. m >>= λ next. callback next.value s >>= λ s'.
                group_loop callback h (length rs) next.value next.current s')
              e1
            ∙ ap (λ f. callback r s >>= f) (fun_ext e2)
            ∙ sym (>>=_assoc (callback r s) (visit callback rs) (finished (last_of r rs) c2)),
        r2,
      )

  groups_loop-numbers :
      (gs : List Group) (fuel num_relocs idx : ℕ) (before : PackedReloc) (current rest : Bytes)
      → length gs < fuel
      → idx + length (all_relocs gs) ≡ num_relocs
      → num_relocs < word
      → AreGroups before gs
      → Reads current (numbers before gs) rest
      → (s : S)
      → groups_loop callback fuel num_relocs idx before current s ≡ visit callback (all_relocs gs) s
  unfolding groups_loop
  groups_loop-numbers gs zero num_relocs idx before current rest hf total hw good reads s =
      absurd (omega arith)
  groups_loop-numbers [] (suc fuel) num_relocs idx before current rest hf total hw good reads s =
      ground (arith, total)
  groups_loop-numbers (g ∷ gs) (suc fuel) num_relocs idx before current rest hf total hw good reads
        s =
      let size = length-append {0} g.relocs (all_relocs gs) in
      let more : ltb idx num_relocs ≡ true = ground (arith, size, total, good.0) in
      let (c1, e1, r1) = read_header-head_numbers S g before current _ rest reads in
      let (c2, e2, r2) =
        group_loop-body_numbers (header g) g.relocs (prepared g before) c1 _ rest good.1 r1 in
      let idx' = added idx (length g.relocs) in
      let total' : idx' + length (all_relocs gs) ≡ num_relocs = omega (arith, size, total, hw) in
      let after = last_of (prepared g before) g.relocs in
      let ih =
        groups_loop-numbers gs fuel num_relocs idx' after c2 rest (omega arith) total' hw good.2
          r2 in
      rw (more, e1, e2 s)
        (>>=_assoc (visit callback g.relocs s) (finished after c2)
            (λ body. groups_loop callback fuel num_relocs idx' body.0.value body.0.current body.1)
          ∙ ap (λ f. visit callback g.relocs s >>= f) (fun_ext ih)
          ∙ sym (visit-append g.relocs (all_relocs gs) s))

  -- `for_all_packed_relocs` calls the callback on exactly the relocations of the groups that the
  -- bytes encode, in order, until the callback answers false or the process ends: the number of
  -- the relocations, the first offset, and for every group its size, its flags, the numbers that
  -- the flags ask for, and for every relocation the differences of offset and addend and the
  -- info, where the group does not give them. No group is empty, and what a group gives holds for
  -- each of its relocations. The fuel is above the number of groups.
  pub for_all_packed_relocs-visit :
      (gs : List Group) (first fuel : ℕ) (bytes rest : Bytes) (s : S)
      → length gs < fuel
      → length (all_relocs gs) < word
      → AreGroups (reloc_of first 0 0) gs
      → Reads bytes (length (all_relocs gs) ∷ first ∷ numbers (reloc_of first 0 0) gs) rest
      → for_all_packed_relocs callback fuel bytes s ≡ visit callback (all_relocs gs) s
  unfolding for_all_packed_relocs
  for_all_packed_relocs-visit gs first fuel bytes rest s hf hw good (c1, e1, (c2, e2, reads)) =
      let all = length (all_relocs gs) in
      let total : 0 + all ≡ all = omega arith in
      rw (e1, e2)
        (groups_loop-numbers gs fuel all 0 (reloc_of first 0 0) c2 rest hf total hw good reads s)
