-- ===== src/Relocate/Groups/Ends.antt =====
-- The loop over the groups of packed relocations ends.
use fake_linker.Prelude.{
  ℕ, zero, suc, ◌≤◌, ◌<◌, ◌≡◌, refl, ◌≢◌, Bool, true, false, arith, ltb, if-cases, length, Bytes,
  bytes, not, bit_and, ◌==◌,
}
use fake_linker.Relocate.Leb.{Popped, out_of_bounds, undefined, popped, sleb128_pop_front}
use fake_linker.Relocate.Leb.Value.{sleb128_pop_front-shrinks}
use fake_linker.Relocate.Groups.{
  PackedReloc, Outcome, fatal, no_meaning, out_of_fuel, refused, done, ◌>>=◌, Cursor, pop, pop_onto,
  from_popped, added, AddendMode, no_addend, each_addend, group_addend, Header, reloc_of, pop_if,
  read_group_addend, read_header, read_offset, read_info, read_addend_in, read_reloc, group_loop,
  groups_loop, for_all_packed_relocs, addend_mode,
}

-- The fuel does not run out, and a result has the property.
abbrev Ends : {S A : Type 0} → (A → Type 0) → Outcome S A → Type 0
Ends Q fatal = Unit
Ends Q no_meaning = Unit
Ends Q out_of_fuel = ⊥
Ends Q (refused s) = Unit
Ends Q (done a) = Q a

>>=-Ends :
    {S A B : Type 0} (Q : A → Type 0) (R : B → Type 0) (m : Outcome S A) (f : A → Outcome S B)
    → Ends Q m
    → ((a : A) → Q a → Ends R (f a))
    → Ends R (m >>= f)
>>=-Ends Q R fatal f h k = tt
>>=-Ends Q R no_meaning f h k = tt
>>=-Ends Q R out_of_fuel f h k = absurd h
>>=-Ends Q R (refused s) f h k = tt
>>=-Ends Q R (done a) f h k = k a h

-- The bytes left are at most, or fewer than, so many.
abbrev Within : {A : Type 0} → ℕ → Cursor A → Type 0
Within n c = length c.current ≤ n

abbrev Below : {A : Type 0} → ℕ → Cursor A → Type 0
Below n c = length c.current < n

from_popped-Below :
    (S : Type 0) (f : ℕ → ℕ) (current : Bytes) (p : Popped)
    → sleb128_pop_front current ≡ p
    → Ends {S = S} (Below (length current)) (from_popped f p)
from_popped-Below S f current out_of_bounds e = tt
from_popped-Below S f current undefined e = tt
from_popped-Below S f current (popped v rest) e = sleb128_pop_front-shrinks current v rest e

pop-Below : (S : Type 0) (current : Bytes) → Ends {S = S} (Below (length current)) (pop current)
pop-Below S current = from_popped-Below S (λ v. v) current _ refl

-- A weaker bound.
Ends-Within :
    {S A : Type 0} (n m : ℕ) (o : Outcome S (Cursor A))
    → n ≤ m
    → Ends (Below n) o
    → Ends (Within m) o
Ends-Within n m fatal h e = tt
Ends-Within n m no_meaning h e = tt
Ends-Within n m out_of_fuel h e = e
Ends-Within n m (refused s) h e = tt
Ends-Within n m (done a) h e = omega (arith, h, e)

pop_onto-Within :
    (S : Type 0) (base n : ℕ) (current : Bytes)
    → length current ≤ n
    → Ends {S = S} (Within n) (pop_onto base current)
pop_onto-Within S base n current h =
    Ends-Within (length current) n (pop_onto base current) h
      (from_popped-Below S (added base) current _ refl)

pop-Within :
    (S : Type 0) (n : ℕ) (current : Bytes)
    → length current ≤ n
    → Ends {S = S} (Within n) (pop current)
pop-Within S n current h = Ends-Within (length current) n (pop current) h (pop-Below S current)

pop_if-Within :
    (S : Type 0) (b : Bool) (v n : ℕ) (current : Bytes)
    → length current ≤ n
    → Ends {S = S} (Within n) (pop_if b v current)
pop_if-Within S true v n current h = pop-Within S n current h
pop_if-Within S false v n current h = h

read_group_addend-Within :
    (S : Type 0) (mode : AddendMode) (v n : ℕ) (current : Bytes)
    → length current ≤ n
    → Ends {S = S} (Within n) (read_group_addend mode v current)
unfolding read_group_addend
read_group_addend-Within S no_addend v n current h = h
read_group_addend-Within S each_addend v n current h = h
read_group_addend-Within S group_addend v n current h = pop_onto-Within S v n current h

read_header-Below :
    (S : Type 0) (reloc : PackedReloc) (current : Bytes)
    → Ends {S = S} (Below (length current)) (read_header reloc current)
unfolding read_header
read_header-Below S reloc current =
    let n = length current in
    >>=-Ends (Below n) (Below n) _ _ (pop-Below S current) λ (size : Cursor ℕ) hs.
      let k = length size.current in
      >>=-Ends (Within k) (Below n) _ _ (pop-Within S k size.current (omega arith))
        λ (flags : Cursor ℕ) hf.
          let by_delta = not (bit_and flags.value 2 == 0) in
          let by_info = not (bit_and flags.value 1 == 0) in
          let mode = addend_mode flags.value in
          >>=-Ends (Within k) (Below n) (pop_if by_delta 0 flags.current) _
            (pop_if-Within S by_delta 0 k flags.current hf)
            λ (delta : Cursor ℕ) hd.
              >>=-Ends (Within k) (Below n) (pop_if by_info reloc.r_info delta.current) _
                (pop_if-Within S by_info reloc.r_info k delta.current hd)
                λ (info : Cursor ℕ) hi.
                  >>=-Ends (Within k) (Below n) (read_group_addend mode reloc.r_addend info.current)
                    _ (read_group_addend-Within S mode reloc.r_addend k info.current hi)
                    λ (addend : Cursor ℕ) ha.
                      let short : length addend.current < n = omega (arith, hs, ha) in short

read_offset-Within :
    (S : Type 0) (h : Header) (v n : ℕ) (current : Bytes)
    → length current ≤ n
    → Ends {S = S} (Within n) (read_offset h v current)
unfolding read_offset
read_offset-Within S h v n current hc =
    if-cases (Ends (Within n)) h.by_delta (λ _. hc) (λ _. pop_onto-Within S v n current hc)

read_info-Within :
    (S : Type 0) (h : Header) (v n : ℕ) (current : Bytes)
    → length current ≤ n
    → Ends {S = S} (Within n) (read_info h v current)
unfolding read_info
read_info-Within S h v n current hc =
    if-cases (Ends (Within n)) h.by_info (λ _. hc) (λ _. pop-Within S n current hc)

read_addend_in-Within :
    (S : Type 0) (mode : AddendMode) (v n : ℕ) (current : Bytes)
    → length current ≤ n
    → Ends {S = S} (Within n) (read_addend_in mode v current)
read_addend_in-Within S no_addend v n current h = h
read_addend_in-Within S each_addend v n current h = pop_onto-Within S v n current h
read_addend_in-Within S group_addend v n current h = h

read_reloc-Within :
    (S : Type 0) (h : Header) (reloc : PackedReloc) (n : ℕ) (current : Bytes)
    → length current ≤ n
    → Ends {S = S} (Within n) (read_reloc h reloc current)
unfolding read_reloc
read_reloc-Within S h reloc n current hc =
    >>=-Ends (Within n) (Within n) _ _ (read_offset-Within S h reloc.r_offset n current hc)
      λ (offset : Cursor ℕ) ho.
        >>=-Ends (Within n) (Within n) _ _ (read_info-Within S h reloc.r_info n offset.current ho)
          λ (info : Cursor ℕ) hi.
            >>=-Ends (Within n) (Within n) _ _
              (read_addend_in-Within S h.mode reloc.r_addend n info.current hi)
              λ (addend : Cursor ℕ) ha. ha

-- The callback ends, and whatever it answers.
abbrev pub Any : {A : Type 0} → A → Type 0
Any a = Unit

Ends-ne : {S A : Type 0} (o : Outcome S A) → Ends Any o → o ≢ out_of_fuel
Ends-ne fatal h = λ e. cc
Ends-ne no_meaning h = λ e. cc
Ends-ne out_of_fuel h = absurd h
Ends-ne (refused s) h = λ e. cc
Ends-ne (done a) h = λ e. cc

module _ {S : Type 0} (callback : PackedReloc → S → Outcome S S)
    (ends : (r : PackedReloc) (s : S) → callback r s ≢ out_of_fuel) where
  callback-Ends : (r : PackedReloc) (s : S) (o : Outcome S S) → callback r s ≡ o → Ends Any o
  callback-Ends r s fatal e = tt
  callback-Ends r s no_meaning e = tt
  callback-Ends r s out_of_fuel e = absurd (ends r s e)
  callback-Ends r s (refused s') e = tt
  callback-Ends r s (done s') e = tt

  group_loop-Ends :
      (h : Header) (left : ℕ) (reloc : PackedReloc) (n : ℕ) (current : Bytes) (s : S)
      → length current ≤ n
      → Ends
          (λ (r : Cursor PackedReloc × S). Within n r.0)
          (group_loop callback h left reloc current s)
  unfolding group_loop
  group_loop-Ends h zero reloc n current s hc = hc
  group_loop-Ends h (suc left) reloc n current s hc =
      let Q = λ (r : Cursor PackedReloc × S). Within n r.0 in
      >>=-Ends (Within n) Q _ _ (read_reloc-Within S h reloc n current hc)
        λ (next : Cursor PackedReloc) hn.
          >>=-Ends Any Q _ _ (callback-Ends next.value s _ refl)
            λ (s' : S) _. group_loop-Ends h left next.value n next.current s' hn

  groups_loop-Ends :
      (fuel num_relocs idx : ℕ) (reloc : PackedReloc) (current : Bytes) (s : S)
      → length current < fuel
      → Ends Any (groups_loop callback fuel num_relocs idx reloc current s)
  unfolding groups_loop
  groups_loop-Ends zero num_relocs idx reloc current s hf = absurd (omega arith)
  groups_loop-Ends (suc fuel) num_relocs idx reloc current s hf =
      let n = length current in
      let Q = λ (r : Cursor PackedReloc × S). length r.0.current < n in
      if-cases (Ends Any) (ltb idx num_relocs)
        (λ _.
          >>=-Ends (Below n) Any _ _ (read_header-Below S reloc current)
            λ (head : Cursor (Header × PackedReloc)) hh.
              let k = length head.current in
              >>=-Ends (λ (r : Cursor PackedReloc × S). Within k r.0) Any _ _
                (group_loop-Ends head.value.0 head.value.0.size head.value.1 k head.current s
                  (omega arith))
                λ (body : Cursor PackedReloc × S) hb.
                  groups_loop-Ends fuel num_relocs _ body.0.value body.0.current body.1
                    (omega (arith, hh, hb)))
        (λ _. tt)

  -- `for_all_packed_relocs` ends on every input, with more rounds than there are bytes, if the
  -- callback ends.
  pub for_all_packed_relocs-ne-out_of_fuel :
      (bytes : Bytes) (s : S) (fuel : ℕ)
      → length bytes < fuel
      → for_all_packed_relocs callback fuel bytes s ≢ out_of_fuel
  unfolding for_all_packed_relocs
  for_all_packed_relocs-ne-out_of_fuel bytes s fuel hf = Ends-ne _ (
      >>=-Ends (Below (length bytes)) Any _ _ (pop-Below S bytes) λ (num_relocs : Cursor ℕ) hn.
        let k = length num_relocs.current in
        >>=-Ends (Within k) Any _ _ (pop-Within S k num_relocs.current (omega arith))
          λ (offset : Cursor ℕ) ho.
            groups_loop-Ends fuel num_relocs.value 0 (reloc_of offset.value 0 0) offset.current s
              (omega (arith, hf, hn, ho)))
