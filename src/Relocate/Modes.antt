-- ===== src/Relocate/Modes.antt =====
-- The quick paths do what the slow path does.
use fake_linker.Prelude.{
  ℕ, ◌≡◌, refl, sym, ap, ◌∙◌, inl, inr, true, false, Option, none, some, List, [], ◌∷◌, arith, ◌==◌,
  ==_self, Bool-cases, Bytes,
}
use fake_linker.Relocate.{
  RelocMode, Reloc, Env, Relocator, Run, Target, aborts, fails, returns, and_then, lookup_cached,
  check_found, lookup_symbol, plain_found, plain_symbol, is_named, name_of, is_tls_reloc,
  relocate_found, process_relocation_general, process_relocation_quick, process_relocation,
  plain_relocate_impl,
}

-- A lookup leaves its answer in the cache, where the same lookup finds it.
lookup_cached-again :
    (env : Env) (s : ℕ) (n : Bytes) (r r' : Relocator) (f : Option (ℕ × ℕ))
    → lookup_cached env s n r ≡ returns f r'
    → lookup_cached env s n r' ≡ returns f r'
unfolding lookup_cached
lookup_cached-again env s n r r' f e = ground (arith, e, ==_self s)

check_found-same :
    (env : Env) (s : ℕ) (c f : Option (ℕ × ℕ)) (r r' : Relocator)
    → check_found env s c r ≡ returns f r'
    → (c ≡ f) × (r ≡ r')
unfolding check_found
check_found-same env s none f r r' e = (ground (arith, e), ground (arith, e))
check_found-same env s (some sym) f r r' e = (ground (arith, e), ground (arith, e))

checked :
    (env : Env) (s : ℕ) (x : Run (Option (ℕ × ℕ))) (f : Option (ℕ × ℕ)) (r' : Relocator)
    → and_then x (check_found env s) ≡ returns f r'
    → (x ≡ returns f r') × (check_found env s f r' ≡ returns f r')
checked env s aborts f r' e = absurd (ground (arith, e))
checked env s (fails r) f r' e = absurd (ground (arith, e))
checked env s (returns c r) f r' e =
    let (same, still) = check_found-same env s c f r r' e in
    (ground (arith, same, still), ground (arith, same, still, e))

lookup_symbol-again :
    (env : Env) (s : ℕ) (n : Bytes) (r r' : Relocator) (f : Option (ℕ × ℕ))
    → lookup_symbol env s n r ≡ returns f r'
    → lookup_symbol env s n r' ≡ returns f r'
unfolding lookup_symbol
lookup_symbol-again env s n r r' f e =
    let (found, ok) = checked env s (lookup_cached env s n r) f r' e in
    rw (lookup_cached-again env s n r r' f found) ok

found_of :
    (env : Env) (x : Run (Option (ℕ × ℕ))) (t : Target) (r' : Relocator)
    → and_then x (plain_found env) ≡ returns t r'
    → (f : Option (ℕ × ℕ)) × (x ≡ returns f r') × (plain_found env f r' ≡ returns t r')
unfolding plain_found
found_of env aborts t r' e = absurd (ground (arith, e))
found_of env (fails r) t r' e = absurd (ground (arith, e))
found_of env (returns none r) t r' e = (none, ground (arith, e), ground (arith, e))
found_of env (returns (some sym) r) t r' e = (some sym, ground (arith, e), ground (arith, e))

plain_symbol-again :
    (env : Env) (reloc : Reloc) (n : Bytes) (r r' : Relocator) (t : Target)
    → plain_symbol env reloc n r ≡ returns t r'
    → plain_symbol env reloc n r' ≡ returns t r'
unfolding plain_symbol
plain_symbol-again env reloc n r r' t e = elim (Bool-cases (reloc.r_sym == 0)) [
  | inl no_symbol ↦ ground (arith, no_symbol, e)
  | inr symbol ↦
      let e' : and_then (lookup_symbol env reloc.r_sym n r) (plain_found env) ≡ returns t r' =
        ground (arith, symbol, e) in
      let (f, found, is) = found_of env (lookup_symbol env reloc.r_sym n r) t r' e' in
      let again = lookup_symbol-again env reloc.r_sym n r r' f found in
      ground (arith, symbol, again, is)
]

relocate_found-mode :
    (mode : RelocMode) (rest : Run (Unit {0})) (env : Env) (reloc : Reloc) (t : Target)
    (r : Relocator)
    → rest ≡ relocate_found RelocMode.general aborts env reloc t r
    → relocate_found mode rest env reloc t r ≡ relocate_found RelocMode.general aborts env reloc t r
unfolding relocate_found
relocate_found-mode RelocMode.jump_table rest env reloc t r e = ground (arith, e)
relocate_found-mode RelocMode.typical rest env reloc t r e = ground (arith, e)
relocate_found-mode RelocMode.general rest env reloc t r e = refl

-- The slow path of a relocation that names no TLS.
general_plain :
    (env : Env) (reloc : Reloc) (r : Relocator)
    → is_named env reloc ≡ true
    → (reloc.r_type == 0) ≡ false
    → is_tls_reloc reloc.r_type ≡ false
    → process_relocation_general env reloc r
      ≡ and_then
          (plain_symbol env reloc (name_of env reloc) r)
          (relocate_found RelocMode.general aborts env reloc)
unfolding process_relocation_general
general_plain env reloc r named some_type plain = rw (named, some_type, plain)

after_lookup :
    (mode : RelocMode) (env : Env) (reloc : Reloc) (x : Run Target)
    → ((t : Target) (r' : Relocator)
        → x ≡ returns t r'
        → process_relocation_general env reloc r'
          ≡ relocate_found RelocMode.general aborts env reloc t r')
    → (and_then x λ found r'.
        relocate_found mode (process_relocation_general env reloc r') env reloc found r')
      ≡ and_then x (relocate_found RelocMode.general aborts env reloc)
after_lookup mode env reloc aborts h = refl
after_lookup mode env reloc (fails r) h = refl
after_lookup mode env reloc (returns t r') h =
    relocate_found-mode mode _ env reloc t r' (h t r' refl)

process_relocation_quick-plain :
    (mode : RelocMode) (env : Env) (reloc : Reloc) (r : Relocator)
    → is_named env reloc ≡ true
    → (reloc.r_type == 0) ≡ false
    → is_tls_reloc reloc.r_type ≡ false
    → process_relocation_quick mode env reloc r ≡ process_relocation_general env reloc r
unfolding process_relocation_quick
process_relocation_quick-plain mode env reloc r named some_type plain =
    let slow = λ (r' : Relocator). general_plain env reloc r' named some_type plain in
    let same = after_lookup mode env reloc (plain_symbol env reloc (name_of env reloc) r) (λ t r' e.
      slow r'
      ∙ ap (λ x. and_then x (relocate_found RelocMode.general aborts env reloc))
          (plain_symbol-again env reloc (name_of env reloc) r r' t e)) in
    rw (named, some_type, plain) (same ∙ sym (slow r))

process_relocation_quick-general :
    (mode : RelocMode) (env : Env) (reloc : Reloc) (r : Relocator)
    → process_relocation_quick mode env reloc r ≡ process_relocation_general env reloc r
unfolding process_relocation_quick process_relocation_general
process_relocation_quick-general mode env reloc r = elim (Bool-cases (is_named env reloc)) [
  | inr unnamed ↦ rw unnamed
  | inl named ↦ elim (Bool-cases (reloc.r_type == 0)) [
    | inl no_type ↦ rw (named, no_type)
    | inr some_type ↦ elim (Bool-cases (is_tls_reloc reloc.r_type)) [
      | inl tls ↦ rw (named, some_type, tls)
      | inr plain ↦ process_relocation_quick-plain mode env reloc r named some_type plain
    ]
  ]
]

process_relocation-general :
    (mode : RelocMode) (env : Env) (reloc : Reloc) (r : Relocator)
    → process_relocation mode env reloc r ≡ process_relocation RelocMode.general env reloc r
unfolding process_relocation
process_relocation-general RelocMode.jump_table env reloc r =
    process_relocation_quick-general RelocMode.jump_table env reloc r
process_relocation-general RelocMode.typical env reloc r =
    process_relocation_quick-general RelocMode.typical env reloc r
process_relocation-general RelocMode.general env reloc r = refl

loop-after :
    (mode : RelocMode) (env : Env) (rels : List Reloc) (x : Run (Unit {0}))
    → ((r : Relocator)
        → plain_relocate_impl mode env rels r ≡ plain_relocate_impl RelocMode.general env rels r)
    → (and_then x λ _ r. plain_relocate_impl mode env rels r)
      ≡ (and_then x λ _ r. plain_relocate_impl RelocMode.general env rels r)
loop-after mode env rels aborts h = refl
loop-after mode env rels (fails r) h = refl
loop-after mode env rels (returns a r) h = h r

-- The quick loops over a relocation table do what the slow loop does, whatever the relocations, the
-- tables and the cache: the same words in memory and the same cache, and an error or the end of the
-- process where the slow loop has it. What a quick path hands to the slow path is looked up again,
-- with the same answer.
pub plain_relocate_impl-general :
    (mode : RelocMode) (env : Env) (rels : List Reloc) (r : Relocator)
    → plain_relocate_impl mode env rels r ≡ plain_relocate_impl RelocMode.general env rels r
unfolding plain_relocate_impl
plain_relocate_impl-general mode env [] r = refl
plain_relocate_impl-general mode env (reloc ∷ rels) r =
    ap (λ x. and_then x λ _ r'. plain_relocate_impl mode env rels r')
      (process_relocation-general mode env reloc r)
    ∙ loop-after mode env rels (process_relocation RelocMode.general env reloc r)
        (plain_relocate_impl-general mode env rels)
