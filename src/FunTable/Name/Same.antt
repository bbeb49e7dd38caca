-- ===== src/FunTable/Name/Same.antt =====
-- Two names with one index are one name.
use fake_linker.Prelude.{
  ℕ, zero, suc, ◌≡◌, refl, sym, ap, ◌∙◌, true, Option, none, some, List, [], ◌∷◌, ==→eq,
}
use fake_linker.FunTable.Name.{
  Name, names, index, same_name, name, phdr, phnum, base, size, dynamic, next, flags, strtab,
  symtab, nbucket, nchain, bucket, chain, plt_rela, plt_rela_count, rela, rela_count, preinit_array,
  preinit_array_count, init_array, init_array_count, fini_array, fini_array_count, init_func,
  fini_func, ref_count, link_map_head, constructors_called, load_bias, has_dt_symbolic, version,
  st_dev, st_ino, children, parents, file_offset, rtld_flags, dt_flags_1, strtab_size, gnu_nbucket,
  gnu_bucket, gnu_chain, gnu_maskwords, gnu_shift2, gnu_bloom_filter, local_group_root,
  android_relocs, android_relocs_size, soname, realpath, versym, verdef_ptr, verdef_cnt,
  verneed_ptr, verneed_cnt, target_sdk_version, dt_runpath, primary_namespace, secondary_namespaces,
  handle, relr, relr_count, tls, tlsdesc_args, gap_start, gap_size, memtag_dynamic_entries,
}

module _ {ℓ} {A : Type ℓ} where
  unfoldable pub nth : List A → ℕ → Option A
  nth [] n = none
  nth (x ∷ xs) zero = some x
  nth (x ∷ xs) (suc n) = nth xs n

  pub some-injective : (a b : A) → some a ≡ some b → a ≡ b
  some-injective a b e = cc

nth-index : (n : Name) → nth names (index n) ≡ some n
unfolding nth names index
nth-index name = refl
nth-index phdr = refl
nth-index phnum = refl
nth-index base = refl
nth-index size = refl
nth-index dynamic = refl
nth-index next = refl
nth-index flags = refl
nth-index strtab = refl
nth-index symtab = refl
nth-index nbucket = refl
nth-index nchain = refl
nth-index bucket = refl
nth-index chain = refl
nth-index plt_rela = refl
nth-index plt_rela_count = refl
nth-index rela = refl
nth-index rela_count = refl
nth-index preinit_array = refl
nth-index preinit_array_count = refl
nth-index init_array = refl
nth-index init_array_count = refl
nth-index fini_array = refl
nth-index fini_array_count = refl
nth-index init_func = refl
nth-index fini_func = refl
nth-index ref_count = refl
nth-index link_map_head = refl
nth-index constructors_called = refl
nth-index load_bias = refl
nth-index has_dt_symbolic = refl
nth-index version = refl
nth-index st_dev = refl
nth-index st_ino = refl
nth-index children = refl
nth-index parents = refl
nth-index file_offset = refl
nth-index rtld_flags = refl
nth-index dt_flags_1 = refl
nth-index strtab_size = refl
nth-index gnu_nbucket = refl
nth-index gnu_bucket = refl
nth-index gnu_chain = refl
nth-index gnu_maskwords = refl
nth-index gnu_shift2 = refl
nth-index gnu_bloom_filter = refl
nth-index local_group_root = refl
nth-index android_relocs = refl
nth-index android_relocs_size = refl
nth-index soname = refl
nth-index realpath = refl
nth-index versym = refl
nth-index verdef_ptr = refl
nth-index verdef_cnt = refl
nth-index verneed_ptr = refl
nth-index verneed_cnt = refl
nth-index target_sdk_version = refl
nth-index dt_runpath = refl
nth-index primary_namespace = refl
nth-index secondary_namespaces = refl
nth-index handle = refl
nth-index relr = refl
nth-index relr_count = refl
nth-index tls = refl
nth-index tlsdesc_args = refl
nth-index gap_start = refl
nth-index gap_size = refl
nth-index memtag_dynamic_entries = refl

pub same_name→eq : (a b : Name) → same_name a b ≡ true → a ≡ b
unfolding same_name
same_name→eq a b e =
    some-injective a b
      (sym (nth-index a) ∙ ap (nth names) (==→eq (index a) (index b) e) ∙ nth-index b)
