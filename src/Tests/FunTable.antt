-- ===== src/Tests/FunTable.antt =====
-- Runs of the function table of a soinfo.
use fake_linker.Prelude.{◌≡◌, refl, false, some, [], ◌∷◌, arith, if◌then◌else◌, bytes}
use fake_linker.FunTable.Name.{
  phdr, base, soname, init_array, preinit_array, init_func, same_name, index,
}
use fake_linker.FunTable.Statement.{soinfo_q, soinfo_l, plain, same_entry, same_suffix}
use fake_linker.FunTable.Init.{soinfo_init}
use fake_linker.FunTable.Calls.{
  Soinfo, text, word, call_get, call_set, store, get_soname, c_string, accessors, declared,
  in_range,
}
use fake_linker.FunTable.Wired.{newest}
use fake_linker.FunTable.Access.{call_get-members, call_set-call_get}
use fake_linker.FunTable.Soname.{set_soname-get_soname}
use fake_linker.FunTable.Wrappers.{
  wrappers-members, get_preinit_array_wrapper, set_preinit_array_wrapper, get_init_array_wrapper,
  set_init_array_wrapper, get_init_func_wrapper, set_init_func_wrapper,
}

abbrev on_android_10 : Soinfo
on_android_10 = record {
  layout = soinfo_q;
  members = λ n. if same_name n base then word 4096 else word 0;
}

abbrev on_android_5 : Soinfo
on_android_5 = record { layout = soinfo_l; members = λ n. text (7 ∷ 7 ∷ 7 ∷ 7 ∷ 7 ∷ []) }

call_get-members_example :
    call_get 29 (soinfo_init 29) (plain base) on_android_10 ≡ some (on_android_10.members base)
unfolding accessors same_entry same_suffix same_name index declared in_range newest
call_get-members_example =
    call_get-members 29 (plain base) on_android_10 (omega arith) (omega arith) refl refl refl refl

call_set-call_get_example :
    (si : Soinfo) × (call_set false 29 (soinfo_init 29) (plain base) (word 8192) on_android_10
      ≡ some si)
    × (call_get 29 (soinfo_init 29) (plain base) si ≡ some (word 8192))
    × (si.members phdr ≡ on_android_10.members phdr)
unfolding accessors same_entry same_suffix same_name index declared in_range newest
call_set-call_get_example =
    call_set-call_get false 29 (plain base) (word 8192) on_android_10 phdr (omega arith)
      (omega arith) refl refl refl refl refl refl

set_soname-get_soname_example :
    (si : Soinfo) × (call_set false 21
        (soinfo_init 21)
        (plain soname)
        (text (bytes "so"))
        on_android_5
      ≡ some si)
    × (get_soname 21 (soinfo_init 21) si ≡ some (text (bytes "so")))
unfolding newest c_string
set_soname-get_soname_example =
    set_soname-get_soname false 21 (bytes "so") (7 ∷ 7 ∷ 7 ∷ 7 ∷ 7 ∷ []) on_android_5 (omega arith)
      (omega arith) refl refl refl (omega arith)

wrappers-members_example :
    (get_preinit_array_wrapper 29 (soinfo_init 29) on_android_10
      ≡ some (on_android_10.members preinit_array))
    × (set_preinit_array_wrapper false 29 (soinfo_init 29) (word 8192) on_android_10
        ≡ some (store preinit_array (word 8192) on_android_10))
    × (get_init_array_wrapper 29 (soinfo_init 29) on_android_10
        ≡ some (on_android_10.members init_array))
    × (set_init_array_wrapper false 29 (soinfo_init 29) (word 8192) on_android_10
        ≡ some (store init_array (word 8192) on_android_10))
    × (get_init_func_wrapper 29 (soinfo_init 29) on_android_10
        ≡ some (on_android_10.members init_func))
    × (set_init_func_wrapper false 29 (soinfo_init 29) (word 8192) on_android_10
        ≡ some (store init_func (word 8192) on_android_10))
unfolding newest
wrappers-members_example =
    wrappers-members false 29 (word 8192) on_android_10 (omega arith) (omega arith) refl
