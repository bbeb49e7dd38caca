-- ===== src/FunTable/Wrappers.antt =====
-- The accessors of linker_soinfo.cpp (library/src/main/cpp/linker/) that call another slot of the
-- function table on another Android version.
use fake_linker.Prelude.{
  ℕ, ◌≤◌, ◌≡◌, refl, ◌∙◌, Bool, true, false, ◌&&◌, Option, some, arith, leb, ◌==◌, if◌then◌else◌,
  if-cases, any,
}
use fake_linker.FunTable.Name.{Name, same_name, index, preinit_array, init_array, init_func}
use fake_linker.FunTable.Statement.{
  plain, versioned, suffix_p, SoinfoFunTable, same_entry, same_suffix,
}
use fake_linker.FunTable.Init.{soinfo_init}
use fake_linker.FunTable.Calls.{
  in_range, declared, accessors, Value, Soinfo, store, call_get, call_set,
}
use fake_linker.FunTable.Wired.{release_layout, is_left_out, without_writes}
use fake_linker.FunTable.Access.{call_get-members, call_set-store}

unfoldable pub get_preinit_array_wrapper : ℕ → SoinfoFunTable → Soinfo → Option Value
get_preinit_array_wrapper android_api table si =
    if leb 28 android_api
    then call_get android_api table (versioned preinit_array suffix_p) si
    else call_get android_api table (plain preinit_array) si

unfoldable pub set_preinit_array_wrapper :
    Bool → ℕ → SoinfoFunTable → Value → Soinfo → Option Soinfo
set_preinit_array_wrapper log android_api table v si =
    if leb 28 android_api
    then call_set log android_api table (versioned preinit_array suffix_p) v si
    else call_set log android_api table (plain preinit_array) v si

unfoldable pub get_init_array_wrapper : ℕ → SoinfoFunTable → Soinfo → Option Value
get_init_array_wrapper android_api table si =
    if leb 28 android_api
    then call_get android_api table (versioned init_array suffix_p) si
    else call_get android_api table (plain init_array) si

unfoldable pub set_init_array_wrapper : Bool → ℕ → SoinfoFunTable → Value → Soinfo → Option Soinfo
set_init_array_wrapper log android_api table v si =
    if leb 28 android_api
    then call_set log android_api table (versioned init_array suffix_p) v si
    else call_set log android_api table (plain init_array) v si

unfoldable pub get_init_func_wrapper : ℕ → SoinfoFunTable → Soinfo → Option Value
get_init_func_wrapper android_api table si =
    if leb 28 android_api
    then call_get android_api table (versioned init_func suffix_p) si
    else call_get android_api table (plain init_func) si

unfoldable pub set_init_func_wrapper : Bool → ℕ → SoinfoFunTable → Value → Soinfo → Option Soinfo
set_init_func_wrapper log android_api table v si =
    if leb 28 android_api
    then call_set log android_api table (versioned init_func suffix_p) v si
    else call_set log android_api table (plain init_func) v si

no : (b : Bool) → (b && false) ≡ false
no true = refl
no false = refl

-- A slot that is picked at version 28, and the same member behind both.
module _ (n : Name) (new_listed : any (same_entry (versioned n suffix_p)) accessors ≡ true)
    (old_listed : any (same_entry (plain n)) accessors ≡ true)
    (new_kept : (api : ℕ) → is_left_out api (versioned n suffix_p) ≡ false)
    (old_kept : (api : ℕ) → is_left_out api (plain n) ≡ false)
    (new_range : (api : ℕ) → in_range (declared (versioned n suffix_p)) api ≡ leb 28 api)
    (old_range : (api : ℕ) → in_range (declared (plain n)) api ≡ leb api 27) where
  picked :
      (api : ℕ) (si : Soinfo)
      → 21 ≤ api
      → api ≤ 35
      → si.layout ≡ release_layout api
      → (if leb 28 api
          then call_get api (soinfo_init api) (versioned n suffix_p) si
          else call_get api (soinfo_init api) (plain n) si)
        ≡ some (si.members n)
  picked api si ge le s =
      if-cases (λ x. x ≡ some (si.members n)) (leb 28 api)
        (λ new.
          call_get-members api (versioned n suffix_p) si ge le new_listed (new_range api ∙ new)
            (new_kept api) s)
        (λ old.
          call_get-members api (plain n) si ge le old_listed (old_range api ∙ ground arith)
            (old_kept api) s)

  put :
      (new_kind : any (same_entry (versioned n suffix_p)) without_writes ≡ false)
      (old_kind : any (same_entry (plain n)) without_writes ≡ false) (log : Bool) (api : ℕ)
      (v : Value) (si : Soinfo)
      → 21 ≤ api
      → api ≤ 35
      → si.layout ≡ release_layout api
      → (if leb 28 api
          then call_set log api (soinfo_init api) (versioned n suffix_p) v si
          else call_set log api (soinfo_init api) (plain n) v si)
        ≡ some (store n v si)
  put new_kind old_kind log api v si ge le s =
      if-cases (λ x. x ≡ some (store n v si)) (leb 28 api)
        (λ new.
          call_set-store log api (versioned n suffix_p) v si ge le new_listed (new_range api ∙ new)
            (new_kept api) new_kind s)
        (λ old.
          call_set-store log api (plain n) v si ge le old_listed (old_range api ∙ ground arith)
            (old_kept api) old_kind s)

init_array_picked :
    (api : ℕ) (si : Soinfo)
    → 21 ≤ api
    → api ≤ 35
    → si.layout ≡ release_layout api
    → get_init_array_wrapper api (soinfo_init api) si ≡ some (si.members init_array)
unfolding get_init_array_wrapper in_range declared accessors same_entry same_suffix same_name index
init_array_picked api si ge le s =
    picked init_array refl refl (λ a. no (a == 21)) (λ a. no (a == 21)) (λ a. refl) (λ a. refl) api
      si ge le s

init_array_put :
    (log : Bool) (api : ℕ) (v : Value) (si : Soinfo)
    → 21 ≤ api
    → api ≤ 35
    → si.layout ≡ release_layout api
    → set_init_array_wrapper log api (soinfo_init api) v si ≡ some (store init_array v si)
unfolding set_init_array_wrapper in_range declared accessors same_entry same_suffix same_name index
init_array_put log api v si ge le s =
    put init_array refl refl (λ a. no (a == 21)) (λ a. no (a == 21)) (λ a. refl) (λ a. refl) refl
      refl log api v si ge le s

preinit_array_picked :
    (api : ℕ) (si : Soinfo)
    → 21 ≤ api
    → api ≤ 35
    → si.layout ≡ release_layout api
    → get_preinit_array_wrapper api (soinfo_init api) si ≡ some (si.members preinit_array)
unfolding get_preinit_array_wrapper in_range declared accessors same_entry same_suffix same_name
    index
preinit_array_picked api si ge le s =
    picked preinit_array refl refl (λ a. no (a == 21)) (λ a. no (a == 21)) (λ a. refl) (λ a. refl)
      api si ge le s

preinit_array_put :
    (log : Bool) (api : ℕ) (v : Value) (si : Soinfo)
    → 21 ≤ api
    → api ≤ 35
    → si.layout ≡ release_layout api
    → set_preinit_array_wrapper log api (soinfo_init api) v si ≡ some (store preinit_array v si)
unfolding set_preinit_array_wrapper in_range declared accessors same_entry same_suffix same_name
    index
preinit_array_put log api v si ge le s =
    put preinit_array refl refl (λ a. no (a == 21)) (λ a. no (a == 21)) (λ a. refl) (λ a. refl) refl
      refl log api v si ge le s

init_func_picked :
    (api : ℕ) (si : Soinfo)
    → 21 ≤ api
    → api ≤ 35
    → si.layout ≡ release_layout api
    → get_init_func_wrapper api (soinfo_init api) si ≡ some (si.members init_func)
unfolding get_init_func_wrapper in_range declared accessors same_entry same_suffix same_name index
init_func_picked api si ge le s =
    picked init_func refl refl (λ a. no (a == 21)) (λ a. no (a == 21)) (λ a. refl) (λ a. refl) api
      si ge le s

init_func_put :
    (log : Bool) (api : ℕ) (v : Value) (si : Soinfo)
    → 21 ≤ api
    → api ≤ 35
    → si.layout ≡ release_layout api
    → set_init_func_wrapper log api (soinfo_init api) v si ≡ some (store init_func v si)
unfolding set_init_func_wrapper in_range declared accessors same_entry same_suffix same_name index
init_func_put log api v si ge le s =
    put init_func refl refl (λ a. no (a == 21)) (λ a. no (a == 21)) (λ a. refl) (λ a. refl) refl
      refl log api v si ge le s

-- On Android 5.0 to 15 (21 to 35), on a soinfo of the structure of its version, the three accessors
-- that choose between two slots by the version read the member they are named for, and the three
-- for writing store into that member and into no other.
pub wrappers-members :
    (log : Bool) (api : ℕ) (v : Value) (si : Soinfo)
    → 21 ≤ api
    → api ≤ 35
    → si.layout ≡ release_layout api
    → (get_preinit_array_wrapper api (soinfo_init api) si ≡ some (si.members preinit_array))
      × (set_preinit_array_wrapper log api (soinfo_init api) v si ≡ some (store preinit_array v si))
      × (get_init_array_wrapper api (soinfo_init api) si ≡ some (si.members init_array))
      × (set_init_array_wrapper log api (soinfo_init api) v si ≡ some (store init_array v si))
      × (get_init_func_wrapper api (soinfo_init api) si ≡ some (si.members init_func))
      × (set_init_func_wrapper log api (soinfo_init api) v si ≡ some (store init_func v si))
wrappers-members log api v si ge le s = (
  preinit_array_picked api si ge le s,
  preinit_array_put log api v si ge le s,
  init_array_picked api si ge le s,
  init_array_put log api v si ge le s,
  init_func_picked api si ge le s,
  init_func_put log api v si ge le s,
)
