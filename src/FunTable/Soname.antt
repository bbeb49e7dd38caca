-- ===== src/FunTable/Soname.antt =====
-- The name of a library, read and written through `InitCommon` of linker_soinfo.cpp
-- (library/src/main/cpp/linker/).
use fake_linker.Prelude.{
  ℕ, zero, suc, ◌≤◌, ◌<◌, ◌≡◌, refl, sym, ap, ◌∙◌, inl, inr, Bool, true, false, some, [], ◌∷◌, ◌++◌,
  arith, leb, ◌==◌, if◌then◌else◌, Bool-cases, length, any, Bytes,
}
use fake_linker.FunTable.Name.{same_name, index, name, soname}
use fake_linker.FunTable.Statement.{plain, writes_soname, same_entry, with_setter}
use fake_linker.FunTable.Init.{soinfo_init, init_common, soname_layout}
use fake_linker.FunTable.Calls.{
  in_range, declared, accessors, Value, text, Soinfo, store, read, write, call_set, apply_setter,
  get_member, get_soname, set_soname, name_text, copied, c_string, copy_front,
}
use fake_linker.FunTable.Wired.{
  release_layout, is_left_out, soinfo_init-reads, soinfo_init-reads_name, soname_layout-release,
}
use fake_linker.FunTable.Access.{read_self, write_self, store_same, store-layout}

set_soname_setter : (api : ℕ) → (soinfo_init api).setter (plain soname) ≡ writes_soname
unfolding soinfo_init init_common with_setter same_entry same_name index
set_soname_setter api = refl

pub call_set-soname :
    (log : Bool) (api : ℕ) (source : Bytes) (si : Soinfo)
    → call_set log api (soinfo_init api) (plain soname) (text source) si
      ≡ set_soname api (text source) si
unfolding call_set apply_setter
call_set-soname log api source si =
    ap (λ f. apply_setter log api f (text source) si) (set_soname_setter api)

set_soname_old :
    (api : ℕ) (source array : Bytes) (si : Soinfo)
    → 21 ≤ api
    → api ≤ 35
    → leb 23 api ≡ false
    → si.layout ≡ release_layout api
    → set_soname api (text source) si ≡ some (store name (copied source (si.members name)) si)
unfolding set_soname
set_soname_old api source array si ge le old s =
    ap
      (λ b.
        if b
        then write (soname_layout api) soname (text source) si
        else write (soname_layout api) name (copied source (si.members name)) si)
      old
    ∙ ap (λ x. write x name (copied source (si.members name)) si)
        (soname_layout-release api ge le ∙ sym s)
    ∙ write_self name (copied source (si.members name)) si

get_soname_old :
    (api : ℕ) (si : Soinfo)
    → 21 ≤ api
    → api ≤ 35
    → leb 23 api ≡ false
    → si.layout ≡ release_layout api
    → get_soname api (soinfo_init api) si ≡ name_text (some (si.members name))
unfolding get_soname get_member
get_soname_old api si ge le old s =
    ap
      (λ b.
        if b
        then get_member ((soinfo_init api).getter (plain soname)) si
        else name_text (get_member ((soinfo_init api).getter (plain name)) si))
      old
    ∙ ap (λ g. name_text (get_member g si)) (soinfo_init-reads_name api ge le old)
    ∙ ap (λ x. name_text (read x name si)) (sym s)
    ∙ ap name_text (read_self name si)

c_string-cons :
    (c : ℕ) (cs : Bytes) → c_string (c ∷ cs) ≡ c ∷ cs → ((c == 0) ≡ false) × (c_string cs ≡ cs)
unfolding c_string
c_string-cons c cs e = elim (Bool-cases (c == 0)) [
  | inl z ↦ absurd (ground arith)
  | inr z ↦ (z, ground arith)
]

c_string-copy_front :
    (n : ℕ) (source array : Bytes)
    → c_string source ≡ source
    → length source < n
    → c_string (copy_front n (source ++ 0 ∷ []) array) ≡ source
unfolding c_string copy_front
c_string-copy_front zero source array e lt = absurd (omega arith)
c_string-copy_front (suc n) [] [] e lt = refl
c_string-copy_front (suc n) [] (d ∷ ds) e lt = refl
c_string-copy_front (suc n) (c ∷ cs) [] e lt =
    let h = c_string-cons c cs e in
    ap (λ b. if b then [] else c ∷ c_string (copy_front n (cs ++ 0 ∷ []) [])) h.0
    ∙ ap (◌∷◌ c) (c_string-copy_front n cs [] h.1 (omega arith))
c_string-copy_front (suc n) (c ∷ cs) (d ∷ ds) e lt =
    let h = c_string-cons c cs e in
    ap (λ b. if b then [] else c ∷ c_string (copy_front n (cs ++ 0 ∷ []) ds)) h.0
    ∙ ap (◌∷◌ c) (c_string-copy_front n cs ds h.1 (omega arith))

set_soname_new :
    (api : ℕ) (source : Bytes) (si : Soinfo)
    → 21 ≤ api
    → api ≤ 35
    → leb 23 api ≡ true
    → si.layout ≡ release_layout api
    → set_soname api (text source) si ≡ some (store soname (text source) si)
unfolding set_soname
set_soname_new api source si ge le new s =
    ap
      (λ b.
        if b
        then write (soname_layout api) soname (text source) si
        else write (soname_layout api) name (copied source (si.members name)) si)
      new
    ∙ ap (λ x. write x soname (text source) si) (soname_layout-release api ge le ∙ sym s)
    ∙ write_self soname (text source) si

soname_declared : (api : ℕ) → in_range (declared (plain soname)) api ≡ leb 23 api
unfolding in_range declared
soname_declared api = refl

soname_listed : any (same_entry (plain soname)) accessors ≡ true
unfolding accessors same_entry same_name index
soname_listed = refl

soname_kept : (api : ℕ) → is_left_out api (plain soname) ≡ false
unfolding same_entry
soname_kept api = ground arith

get_soname_new :
    (api : ℕ) (si : Soinfo)
    → 21 ≤ api
    → api ≤ 35
    → leb 23 api ≡ true
    → si.layout ≡ release_layout api
    → get_soname api (soinfo_init api) si ≡ some (si.members soname)
unfolding get_soname get_member
get_soname_new api si ge le new s =
    ap
      (λ b.
        if b
        then get_member ((soinfo_init api).getter (plain soname)) si
        else name_text (get_member ((soinfo_init api).getter (plain name)) si))
      new
    ∙ ap (λ g. get_member g si)
        (soinfo_init-reads api (plain soname) ge le soname_listed (soname_declared api ∙ new)
          (soname_kept api))
    ∙ ap (λ x. read x soname si) (sym s)
    ∙ read_self soname si

copied_text :
    (source array : Bytes) (v : Value)
    → v ≡ text array
    → c_string source ≡ source
    → length source < 128
    → name_text (some (copied source v)) ≡ some (text source)
unfolding name_text copied
copied_text source array v is c lt =
    ap (λ x. name_text (some (copied source x))) is
    ∙ ap (λ x. some (text x)) (c_string-copy_front 128 source array c lt)

-- On Android 5.0 to 15 (21 to 35), on a soinfo of the structure of its version whose `name_` is an
-- array of bytes, a name of fewer than 128 bytes without a NUL that `set_soname` writes is the name
-- that `get_soname` answers.
pub set_soname-get_soname :
    (log : Bool) (api : ℕ) (source array : Bytes) (si : Soinfo)
    → 21 ≤ api
    → api ≤ 35
    → si.layout ≡ release_layout api
    → si.members name ≡ text array
    → c_string source ≡ source
    → length source < 128
    → (si' : Soinfo) × (call_set log api (soinfo_init api) (plain soname) (text source) si
        ≡ some si')
      × (get_soname api (soinfo_init api) si' ≡ some (text source))
set_soname-get_soname log api source array si ge le s is c lt = elim (Bool-cases (leb 23 api)) [
  | inl new ↦
      (let si' = store soname (text source) si in
        (
          si',
          call_set-soname log api source si ∙ set_soname_new api source si ge le new s,
          get_soname_new api si' ge le new (store-layout soname (text source) si ∙ s)
              ∙ ap some (store_same soname (text source) si),
        ))
  | inr old ↦
      (let v = copied source (si.members name) in
        let si' = store name v si in
        (
          si',
          call_set-soname log api source si ∙ set_soname_old api source array si ge le old s,
          get_soname_old api si' ge le old (store-layout name v si ∙ s)
              ∙ ap (λ x. name_text (some x)) (store_same name v si)
              ∙ copied_text source array (si.members name) is c lt,
        ))
]
