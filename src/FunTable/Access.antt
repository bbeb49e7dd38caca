-- ===== src/FunTable/Access.antt =====
-- What a call through the function table of linker_soinfo.cpp (library/src/main/cpp/linker/)
-- reads and writes.
use fake_linker.Prelude.{
  ℕ, ◌≤◌, ◌≡◌, refl, sym, ap, ◌∙◌, Bool, true, false, none, some, if◌then◌else◌, ==_self, any,
}
use fake_linker.FunTable.Name.{Name, same_name, index}
use fake_linker.FunTable.Statement.{Layout, Entry, same_entry, same_layout, layout_index}
use fake_linker.FunTable.Init.{soinfo_init}
use fake_linker.FunTable.Calls.{
  in_range, declared, accessors, Value, Soinfo, store, read, write, call_get, call_set,
  apply_getter, apply_setter,
}
use fake_linker.FunTable.Wired.{
  release_layout, member, is_left_out, without_writes, soinfo_init-reads, soinfo_init-writes,
}

same_layout_self : (l : Layout) → same_layout l l ≡ true
unfolding same_layout
same_layout_self l = ==_self (layout_index l)

same_name_self : (n : Name) → same_name n n ≡ true
unfolding same_name
same_name_self n = ==_self (index n)

pub read_self : (n : Name) (si : Soinfo) → read si.layout n si ≡ some (si.members n)
unfolding read
read_self n si = ap (λ b. if b then some (si.members n) else none) (same_layout_self si.layout)

pub write_self : (n : Name) (v : Value) (si : Soinfo) → write si.layout n v si ≡ some (store n v si)
unfolding write
write_self n v si = ap (λ b. if b then some (store n v si) else none) (same_layout_self si.layout)

pub store_same : (n : Name) (v : Value) (si : Soinfo) → (store n v si).members n ≡ v
unfolding store
store_same n v si = ap (λ b. if b then v else si.members n) (same_name_self n)

pub store-layout : (n : Name) (v : Value) (si : Soinfo) → (store n v si).layout ≡ si.layout
unfolding store
store-layout n v si = refl

store_other :
    (n m : Name) (v : Value) (si : Soinfo)
    → same_name m n ≡ false
    → (store n v si).members m ≡ si.members m
unfolding store
store_other n m v si e = ap (λ b. if b then v else si.members m) e

-- On Android 5.0 to 15 (21 to 35), on a soinfo of the structure of its version, every accessor of
-- the list that is declared for the version answers the member it is named for; but for
-- `rtld_flags_L` on 5.0.
pub call_get-members :
    (api : ℕ) (e : Entry) (si : Soinfo)
    → 21 ≤ api
    → api ≤ 35
    → any (same_entry e) accessors ≡ true
    → in_range (declared e) api ≡ true
    → is_left_out api e ≡ false
    → si.layout ≡ release_layout api
    → call_get api (soinfo_init api) e si ≡ some (si.members (member e))
unfolding call_get apply_getter
call_get-members api e si ge le i r l s =
    ap (λ g. apply_getter api (soinfo_init api) g si) (soinfo_init-reads api e ge le i r l)
    ∙ ap (λ x. read x (member e) si) (sym s)
    ∙ read_self (member e) si

pub call_set-store :
    (log : Bool) (api : ℕ) (e : Entry) (v : Value) (si : Soinfo)
    → 21 ≤ api
    → api ≤ 35
    → any (same_entry e) accessors ≡ true
    → in_range (declared e) api ≡ true
    → is_left_out api e ≡ false
    → any (same_entry e) without_writes ≡ false
    → si.layout ≡ release_layout api
    → call_set log api (soinfo_init api) e v si ≡ some (store (member e) v si)
unfolding call_set apply_setter
call_set-store log api e v si ge le i r l w s =
    ap (λ f. apply_setter log api f v si) (soinfo_init-writes api e ge le i r l w)
    ∙ ap (λ x. write x (member e) v si) (sym s)
    ∙ write_self (member e) v si

-- On Android 5.0 to 15 (21 to 35), on a soinfo of the structure of its version, a value written
-- through an accessor that is declared for the version is the value the accessor then reads, and
-- every other member is as before; but for `rtld_flags_L` on 5.0, for the name of the library, and
-- for the four members that no version has a function to write.
pub call_set-call_get :
    (log : Bool) (api : ℕ) (e : Entry) (v : Value) (si : Soinfo) (m : Name)
    → 21 ≤ api
    → api ≤ 35
    → any (same_entry e) accessors ≡ true
    → in_range (declared e) api ≡ true
    → is_left_out api e ≡ false
    → any (same_entry e) without_writes ≡ false
    → si.layout ≡ release_layout api
    → same_name m (member e) ≡ false
    → (si' : Soinfo) × (call_set log api (soinfo_init api) e v si ≡ some si')
      × (call_get api (soinfo_init api) e si' ≡ some v)
      × (si'.members m ≡ si.members m)
call_set-call_get log api e v si m ge le i r l w s d =
    let si' = store (member e) v si in
    (
      si',
      call_set-store log api e v si ge le i r l w s,
      call_get-members api e si' ge le i r l (store-layout (member e) v si ∙ s)
          ∙ ap some (store_same (member e) v si),
      store_other (member e) m v si d,
    )
