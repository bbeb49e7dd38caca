-- ===== src/FunTable/Wired.antt =====
-- Every accessor of a soinfo that is declared for an Android version is connected to the member
-- of that version's structure.
use fake_linker.Prelude.{
  ℕ, ◌+◌, ◌-◌, ◌≤◌, ◌≡◌, refl, ap, ◌∙◌, inl, inr, Bool, true, false, not, ◌&&◌, ◌||◌, List, [], ◌∷◌,
  arith, leb, ◌==◌, if◌then◌else◌, Bool-cases, all_below, all_below_at, any, and_both,
}
use fake_linker.FunTable.Name.{
  Name, index, same_name, rtld_flags, name, link_map_head, dt_runpath, tls, tlsdesc_args, soname,
}
use fake_linker.FunTable.Statement.{
  Layout, Entry, plain, versioned, suffix_l, Getter, reads, Setter, writes, same_entry, same_suffix,
  same_layout, layout_index, execute_all, execute, wrap_both, with_getter, with_setter,
  initial_table, soinfo_l, soinfo_l1, soinfo_m, soinfo_n, soinfo_n1, soinfo_o, soinfo_p, soinfo_q,
  soinfo_s, soinfo_t, soinfo_u, soinfo_v,
}
use fake_linker.FunTable.Newest.{init_api_v, init_api_u, init_api_t}
use fake_linker.FunTable.Recent.{init_api_s, init_api_q, init_api_p}
use fake_linker.FunTable.Middle.{init_api_o, init_api_n1, init_api_n}
use fake_linker.FunTable.Oldest.{init_api_m, init_api_l1, init_api_l}
use fake_linker.FunTable.Init.{soname_layout, soinfo_init, init_common, init_api}
use fake_linker.FunTable.Calls.{in_range, declared, accessors}
use fake_linker.FunTable.Equal.{same_entry→eq, same_layout→eq}
use fake_linker.FunTable.Name.Same.{same_name→eq}

-- The first Android version of each structure.
abbrev pub releases : List (ℕ × Layout)
releases =
    (21, soinfo_l)
    ∷ (22, soinfo_l1)
    ∷ (23, soinfo_m)
    ∷ (24, soinfo_n)
    ∷ (25, soinfo_n1)
    ∷ (26, soinfo_o)
    ∷ (28, soinfo_p)
    ∷ (29, soinfo_q)
    ∷ (31, soinfo_s)
    ∷ (33, soinfo_t)
    ∷ (34, soinfo_u)
    ∷ (35, soinfo_v)
    ∷ []

-- The structure of the last release that is not newer.
unfoldable pub newest : ℕ → Layout → List (ℕ × Layout) → Layout
newest api layout [] = layout
newest api layout (r ∷ rs) = let later = newest api r.1 rs in if leb r.0 api then later else layout

abbrev pub release_layout : ℕ → Layout
release_layout api = newest api soinfo_l releases

abbrev pub member : Entry → Name
member (plain n) = n
member (versioned n s) = n

-- On Android 5.0 the slot of `rtld_flags_L` is left as it is.
abbrev pub is_left_out : ℕ → Entry → Bool
is_left_out api e = (api == 21) && same_entry e (versioned rtld_flags suffix_l)

-- The members that have no function for writing in any version, and the name, which has its own.
abbrev pub without_writes : List Entry
without_writes =
    plain link_map_head ∷ plain dt_runpath ∷ plain tls ∷ plain tlsdesc_args ∷ plain soname ∷ []

abbrev pub is_reads : Getter → Layout → Name → Bool
is_reads (reads l n) layout m = same_layout l layout && same_name n m
is_reads g layout m = false

abbrev pub is_writes : Setter → Layout → Name → Bool
is_writes (writes l n) layout m = same_layout l layout && same_name n m
is_writes s layout m = false

reads-eq : {a b : Layout} {m n : Name} → a ≡ b → m ≡ n → reads a m ≡ reads b n
reads-eq p q = cc

writes-eq : {a b : Layout} {m n : Name} → a ≡ b → m ≡ n → writes a m ≡ writes b n
writes-eq p q = cc

pub is_reads→eq :
    (g : Getter) (layout : Layout) (m : Name) → is_reads g layout m ≡ true → g ≡ reads layout m
is_reads→eq (reads l n) layout m e =
    let h = and_both (same_layout l layout) (same_name n m) e in
    reads-eq (same_layout→eq l layout h.0) (same_name→eq n m h.1)
is_reads→eq g layout m e = absurd (ground arith)

is_writes→eq :
    (s : Setter) (layout : Layout) (m : Name) → is_writes s layout m ≡ true → s ≡ writes layout m
is_writes→eq (writes l n) layout m e =
    let h = and_both (same_layout l layout) (same_name n m) e in
    writes-eq (same_layout→eq l layout h.0) (same_name→eq n m h.1)
is_writes→eq s layout m e = absurd (ground arith)

unfoldable every : (Entry → Bool) → List Entry → Bool
every p [] = true
every p (x ∷ xs) = p x && every p xs

every_at :
    (p : Entry → Bool) (e : Entry) (xs : List Entry)
    → every p xs ≡ true
    → any (same_entry e) xs ≡ true
    → p e ≡ true
unfolding every
every_at p e [] h i = absurd (ground arith)
every_at p e (x ∷ xs) h i = elim (Bool-cases (same_entry e x)) [
  | inl s ↦ ap p (same_entry→eq e x s) ∙ ground arith
  | inr s ↦ every_at p e xs (ground arith) (ground arith)
]

abbrev gets : ℕ → Entry → Bool
gets api e =
    not (in_range (declared e) api)
    || (is_left_out api e || is_reads ((soinfo_init api).getter e) (release_layout api) (member e))

abbrev sets : ℕ → Entry → Bool
sets api e =
    not (in_range (declared e) api)
    || (is_left_out api e
        || (any (same_entry e) without_writes
            || is_writes ((soinfo_init api).setter e) (release_layout api) (member e)))

abbrev name_reads : ℕ → Bool
name_reads api =
    leb 23 api || is_reads ((soinfo_init api).getter (plain name)) (release_layout api) name

gets_lem : all_below (λ k. every (gets (21 + k)) accessors) 15 ≡ true
unfolding same_entry same_suffix same_name index same_layout layout_index in_range declared
    accessors every soinfo_init init_common init_api execute_all execute wrap_both with_getter
    with_setter initial_table newest init_api_l init_api_l1 init_api_m init_api_n init_api_n1
    init_api_o init_api_p init_api_q init_api_s init_api_t init_api_u init_api_v
gets_lem = refl

sets_lem : all_below (λ k. every (sets (21 + k)) accessors) 15 ≡ true
unfolding same_entry same_suffix same_name index same_layout layout_index in_range declared
    accessors every soinfo_init init_common init_api execute_all execute wrap_both with_getter
    with_setter initial_table newest init_api_l init_api_l1 init_api_m init_api_n init_api_n1
    init_api_o init_api_p init_api_q init_api_s init_api_t init_api_u init_api_v
sets_lem = refl

pub from_21 :
    (p : ℕ → Bool) (api : ℕ)
    → all_below (λ k. p (21 + k)) 15 ≡ true
    → 21 ≤ api
    → api ≤ 35
    → p api ≡ true
from_21 p api h ge le =
    let back : api ≡ 21 + (api - 21) = omega arith in
    ap p back ∙ all_below_at (λ k. p (21 + k)) 15 (api - 21) h (omega arith)

implied : (a b : Bool) → (not a || b) ≡ true → a ≡ true → b ≡ true
implied true b h e = h
implied false b h e = absurd (ground arith)

other : (a b : Bool) → (a || b) ≡ true → a ≡ false → b ≡ true
other true b h e = absurd (ground arith)
other false b h e = h

gets_at :
    (api : ℕ) (e : Entry)
    → 21 ≤ api
    → api ≤ 35
    → any (same_entry e) accessors ≡ true
    → in_range (declared e) api ≡ true
    → is_left_out api e ≡ false
    → is_reads ((soinfo_init api).getter e) (release_layout api) (member e) ≡ true
gets_at api e ge le i r l =
    other (is_left_out api e) _
      (implied (in_range (declared e) api) _
        (every_at (gets api) e accessors
          (from_21 (λ a. every (gets a) accessors) api gets_lem ge le) i)
        r)
      l

sets_at :
    (api : ℕ) (e : Entry)
    → 21 ≤ api
    → api ≤ 35
    → any (same_entry e) accessors ≡ true
    → in_range (declared e) api ≡ true
    → is_left_out api e ≡ false
    → any (same_entry e) without_writes ≡ false
    → is_writes ((soinfo_init api).setter e) (release_layout api) (member e) ≡ true
sets_at api e ge le i r l w =
    other (any (same_entry e) without_writes) _
      (other (is_left_out api e) _
        (implied (in_range (declared e) api) _
          (every_at (sets api) e accessors
            (from_21 (λ a. every (sets a) accessors) api sets_lem ge le) i)
          r)
        l)
      w

pub soinfo_init-reads :
    (api : ℕ) (e : Entry)
    → 21 ≤ api
    → api ≤ 35
    → any (same_entry e) accessors ≡ true
    → in_range (declared e) api ≡ true
    → is_left_out api e ≡ false
    → (soinfo_init api).getter e ≡ reads (release_layout api) (member e)
soinfo_init-reads api e ge le i r l =
    is_reads→eq ((soinfo_init api).getter e) (release_layout api) (member e)
      (gets_at api e ge le i r l)

pub soinfo_init-writes :
    (api : ℕ) (e : Entry)
    → 21 ≤ api
    → api ≤ 35
    → any (same_entry e) accessors ≡ true
    → in_range (declared e) api ≡ true
    → is_left_out api e ≡ false
    → any (same_entry e) without_writes ≡ false
    → (soinfo_init api).setter e ≡ writes (release_layout api) (member e)
soinfo_init-writes api e ge le i r l w =
    is_writes→eq ((soinfo_init api).setter e) (release_layout api) (member e)
      (sets_at api e ge le i r l w)

name_reads_lem : all_below (λ k. name_reads (21 + k)) 15 ≡ true
unfolding same_entry same_suffix same_name index same_layout layout_index in_range declared
    accessors every soinfo_init init_common init_api execute_all execute wrap_both with_getter
    with_setter initial_table newest init_api_l init_api_l1 init_api_m init_api_n init_api_n1
    init_api_o init_api_p init_api_q init_api_s init_api_t init_api_u init_api_v
name_reads_lem = refl

pub soinfo_init-reads_name :
    (api : ℕ)
    → 21 ≤ api
    → api ≤ 35
    → leb 23 api ≡ false
    → (soinfo_init api).getter (plain name) ≡ reads (release_layout api) name
soinfo_init-reads_name api ge le old =
    is_reads→eq ((soinfo_init api).getter (plain name)) (release_layout api) name
      (other (leb 23 api) _ (from_21 name_reads api name_reads_lem ge le) old)

soname_layout_lem :
    all_below (λ k. same_layout (soname_layout (21 + k)) (release_layout (21 + k))) 15 ≡ true
unfolding same_layout layout_index soname_layout newest
soname_layout_lem = refl

pub soname_layout-release : (api : ℕ) → 21 ≤ api → api ≤ 35 → soname_layout api ≡ release_layout api
soname_layout-release api ge le =
    same_layout→eq (soname_layout api) (release_layout api)
      (from_21 (λ a. same_layout (soname_layout a) (release_layout a)) api soname_layout_lem ge le)
