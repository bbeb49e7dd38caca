-- ===== src/FunTable/Statement.antt =====
-- The table of functions through which linker_soinfo.cpp (library/src/main/cpp/linker/) reads
-- and writes the members of a `soinfo`, and the macros that fill it in.
use fake_linker.Prelude.{Bool, true, false, ◌&&◌, List, [], ◌∷◌, if◌then◌else◌, ℕ, ◌==◌}
use fake_linker.FunTable.Name.{Name, same_name, realpath}

-- The structure of each Android version (soinfoL to soinfoV).
pub data Layout : Type 0 where
  soinfo_l : Layout
  soinfo_l1 : Layout
  soinfo_m : Layout
  soinfo_n : Layout
  soinfo_n1 : Layout
  soinfo_o : Layout
  soinfo_p : Layout
  soinfo_q : Layout
  soinfo_s : Layout
  soinfo_t : Layout
  soinfo_u : Layout
  soinfo_v : Layout

pub data Suffix : Type 0 where
  suffix_l : Suffix
  suffix_p : Suffix
  suffix_t : Suffix

-- A slot of the table: `Name`, or `Name##Ver`.
pub data Entry : Type 0 where
  plain : Name → Entry
  versioned : Name → Suffix → Entry

unfoldable pub same_suffix : Suffix → Suffix → Bool
same_suffix suffix_l suffix_l = true
same_suffix suffix_p suffix_p = true
same_suffix suffix_t suffix_t = true
same_suffix a b = false

unfoldable pub same_entry : Entry → Entry → Bool
same_entry (plain a) (plain b) = same_name a b
same_entry (versioned a s) (versioned b t) = same_name a b && same_suffix s t
same_entry x y = false

-- What a slot for reading holds: the function that stops the process, a null pointer, the
-- function that reads a member, or the one that answers `get_soname()`.
pub data Getter : Type 0 where
  default_get : Getter
  nullptr : Getter
  reads : Layout → Name → Getter
  reads_soname : Getter

-- What a slot for writing holds; `writes_soname` is the function of `InitCommon`.
pub data Setter : Type 0 where
  default_set : Setter
  writes : Layout → Name → Setter
  writes_soname : Setter

pub record SoinfoFunTable : Type 0 where
  pub getter : Entry → Getter
  pub setter : Entry → Setter

unfoldable pub initial_table : SoinfoFunTable
initial_table = record { getter = λ e. default_get; setter = λ e. default_set }

unfoldable pub with_getter : Entry → Getter → SoinfoFunTable → SoinfoFunTable
with_getter e g table = record table {
  getter = λ x. let old = table.getter x in if same_entry x e then g else old;
}

unfoldable pub with_setter : Entry → Setter → SoinfoFunTable → SoinfoFunTable
with_setter e s table = record table {
  setter = λ x. let old = table.setter x in if same_entry x e then s else old;
}

-- One use of a macro, with its type, its member and its version. A cast keeps the value, so the
-- type a macro casts to is left out.
pub data Statement : Type 0 where
  null : Name → Statement
  get_wrap : Layout → Name → Statement
  wrap : Layout → Name → Statement
  ver_wrap : Layout → Name → Suffix → Statement
  cast_wrap : Layout → Name → Statement
  string_to_charp_wrap : Layout → Name → Statement
  ref_wrap : Layout → Name → Statement
  const_ref_wrap : Layout → Name → Statement
  ref_ver_wrap : Layout → Name → Suffix → Statement
  realpath_from_soname : Statement

unfoldable pub wrap_both : Layout → Name → Entry → SoinfoFunTable → SoinfoFunTable
wrap_both layout n e table = with_setter e (writes layout n) (with_getter e (reads layout n) table)

unfoldable pub execute : Statement → SoinfoFunTable → SoinfoFunTable
execute (null n) table = with_getter (plain n) nullptr table
execute (get_wrap layout n) table = with_getter (plain n) (reads layout n) table
execute (wrap layout n) table = wrap_both layout n (plain n) table
execute (ver_wrap layout n s) table = wrap_both layout n (versioned n s) table
execute (cast_wrap layout n) table = wrap_both layout n (plain n) table
execute (string_to_charp_wrap layout n) table = wrap_both layout n (plain n) table
execute (ref_wrap layout n) table = with_getter (plain n) (reads layout n) table
execute (const_ref_wrap layout n) table = with_getter (plain n) (reads layout n) table
execute (ref_ver_wrap layout n s) table = with_getter (versioned n s) (reads layout n) table
execute realpath_from_soname table = with_getter (plain realpath) reads_soname table

unfoldable pub execute_all : List Statement → SoinfoFunTable → SoinfoFunTable
execute_all [] table = table
execute_all (s ∷ statements) table = execute_all statements (execute s table)

unfoldable pub layout_index : Layout → ℕ
layout_index soinfo_l = 0
layout_index soinfo_l1 = 1
layout_index soinfo_m = 2
layout_index soinfo_n = 3
layout_index soinfo_n1 = 4
layout_index soinfo_o = 5
layout_index soinfo_p = 6
layout_index soinfo_q = 7
layout_index soinfo_s = 8
layout_index soinfo_t = 9
layout_index soinfo_u = 10
layout_index soinfo_v = 11

unfoldable pub same_layout : Layout → Layout → Bool
same_layout a b = layout_index a == layout_index b
