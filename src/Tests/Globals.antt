-- ===== src/Tests/Globals.antt =====
-- The theorems on the proxy of the linker, on three libraries that depend on each other.
use fake_linker.Prelude.{
  ℕ, ◌≡◌, refl, ◌≢◌, true, none, some, List, [], ◌∷◌, arith, leb, ◌==◌, if◌then◌else◌, All, inr,
  inl,
}
use fake_linker.Namespace.{
  find_soinfo, is_accessible_soinfo, is_accessible_ftor, has_min_version, api_n, push_back,
}
use fake_linker.Tests.Namespace.{app, library}
use fake_linker.Globals.{
  Linker, get_soinfo_local_group, walk_dependencies_tree, push_all, add_to_spaces,
  remove_from_spaces,
}
use fake_linker.Globals.Walk.{get_soinfo_local_group-ne-none}
use fake_linker.Globals.Group.{InGroup, get_soinfo_local_group-InGroup}
use fake_linker.Globals.Global.{remove_from_spaces-add_to_spaces}

-- 1 and 2 depend on each other, and 2 on 3.
abbrev depends : ℕ → List ℕ
depends a = if a == 1 then 2 ∷ [] else if a == 2 then 1 ∷ 3 ∷ [] else []

get_soinfo_local_group-ne-none_example : get_soinfo_local_group 30 depends library 11 1 ≢ none
get_soinfo_local_group-ne-none_example =
    get_soinfo_local_group-ne-none 30 2 11 1 depends library (1 ∷ 2 ∷ 3 ∷ [])
      (((refl, tt), omega arith), (((refl, (refl, tt)), omega arith), ((tt, omega arith), tt))) refl
      (omega arith)

local_group_lem : get_soinfo_local_group 30 depends library 11 1 ≡ some (1 ∷ 2 ∷ 3 ∷ [])
unfolding get_soinfo_local_group walk_dependencies_tree push_all push_back is_accessible_soinfo
    is_accessible_ftor has_min_version
local_group_lem = refl

get_soinfo_local_group-InGroup_example :
    All
      (InGroup depends
        (λ child. if leb api_n 30 then is_accessible_soinfo library 30 1 (library child) else true)
        1)
      (1 ∷ 2 ∷ 3 ∷ [])
get_soinfo_local_group-InGroup_example =
    get_soinfo_local_group-InGroup 30 11 1 depends library (1 ∷ 2 ∷ 3 ∷ []) local_group_lem

-- The primary namespace of 30, which is at 1, holds it.
abbrev linker : Linker
linker = record {
  target = library 30;
  spaces = (7, app) ∷ (1, record app { soinfo_list = 10 ∷ 30 ∷ [] }) ∷ [];
  preloads = 0 ∷ [];
}

remove_from_spaces-add_to_spaces_example :
    (remove_from_spaces 30 (add_to_spaces 30 30 linker.spaces (library 30)).0 (library 30)).0
    ≡ linker.spaces
unfolding find_soinfo
remove_from_spaces-add_to_spaces_example =
    remove_from_spaces-add_to_spaces 30 30 linker.spaces (library 30) (library 30)
      (inr refl, (inl refl, tt)) refl
