-- ===== src/Tests/Namespace.antt =====
-- The theorems on namespaces at concrete inputs.
use fake_linker.Prelude.{
  ℕ, ◌≡◌, refl, true, false, not, ◌||◌, [], ◌∷◌, leb, ◌==◌, if◌then◌else◌, Bytes, bytes,
}
use fake_linker.Namespace.{
  Soinfo, Namespace, api_q, file_is_in_dir, file_is_under_dir, is_accessible_file,
}
use fake_linker.Maps.Line.{starts_with}
use fake_linker.Namespace.Files.{Among, IsBelow, is_accessible_file-IsBelow}

abbrev pub app : Namespace
app = record {
  is_isolated = true;
  ld_library_paths = bytes "/data" ∷ [];
  default_library_paths = bytes "/system/lib64" ∷ [];
  permitted_paths = bytes "/vendor" ∷ [];
  whitelisted_libs = [];
  soinfo_list = 10 ∷ 20 ∷ [];
}

abbrev same_name : Bytes → Bytes
same_name file = file

abbrev pub library : ℕ → Soinfo
library a = record {
  flags = 0;
  version = 5;
  dt_flags_1 = if a == 20 then 2 else 0;
  rtld_flags = 0;
  primary_namespace = 1;
  secondary_namespaces = 3 ∷ [];
  parents = 10 ∷ [];
}

is_accessible_file-IsBelow_example :
    ((dir : Bytes) × Among dir (bytes "/data" ∷ bytes "/system/lib64" ∷ bytes "/vendor" ∷ [])
      × IsBelow (bytes "/vendor/a/b.so") dir)
    × (not (leb api_q 30) || true || false ≡ true)
unfolding is_accessible_file file_is_in_dir file_is_under_dir starts_with
is_accessible_file-IsBelow_example =
    is_accessible_file-IsBelow same_name 30 (bytes "/vendor/a/b.so") app refl refl
