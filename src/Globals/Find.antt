-- ===== src/Globals/Find.antt =====
-- The searches in the list of all soinfos.
use fake_linker.Prelude.{
  ℕ, zero, suc, ◌-◌, ◌≡◌, refl, sym, ap, ◌∙◌, ◌⊎◌, inl, inr, true, false, Option, none, some, List,
  [], ◌∷◌, ◌++◌, arith, ◌==◌, Bool-cases, if-cases, length, any, Bytes, text_eq, text_eq→eq,
}
use fake_linker.Globals.{
  Loaded, drop, begins_with_slash, name_matches, soname_matches, find_soinfo_by_name, contains,
}

-- The first `n` bytes.
abbrev pub take : ℕ → Bytes → Bytes
take zero text = []
take (suc n) [] = []
take (suc n) (c ∷ text) = c ∷ take n text

take-drop : (n : ℕ) (text : Bytes) → text ≡ take n text ++ drop n text
take-drop zero text = refl
take-drop (suc n) [] = refl
take-drop (suc n) (c ∷ text) = ap (λ (t : Bytes). c ∷ t) (take-drop n text)

-- A soname is the name, or a path whose last component is the name.
abbrev pub IsNamed : Bytes → Bytes → Type 0
IsNamed so_name name = (so_name ≡ name) ⊎ ((dir : Bytes) × (so_name ≡ dir ++ b'/' ∷ name))

drop-slash :
    (n : ℕ) (text name : Bytes)
    → text_eq (drop (suc n) text) name ≡ true
    → begins_with_slash (drop n text) ≡ true
    → text ≡ take n text ++ b'/' ∷ name
drop-slash zero [] name e s = absurd (ground arith)
drop-slash (suc n) [] name e s = absurd (ground arith)
drop-slash zero (c ∷ text) name e s = ground (arith, text_eq→eq text name)
drop-slash (suc n) (c ∷ text) name e s = ap (λ (t : Bytes). c ∷ t) (drop-slash n text name e s)

name_matches-IsNamed :
    (so_name name : Bytes) → name_matches so_name name ≡ true → IsNamed so_name name
unfolding name_matches
name_matches-IsNamed so_name name e = elim (Bool-cases (length so_name == length name)) [
  | inl same ↦ inl (text_eq→eq so_name name (ground arith))
  | inr other ↦
      let n = length so_name - length name - 1 in
      let step : length so_name - length name ≡ suc n = ground arith in
      inr (
        take n so_name,
        drop-slash n so_name name
            (ap (λ (k : ℕ). text_eq (drop k so_name) name) (sym step) ∙ ground arith)
            (ground arith),
      )
]

-- What an answer says; `none` is a null pointer.
abbrev pub IsFound : (ℕ → Loaded) → Bytes → List ℕ → Option ℕ → Type 0
IsFound heap name sis none = any (λ si. soname_matches name (heap si).soname) sis ≡ false
IsFound heap name sis (some si) =
    (contains si sis ≡ true)
    × ((so_name : Bytes) × ((heap si).soname ≡ some so_name) × IsNamed so_name name)

soname_matches-IsNamed :
    (name : Bytes) (o : Option Bytes)
    → soname_matches name o ≡ true
    → (so_name : Bytes) × (o ≡ some so_name) × IsNamed so_name name
soname_matches-IsNamed name none e = absurd (ground arith)
soname_matches-IsNamed name (some so_name) e = (so_name, refl, name_matches-IsNamed so_name name e)

IsFound-other :
    (heap : ℕ → Loaded) (name : Bytes) (si : ℕ) (sis : List ℕ) (o : Option ℕ)
    → soname_matches name (heap si).soname ≡ false
    → IsFound heap name sis o
    → IsFound heap name (si ∷ sis) o
IsFound-other heap name si sis none n f = ground (arith, n, f)
IsFound-other heap name si sis (some a) n f = (ground (arith, f.0), f.1)

-- `FindSoinfoByName` answers null only if no soinfo's name matches. Otherwise it answers a soinfo
-- of the list whose soname is the name, or a path with the name as its last component.
pub find_soinfo_by_name-IsFound :
    (heap : ℕ → Loaded) (name : Bytes) (sis : List ℕ)
    → IsFound heap name sis (find_soinfo_by_name heap name sis)
unfolding find_soinfo_by_name
find_soinfo_by_name-IsFound heap name [] = refl
find_soinfo_by_name-IsFound heap name (si ∷ sis) =
    if-cases (IsFound heap name (si ∷ sis)) (soname_matches name (heap si).soname)
      (λ here. (ground arith, soname_matches-IsNamed name (heap si).soname here))
      (λ other. IsFound-other heap name si sis _ other (find_soinfo_by_name-IsFound heap name sis))
