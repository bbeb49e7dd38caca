-- ===== src/Maps/Line.antt =====
-- The state of `MapsHelper`, and how one line of /proc/self/maps is read into it (maps_util.h,
-- `FormatLine`, `FormatProtect`, `MatchPath`, `OpenMaps`, `MakeLibraryName`).
--
-- A line is what `sscanf` converts of it: the number of conversions, and a value for each of the
-- six fields, which is stored only if the field was converted.
use fake_linker.Prelude.{
  ℕ, Bool, true, false, ◌&&◌, ◌||◌, Option, none, some, List, [], ◌∷◌, bit_or, ltb, ◌==◌,
  if◌then◌else◌, is_some, Bytes, text_eq,
}

abbrev pub mp_none : ℕ
mp_none = 0

abbrev pub mp_read : ℕ
mp_read = 1

abbrev pub mp_write : ℕ
mp_write = 2

abbrev pub mp_execute : ℕ
mp_execute = 4

abbrev pub mp_shared : ℕ
mp_shared = 8

abbrev pub mp_private : ℕ
mp_private = 16

abbrev pub mp_read_write : ℕ
mp_read_write = 3

abbrev pub mp_rwx : ℕ
mp_rwx = 7

pub record Scan : Type 0 where
  pub count : ℕ
  pub start : ℕ
  pub end : ℕ
  pub perms : Bytes
  pub offset : ℕ
  pub inode : ℕ
  pub path : Bytes

pub record PageProtect : Type 0 where
  pub start : ℕ
  pub end : ℕ
  pub old_protect : ℕ
  pub new_protect : ℕ
  pub file_offset : ℕ
  pub inode : ℕ
  pub path : Bytes

-- `opened` says that `maps_fd_` is not null, `unread` is what `fgets` will still return.
pub record MapsHelper : Type 0 where
  pub unread : List Scan
  pub path : Bytes
  pub protect : Bytes
  pub opened : Bool
  pub library_name : Bytes
  pub start_address : ℕ
  pub end_address : ℕ
  pub file_offset : ℕ
  pub inode : ℕ
  pub pages : List PageProtect

-- A helper as the default constructor leaves it.
abbrev pub fresh : MapsHelper
fresh = record {
  unread = [];
  path = [];
  protect = [];
  opened = false;
  library_name = [];
  start_address = 0;
  end_address = 0;
  file_offset = 0;
  inode = 0;
  pages = [];
}

-- The file /proc/self/maps when it is opened or rewound.
pub record MapsFile : Type 0 where
  pub openable : Bool
  pub lines : List Scan

unfoldable pub open_maps : MapsFile → MapsHelper → MapsHelper × Bool
open_maps file h =
    if h.opened
    then (record h { unread = file.lines }, true)
    else if file.openable
    then (record h { opened = true; unread = file.lines }, true)
    else (h, false)

-- One case of the `switch` of `FormatProtect`; `none` is its default.
unfoldable pub protect_bit : ℕ → Option ℕ
protect_bit c =
    if c == b'r'
    then some mp_read
    else if c == b'w'
    then some mp_write
    else if c == b'x'
    then some mp_execute
    else if c == b's'
    then some mp_shared
    else if c == b'p'
    then some mp_private
    else if c == b'-'
    then some mp_none
    else none

format_protect_from : ℕ → Bytes → Option ℕ
format_protect_from port [] = some port
format_protect_from port (c ∷ cs) = elim (protect_bit c) [
  | none ↦ none
  | some bit ↦ format_protect_from (bit_or port bit) cs
]

-- `none` is `kMPInvalid`.
unfoldable pub format_protect : Bytes → Option ℕ
unfolding format_protect_from protect_bit
format_protect = format_protect_from mp_none

-- The `int` result as the `uint8_t` of a page: `kMPInvalid` is -1.
abbrev pub prot_byte : Option ℕ → ℕ
prot_byte none = 255
prot_byte (some prot) = prot

-- `sscanf` with its six conversions.
unfoldable pub scan_line : Scan → MapsHelper → MapsHelper
scan_line l h = record h {
  start_address = if ltb 0 l.count then l.start else h.start_address;
  end_address = if ltb 1 l.count then l.end else h.end_address;
  protect = if ltb 2 l.count then l.perms else h.protect;
  file_offset = if ltb 3 l.count then l.offset else h.file_offset;
  inode = if ltb 4 l.count then l.inode else h.inode;
  path = if l.count == 5 then [] else if ltb 5 l.count then l.path else h.path;
}

unfoldable pub format_line : Scan → MapsHelper → MapsHelper × Bool
format_line l h =
    let h' = scan_line l h in
    (h', if is_some (format_protect h'.protect) then l.count == 6 || l.count == 5 else false)

-- Whether `needle` stands at the head of a text.
unfoldable pub starts_with : Bytes → Bytes → Bool
starts_with text [] = true
starts_with [] (n ∷ needle) = false
starts_with (c ∷ text) (n ∷ needle) = (c == n) && starts_with text needle

-- `strstr`: the text from the first place where `needle` stands.
unfoldable pub strstr : Bytes → Bytes → Option Bytes
unfolding starts_with
strstr [] needle = if starts_with [] needle then some [] else none
strstr (c ∷ text) needle =
    let later = strstr text needle in
    if starts_with (c ∷ text) needle then some (c ∷ text) else later

-- Whether the first place of `name` in `path` is its end.
unfoldable pub path_matches : Bytes → Bytes → Bool
unfolding strstr
path_matches path name = elim (strstr path name) [ none ↦ false | some p ↦ text_eq p name ]

unfoldable pub match_path : MapsHelper → Bool
unfolding path_matches
match_path h = path_matches h.path h.library_name

unfoldable pub make_library_name : Bytes → MapsHelper → MapsHelper
make_library_name [] h = record h { library_name = b'/' ∷ [] }
make_library_name (c ∷ name) h = record h {
  library_name = if c == b'/' then c ∷ name else b'/' ∷ c ∷ name;
}
