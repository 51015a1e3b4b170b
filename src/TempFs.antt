-- ===== src/TempFs.antt =====
-- The file system in memory, src/fs/tempfs.rs, with the types of src/fs.rs. A path is the list of its
-- bytes. The ordered map and set of the language's library are lists in the order of their keys.
pub mod Tables
pub mod Tree
pub mod Session
pub mod Files
pub mod Listing
pub mod Tests
use sill_os.Base.{
  ℕ, zero, suc, Bool, true, false, Option, none, some, List, [], ◌∷◌, ◌++◌, ◌&&◌, ◌||◌, not, ltb,
  ◌==◌, if◌then◌else◌, map, same, same_refl, same_eq,
}

abbrev pub FilePath : Type 0
FilePath = List ℕ

abbrev pub Bytes : Type 0
Bytes = List ℕ

-- The byte '/'.
abbrev pub slash : ℕ
slash = 47

abbrev pub root : FilePath
root = slash ∷ []

pub data FsError : Type 0 where
  not_found : FsError
  already_exists : FsError
  not_a_directory : FsError
  is_a_directory : FsError

pub data Result (A : Type 0) : Type 0 where
  ok : A → Result A
  err : FsError → Result A

-- `()`.
pub data Done : Type 0 where
  done : Done

pub data Entry : Type 0 where
  file : FilePath → Entry
  dir : FilePath → Entry

pub record TmpFs : Type 0 where
  pub files : List (FilePath × Bytes)
  pub dirs : List FilePath

unfoldable pub new : TmpFs
new = record { files = []; dirs = [] }

-- The order of paths, byte by byte.
abbrev pub before : FilePath → FilePath → Bool
before [] [] = false
before [] (y ∷ ys) = true
before (x ∷ xs) [] = false
before (x ∷ xs) (y ∷ ys) = ltb x y || x == y && before xs ys

unfoldable pub get : List (FilePath × Bytes) → FilePath → Option Bytes
get [] path = none
get ((key, value) ∷ rest) path = if same key path then some value else get rest path

unfoldable pub insert : List (FilePath × Bytes) → FilePath → Bytes → List (FilePath × Bytes)
insert [] path bytes = (path, bytes) ∷ []
insert ((key, value) ∷ rest) path bytes =
    let later = (key, value) ∷ insert rest path bytes in
    if same key path
    then (path, bytes) ∷ rest
    else if before path key
    then (path, bytes) ∷ (key, value) ∷ rest
    else later

-- No other entry has the key.
unfoldable pub delete : List (FilePath × Bytes) → FilePath → List (FilePath × Bytes)
delete [] path = []
delete ((key, value) ∷ rest) path =
    let others = delete rest path in if same key path then others else (key, value) ∷ others

unfoldable pub contains : List FilePath → FilePath → Bool
contains [] path = false
contains (d ∷ dirs) path = same d path || contains dirs path

unfoldable pub add : List FilePath → FilePath → List FilePath
add [] path = path ∷ []
add (d ∷ dirs) path =
    let later = d ∷ add dirs path in
    if same d path then d ∷ dirs else if before path d then path ∷ d ∷ dirs else later

-- A byte before what is left of the rest.
abbrev keep : ℕ → FilePath → FilePath
keep byte [] = if byte == slash then [] else byte ∷ []
keep byte (next ∷ rest) = byte ∷ next ∷ rest

-- `trim_end_matches('/')`.
unfoldable pub trim_end : FilePath → FilePath
trim_end [] = []
trim_end (byte ∷ path) = keep byte (trim_end path)

-- `rfind('/')`.
unfoldable pub rfind : FilePath → Option ℕ
rfind [] = none
rfind (byte ∷ path) = elim (rfind path) [
  | some i ↦ some (suc i)
  | none ↦ if byte == slash then some 0 else none
]

abbrev pub take : ℕ → FilePath → FilePath
take zero path = []
take (suc n) [] = []
take (suc n) (byte ∷ path) = byte ∷ take n path

abbrev pub drop : ℕ → FilePath → FilePath
drop zero path = path
drop (suc n) [] = []
drop (suc n) (byte ∷ path) = drop n path

unfoldable pub is_dir : TmpFs → FilePath → Bool
unfolding contains
is_dir fs path = same root path || contains fs.dirs path

unfoldable pub parent_of : FilePath → FilePath
unfolding trim_end rfind
parent_of path = elim (rfind (trim_end path)) [
  | none ↦ root
  | some zero ↦ root
  | some (suc i) ↦ take (suc i) path
]

unfoldable pub last_segment : FilePath → FilePath
unfolding trim_end rfind
last_segment path = elim (rfind (trim_end path)) [
  | none ↦ trim_end path
  | some i ↦ drop (suc i) (trim_end path)
]

abbrev pub is_some : Option Bytes → Bool
is_some none = false
is_some (some bytes) = true

unfoldable pub mkdir : TmpFs → FilePath → TmpFs × Result Done
unfolding is_dir get parent_of add
mkdir fs path =
    if same root path || is_dir fs path || is_some (get fs.files path)
    then (fs, err already_exists)
    else if not (is_dir fs (parent_of path))
    then (fs, err not_found)
    else (record fs { dirs = add fs.dirs path }, ok done)

unfoldable pub touch : TmpFs → FilePath → TmpFs × Result Done
unfolding is_dir get parent_of insert
touch fs path =
    if is_dir fs path
    then (fs, err is_a_directory)
    else if not (is_dir fs (parent_of path))
    then (fs, err not_found)
    else if is_some (get fs.files path)
    then (fs, ok done)
    else (record fs { files = insert fs.files path [] }, ok done)

unfoldable pub read : TmpFs → FilePath → Result Bytes
unfolding get
read fs path = elim (get fs.files path) [ none ↦ err not_found | some bytes ↦ ok bytes ]

unfoldable pub write : TmpFs → FilePath → Bytes → TmpFs × Result Done
unfolding is_dir insert
write fs path bytes =
    if is_dir fs path
    then (fs, err is_a_directory)
    else (record fs { files = insert fs.files path bytes }, ok done)

unfoldable pub remove : TmpFs → FilePath → TmpFs × Result Done
unfolding get delete
remove fs path =
    if is_some (get fs.files path)
    then (record fs { files = delete fs.files path }, ok done)
    else (fs, err not_found)

-- The loops of `list_entries`.
dir_entries : List FilePath → FilePath → List Entry
dir_entries [] path = []
dir_entries (d ∷ dirs) path =
    let rest = dir_entries dirs path in
    if same (parent_of d) path then dir (last_segment d) ∷ rest else rest

file_entries : List (FilePath × Bytes) → FilePath → List Entry
file_entries [] path = []
file_entries ((key, bytes) ∷ files) path =
    let rest = file_entries files path in
    if same (parent_of key) path then file (last_segment key) ∷ rest else rest

unfoldable pub list_entries : TmpFs → FilePath → Result (List Entry)
unfolding is_dir dir_entries file_entries
list_entries fs path =
    if not (is_dir fs path)
    then err not_found
    else ok (dir_entries fs.dirs path ++ file_entries fs.files path)

abbrev pub shown_name : Entry → FilePath
shown_name (file name) = name
shown_name (dir name) = name ++ slash ∷ []

unfoldable pub list : TmpFs → FilePath → Result (List FilePath)
unfolding list_entries
list fs path = elim (list_entries fs path) [
  | err e ↦ err e
  | ok entries ↦ ok (map shown_name entries)
]
