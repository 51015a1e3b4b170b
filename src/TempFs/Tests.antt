-- ===== src/TempFs/Tests.antt =====
-- The file system with one directory, /a, and a file in it.
use sill_os.Base.{◌≡◌, ◌⊎◌, true, false, List, [], ◌∷◌, if◌then◌else◌, same}
use sill_os.TempFs.{
  Entry, list_entries, FilePath, Bytes, ok, err, new, not_found, is_a_directory, done, is_dir, read,
  write, remove,
}
use sill_os.TempFs.Listing.{Lists, list_entries-Lists}
use sill_os.TempFs.Files.{write-read, remove-read}
use sill_os.TempFs.Tree.{IsValid}
use sill_os.TempFs.Session.{Operation, make, create, run, session-IsValid}

abbrev a : FilePath
a = 47 ∷ 97 ∷ []

abbrev b : FilePath
b = 47 ∷ 97 ∷ 47 ∷ 98 ∷ []

abbrev steps : List Operation
steps = make a ∷ create b ∷ []

session-IsValid_example : IsValid (run steps new)
session-IsValid_example = session-IsValid steps

write-read_example :
    ((is_dir (run steps new) b ≡ true)
      × (write (run steps new) b (1 ∷ []) ≡ (run steps new, err is_a_directory)))
    ⊎ ((is_dir (run steps new) b ≡ false)
        × ((write (run steps new) b (1 ∷ [])).1 ≡ ok done)
        × ((other : FilePath)
            → read (write (run steps new) b (1 ∷ [])).0 other
              ≡ (if same b other then ok (1 ∷ []) else read (run steps new) other)))
write-read_example = write-read (run steps new) b (1 ∷ [])

remove-read_example :
    ((read (run steps new) b ≡ err not_found)
      × (remove (run steps new) b ≡ (run steps new, err not_found)))
    ⊎ (((bytes : Bytes) × (read (run steps new) b ≡ ok bytes))
        × ((remove (run steps new) b).1 ≡ ok done)
        × ((other : FilePath)
            → read (remove (run steps new) b).0 other
              ≡ (if same b other then err not_found else read (run steps new) other)))
remove-read_example = remove-read (run steps new) b

list_entries-Lists_example :
    ((is_dir (run steps new) a ≡ false) × (list_entries (run steps new) a ≡ err not_found))
    ⊎ ((is_dir (run steps new) a ≡ true)
        × ((entries : List Entry) × (list_entries (run steps new) a ≡ ok entries)
            × Lists (run steps new) a entries))
list_entries-Lists_example = list_entries-Lists (run steps new) a
