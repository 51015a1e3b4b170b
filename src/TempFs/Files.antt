-- ===== src/TempFs/Files.antt =====
-- The files of src/fs/tempfs.rs: `read` after `write` and `remove`.
use sill_os.Base.{
  ◌≡◌, refl, sym, ap, ◌∙◌, Bool, true, false, Option, none, some, if◌then◌else◌, if_true, if_false,
  Bool-cases, Option-cases, inl, inr, ◌⊎◌, same,
}
use sill_os.TempFs.{
  FilePath, Bytes, TmpFs, Result, ok, err, not_found, is_a_directory, done, get, insert, delete,
  is_dir, read, write, remove,
}
use sill_os.TempFs.Tables.{get-insert, get-delete}

-- What `read` makes of a lookup.
abbrev pub content : Option Bytes → Result Bytes
content none = err not_found
content (some bytes) = ok bytes

read_eq : (fs : TmpFs) (path : FilePath) → read fs path ≡ content (get fs.files path)
read_eq fs path = elim (Option-cases (get fs.files path)) [
  | inl e ↦ unfold read in rw (e, read)
  | inr (bytes, e) ↦ unfold read in rw (e, read)
]

content-if :
    (b : Bool) (x y : Option Bytes)
    → content (if b then x else y) ≡ (if b then content x else content y)
content-if true x y = refl
content-if false x y = refl

module _ (fs : TmpFs) (path : FilePath) where
  -- write on a directory fails and changes nothing. On any other path it succeeds, and read then
  -- gives the bytes at the path, and at any other path what it gave before.
  pub write-read :
      (bytes : Bytes)
      → ((is_dir fs path ≡ true) × (write fs path bytes ≡ (fs, err is_a_directory)))
        ⊎ ((is_dir fs path ≡ false)
            × ((write fs path bytes).1 ≡ ok done)
            × ((other : FilePath)
                → read (write fs path bytes).0 other
                  ≡ (if same path other then ok bytes else read fs other)))
  write-read bytes = elim (Bool-cases (is_dir fs path)) [
    | inl d ↦ inl (d, unfold write in if_true _ _ d)
    | inr f ↦
        let e : write fs path bytes ≡ (record fs { files = insert fs.files path bytes }, ok done) =
          unfold write in if_false _ _ f in
        inr (
          f,
          ap (λ r. r.1) e,
          λ other.
              ap (λ r. read r.0 other) e
              ∙ read_eq _ other
              ∙ ap content (get-insert fs.files path bytes other)
              ∙ content-if (same path other) _ _
              ∙ ap (λ r. if same path other then ok bytes else r) (sym (read_eq fs other)),
        )
  ]

  -- remove of a path that read does not find fails and changes nothing. Of any other path it
  -- succeeds, and read then finds nothing at the path, and at any other path what it found before.
  pub remove-read :
      ((read fs path ≡ err not_found) × (remove fs path ≡ (fs, err not_found)))
      ⊎ (((bytes : Bytes) × (read fs path ≡ ok bytes))
          × ((remove fs path).1 ≡ ok done)
          × ((other : FilePath)
              → read (remove fs path).0 other
                ≡ (if same path other then err not_found else read fs other)))
  remove-read = elim (Option-cases (get fs.files path)) [
    | inl e ↦ inl (read_eq fs path ∙ ap content e, unfold remove in rw e)
    | inr (bytes, e) ↦
        let removed : remove fs path ≡ (record fs { files = delete fs.files path }, ok done) =
          unfold remove in rw e in
        inr (
          (bytes, read_eq fs path ∙ ap content e),
          ap (λ r. r.1) removed,
          λ other.
              ap (λ r. read r.0 other) removed
              ∙ read_eq _ other
              ∙ ap content (get-delete fs.files path other)
              ∙ content-if (same path other) _ _
              ∙ ap (λ r. if same path other then err not_found else r) (sym (read_eq fs other)),
        )
  ]
