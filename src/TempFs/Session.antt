-- ===== src/TempFs/Session.antt =====
-- Any use of src/fs/tempfs.rs from the empty file system on.
use sill_os.Base.{
  ◌≡◌, refl, sym, ap, subst, ◌∙◌, Bool, true, false, List, [], ◌∷◌, ◌||◌, not, if_true, if_false,
  Bool-cases, inl, inr, arith, same, same_eq,
}
use sill_os.TempFs.{
  FilePath, Bytes, TmpFs, Result, Done, ok, err, new, not_found, is_a_directory, already_exists,
  done, root, get, insert, delete, contains, add, is_dir, is_some, parent_of, write, remove, touch,
  mkdir,
}
use sill_os.TempFs.Tree.{
  IsValid, Rooted, top, added-IsValid, inserted-IsValid, deleted-IsValid, none_there,
}

-- The operations that change the file system.
pub data Operation : Type 0 where
  make : FilePath → Operation
  create : FilePath → Operation
  put : FilePath → Bytes → Operation
  discard : FilePath → Operation

unfoldable pub perform : Operation → TmpFs → TmpFs × Result Done
perform (make path) fs = mkdir fs path
perform (create path) fs = touch fs path
perform (put path bytes) fs = write fs path bytes
perform (discard path) fs = remove fs path

unfoldable pub run : List Operation → TmpFs → TmpFs
unfolding perform
run [] fs = fs
run (operation ∷ operations) fs = run operations (perform operation fs).0

module _ (fs : TmpFs) (v : IsValid fs) (path : FilePath) where
  pub mkdir-IsValid : IsValid (mkdir fs path).0
  mkdir-IsValid =
      elim (Bool-cases (same root path || is_dir fs path || is_some (get fs.files path))) [
        | inl taken ↦
            let e : mkdir fs path ≡ (fs, err already_exists) = unfold mkdir in if_true _ _ taken in
            subst (λ r. IsValid r.0) (sym e) v
        | inr free ↦ elim (Bool-cases (is_dir fs (parent_of path))) [
          | inr orphan ↦
              let e : mkdir fs path ≡ (fs, err not_found) =
                unfold mkdir in if_false _ _ free ∙ if_true _ _ (ap not orphan) in
              subst (λ r. IsValid r.0) (sym e) v
          | inl parent ↦
              let e : mkdir fs path ≡ (record fs { dirs = add fs.dirs path }, ok done) =
                unfold mkdir in if_false _ _ free ∙ if_false _ _ (ap not parent) in
              subst (λ r. IsValid r.0) (sym e)
                (added-IsValid fs v path (none_there (get fs.files path) (ground arith)) parent)
        ]
      ]

  pub touch-IsValid : IsValid (touch fs path).0
  touch-IsValid = elim (Bool-cases (is_dir fs path)) [
    | inl d ↦
        let e : touch fs path ≡ (fs, err is_a_directory) = unfold touch in if_true _ _ d in
        subst (λ r. IsValid r.0) (sym e) v
    | inr f ↦ elim (Bool-cases (is_dir fs (parent_of path))) [
      | inr orphan ↦
          let e : touch fs path ≡ (fs, err not_found) =
            unfold touch in if_false _ _ f ∙ if_true _ _ (ap not orphan) in
          subst (λ r. IsValid r.0) (sym e) v
      | inl parent ↦ elim (Bool-cases (is_some (get fs.files path))) [
        | inl old ↦
            let e : touch fs path ≡ (fs, ok done) =
              unfold touch in if_false _ _ f ∙ if_false _ _ (ap not parent) ∙ if_true _ _ old in
            subst (λ r. IsValid r.0) (sym e) v
        | inr fresh ↦
            let e : touch fs path ≡ (record fs { files = insert fs.files path [] }, ok done) =
              unfold touch in if_false _ _ f ∙ if_false _ _ (ap not parent) ∙ if_false _ _ fresh in
            subst (λ r. IsValid r.0) (sym e) (inserted-IsValid fs v path [] f)
      ]
    ]
  ]

  write-IsValid : (bytes : Bytes) → IsValid (write fs path bytes).0
  write-IsValid bytes = elim (Bool-cases (is_dir fs path)) [
    | inl d ↦
        let e : write fs path bytes ≡ (fs, err is_a_directory) = unfold write in if_true _ _ d in
        subst (λ r. IsValid r.0) (sym e) v
    | inr f ↦
        let e : write fs path bytes ≡ (record fs { files = insert fs.files path bytes }, ok done) =
          unfold write in if_false _ _ f in
        subst (λ r. IsValid r.0) (sym e) (inserted-IsValid fs v path bytes f)
  ]

  remove-IsValid : IsValid (remove fs path).0
  remove-IsValid = elim (Bool-cases (is_some (get fs.files path))) [
    | inl there ↦
        let e : remove fs path ≡ (record fs { files = delete fs.files path }, ok done) =
          unfold remove in if_true _ _ there in
        subst (λ r. IsValid r.0) (sym e) (deleted-IsValid fs v path)
    | inr gone ↦
        let e : remove fs path ≡ (fs, err not_found) = unfold remove in if_false _ _ gone in
        subst (λ r. IsValid r.0) (sym e) v
  ]

new-IsValid : IsValid new
unfolding new is_dir contains get
new-IsValid = record {
  apart = λ p d. refl;
  rooted = λ p d. subst (Rooted []) (same_eq root p (or_false (same root p) d)) top;
}
  where
    or_false : (b : Bool) → (b || false) ≡ true → b ≡ true
    or_false b e = ground arith

perform-IsValid :
    (operation : Operation) (fs : TmpFs) → IsValid fs → IsValid (perform operation fs).0
unfolding perform
perform-IsValid (make path) fs v = mkdir-IsValid fs v path
perform-IsValid (create path) fs v = touch-IsValid fs v path
perform-IsValid (put path bytes) fs v = write-IsValid fs v path bytes
perform-IsValid (discard path) fs v = remove-IsValid fs v path

run-IsValid : (operations : List Operation) (fs : TmpFs) → IsValid fs → IsValid (run operations fs)
unfolding run
run-IsValid [] fs v = v
run-IsValid (operation ∷ operations) fs v =
    run-IsValid operations (perform operation fs).0 (perform-IsValid operation fs v)

-- After any sequence of mkdir, touch, write and remove on the empty file system, whether they
-- succeed or fail: no path is both a file and a directory, and every directory is the root or has a
-- directory as its parent, up to the root.
pub session-IsValid : (operations : List Operation) → IsValid (run operations new)
session-IsValid operations = run-IsValid operations new new-IsValid
