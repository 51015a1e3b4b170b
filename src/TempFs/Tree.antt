-- ===== src/TempFs/Tree.antt =====
-- The directory tree of src/fs/tempfs.rs.
use sill_os.Base.{
  ◌≡◌, refl, sym, ap, subst, ◌∙◌, Bool, true, false, Option, none, some, List, ◌||◌, if_true,
  if_false, Bool-cases, inl, inr, arith, same, same_eq,
}
use sill_os.TempFs.{
  FilePath, Bytes, TmpFs, root, get, insert, delete, contains, add, is_dir, is_some, parent_of,
}
use sill_os.TempFs.Tables.{get-insert, get-delete, contains-add}

-- The path is the root, or a directory in `dirs` whose parent is rooted.
pub data Rooted (dirs : List FilePath) : FilePath → Type 0 where
  top : Rooted dirs root
  below :
      (path : FilePath)
      → contains dirs path ≡ true
      → Rooted dirs (parent_of path)
      → Rooted dirs path

pub record IsValid (fs : TmpFs) : Type 0 where
  pub apart : (path : FilePath) → is_dir fs path ≡ true → get fs.files path ≡ none
  pub rooted : (path : FilePath) → is_dir fs path ≡ true → Rooted fs.dirs path

Rooted-add :
    (dirs : List FilePath) (added path : FilePath) → Rooted dirs path → Rooted (add dirs added) path
Rooted-add dirs added _ top = top
Rooted-add dirs added _ (below path h r) =
    below path
      (contains-add dirs added path ∙ ap (λ b. same added path || b) h ∙ or_true (same added path))
      (Rooted-add dirs added (parent_of path) r)
  where
    or_true : (b : Bool) → (b || true) ≡ true
    or_true b = ground arith

is_dir-add :
    (fs : TmpFs) (added path : FilePath)
    → is_dir (record fs { dirs = add fs.dirs added }) path ≡ (same added path || is_dir fs path)
unfolding is_dir
is_dir-add fs added path =
    ap (λ b. same root path || b) (contains-add fs.dirs added path)
    ∙ swap (same root path) (same added path) (contains fs.dirs path)
  where
    swap : (a b c : Bool) → (a || (b || c)) ≡ (b || (a || c))
    swap a b c = ground arith

pub none_there : (o : Option Bytes) → is_some o ≡ false → o ≡ none
none_there none e = refl
none_there (some bytes) e = absurd (cc)

module _ (fs : TmpFs) (v : IsValid fs) (path : FilePath) where
  pub added-IsValid :
      get fs.files path ≡ none
      → is_dir fs (parent_of path) ≡ true
      → IsValid (record fs { dirs = add fs.dirs path })
  added-IsValid free parent = record {
    apart = λ p d. elim (Bool-cases (same path p)) [
      | inl here ↦ ap (get fs.files) (sym (same_eq path p here)) ∙ free
      | inr away ↦
          v.apart p (sym (ap (λ b. b || is_dir fs p) away) ∙ sym (is_dir-add fs path p) ∙ d)
    ];
    rooted = λ p d. elim (Bool-cases (same path p)) [
      | inl here ↦ subst (Rooted (add fs.dirs path)) (same_eq path p here) (
          below path
            (contains-add fs.dirs path path
              ∙ ap (λ b. b || contains fs.dirs path) (ap (same path) (same_eq path p here) ∙ here))
            (Rooted-add fs.dirs path (parent_of path) (v.rooted (parent_of path) parent)))
      | inr away ↦
          Rooted-add fs.dirs path p
            (v.rooted p (sym (ap (λ b. b || is_dir fs p) away) ∙ sym (is_dir-add fs path p) ∙ d))
    ];
  }

  pub inserted-IsValid :
      (bytes : Bytes)
      → is_dir fs path ≡ false
      → IsValid (record fs { files = insert fs.files path bytes })
  unfolding is_dir
  inserted-IsValid bytes f = record {
    apart = λ p d. elim (Bool-cases (same path p)) [
      | inl here ↦
          let dir_here : is_dir fs path ≡ true = ap (is_dir fs) (same_eq path p here) ∙ d in
          absurd (cc)
      | inr away ↦ get-insert fs.files path bytes p ∙ if_false _ _ away ∙ v.apart p d
    ];
    rooted = v.rooted;
  }

  pub deleted-IsValid : IsValid (record fs { files = delete fs.files path })
  unfolding is_dir
  deleted-IsValid = record {
    apart = λ p d. get-delete fs.files path p ∙ (elim (Bool-cases (same path p)) [
      | inl here ↦ if_true _ _ here
      | inr away ↦ if_false _ _ away ∙ v.apart p d
    ]);
    rooted = v.rooted;
  }
