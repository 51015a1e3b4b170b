-- ===== src/TempFs/Listing.antt =====
-- `list_entries` of src/fs/tempfs.rs.
use sill_os.Base.{
  refl, subst, if◌then◌else◌, ◌≡◌, sym, ap, ◌∙◌, Bool, true, false, some, List, [], ◌∷◌, ◌++◌, ◌||◌,
  not, if_true, if_false, Bool-cases, inl, inr, arith, ◌⊎◌, same, same_refl, same_eq,
}
use sill_os.TempFs.{
  FilePath, Bytes, TmpFs, Entry, file, dir, ok, err, not_found, get, contains, is_dir, parent_of,
  last_segment, dir_entries, file_entries, list_entries,
}

-- The entry is one of the list.
pub data In (x : Entry) : List Entry → Type 0 where
  first : (xs : List Entry) → In x (x ∷ xs)
  later : (y : Entry) (xs : List Entry) → In x xs → In x (y ∷ xs)

In-left : (x : Entry) (xs ys : List Entry) → In x xs → In x (xs ++ ys)
In-left x _ ys (first xs) = first (xs ++ ys)
In-left x _ ys (later y xs h) = later y (xs ++ ys) (In-left x xs ys h)

In-right : (x : Entry) (xs ys : List Entry) → In x ys → In x (xs ++ ys)
In-right x [] ys h = h
In-right x (y ∷ xs) ys h = later y (xs ++ ys) (In-right x xs ys h)

or_left : (a b : Bool) → (a || b) ≡ true → a ≡ false → b ≡ true
or_left a b e f = ground arith

dir_entries-In :
    (dirs : List FilePath) (d path : FilePath)
    → contains dirs d ≡ true
    → same (parent_of d) path ≡ true
    → In (dir (last_segment d)) (dir_entries dirs path)
unfolding dir_entries contains
dir_entries-In [] d path h p = absurd (cc)
dir_entries-In (e ∷ dirs) d path h p = elim (Bool-cases (same e d)) [
  | inl here ↦
      let same_dir : e ≡ d = same_eq e d here in rw (same_dir, p) (first (dir_entries dirs path))
  | inr away ↦
      let rest = dir_entries-In dirs d path (or_left (same e d) (contains dirs d) h away) p in
      elim (Bool-cases (same (parent_of e) path)) [
        | inl t ↦ rw t (later (dir (last_segment e)) (dir_entries dirs path) rest)
        | inr f ↦ rw f rest
      ]
]

file_entries-In :
    (files : List (FilePath × Bytes)) (f path : FilePath) (bytes : Bytes)
    → get files f ≡ some bytes
    → same (parent_of f) path ≡ true
    → In (file (last_segment f)) (file_entries files path)
unfolding file_entries get
file_entries-In [] f path bytes h p = absurd (cc)
file_entries-In ((key, value) ∷ files) f path bytes h p = elim (Bool-cases (same key f)) [
  | inl here ↦
      let same_file : key ≡ f = same_eq key f here in
      rw (same_file, p) (first (file_entries files path))
  | inr away ↦
      let rest = file_entries-In files f path bytes (sym (if_false _ _ away) ∙ h) p in
      elim (Bool-cases (same (parent_of key) path)) [
        | inl t ↦ rw t (later (file (last_segment key)) (file_entries files path) rest)
        | inr n ↦ rw n rest
      ]
]

In-cons : (x y : Entry) (xs : List Entry) → In x (y ∷ xs) → (x ≡ y) ⊎ In x xs
In-cons x _ _ (first xs) = inl refl
In-cons x _ _ (later y xs h) = inr h

In-append : (x : Entry) (xs ys : List Entry) → In x (xs ++ ys) → In x xs ⊎ In x ys
In-append x [] ys h = inr h
In-append x (y ∷ xs) ys h = elim (In-cons x y (xs ++ ys) h) [
  | inl here ↦ inl (subst (λ z. In x (z ∷ xs)) here (first xs))
  | inr rest ↦ elim (In-append x xs ys rest) [
    | inl left ↦ inl (later y xs left)
    | inr right ↦ inr right
  ]
]

-- The entry is in the list behind an optional one.
In-if :
    (b : Bool) (x y : Entry) (xs : List Entry)
    → In x (if b then y ∷ xs else xs)
    → ((b ≡ true) × (x ≡ y)) ⊎ In x xs
In-if true x y xs h = elim (In-cons x y xs h) [ inl e ↦ inl (refl, e) | inr rest ↦ inr rest ]
In-if false x y xs h = inr h

dir_entries-only :
    (dirs : List FilePath) (path : FilePath) (e : Entry)
    → In e (dir_entries dirs path)
    → (d : FilePath) × (contains dirs d ≡ true)
      × (same (parent_of d) path ≡ true)
      × (e ≡ dir (last_segment d))
unfolding dir_entries contains
dir_entries-only [] path e h = elim h [ ]
dir_entries-only (d ∷ dirs) path e h =
    elim (In-if (same (parent_of d) path) e (dir (last_segment d)) (dir_entries dirs path) h) [
      | inl p ↦ (d, rw (same_refl d) refl, p.0, p.1)
      | inr rest ↦
          let (f, there, under, shown) = dir_entries-only dirs path e rest in
          (f, either-true (same d f) there, under, shown)
    ]
  where
    either-true : (a : Bool) {b : Bool} → b ≡ true → (a || b) ≡ true
    either-true true p = refl
    either-true false p = p

file_entries-only :
    (files : List (FilePath × Bytes)) (path : FilePath) (e : Entry)
    → In e (file_entries files path)
    → (f : FilePath) × (bytes : Bytes) × (get files f ≡ some bytes)
      × (same (parent_of f) path ≡ true)
      × (e ≡ file (last_segment f))
unfolding file_entries get
file_entries-only [] path e h = elim h [ ]
file_entries-only ((key, value) ∷ files) path e h =
    elim (In-if (same (parent_of key) path) e (file (last_segment key)) (file_entries files path)
      h) [
        | inl p ↦ (key, value, if_true _ _ (same_refl key), p.0, p.1)
        | inr rest ↦
            let (f, bytes, found, under, shown) = file_entries-only files path e rest in
            elim (Bool-cases (same key f)) [
              | inl here ↦ (f, value, if_true _ _ here, under, shown)
              | inr away ↦ (f, bytes, if_false _ _ away ∙ found, under, shown)
            ]
      ]

-- The entry stands for a directory or a file of the file system whose parent is the path.
pub data Child (fs : TmpFs) (path : FilePath) : Entry → Type 0 where
  child_dir :
      (d : FilePath)
      → contains fs.dirs d ≡ true
      → parent_of d ≡ path
      → Child fs path (dir (last_segment d))
  child_file :
      (f : FilePath) (bytes : Bytes)
      → get fs.files f ≡ some bytes
      → parent_of f ≡ path
      → Child fs path (file (last_segment f))

-- The entries are those of the children of the path, and no other.
pub record Lists (fs : TmpFs) (path : FilePath) (entries : List Entry) : Type 0 where
  pub children : (e : Entry) → Child fs path e → In e entries
  pub only : (e : Entry) → In e entries → Child fs path e

module _ (fs : TmpFs) (path : FilePath) where
  abbrev listed : List Entry
  listed = dir_entries fs.dirs path ++ file_entries fs.files path

  Child-In : (e : Entry) → Child fs path e → In e listed
  Child-In _ (child_dir d h e) =
      In-left (dir (last_segment d)) _ _
        (dir_entries-In fs.dirs d path h (ap (λ q. same q path) e ∙ same_refl path))
  Child-In _ (child_file f bytes h e) =
      In-right (file (last_segment f)) (dir_entries fs.dirs path) _
        (file_entries-In fs.files f path bytes h (ap (λ q. same q path) e ∙ same_refl path))

  In-Child : (e : Entry) → In e listed → Child fs path e
  In-Child e h = elim (In-append e (dir_entries fs.dirs path) _ h) [
    | inl left ↦
        let (d, there, under, shown) = dir_entries-only fs.dirs path e left in
        subst (Child fs path) (sym shown) (child_dir d there (same_eq (parent_of d) path under))
    | inr right ↦
        let (f, bytes, found, under, shown) = file_entries-only fs.files path e right in
        subst (Child fs path) (sym shown)
          (child_file f bytes found (same_eq (parent_of f) path under))
  ]

-- list_entries of a path that is no directory fails. Of a directory it succeeds, and its entries
-- are the last segments of the directories and of the files whose parent is the path, each marked
-- as directory or as file, and no other.
pub list_entries-Lists :
    (fs : TmpFs) (path : FilePath)
    → ((is_dir fs path ≡ false) × (list_entries fs path ≡ err not_found))
      ⊎ ((is_dir fs path ≡ true)
          × ((entries : List Entry) × (list_entries fs path ≡ ok entries) × Lists fs path entries))
list_entries-Lists fs path = elim (Bool-cases (is_dir fs path)) [
  | inr f ↦ inl (f, unfold list_entries in if_true _ _ (ap not f))
  | inl t ↦ inr (
    t,
    (
      listed fs path,
      unfold list_entries in if_false _ _ (ap not t),
      record { children = Child-In fs path; only = In-Child fs path },
    ),
  )
]
