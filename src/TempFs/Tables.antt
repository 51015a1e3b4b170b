-- ===== src/TempFs/Tables.antt =====
-- The ordered maps and sets that src/fs/tempfs.rs uses.
use sill_os.Base.{
  ◌≡◌, refl, sym, ap, ◌∙◌, Bool, true, false, none, some, List, [], ◌∷◌, ◌||◌, if◌then◌else◌,
  if_true, if_false, Bool-cases, inl, inr, arith, same, same_refl, same_eq,
}
use sill_os.TempFs.{FilePath, Bytes, before, get, insert, delete, contains, add}

-- A key that is the same as another one answers alike.
apart :
    (key path other : FilePath)
    → same path other ≡ false
    → same key path ≡ true
    → same key other ≡ false
apart key path other different here = rw (same_eq key path here) different

other_key :
    (key path other : FilePath)
    → same key path ≡ false
    → same key other ≡ true
    → same path other ≡ false
other_key key path other away there = elim (Bool-cases (same path other)) [
  | inl t ↦
      let e : key ≡ path = same_eq key other there ∙ sym (same_eq path other t) in
      let unlike : same path path ≡ false = rw e at away in absurd (cc (same_refl path))
  | inr f ↦ f
]

-- After `insert` the key has the new value, and any other key what it had.
pub get-insert :
    (files : List (FilePath × Bytes)) (path : FilePath) (bytes : Bytes) (other : FilePath)
    → get (insert files path bytes) other
      ≡ (if same path other then some bytes else get files other)
unfolding get insert
get-insert [] path bytes other = refl
get-insert ((key, value) ∷ rest) path bytes other = elim (Bool-cases (same key path)) [
  | inl here ↦ rw here (elim (Bool-cases (same path other)) [
    | inl t ↦ if_true _ _ t ∙ sym (if_true _ _ t)
    | inr f ↦ if_false _ _ f ∙ sym (if_false _ _ f ∙ if_false _ _ (apart key path other f here))
  ])
  | inr away ↦ elim (Bool-cases (before path key)) [
    | inl earlier ↦ rw (away, earlier)
    | inr later ↦
        rw (away, later)
          (elim (Bool-cases (same key other)) [
            | inl t ↦
                if_true _ _ t ∙ sym (if_false _ _ (other_key key path other away t) ∙ if_true _ _ t)
            | inr f ↦
                if_false _ _ f
                ∙ get-insert rest path bytes other
                ∙ ap (λ r. if same path other then some bytes else r) (sym (if_false _ _ f))
          ])
  ]
]

-- After `delete` the key has no value, and any other key what it had.
pub get-delete :
    (files : List (FilePath × Bytes)) (path other : FilePath)
    → get (delete files path) other ≡ (if same path other then none else get files other)
unfolding get delete
get-delete [] path other = elim (Bool-cases (same path other)) [
  | inl t ↦ sym (if_true _ _ t)
  | inr f ↦ sym (if_false _ _ f)
]
get-delete ((key, value) ∷ rest) path other = elim (Bool-cases (same key path)) [
  | inl here ↦ rw here (
      get-delete rest path other ∙ (elim (Bool-cases (same path other)) [
        | inl t ↦ if_true _ _ t ∙ sym (if_true _ _ t)
        | inr f ↦ if_false _ _ f ∙ sym (if_false _ _ f ∙ if_false _ _ (apart key path other f here))
      ]))
  | inr away ↦ rw away (elim (Bool-cases (same key other)) [
    | inl t ↦ if_true _ _ t ∙ sym (if_false _ _ (other_key key path other away t) ∙ if_true _ _ t)
    | inr f ↦
        if_false _ _ f
        ∙ get-delete rest path other
        ∙ ap (λ r. if same path other then none else r) (sym (if_false _ _ f))
  ])
]

-- After `add` the path is in the set, and any other one just if it was.
pub contains-add :
    (dirs : List FilePath) (path other : FilePath)
    → contains (add dirs path) other ≡ (same path other || contains dirs other)
unfolding contains add
contains-add [] path other = refl
contains-add (d ∷ dirs) path other = elim (Bool-cases (same d path)) [
  | inl here ↦ rw (here, same_eq d path here) (absorb (same path other) (contains dirs other))
  | inr away ↦ elim (Bool-cases (before path d)) [
    | inl earlier ↦ rw (away, earlier)
    | inr later ↦
        rw (away, later, contains-add dirs path other)
          (swap (same d other) (same path other) (contains dirs other))
  ]
]
  where
    absorb : (a b : Bool) → (a || b) ≡ (a || (a || b))
    absorb a b = ground arith

    swap : (a b c : Bool) → (a || (b || c)) ≡ (b || (a || c))
    swap a b c = ground arith
