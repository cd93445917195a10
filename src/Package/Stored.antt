-- ===== src/Package/Stored.antt =====
-- The store of files of backend/app/features/package/storage.py, and the rows that name its files:
-- what an upload and a removal leave of both.
use natimai_tiai.Prelude.{
  All-mono, ℕ, ◌≡◌, inl, inr, refl, ◌∙◌, Bool, true, false, not, ◌&&◌, String, List, [], ◌∷◌, ◌++◌,
  select, All, contains, contains-append, contains_self, string_eq, nat_eq, option_eq, ◌==◌,
  ==_sound, if_elim, ltb, arith, Bool-cases,
}
use natimai_tiai.Answers.{Answer, refused, committed, Commits}
use natimai_tiai.Package.{PackageFile, files_of, sha_in_use}
use natimai_tiai.Package.Names.{valid_file_name}
use natimai_tiai.Package.Edits.{
  Upload, PackageError, put_file, save, remove_unreferenced, upload_loop, upload_name,
}

-- Every file that a package has is in the store.
abbrev pub IsStored : List String → List PackageFile → Type 0
IsStored store rows = All (λ (f : PackageFile). contains store f.sha256 ≡ true) rows

contains-save :
    (sha256 : String) (store : List String) (x : String)
    → contains store x ≡ true
    → contains (save sha256 store) x ≡ true
unfolding save
contains-save sha256 store x h =
    if_elim (λ (s : List String). contains s x ≡ true) (contains store sha256) store
      (store ++ sha256 ∷ []) (λ _. h)
      (λ _. ground (arith, h, contains-append store (sha256 ∷ []) x))

contains-save_self :
    (sha256 : String) (store : List String) → contains (save sha256 store) sha256 ≡ true
unfolding save
contains-save_self sha256 store =
    if_elim (λ (s : List String). contains s sha256 ≡ true) (contains store sha256) store
      (store ++ sha256 ∷ []) (λ e. e)
      (λ _. ground (arith, contains-append store (sha256 ∷ []) sha256, contains_self sha256 []))

pub All-select {ℓ κ} :
    {A : Type ℓ} (P : A → Type κ) (keep : A → Bool) (xs : List A)
    → All P xs
    → All P (select keep xs)
All-select P keep [] a = tt
All-select P keep (x ∷ xs) a =
    if_elim (All P) (keep x) (x ∷ select keep xs) (select keep xs)
      (λ _. (a.0, All-select P keep xs a.1)) (λ _. All-select P keep xs a.1)

-- The rows of a package but one of its names, and the rows of the others
pub files_of-without :
    (i j : ℕ) (name : String) (rows : List PackageFile)
    → (j == i) ≡ false
    → files_of (select (λ (g : PackageFile). not (g.package_id == i && g.name == name)) rows) j
      ≡ files_of rows j
files_of-without i j name [] ne = refl
files_of-without i j name (g ∷ rows) ne = ground (arith, files_of-without i j name rows ne)

files_of-added :
    (f : PackageFile) (j : ℕ) (rows : List PackageFile)
    → (j == f.package_id) ≡ false
    → files_of (rows ++ f ∷ []) j ≡ files_of rows j
files_of-added f j [] ne = ground (arith, ne)
files_of-added f j (g ∷ rows) ne = ground (arith, files_of-added f j rows ne)

files_of-put_file :
    (f : PackageFile) (j : ℕ) (rows : List PackageFile)
    → (j == f.package_id) ≡ false
    → files_of (put_file f rows) j ≡ files_of rows j
unfolding put_file
files_of-put_file f j rows ne =
    files_of-added f j
      (select (λ (g : PackageFile). not (g.package_id == f.package_id && g.name == f.name)) rows) ne
    ∙ files_of-without f.package_id j f.name rows ne

put_file-IsStored :
    (f : PackageFile) (store : List String) (rows : List PackageFile)
    → IsStored store rows
    → contains store f.sha256 ≡ true
    → IsStored store (put_file f rows)
unfolding put_file
put_file-IsStored f store rows a h = added _ (All-select _ _ rows a)
  where
    added : (xs : List PackageFile) → IsStored store xs → IsStored store (xs ++ f ∷ [])
    added [] b = (h, tt)
    added (x ∷ xs) b = (b.0, added xs b.1)

-- The row of an upload
abbrev row_of : ℕ → Upload → PackageFile
row_of i u = record {
  package_id = i;
  name = upload_name u;
  sha256 = u.sha256;
  size = u.size;
  publisher_name = u.publisher;
}

-- What the loop leaves over the rows that it began with: those that were there and those that it
-- answers are stored, and the rows of the other packages are as they were.
abbrev pub Left :
    ℕ
    → List PackageFile
    → List PackageFile
    → List String × Answer PackageError (List PackageFile)
    → Type 0
Left i base rows r =
    IsStored r.0 base
    × Commits
        (λ rows'.
          IsStored r.0 rows' × ((j : ℕ) → (j == i) ≡ false → files_of rows' j ≡ files_of rows j))
        r.1

further :
    (i : ℕ) (base rows : List PackageFile) (u : Upload)
    (r : List String × Answer PackageError (List PackageFile))
    → Left i base (put_file (row_of i u) rows) r
    → Left i base rows r
further i base rows u (s, refused e) h = (h.0, tt)
further i base rows u (s, committed rows') h =
    (h.0, (h.1.0, λ j ne. h.1.1 j ne ∙ files_of-put_file (row_of i u) j rows ne))

pub upload_loop-Left :
    (max_bytes i : ℕ) (us : List Upload) (store : List String) (rows base : List PackageFile)
    → IsStored store rows
    → IsStored store base
    → Left i base rows (upload_loop max_bytes i us store rows)
unfolding upload_loop
upload_loop-Left max_bytes i [] store rows base a b = (b, (a, λ j _. refl))
upload_loop-Left max_bytes i (u ∷ us) store rows base a b =
    let wider : (xs : List PackageFile) → IsStored store xs → IsStored (save u.sha256 store) xs =
      λ xs. All-mono _ _ (λ f. contains-save u.sha256 store f.sha256) xs in
    let again =
      upload_loop-Left max_bytes i us (save u.sha256 store) (put_file (row_of i u) rows) base
        (put_file-IsStored (row_of i u) (save u.sha256 store) rows (wider rows a)
          (contains-save_self u.sha256 store))
        (wider base b) in
    if_elim (Left i base rows) (not (valid_file_name (upload_name u))) _ _ (λ _. (b, tt))
      (λ _.
        if_elim (Left i base rows) (ltb max_bytes u.size) _ _ (λ _. (b, tt))
          (λ _. further i base rows u _ again))

contains-remove_unreferenced :
    (sha256 x : String) (store : List String)
    → (x == sha256) ≡ false
    → contains store x ≡ true
    → contains (remove_unreferenced sha256 store) x ≡ true
unfolding remove_unreferenced
contains-remove_unreferenced sha256 x [] ne h = h
contains-remove_unreferenced sha256 x (s ∷ store) ne h = elim (Bool-cases (s == sha256)) [
  | inl gone ↦
      ground
        (arith, gone, ne, h, ==_sound s sha256 gone, contains-remove_unreferenced sha256 x store ne)
  | inr stays ↦ ground (arith, stays, h, contains-remove_unreferenced sha256 x store ne)
]

-- A file that no row names may leave the store.
pub removed-IsStored :
    (sha256 : String) (store : List String) (rows : List PackageFile)
    → sha_in_use rows sha256 ≡ false
    → IsStored store rows
    → IsStored (remove_unreferenced sha256 store) rows
unfolding sha_in_use
removed-IsStored sha256 store [] unused a = tt
removed-IsStored sha256 store (f ∷ rows) unused a = (
  contains-remove_unreferenced sha256 f.sha256 store (ground (arith, unused)) a.0,
  removed-IsStored sha256 store rows (ground (arith, unused)) a.1,
)
