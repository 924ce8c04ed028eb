-- ===== src/Bayan/Scanner/Ends.antt =====
-- When the recursive scan of HW_8/lib/bayan.cpp ends, and what it has found then.
use cplus_plus_developer_pro.Prelude.{
  ℕ, zero, suc, ◌<◌, ◌≡◌, refl, sym, ap, ◌∙◌, inl, inr, Bool, true, false, ◌||◌, none, some, List,
  [], ◌∷◌, ◌++◌, arith, if◌then◌else◌, length, append-nil, append_assoc, Bool-cases,
}
use cplus_plus_developer_pro.Prelude.Text.{Text}
use cplus_plus_developer_pro.Bayan.{FileInfo, file_info}
use cplus_plus_developer_pro.Bayan.Scanner.{
  FileSystem, Scanner, wanted, collect, is_excluded, scan_directory_recursive,
  scan_directory_non_recursive,
}

module _ (fs : FileSystem) (s : Scanner) where
  -- The wanted files among some paths.
  abbrev pub chosen : List Text → List FileInfo
  chosen [] = []
  chosen (path ∷ paths) =
      if wanted fs s path
      then file_info path (fs.file_size path) s.block_size ∷ chosen paths
      else chosen paths

  -- Whether some path lies in an excluded directory.
  abbrev pub meets_excluded : List Text → Bool
  meets_excluded [] = false
  meets_excluded (path ∷ paths) = is_excluded fs s (fs.parent_path path) || meets_excluded paths

  collect-chosen :
      (path : Text) (paths : List Text) (files : List FileInfo)
      → collect fs s path files ++ chosen paths ≡ files ++ chosen (path ∷ paths)
  unfolding collect
  collect-chosen path paths files = ground (
    arith,
    append_assoc files (file_info path (fs.file_size path) s.block_size ∷ []) (chosen paths),
  )

  scan-chosen :
      (fuel : ℕ) (paths : List Text) (files : List FileInfo)
      → length paths < fuel
      → meets_excluded paths ≡ false
      → scan_directory_recursive fs s fuel paths files ≡ some (files ++ chosen paths)
  unfolding scan_directory_recursive
  scan-chosen zero paths files f h = absurd (omega arith)
  scan-chosen (suc fuel) [] files f h = ap some (sym (append-nil files))
  scan-chosen (suc fuel) (path ∷ paths) files f h =
      let here : is_excluded fs s (fs.parent_path path) ≡ false = ground arith in
      rw here (
        scan-chosen fuel paths (collect fs s path files) (omega arith) (ground arith)
        ∙ ap some (collect-chosen path paths files))

  scan-stuck :
      (fuel : ℕ) (paths : List Text) (files : List FileInfo)
      → meets_excluded paths ≡ true
      → scan_directory_recursive fs s fuel paths files ≡ none
  unfolding scan_directory_recursive
  scan-stuck zero paths files h = refl
  scan-stuck (suc fuel) [] files h = cc
  scan-stuck (suc fuel) (path ∷ paths) files h =
      elim (Bool-cases (is_excluded fs s (fs.parent_path path))) [
        | inl e ↦ rw e (scan-stuck fuel (path ∷ paths) files h)
        | inr e ↦ rw e (scan-stuck fuel paths (collect fs s path files) (rw e at h))
      ]

  -- A round for each path and one more tell whether the loop of the recursive scan ends: it does
  -- exactly when the iterator yields no path whose parent is excluded, and has then found the files
  -- from before, followed by the wanted ones in order. Otherwise no number of rounds is enough.
  pub scan_directory_recursive_lem :
      (fuel : ℕ) (paths : List Text) (files : List FileInfo)
      → length paths < fuel
      → scan_directory_recursive fs s fuel paths files
        ≡ (if meets_excluded paths then none else some (files ++ chosen paths))
  scan_directory_recursive_lem fuel paths files f = elim (Bool-cases (meets_excluded paths)) [
    | inl h ↦ rw h (scan-stuck fuel paths files h)
    | inr h ↦ rw h (scan-chosen fuel paths files f h)
  ]

  -- The scan of one level finds the wanted files in order, whatever is excluded.
  pub scan_directory_non_recursive_lem :
      (paths : List Text) (files : List FileInfo)
      → scan_directory_non_recursive fs s paths files ≡ files ++ chosen paths
  unfolding scan_directory_non_recursive
  scan_directory_non_recursive_lem [] files = sym (append-nil files)
  scan_directory_non_recursive_lem (path ∷ paths) files =
      scan_directory_non_recursive_lem paths (collect fs s path files)
      ∙ collect-chosen path paths files
