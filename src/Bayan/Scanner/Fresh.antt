-- ===== src/Bayan/Scanner/Fresh.antt =====
-- The files that the scanner of HW_8/lib/bayan.cpp constructs.
use cplus_plus_developer_pro.Prelude.{
  ℕ, zero, suc, ◌≡◌, refl, inl, inr, some, List, [], ◌∷◌, arith, All, All-append, Bool-cases,
  Option-cases,
}
use cplus_plus_developer_pro.Prelude.Text.{Text}
use cplus_plus_developer_pro.Bayan.{Reader, FileInfo, file_info}
use cplus_plus_developer_pro.Bayan.Hashing.{text_of}
use cplus_plus_developer_pro.Bayan.Scanner.{
  FileSystem, Scanner, wanted, collect, is_excluded, scan_directory_recursive,
  scan_directory_non_recursive, scan_directory, scan_from, scan_directories,
}
use cplus_plus_developer_pro.Bayan.Duplicates.{IsFresh}

module _ (fs : FileSystem) (r : Reader)
    (readable : (p : Text) → r.contents p ≡ some (text_of (r.contents p))) where
  module _ (s : Scanner) where
    abbrev Fresh : List FileInfo → Type 0
    Fresh = All (IsFresh r s.block_size)

    collect-Fresh :
        (path : Text) (files : List FileInfo) → Fresh files → Fresh (collect fs s path files)
    unfolding collect file_info
    collect-Fresh path files h = elim (Bool-cases (wanted fs s path)) [
      | inl e ↦ rw e (
          All-append (IsFresh r s.block_size) files
            (file_info path (fs.file_size path) s.block_size ∷ []) h
            (record { blocks = refl; unhashed = refl; readable = readable path }, tt))
      | inr e ↦ rw e h
    ]

    non_recursive-Fresh :
        (paths : List Text) (files : List FileInfo)
        → Fresh files
        → Fresh (scan_directory_non_recursive fs s paths files)
    unfolding scan_directory_non_recursive
    non_recursive-Fresh [] files h = h
    non_recursive-Fresh (path ∷ paths) files h =
        non_recursive-Fresh paths (collect fs s path files) (collect-Fresh path files h)

    recursive-Fresh :
        (fuel : ℕ) (paths : List Text) (files found : List FileInfo)
        → Fresh files
        → scan_directory_recursive fs s fuel paths files ≡ some found
        → Fresh found
    unfolding scan_directory_recursive
    recursive-Fresh zero paths files found h e = cc
    recursive-Fresh (suc fuel) [] files found h e = let same : files ≡ found = cc in rw same at h
    recursive-Fresh (suc fuel) (path ∷ paths) files found h e =
        elim (Bool-cases (is_excluded fs s (fs.parent_path path))) [
          | inl x ↦ recursive-Fresh fuel (path ∷ paths) files found h (rw x at e)
          | inr x ↦
              recursive-Fresh fuel paths (collect fs s path files) found
                (collect-Fresh path files h) (rw x at e)
        ]

    scan_directory-Fresh :
        (fuel : ℕ) (dir : Text) (files found : List FileInfo)
        → Fresh files
        → scan_directory fs s fuel dir files ≡ some found
        → Fresh found
    unfolding scan_directory
    scan_directory-Fresh fuel dir files found h e = ground (
      arith,
      recursive-Fresh fuel (fs.recursive_entries dir) files found h,
      non_recursive-Fresh (fs.entries dir) files h,
    )

    scan_from-Fresh :
        (fuel : ℕ) (dirs : List Text) (files found : List FileInfo)
        → Fresh files
        → scan_from fs s fuel dirs files ≡ some found
        → Fresh found
    unfolding scan_from
    scan_from-Fresh fuel [] files found h e = let same : files ≡ found = cc in rw same at h
    scan_from-Fresh fuel (dir ∷ dirs) files found h e =
        elim (Option-cases (scan_directory fs s fuel dir files)) [
          | inl n ↦ let stop = rw (n, scan_from) at e in cc
          | inr (next, n) ↦
              scan_from-Fresh fuel dirs next found (scan_directory-Fresh fuel dir files next h n)
                (rw (n, scan_from) at e)
        ]

    pub scan_directories-Fresh :
        (fuel : ℕ) (found : List FileInfo) → scan_directories fs s fuel ≡ some found → Fresh found
    unfolding scan_directories
    scan_directories-Fresh fuel found e = scan_from-Fresh fuel s.scan_dirs [] found tt e
