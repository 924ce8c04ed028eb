-- ===== src/Bayan/Scanner.antt =====
-- The scanner of HW_8/lib/bayan.cpp. What boost::filesystem answers is a parameter, and so is
-- `std::regex_match`. The entries of a directory are those that its iterator yields until it ends
-- or throws; what was found before stays found, so that both come to the same.
pub mod Ends
pub mod Fresh
use cplus_plus_developer_pro.Prelude.{
  ℕ, zero, suc, ◌+◌, Bool, true, false, not, ◌&&◌, ◌||◌, Option, none, some, List, [], ◌∷◌, ◌++◌,
  leb, ◌==◌, if◌then◌else◌, is_empty, snoc,
}
use cplus_plus_developer_pro.Prelude.Text.{Text}
use cplus_plus_developer_pro.Bayan.{FileInfo, file_info}

pub record FileSystem : Type 0 where
  pub is_regular_file : Text → Bool
  pub file_size : Text → ℕ
  pub exists : Text → Bool
  pub is_directory : Text → Bool
  pub same_path : Text → Text → Bool
  pub canonical : Text → Text
  pub parent_path : Text → Text
  pub filename : Text → Text
  pub entries : Text → List Text
  pub recursive_entries : Text → List Text
  pub regex_match : Text → Text → Bool
  pub regex_compiles : Text → Bool

pub record Scanner : Type 0 where
  pub scan_level : Bool
  pub block_size : ℕ
  pub min_file_size : ℕ
  pub mask_regexes : List Text
  pub exclude_dirs : List Text
  pub file_masks : List Text
  pub scan_dirs : List Text

-- The loop over the characters of a mask.
unfoldable pub translate : Text → Text
translate [] = []
translate (c ∷ mask) =
    if c == 46
    then 92 ∷ 46 ∷ translate mask
    else if c == 42
    then 46 ∷ 42 ∷ translate mask
    else if c == 63
    then 46 ∷ translate mask
    else c ∷ translate mask

unfoldable pub final_regex : Text → Text
final_regex mask = 94 ∷ (translate mask ++ 36 ∷ [])

abbrev pub regexes : List Text → List Text
regexes [] = []
regexes (mask ∷ masks) = final_regex mask ∷ regexes masks

-- The constructor.
unfoldable pub scanner : Bool → ℕ → ℕ → List Text → List Text → List Text → Scanner
scanner scan_level block_size min_file_size exclude_dirs file_masks scan_dirs = record {
  scan_level = scan_level;
  block_size = block_size;
  min_file_size = min_file_size;
  mask_regexes = regexes file_masks;
  exclude_dirs = exclude_dirs;
  file_masks = file_masks;
  scan_dirs = scan_dirs;
}

abbrev pub starts_with : Text → Text → Bool
starts_with s [] = true
starts_with [] (c ∷ prefix) = false
starts_with (d ∷ s) (c ∷ prefix) = d == c && starts_with s prefix

module _ (fs : FileSystem) where
  -- Whether the constructor builds all its regexes without an exception.
  abbrev pub all_compile : List Text → Bool
  all_compile [] = true
  all_compile (regex ∷ rs) = fs.regex_compiles regex && all_compile rs

  abbrev pub any_match : Text → List Text → Bool
  any_match name [] = false
  any_match name (regex ∷ rs) = fs.regex_match name regex || any_match name rs

  unfoldable pub matches_masks : Scanner → Text → Bool
  matches_masks s path =
      if is_empty s.file_masks then true else any_match (fs.filename path) s.mask_regexes

  abbrev pub excluded_by : Text → List Text → Bool
  excluded_by dir [] = false
  excluded_by dir (e ∷ es) =
      fs.same_path dir e || fs.exists e && starts_with dir (fs.canonical e) || excluded_by dir es

  unfoldable pub is_excluded : Scanner → Text → Bool
  is_excluded s dir = excluded_by dir s.exclude_dirs

  -- Whether a path is that of a file to compare.
  unfoldable pub wanted : Scanner → Text → Bool
  wanted s path =
      fs.is_regular_file path && leb s.min_file_size (fs.file_size path) && matches_masks s path

  unfoldable pub collect : Scanner → Text → List FileInfo → List FileInfo
  collect s path files =
      if wanted s path then snoc files (file_info path (fs.file_size path) s.block_size) else files

  -- The loop, on fuel: `none` is a loop that goes on. At an excluded parent the iterator stays.
  unfoldable pub scan_directory_recursive :
      Scanner → ℕ → List Text → List FileInfo → Option (List FileInfo)
  scan_directory_recursive s zero paths files = none
  scan_directory_recursive s (suc fuel) [] files = some files
  scan_directory_recursive s (suc fuel) (path ∷ paths) files =
      let again = scan_directory_recursive s fuel (path ∷ paths) files in
      let onward = scan_directory_recursive s fuel paths (collect s path files) in
      if is_excluded s (fs.parent_path path) then again else onward

  pub scan_directory_non_recursive : Scanner → List Text → List FileInfo → List FileInfo
  scan_directory_non_recursive s [] files = files
  scan_directory_non_recursive s (path ∷ paths) files =
      scan_directory_non_recursive s paths (collect s path files)

  -- One directory of `scan_dirs`.
  unfoldable pub scan_directory : Scanner → ℕ → Text → List FileInfo → Option (List FileInfo)
  scan_directory s fuel dir files =
      if not (fs.exists dir) || not (fs.is_directory dir)
      then some files
      else if is_excluded s dir
      then some files
      else if s.scan_level
      then scan_directory_recursive s fuel (fs.recursive_entries dir) files
      else some (scan_directory_non_recursive s (fs.entries dir) files)

  unfoldable pub scan_from : Scanner → ℕ → List Text → List FileInfo → Option (List FileInfo)
  scan_from s fuel [] files = some files
  scan_from s fuel (dir ∷ dirs) files = elim (scan_directory s fuel dir files) [
    | none ↦ none
    | some found ↦ scan_from s fuel dirs found
  ]

  unfoldable pub scan_directories : Scanner → ℕ → Option (List FileInfo)
  unfolding scan_from
  scan_directories s fuel = scan_from s fuel s.scan_dirs []
