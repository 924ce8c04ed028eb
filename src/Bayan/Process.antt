-- ===== src/Bayan/Process.antt =====
-- `process_files` of HW_8/lib/bayan.cpp, from the options to the lines on `std::cout`, and the choice
-- of the hash. The two hash functions of boost are parameters.
pub mod Reports
use cplus_plus_developer_pro.Prelude.{
  ℕ, ◌+◌, ◌≡◌, refl, Bool, true, false, ◌&&◌, Option, none, some, List, [], ◌∷◌, ◌++◌, leb,
  if◌then◌else◌, is_empty, arith, All, snoc,
}
use cplus_plus_developer_pro.Prelude.Text.{Text, bytes, text_eq}
use cplus_plus_developer_pro.Bayan.{Reader, FileInfo, find_duplicates}
use cplus_plus_developer_pro.Bayan.Scanner.{
  FileSystem, Scanner, scanner, scan_directories, all_compile,
}
use cplus_plus_developer_pro.Bayan.Duplicates.{IsFresh, Sound, find_duplicates-Sound}

pub data HashAlgorithm : Type 0 where
  crc32 : HashAlgorithm
  md5 : HashAlgorithm

-- `std::tolower` in the C locale.
abbrev to_lower : Text → Text
to_lower [] = []
to_lower (c ∷ s) = (if leb 65 c && leb c 90 then c + 32 else c) ∷ to_lower s

-- The constructor from a name; `none` is the validation error.
unfoldable pub algorithm_named : Text → Option HashAlgorithm
algorithm_named name =
    if text_eq (to_lower name) (bytes "crc32")
    then some crc32
    else if text_eq (to_lower name) (bytes "md5")
    then some md5
    else none

-- `get_hash_function` and `compute_hash`.
pub compute_hash : (compute_crc32 compute_md5 : Text → Text) → HashAlgorithm → Text → Text
compute_hash compute_crc32 compute_md5 crc32 s = compute_crc32 s
compute_hash compute_crc32 compute_md5 md5 s = compute_md5 s

pub data ProcessStatus : Type 0 where
  success : ProcessStatus
  help_requested : ProcessStatus
  option_error : ProcessStatus
  file_error : ProcessStatus

pub record Options : Type 0 where
  pub scan_level : Bool
  pub hash_algorithm : HashAlgorithm
  pub block_size : ℕ
  pub min_file_size : ℕ
  pub exclude_dirs : List Text
  pub file_masks : List Text
  pub scan_dirs : List Text

-- The loops that print the groups.
abbrev pub group_lines : List FileInfo → List Text
group_lines [] = []
group_lines (f ∷ fs) = f.path ∷ group_lines fs

abbrev pub report_lines : List (List FileInfo) → List Text
report_lines [] = []
report_lines (g ∷ gs) = group_lines g ++ ([] ∷ report_lines gs)

abbrev pub report : List (List FileInfo) → List Text
report gs = if is_empty gs then bytes "No duplicate files found." ∷ [] else report_lines gs

-- What follows the search: an exception becomes the status of a file error.
abbrev pub finished : Option (List (List FileInfo)) → ProcessStatus × List Text
finished none = (file_error, [])
finished (some gs) = (success, report gs)

-- The scanner that the options ask for.
abbrev pub scanner_of : Options → Scanner
scanner_of o =
    scanner o.scan_level o.block_size o.min_file_size o.exclude_dirs o.file_masks o.scan_dirs

-- On fuel for the recursive scan; `none` is a scan that goes on.
pub process_files :
    FileSystem
    → (Text → Option Text)
    → (compute_crc32 compute_md5 : Text → Text) → ℕ
    → Options
    → Option (ProcessStatus × List Text)
process_files fs contents compute_crc32 compute_md5 fuel o =
    let r : Reader = record {
      contents = contents;
      hash = compute_hash compute_crc32 compute_md5 o.hash_algorithm;
    } in
    let run : Option (ProcessStatus × List Text) = elim (scan_directories fs (scanner_of o) fuel) [
      | none ↦ none
      | some files ↦
          if is_empty files
          then some (success, bytes "No files found matching the criteria." ∷ [])
          else some (finished (find_duplicates r o.block_size files))
    ] in
    if all_compile fs (scanner_of o).mask_regexes then run else some (file_error, [])
