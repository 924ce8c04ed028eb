-- ===== src/Bayan/Tests.antt =====
-- The finder of HW_8/lib/bayan.cpp on small files, with a hash that is the block itself.
use cplus_plus_developer_pro.Prelude.{
  ℕ, ◌≡◌, refl, true, false, ◌||◌, Option, none, some, List, [], ◌∷◌, ◌++◌, if◌then◌else◌, is_empty,
  arith, All, map, length,
}
use cplus_plus_developer_pro.Prelude.Text.{Text, bytes, text_eq}
use cplus_plus_developer_pro.Bayan.{
  Reader, FileInfo, file_info, find_duplicates, each_size, by_size, find_duplicates_in_group,
  rounds, hash_files, compute_block_hash, read_block, push, survivors, groups, by_all_hashes,
}
use cplus_plus_developer_pro.Bayan.Buckets.{together}
use cplus_plus_developer_pro.Bayan.Duplicates.{
  IsFresh, Sound, Complete, of_size, find_duplicates-Sound, find_duplicates_complete,
}
use cplus_plus_developer_pro.Bayan.Scanner.{
  FileSystem, Scanner, all_compile, scanner, is_excluded, scan_directory_recursive,
  scan_directories, scan_from, scan_directory, collect, wanted, matches_masks, final_regex,
  translate,
}
use cplus_plus_developer_pro.Bayan.Scanner.Ends.{
  chosen, meets_excluded, scan_directory_recursive_lem,
}
use cplus_plus_developer_pro.Bayan.Process.{
  Options, md5, success, report, process_files, scanner_of, compute_hash, algorithm_named,
}
use cplus_plus_developer_pro.Bayan.Process.Reports.{process_files_lem}

-- A file holds its own path.
abbrev own_path : Text → Option Text
own_path p = some p

abbrev same : Text → Text
same s = s

abbrev reader : Reader
reader = record { contents = λ p. some (bytes "xy"); hash = same }

abbrev two_files : List FileInfo
two_files = file_info (bytes "a") 2 1 ∷ file_info (bytes "b") 2 1 ∷ []

two_files-IsFresh : All (IsFresh reader 1) two_files
unfolding file_info
two_files-IsFresh = (
  record { blocks = refl; unhashed = refl; readable = refl },
  (record { blocks = refl; unhashed = refl; readable = refl }, tt),
)

find_duplicates-Sound_example :
    (gs : List (List FileInfo)) × (find_duplicates reader 1 two_files ≡ some gs)
    × Sound reader 1 two_files gs
find_duplicates-Sound_example = find_duplicates-Sound reader 1 two_files two_files-IsFresh

apart : text_eq (bytes "a") (bytes "b") ≡ false
unfolding text_eq
apart = refl

a_there : of_size 2 (bytes "a") two_files ≡ true
unfolding text_eq file_info
a_there = refl

b_there : of_size 2 (bytes "b") two_files ≡ true
unfolding text_eq file_info
b_there = refl

find_duplicates_complete_example :
    (gs : List (List FileInfo)) × (find_duplicates reader 1 two_files ≡ some gs)
    × (together (bytes "a") (bytes "b") gs ≡ true)
find_duplicates_complete_example =
    find_duplicates_complete reader 1 two_files 2 (bytes "a") (bytes "b") two_files-IsFresh apart
      a_there b_there refl

-- Four files of two blocks, no two the same: each block of one is found in another file, so that all
-- survive, and each is reported as a group of one.
abbrev owners : Reader
owners = record { contents = own_path; hash = same }

abbrev four_files : List FileInfo
four_files = map (λ p. file_info p 2 1) (bytes "xu" ∷ bytes "xv" ∷ bytes "yu" ∷ bytes "yv" ∷ [])

abbrev lengths : Option (List (List FileInfo)) → List ℕ
lengths none = []
lengths (some []) = []
lengths (some (g ∷ gs)) = length g ∷ lengths (some gs)

lone_groups : lengths (find_duplicates owners 1 four_files) ≡ 1 ∷ 1 ∷ 1 ∷ 1 ∷ []
unfolding find_duplicates each_size by_size find_duplicates_in_group rounds hash_files
    compute_block_hash read_block push survivors groups by_all_hashes file_info text_eq
lone_groups = refl

-- A directory `d` with a file, and below it an excluded directory `d/e` with a file.
abbrev fs : FileSystem
fs = record {
  is_regular_file = λ p. text_eq p (bytes "d/f") || text_eq p (bytes "d/e/g");
  file_size = λ p. 1;
  exists = λ p. true;
  is_directory = λ p. text_eq p (bytes "d");
  same_path = text_eq;
  canonical = λ p. p;
  parent_path = λ p. if text_eq p (bytes "d/e/g") then bytes "d/e" else bytes "d";
  filename = λ p. p;
  entries = λ p. bytes "d/f" ∷ bytes "d/e" ∷ [];
  recursive_entries = λ p. bytes "d/f" ∷ bytes "d/e" ∷ bytes "d/e/g" ∷ [];
  regex_match = λ s regex. true;
  regex_compiles = λ regex. true;
}

abbrev excluding : List Text → Scanner
excluding dirs = record {
  scan_level = true;
  block_size = 1;
  min_file_size = 1;
  mask_regexes = [];
  exclude_dirs = dirs;
  file_masks = [];
  scan_dirs = bytes "d" ∷ [];
}

abbrev paths : List Text
paths = fs.recursive_entries (bytes "d")

scan_directory_recursive_lem_example :
    scan_directory_recursive fs (excluding (bytes "d/e" ∷ [])) 4 paths [] ≡ (
      if meets_excluded fs (excluding (bytes "d/e" ∷ [])) paths
      then none
      else some ([] ++ chosen fs (excluding (bytes "d/e" ∷ [])) paths))
scan_directory_recursive_lem_example =
    scan_directory_recursive_lem fs (excluding (bytes "d/e" ∷ [])) 4 paths [] (omega arith)

-- The excluded directory below makes the loop go on.
excluded_below : meets_excluded fs (excluding (bytes "d/e" ∷ [])) paths ≡ true
unfolding is_excluded text_eq
excluded_below = refl

abbrev options : Options
options = record {
  scan_level = true;
  hash_algorithm = md5;
  block_size = 1;
  min_file_size = 1;
  exclude_dirs = [];
  file_masks = [];
  scan_dirs = bytes "d" ∷ [];
}

abbrev found : List FileInfo
found = file_info (bytes "d/f") 1 1 ∷ file_info (bytes "d/e/g") 1 1 ∷ []

scan_found : scan_directories fs (scanner_of options) 4 ≡ some found
unfolding scan_directories scan_from scan_directory scan_directory_recursive is_excluded collect
    wanted matches_masks text_eq scanner
scan_found = refl

compiled : all_compile fs (scanner_of options).mask_regexes ≡ true
unfolding scanner
compiled = refl

process_files_lem_example :
    let r : Reader = record { contents = own_path; hash = compute_hash same same md5 } in
    (gs : List (List FileInfo)) × (process_files fs own_path same same 4 options
      ≡ some (
        success,
        if is_empty found then bytes "No files found matching the criteria." ∷ [] else report gs,
      ))
    × Sound r 1 found gs
    × Complete r 1 found gs
process_files_lem_example =
    process_files_lem fs own_path same same 4 options found (omega arith) (λ p. refl) compiled
      scan_found

mask : final_regex (bytes "a?.t*") ≡ bytes "^a.\\.t.*$"
unfolding final_regex translate
mask = refl

upper_case : algorithm_named (bytes "MD5") ≡ some md5
unfolding algorithm_named text_eq
upper_case = refl
