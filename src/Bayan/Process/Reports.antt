-- ===== src/Bayan/Process/Reports.antt =====
-- A whole run of `process_files` of HW_8/lib/bayan.cpp: the scan and the search together.
use cplus_plus_developer_pro.Prelude.{
  ℕ, ◌≡◌, ◌<◌, true, Option, some, List, [], ◌∷◌, if◌then◌else◌, is_empty, arith,
}
use cplus_plus_developer_pro.Prelude.Text.{Text, bytes}
use cplus_plus_developer_pro.Bayan.{Reader, FileInfo}
use cplus_plus_developer_pro.Bayan.Hashing.{text_of}
use cplus_plus_developer_pro.Bayan.Scanner.{FileSystem, all_compile, scanner, scan_directories}
use cplus_plus_developer_pro.Bayan.Scanner.Fresh.{scan_directories-Fresh}
use cplus_plus_developer_pro.Bayan.Duplicates.{Sound, Complete, find_duplicates_lem}
use cplus_plus_developer_pro.Bayan.Process.{
  Options, scanner_of, compute_hash, success, report, process_files,
}

-- When the block size is not 0, the masks become regexes that compile, the scan ends and everything can
-- be opened, the run succeeds. It prints that no files were found, or the groups of all duplicates
-- among the files of the scan: in each group the files have one size and give one text of block
-- hashes, and were found by the scan; and two files of the scan with different paths, of one size and
-- with the same hash for each block are in a group together.
pub process_files_lem :
    (fs : FileSystem) (contents : Text → Option Text) (crc md : Text → Text) (fuel : ℕ)
    (o : Options) (files : List FileInfo)
    → 0 < o.block_size
    → ((p : Text) → contents p ≡ some (text_of (contents p)))
    → all_compile fs (scanner_of o).mask_regexes ≡ true
    → scan_directories fs (scanner_of o) fuel ≡ some files
    → let r : Reader = record {
      contents = contents;
      hash = compute_hash crc md o.hash_algorithm;
    } in
      (gs : List (List FileInfo)) × (process_files fs contents crc md fuel o
        ≡ some (
          success,
          if is_empty files then bytes "No files found matching the criteria." ∷ [] else report gs,
        ))
      × Sound r o.block_size files gs
      × Complete r o.block_size files gs
unfolding process_files scanner
process_files_lem fs contents crc md fuel o files nonzero readable compiled e =
    let r : Reader = record { contents = contents; hash = compute_hash crc md o.hash_algorithm } in
    let fresh = scan_directories-Fresh fs r readable (scanner_of o) fuel files e in
    let (gs, run, sound, complete) = find_duplicates_lem r o.block_size files fresh in
    (gs, rw (e, compiled, process_files) (ground (arith, run)), sound, complete)
