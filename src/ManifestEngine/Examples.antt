-- ===== src/ManifestEngine/Examples.antt =====
-- include/evolving_disk_state_old/manifest_engine.hpp: a slice is committed, and the program stops
-- while it writes the next declaration.
use wedding_cake_cpp.Base.{◌++◌, ℕ, ◌≡◌, refl, List, [], ◌∷◌, some, arith, list_Eq, nat_Eq}
use wedding_cake_cpp.Base.Bytes.{to_le, from_le}
use wedding_cake_cpp.Base.Dict.{lookup, assign}
use wedding_cake_cpp.FileStream.{peek_eof, read}
use wedding_cake_cpp.ManifestEngine.{
  FileName, Directory, committed_lengths, recover_state_directory, truncate_all, recover_records,
  recover_record, recover_declaration, recover_commit, commit_all, declaration_bytes, commit_bytes,
  record_microstep_declaration, commit_work_slice,
}
use wedding_cake_cpp.ManifestEngine.Crash.{Record, declared, committed, Torn, cut_declaration}
use wedding_cake_cpp.ManifestEngine.Commits.{write_all, recover_state_directory-Torn}
use wedding_cake_cpp.ManifestEngine.Recovered.{recover_state_directory-lookup}

abbrev data_file : FileName
data_file = 100 ∷ []

abbrev kept : List Record
kept = declared data_file 2 ∷ committed 0 ∷ []

abbrev lost : List Record
lost = declared data_file 4 ∷ []

-- The type and the length of a declaration, and no more.
abbrev cut : List ℕ
cut = 1 ∷ 1 ∷ []

cut-Torn : Torn cut
cut-Torn = cut_declaration (1 ∷ []) (omega arith)

abbrev dir : Directory
dir = (data_file, 7 ∷ 8 ∷ 9 ∷ []) ∷ []

-- The file is cut to the length that was committed.
recovered_lem :
    recover_state_directory (some (write_all [] kept)) dir ≡ (data_file, 7 ∷ 8 ∷ []) ∷ []
unfolding recover_state_directory truncate_all committed_lengths recover_records recover_record
    recover_declaration recover_commit commit_all declaration_bytes commit_bytes
    record_microstep_declaration commit_work_slice to_le from_le lookup assign peek_eof read
recovered_lem = refl

recover_state_directory-Torn_example :
    recover_state_directory (some (write_all [] (kept ++ lost) ++ cut)) dir
    ≡ recover_state_directory (some (write_all [] kept)) dir
recover_state_directory-Torn_example =
    recover_state_directory-Torn kept lost cut dir
      ((omega arith, omega arith), (tt, ((omega arith, omega arith), tt))) (tt, tt) cut-Torn

-- The length that was declared after the commit does not count.
recover_state_directory-lookup_example :
    lookup data_file (recover_state_directory (some (write_all [] (kept ++ lost) ++ cut)) dir)
    ≡ some (7 ∷ 8 ∷ [])
unfolding lookup
recover_state_directory-lookup_example =
    recover_state_directory-lookup data_file (kept ++ lost) cut dir (7 ∷ 8 ∷ 9 ∷ [])
      ((omega arith, omega arith), (tt, ((omega arith, omega arith), tt))) cut-Torn refl
