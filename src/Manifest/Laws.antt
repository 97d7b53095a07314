-- ===== src/Manifest/Laws.antt =====
-- The manifest's record of each file agrees with the folder, whatever is done with it.
use wedding_cake_cpp.Base.{ℕ, ◌≡◌, List, false, some, nat_Eq, string_Eq, ok}
use wedding_cake_cpp.Base.Dict.{lookup}
use wedding_cake_cpp.Manifest.{Manifest, FilePath, append_bytes, append_to_file}

pub append_to_file_open :
    (m : Manifest) (handle : ℕ) (rel_path : FilePath) (bytes : List ℕ)
    → m.finished_sealed ≡ false
    → lookup handle m.open_files_by_handle ≡ some rel_path
    → append_to_file m (some handle) bytes ≡ ok (append_bytes m handle rel_path bytes)
unfolding append_to_file
append_to_file_open m handle rel_path bytes unsealed opened = simp (unsealed, opened)
