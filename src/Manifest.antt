-- ===== src/Manifest.antt =====
-- libs/evolving_disk_state/include/files_manifest/dummy_implementation.hpp: FilesManifestDummy, the
-- append-only files of one folder. `folder` stands for the regular files under base_path_, by
-- relative path, as they are after a flush; a stream in `open_files_by_handle` is the path that it
-- appends to. InvalidFileHandle (-1) is `none`.
pub mod Laws
use Prim.Native.String.{String}
use wedding_cake_cpp.Base.{
  ℕ, ◌+◌, ◌≡◌, refl, List, [], ◌∷◌, ◌++◌, Bool, true, false, not, Option, none, some, if◌then◌else◌,
  length, Eq, nat_Eq, string_Eq, Result, ok, err, runtime_error, assertion_failed, guard, ◌>>=◌,
  ◌>>◌, arith,
}
use wedding_cake_cpp.Base.Dict
use wedding_cake_cpp.Base.Dict.{lookup, contains, assign, erase}
use mathlib.Core.Option

abbrev pub FilePath : Type 0
FilePath = String

abbrev pub Folder : Type 0
Folder = List (FilePath × List ℕ)

abbrev pub FileHandle : Type 0
FileHandle = Option ℕ

pub record Manifest : Type 0 where
  pub folder : Folder
  pub next_file_handle : ℕ
  pub finished_sealed : Bool
  pub file_handles_by_rel_path : List (FilePath × ℕ)
  pub rel_paths_by_handle : List (ℕ × FilePath)
  pub file_sizes_by_handle : List (ℕ × ℕ)
  pub open_files_by_handle : List (ℕ × FilePath)

-- One round of the constructor's second loop.
unfoldable pub register_file : Manifest → FilePath × List ℕ → Manifest
register_file m (rel_path, bytes) =
    let handle = m.next_file_handle in
    record m {
      next_file_handle = handle + 1;
      file_handles_by_rel_path = assign rel_path handle m.file_handles_by_rel_path;
      rel_paths_by_handle = assign handle rel_path m.rel_paths_by_handle;
      file_sizes_by_handle = assign handle (length bytes) m.file_sizes_by_handle;
    }

unfoldable pub register_files : Manifest → Folder → Manifest
register_files m [] = m
register_files m (file ∷ files) = register_files (register_file m file) files

abbrev pub unregistered : Folder → Manifest
unregistered folder = record {
  folder = folder;
  next_file_handle = 0;
  finished_sealed = false;
  file_handles_by_rel_path = [];
  rel_paths_by_handle = [];
  file_sizes_by_handle = [];
  open_files_by_handle = [];
}

-- The constructor, over the folder's files in the order of the directory iterator; `none` is a
-- base_path that does not exist or is no directory.
unfoldable pub new_manifest : Option Folder → Result Manifest
unfolding register_files
new_manifest none = err runtime_error
new_manifest (some folder) = ok (register_files (unregistered folder) folder)

unfoldable pub is_started : Manifest → Bool
is_started m = true

unfoldable pub is_finished_sealed : Manifest → Bool
is_finished_sealed m = m.finished_sealed

unfoldable pub create_new_file : Manifest → FilePath → Result (Manifest × FileHandle)
create_new_file m relative_path = do
  guard (not m.finished_sealed) assertion_failed
  guard (not (contains relative_path m.folder)) runtime_error
  let handle = m.next_file_handle
  ok (
    record m {
      folder = assign relative_path [] m.folder;
      next_file_handle = handle + 1;
      file_handles_by_rel_path = assign relative_path handle m.file_handles_by_rel_path;
      rel_paths_by_handle = assign handle relative_path m.rel_paths_by_handle;
      file_sizes_by_handle = assign handle 0 m.file_sizes_by_handle;
      open_files_by_handle = assign handle relative_path m.open_files_by_handle;
    },
    some handle,
  )

unfoldable pub get_file_handle : Manifest → FilePath → FileHandle
get_file_handle m relative_path = lookup relative_path m.file_handles_by_rel_path

unfoldable pub get_file_size : Manifest → FileHandle → Result ℕ
get_file_size m none = err runtime_error
get_file_size m (some handle) = elim (lookup handle m.file_sizes_by_handle) [
  | none ↦ err runtime_error
  | some size ↦ ok size
]

-- `rel_paths_by_handle_[handle]` would make an empty path for an unknown handle.
unfoldable pub open_file : Manifest → FileHandle → Result Manifest
open_file m none = err runtime_error
open_file m (some handle) = do
  guard (not (contains handle m.open_files_by_handle)) runtime_error
  guard (contains handle m.file_sizes_by_handle) runtime_error
  let rel_path = Option.get_or (lookup handle m.rel_paths_by_handle) ""
  ok (record m { open_files_by_handle = assign handle rel_path m.open_files_by_handle })

-- The write goes to the path of the open stream.
abbrev pub append_bytes : Manifest → ℕ → FilePath → List ℕ → Manifest
append_bytes m handle rel_path bytes = record m {
  folder = assign rel_path (Option.get_or (lookup rel_path m.folder) [] ++ bytes) m.folder;
  file_sizes_by_handle =
      assign handle (Option.get_or (lookup handle m.file_sizes_by_handle) 0 + length bytes)
        m.file_sizes_by_handle;
}

unfoldable pub append_to_file : Manifest → FileHandle → List ℕ → Result Manifest
append_to_file m none bytes = do guard (not m.finished_sealed) assertion_failed; err runtime_error
append_to_file m (some handle) bytes = do
  guard (not m.finished_sealed) assertion_failed
  elim (lookup handle m.open_files_by_handle) [
    | none ↦ err runtime_error
    | some rel_path ↦ ok (append_bytes m handle rel_path bytes)
  ]

unfoldable pub close_file : Manifest → FileHandle → Manifest
close_file m none = m
close_file m (some handle) = record m { open_files_by_handle = erase handle m.open_files_by_handle }

unfoldable pub commit : Manifest → Manifest
commit m = m

-- The files of `folder` are as after a flush already.
unfoldable pub flush : Manifest → Manifest
flush m = m

unfoldable pub finish_and_seal : Manifest → Manifest
unfolding flush
finish_and_seal m = record (flush m) { open_files_by_handle = []; finished_sealed = true }
