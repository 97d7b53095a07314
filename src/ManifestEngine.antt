-- ===== src/ManifestEngine.antt =====
-- include/evolving_disk_state_old/manifest_engine.hpp: the transaction log manifest.tx of a state
-- directory, and the recovery of the directory from it. A file name is the list of its bytes.
pub mod Crash
pub mod Commits
pub mod Recovered
mod Examples
use wedding_cake_cpp.Base.{
  ℕ, zero, suc, ◌+◌, ◌-◌, ◌%◌, List, [], ◌∷◌, ◌++◌, Bool, true, false, not, Option, none, some,
  if◌then◌else◌, nat_eq, list_Eq, nat_Eq, length, take, replicate,
}
use wedding_cake_cpp.Base.Bytes.{to_le, from_le}
use wedding_cake_cpp.Base.Dict.{lookup, assign}
use wedding_cake_cpp.FileStream.{InStream, opened, peek_eof, read}

abbrev pub FileName : Type 0
FileName = List ℕ

abbrev pub Lengths : Type 0
Lengths = List (FileName × ℕ)

abbrev pub rec_declaration : ℕ
rec_declaration = 1

abbrev pub rec_commit : ℕ
rec_commit = 2

-- "COMT"
abbrev pub commit_magic : ℕ
commit_magic = 0x434f4d54

-- The bytes of a declaration; the length of the name is a uint8_t.
unfoldable pub declaration_bytes : FileName → ℕ → List ℕ
declaration_bytes filename target_offset =
    let len = length filename % 256 in
    rec_declaration ∷ len ∷ (take len filename ++ to_le 8 target_offset)

unfoldable pub commit_bytes : ℕ → List ℕ
commit_bytes slice_id = rec_commit ∷ (to_le 4 commit_magic ++ to_le 4 slice_id)

-- The two operations that append to the log.
unfoldable pub record_microstep_declaration : List ℕ → FileName → ℕ → List ℕ
record_microstep_declaration log filename target_offset =
    log ++ declaration_bytes filename target_offset

unfoldable pub commit_work_slice : List ℕ → ℕ → List ℕ
commit_work_slice log slice_id = log ++ commit_bytes slice_id

-- The two maps of the recovery.
pub record Recovery : Type 0 where
  pub last_committed_lengths : Lengths
  pub pending_lengths : Lengths

-- The loop that copies the pending lengths.
unfoldable pub commit_all : Lengths → Lengths → Lengths
commit_all [] committed = committed
commit_all ((fname, size) ∷ pending) committed = commit_all pending (assign fname size committed)

-- What a read leaves in a buffer of zeros.
abbrev pub filled : ℕ → List ℕ → List ℕ
filled n bytes = bytes ++ replicate (n - length bytes) 0

unfoldable pub recover_declaration : InStream → Recovery → InStream × Recovery
recover_declaration file r =
    let (len_bytes, file1) = read 1 file in
    let len = from_le len_bytes in
    let (name_bytes, file2) = read len file1 in
    let (offset_bytes, file3) = read 8 file2 in
    (
      file3,
      record r {
        pending_lengths = assign (filled len name_bytes) (from_le offset_bytes) r.pending_lengths;
      },
    )

unfoldable pub recover_commit : InStream → Recovery → InStream × Recovery
recover_commit file r =
    let (magic_bytes, file1) = read 4 file in
    let (slice_bytes, file2) = read 4 file1 in
    (
      file2,
      if nat_eq (from_le magic_bytes) commit_magic
          then record r {
            last_committed_lengths = commit_all r.pending_lengths r.last_committed_lengths;
          }
          else r,
    )

-- One record, when there is a byte: its type, and then the rest. `none` is a break.
unfoldable pub recover_record : InStream → Recovery → Option (InStream × Recovery)
recover_record file r =
    let (type_bytes, file1) = read 1 file in
    let rec_type = from_le type_bytes in
    if nat_eq (length type_bytes) 1
    then (if nat_eq rec_type rec_declaration
        then some (recover_declaration file1 r)
        else (if nat_eq rec_type rec_commit then some (recover_commit file1 r) else none))
    else none

-- What follows a record, when `again` is the rest of the loop.
abbrev pub after_record :
    (InStream → Recovery → Recovery) → Recovery → Option (InStream × Recovery) → Recovery
after_record again r none = r
after_record again r (some (file, r')) = again file r'

-- The loop over the records. Each takes a byte, so that as many rounds as there are bytes are
-- enough.
unfoldable pub recover_records : ℕ → InStream → Recovery → Recovery
recover_records zero file r = r
recover_records (suc fuel) file r =
    let (at_end, file') = peek_eof file in
    let rest = after_record (λ f s. recover_records fuel f s) r (recover_record file' r) in
    if at_end then r else rest

abbrev pub nothing_recovered : Recovery
nothing_recovered = record { last_committed_lengths = []; pending_lengths = [] }

-- fs::resize_file: cut, or extended by zeros.
abbrev pub resize : ℕ → List ℕ → List ℕ
resize size bytes = take size (bytes ++ replicate (size - length bytes) 0)

-- A state directory: its files and their bytes.
abbrev pub Directory : Type 0
Directory = List (FileName × List ℕ)

abbrev pub resize_file : FileName → ℕ → Directory → Directory
resize_file fname size dir = elim (lookup fname dir) [
  | none ↦ dir
  | some bytes ↦ assign fname (resize size bytes) dir
]

unfoldable pub truncate_all : Lengths → Directory → Directory
truncate_all [] dir = dir
truncate_all ((fname, size) ∷ lengths) dir = truncate_all lengths (resize_file fname size dir)

-- The lengths that the log tells.
unfoldable pub committed_lengths : List ℕ → Lengths
committed_lengths tx_file =
    (recover_records (length tx_file) (opened tx_file) nothing_recovered).last_committed_lengths

-- `none` is a directory without manifest.tx.
unfoldable pub recover_state_directory : Option (List ℕ) → Directory → Directory
recover_state_directory none dir = dir
recover_state_directory (some tx_file) dir = truncate_all (committed_lengths tx_file) dir
