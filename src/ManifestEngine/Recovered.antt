-- ===== src/ManifestEngine/Recovered.antt =====
-- include/evolving_disk_state_old/manifest_engine.hpp: what a file of the state directory is after
-- the recovery, told for one file at a time.
use wedding_cake_cpp.Base.{
  ℕ, ◌-◌, ◌≡◌, refl, ap, sym, ◌∙◌, List, [], ◌∷◌, ◌++◌, Option, none, some, arith, length, take,
  replicate, All, list_eq, list_Eq, nat_Eq, if◌then◌else◌, Bool-cases, Option-cases, inl, inr,
  list_eq→eq, zero, suc, take_all, length-replicate,
}
use wedding_cake_cpp.Base.Dict.{lookup, assign, lookup-assign, HasOneEach, assign-HasOneEach}
use wedding_cake_cpp.ManifestEngine.{
  FileName, Lengths, Directory, Recovery, commit_all, nothing_recovered, committed_lengths,
  recover_state_directory, truncate_all, resize, resize_file,
}
use wedding_cake_cpp.ManifestEngine.Crash.{Record, declared, committed, IsRecord, apply, run, Torn}
use wedding_cake_cpp.ManifestEngine.Commits.{write_all, committed_lengths-run}

abbrev first_of : Option ℕ → Option ℕ → Option ℕ
first_of none other = other
first_of (some size) other = some size

-- The committed length of one file: at each commit, the length that its last declaration gave, if
-- there was one. `pending` is that of the last declaration so far, `kept` that of the last commit.
abbrev pub length_after : FileName → Option ℕ → Option ℕ → List Record → Option ℕ
length_after name pending kept [] = kept
length_after name pending kept (declared filename offset ∷ rs) =
    length_after name (if list_eq filename name then some offset else pending) kept rs
length_after name pending kept (committed slice_id ∷ rs) =
    length_after name pending (first_of pending kept) rs

-- The file's bytes up to its committed length, with zeros for what is missing; all of them when no
-- length of it was committed.
abbrev pub cut_to : Option ℕ → List ℕ → List ℕ
cut_to none bytes = bytes
cut_to (some size) bytes = take size bytes ++ replicate (size - length bytes) 0

lookup-commit_all :
    (name : FileName) (pending kept : Lengths)
    → HasOneEach pending
    → lookup name (commit_all pending kept) ≡ first_of (lookup name pending) (lookup name kept)
unfolding commit_all lookup
lookup-commit_all name [] kept h = refl
lookup-commit_all name ((fname, size) ∷ pending) kept (absent, h) =
    let rest = lookup-commit_all name pending (assign fname size kept) h in
    let over = lookup-assign fname name size kept in
    elim (Bool-cases (list_eq fname name)) [
      | inl same ↦
          let none_left : lookup name pending ≡ none = rw (list_eq→eq fname name same) at absent in
          rw same (rw none_left at rest ∙ (over ∙ rw same refl))
      | inr other ↦
          let kept_on : lookup name (assign fname size kept) ≡ lookup name kept =
            over ∙ rw other refl in
          rw other (rest ∙ ap (first_of (lookup name pending)) kept_on)
    ]

commit_all-HasOneEach :
    (pending kept : Lengths) → HasOneEach kept → HasOneEach (commit_all pending kept)
unfolding commit_all
commit_all-HasOneEach [] kept h = h
commit_all-HasOneEach ((fname, size) ∷ pending) kept h =
    commit_all-HasOneEach pending (assign fname size kept) (assign-HasOneEach fname size kept h)

-- What the records mean for all files is what they mean for each.
lookup-run :
    (name : FileName) (r : Recovery) (rs : List Record)
    → HasOneEach r.pending_lengths
    → lookup name (run r rs).last_committed_lengths
      ≡ length_after name (lookup name r.pending_lengths) (lookup name r.last_committed_lengths) rs
lookup-run name r [] h = refl
lookup-run name r (declared filename offset ∷ rs) h =
    lookup-run name (apply r (declared filename offset)) rs
      (assign-HasOneEach filename offset r.pending_lengths h)
    ∙ ap (λ (p : Option ℕ). length_after name p (lookup name r.last_committed_lengths) rs)
        (lookup-assign filename name offset r.pending_lengths)
lookup-run name r (committed slice_id ∷ rs) h =
    lookup-run name (apply r (committed slice_id)) rs h
    ∙ ap (λ (k : Option ℕ). length_after name (lookup name r.pending_lengths) k rs)
        (lookup-commit_all name r.pending_lengths r.last_committed_lengths h)

run-HasOneEach :
    (r : Recovery) (rs : List Record)
    → HasOneEach r.last_committed_lengths
    → HasOneEach (run r rs).last_committed_lengths
run-HasOneEach r [] h = h
run-HasOneEach r (declared filename offset ∷ rs) h =
    run-HasOneEach (apply r (declared filename offset)) rs h
run-HasOneEach r (committed slice_id ∷ rs) h =
    run-HasOneEach (apply r (committed slice_id)) rs
      (commit_all-HasOneEach r.pending_lengths r.last_committed_lengths h)

resize-cut_to : (size : ℕ) (bytes : List ℕ) → resize size bytes ≡ cut_to (some size) bytes
resize-cut_to zero [] = refl
resize-cut_to zero (x ∷ bytes) =
    let none_missing : 0 - suc (length bytes) ≡ 0 = omega arith in rw none_missing refl
resize-cut_to (suc size) [] =
    let zeros : List ℕ = replicate (suc size - 0) 0 in
    take_all (suc size) zeros (omega (arith, length-replicate {A = ℕ} (suc size - 0) 0))
resize-cut_to (suc size) (x ∷ bytes) =
    let missing : suc size - suc (length bytes) ≡ size - length bytes = omega arith in
    rw missing (ap (◌∷◌ x) (resize-cut_to size bytes))

-- The bytes of a file after its cut, if there is such a file.
abbrev cut_file : Option ℕ → Option (List ℕ) → Option (List ℕ)
cut_file size none = none
cut_file size (some bytes) = some (cut_to size bytes)

cut_file-none : (file : Option (List ℕ)) → cut_file none file ≡ file
cut_file-none none = refl
cut_file-none (some bytes) = refl

lookup-resize_file :
    (name fname : FileName) (size : ℕ) (dir : Directory)
    → lookup name (resize_file fname size dir)
      ≡ (if list_eq fname name then cut_file (some size) (lookup name dir) else lookup name dir)
lookup-resize_file name fname size dir = elim (Option-cases (lookup fname dir)) [
  | inl absent ↦
      rw (absent, resize_file)
        (elim (Bool-cases (list_eq fname name)) [
          | inl same ↦
              let absent' : lookup name dir ≡ none = rw (list_eq→eq fname name same) at absent in
              rw (same, absent') refl
          | inr other ↦ rw other refl
        ])
  | inr (bytes, found) ↦
      rw (found, resize_file)
        (lookup-assign fname name (resize size bytes) dir ∙ elim (Bool-cases (list_eq fname name)) [
          | inl same ↦
              let found' : lookup name dir ≡ some bytes =
                rw (list_eq→eq fname name same) at found in
              rw (same, found') (ap (λ (b : List ℕ). some b) (resize-cut_to size bytes))
          | inr other ↦ rw other refl
        ])
]

lookup-truncate_all :
    (name : FileName) (lengths : Lengths) (dir : Directory)
    → HasOneEach lengths
    → lookup name (truncate_all lengths dir) ≡ cut_file (lookup name lengths) (lookup name dir)
unfolding truncate_all lookup
lookup-truncate_all name [] dir h = sym (cut_file-none (lookup name dir))
lookup-truncate_all name ((fname, size) ∷ lengths) dir (absent, h) =
    let rest = lookup-truncate_all name lengths (resize_file fname size dir) h in
    let cut = lookup-resize_file name fname size dir in
    elim (Bool-cases (list_eq fname name)) [
      | inl same ↦
          let none_left : lookup name lengths ≡ none = rw (list_eq→eq fname name same) at absent in
          rw same (
            rw none_left at rest
            ∙ (cut_file-none (lookup name (resize_file fname size dir)) ∙ (cut ∙ rw same refl)))
      | inr other ↦ rw other (rest ∙ ap (cut_file (lookup name lengths)) (cut ∙ rw other refl))
    ]

-- From a log that the two writing operations made, of names below 256 bytes and offsets of 64
-- bits, with a record behind it that was cut off, each file of the directory comes out with the
-- length that its last declaration before the last commit after it gave: cut there, or extended
-- by zeros. A file without a committed declaration keeps its bytes.
pub recover_state_directory-lookup :
    (name : FileName) (rs : List Record) (tail : List ℕ) (dir : Directory) (bytes : List ℕ)
    → All IsRecord rs
    → Torn tail
    → lookup name dir ≡ some bytes
    → lookup name (recover_state_directory (some (write_all [] rs ++ tail)) dir)
      ≡ some (cut_to (length_after name none none rs) bytes)
unfolding recover_state_directory lookup
recover_state_directory-lookup name rs tail dir bytes v torn found =
    let sizes = committed_lengths (write_all [] rs ++ tail) in
    let meant = committed_lengths-run rs tail v torn in
    let once : HasOneEach sizes = rw meant (run-HasOneEach nothing_recovered rs tt) in
    let size =
      ap (λ (m : Lengths). lookup name m) meant ∙ lookup-run name nothing_recovered rs tt in
    lookup-truncate_all name sizes dir once ∙ rw (size, found) refl
