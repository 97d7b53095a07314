-- ===== src/ManifestEngine/Commits.antt =====
-- include/evolving_disk_state_old/manifest_engine.hpp: a crash loses what was written since the last
-- commit, and nothing else.
use wedding_cake_cpp.Base.{
  ℕ, ◌+◌, ◌-◌, ◌≤◌, ◌≡◌, refl, ap, sym, ◌∙◌, List, [], ◌∷◌, ◌++◌, append_assoc, append-nil, some,
  arith, length, length-append, All, All-of-append,
}
use wedding_cake_cpp.FileStream.{IsAt, opened}
use wedding_cake_cpp.ManifestEngine.{
  Lengths, Directory, Recovery, record_microstep_declaration, commit_work_slice, recover_records,
  nothing_recovered, committed_lengths, recover_state_directory, truncate_all,
}
use wedding_cake_cpp.ManifestEngine.Crash.{
  Record, declared, committed, record_bytes, log_of, IsRecord, apply, run, Torn, nothing,
  record_bytes_pos, recover_records-log, recover_records-Torn,
}

-- The log after some calls of the two operations.
abbrev pub write_record : List ℕ → Record → List ℕ
write_record log (declared filename offset) = record_microstep_declaration log filename offset
write_record log (committed slice_id) = commit_work_slice log slice_id

abbrev pub write_all : List ℕ → List Record → List ℕ
write_all log [] = log
write_all log (x ∷ rs) = write_all (write_record log x) rs

write_record-bytes : (log : List ℕ) (x : Record) → write_record log x ≡ log ++ record_bytes x
unfolding record_microstep_declaration commit_work_slice
write_record-bytes log (declared filename offset) = refl
write_record-bytes log (committed slice_id) = refl

write_all-log : (log : List ℕ) (rs : List Record) → write_all log rs ≡ log ++ log_of rs
write_all-log log [] = sym (append-nil log)
write_all-log log (x ∷ rs) =
    write_all-log (write_record log x) rs
    ∙ (ap (λ (t : List ℕ). t ++ log_of rs) (write_record-bytes log x)
        ∙ append_assoc log (record_bytes x) (log_of rs))

length-log_of : (rs : List Record) → length rs ≤ length (log_of rs)
length-log_of [] = omega arith
length-log_of (x ∷ rs) =
    omega (arith, length-append (record_bytes x) (log_of rs), record_bytes_pos x, length-log_of rs)

-- What is read back is what the records mean.
pub committed_lengths-run :
    (rs : List Record) (tail : List ℕ)
    → All IsRecord rs
    → Torn tail
    → committed_lengths (write_all [] rs ++ tail)
      ≡ (run nothing_recovered rs).last_committed_lengths
unfolding committed_lengths
committed_lengths-run rs tail v torn =
    let log = log_of rs ++ tail in
    let same : write_all [] rs ++ tail ≡ log =
      ap (λ (t : List ℕ). t ++ tail) (write_all-log [] rs) in
    let k = length log - length rs in
    let fuel : length log ≡ length rs + k =
      omega (arith, length-append (log_of rs) tail, length-log_of rs) in
    let start : IsAt (opened log) log = record { no_eof = refl; no_fail = refl; rest = refl } in
    let (file', e, at) = recover_records-log rs k (opened log) tail nothing_recovered v start in
    ap
      (λ (t : List ℕ).
        (recover_records (length t) (opened t) nothing_recovered).last_committed_lengths)
      same
    ∙ (ap (λ (n : ℕ). (recover_records n (opened log) nothing_recovered).last_committed_lengths)
          fuel
        ∙ (ap (λ (r : Recovery). r.last_committed_lengths) e
            ∙ recover_records-Torn k file' tail (run nothing_recovered rs) torn at))

run-append : (r : Recovery) (xs ys : List Record) → run r (xs ++ ys) ≡ run (run r xs) ys
run-append r [] ys = refl
run-append r (x ∷ xs) ys = run-append (apply r x) xs ys

abbrev pub IsDeclared : Record → Type 0
IsDeclared (declared filename offset) = Unit
IsDeclared (committed slice_id) = ⊥

-- Declarations alone commit nothing.
run-declared :
    (r : Recovery) (xs : List Record)
    → All IsDeclared xs
    → (run r xs).last_committed_lengths ≡ r.last_committed_lengths
run-declared r [] d = refl
run-declared r (declared filename offset ∷ xs) d =
    run-declared (apply r (declared filename offset)) xs d.1
run-declared r (committed slice_id ∷ xs) d = absurd d.0

-- For a log that the two writing operations made, of names below 256 bytes and offsets of 64
-- bits, what follows some records, namely declarations and then a record that was cut off, a
-- declaration that lacks bytes or a commit that lacks bytes of its magic number, changes nothing
-- of the recovery: the directory comes out as it does from those records alone.
pub recover_state_directory-Torn :
    (rs later : List Record) (tail : List ℕ) (dir : Directory)
    → All IsRecord (rs ++ later)
    → All IsDeclared later
    → Torn tail
    → recover_state_directory (some (write_all [] (rs ++ later) ++ tail)) dir
      ≡ recover_state_directory (some (write_all [] rs)) dir
unfolding recover_state_directory
recover_state_directory-Torn rs later tail dir v d torn =
    let (v_rs, v_later) = All-of-append IsRecord rs later v in
    let whole = committed_lengths-run (rs ++ later) tail v torn in
    let kept = committed_lengths-run rs [] v_rs nothing in
    let same : (run nothing_recovered (rs ++ later)).last_committed_lengths
        ≡ (run nothing_recovered rs).last_committed_lengths =
      ap (λ (r : Recovery). r.last_committed_lengths) (run-append nothing_recovered rs later)
      ∙ run-declared (run nothing_recovered rs) later d in
    ap (λ (t : Lengths). truncate_all t dir)
      (whole
        ∙ (same
            ∙ (sym kept ∙ ap (λ (t : List ℕ). committed_lengths t) (append-nil (write_all [] rs)))))
