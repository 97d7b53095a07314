-- ===== src/ManifestEngine/Crash.antt =====
-- include/evolving_disk_state_old/manifest_engine.hpp: what is recovered from a log that was written
-- record by record and ends in the middle of one.
use wedding_cake_cpp.Base.{
  ℕ, zero, suc, ◌+◌, ◌-◌, ◌<◌, ◌≤◌, ◌^◌, ◌%◌, ◌≡◌, refl, ap, ◌∙◌, List, [], ◌∷◌, ◌++◌, append_assoc,
  append-nil, true, false, some, nat_eq, list_Eq, nat_Eq, arith, length, length-append, length-take,
  length-drop, take-append-drop, ltb→lt, take, take_all, drop, All, Bool-cases, inl, inr, ltb,
}
use native.Mathlib.Nat.{pow-le-pow_right, mod-eq_of_lt}
use wedding_cake_cpp.Base.Bytes.{IsByte, to_le, from_le, from_le-to_le, length-to_le, from_le-lt}
use wedding_cake_cpp.Base.Dict.{assign}
use wedding_cake_cpp.FileStream.{
  InStream, IsAt, peek_eof-more, peek_eof-end, read, read-IsAt, read-short, read-failed,
  peek_eof-failed,
}
use wedding_cake_cpp.ManifestEngine.{
  FileName, Recovery, rec_declaration, rec_commit, commit_magic, declaration_bytes, commit_bytes,
  commit_all, recover_declaration, recover_commit, recover_record, recover_records,
}

-- What the two writing operations append.
pub data Record : Type 0 where
  declared : FileName → ℕ → Record
  committed : ℕ → Record

abbrev pub record_bytes : Record → List ℕ
record_bytes (declared filename offset) = declaration_bytes filename offset
record_bytes (committed slice_id) = commit_bytes slice_id

abbrev pub log_of : List Record → List ℕ
log_of [] = []
log_of (r ∷ rs) = record_bytes r ++ log_of rs

-- The length of a name fits a byte, and an offset 64 bits.
abbrev pub IsRecord : Record → Type 0
IsRecord (declared filename offset) = (length filename < 256) × (offset < 256 ^ 8)
IsRecord (committed slice_id) = Unit

-- What the records mean.
abbrev pub apply : Recovery → Record → Recovery
apply r (declared filename offset) = record r {
  pending_lengths = assign filename offset r.pending_lengths;
}
apply r (committed slice_id) = record r {
  last_committed_lengths = commit_all r.pending_lengths r.last_committed_lengths;
}

abbrev pub run : Recovery → List Record → Recovery
run r [] = r
run r (x ∷ rs) = run (apply r x) rs

one_byte : (b : ℕ) → from_le (b ∷ []) ≡ b
unfolding from_le
one_byte b = omega arith

-- The type of the next record.
recover_record-type :
    (file : InStream) (b : ℕ) (ahead : List ℕ)
    → IsAt file (b ∷ ahead)
    → (from_le (read 1 file).0 ≡ b) × (length (read 1 file).0 ≡ 1) × IsAt (read 1 file).1 ahead
recover_record-type file b ahead at =
    let (got, at', x, y) = read-IsAt 1 file (b ∷ []) ahead at refl in
    (ap from_le got ∙ one_byte b, ap (λ (t : List ℕ). length t) got, at')

recover_declaration-IsAt :
    (file : InStream) (filename : FileName) (offset : ℕ) (rest : List ℕ) (r : Recovery)
    → length filename < 256
    → offset < 256 ^ 8
    → IsAt file (length filename ∷ (filename ++ (to_le 8 offset ++ rest)))
    → (file' : InStream) × (recover_declaration file r
        ≡ (file', apply r (declared filename offset)))
      × IsAt file' rest
unfolding recover_declaration
recover_declaration-IsAt file filename offset rest r small fits at =
    let n = length filename in
    let tail = to_le 8 offset ++ rest in
    let (len, one, at1) = recover_record-type file n (filename ++ tail) at in
    let file1 = (read 1 file).1 in
    let (name, at2, b, p) = read-IsAt n file1 filename tail at1 refl in
    let (size, at3, b', p') =
      read-IsAt 8 (read n file1).1 (to_le 8 offset) rest at2 (length-to_le 8 offset) in
    let none_left : n - n ≡ 0 = omega arith in
    (
      (read 8 (read n file1).1).1,
      rw (len, name, size, from_le-to_le 8 offset fits, none_left) (rw (append-nil filename) refl),
      at3,
    )

recover_record-IsAt :
    (file : InStream) (x : Record) (rest : List ℕ) (r : Recovery)
    → IsRecord x
    → IsAt file (record_bytes x ++ rest)
    → (file' : InStream) × (recover_record file r ≡ some (file', apply r x)) × IsAt file' rest
unfolding recover_record declaration_bytes commit_bytes recover_commit
recover_record-IsAt file (declared filename offset) rest r (small, fits) at =
    let n = length filename in
    let len : n % 256 ≡ n = mod-eq_of_lt small in
    let all : take n filename ≡ filename = take_all n filename (omega arith) in
    let tail = to_le 8 offset ++ rest in
    let at' : IsAt file (rec_declaration ∷ n ∷ (filename ++ tail)) =
      rw (len, all, append_assoc filename (to_le 8 offset) rest) at at in
    let (type, one, at1) = recover_record-type file rec_declaration (n ∷ (filename ++ tail)) at' in
    let (file', e, at2) =
      recover_declaration-IsAt (read 1 file).1 filename offset rest r small fits at1 in
    (file', rw (one, type, e) refl, at2)
recover_record-IsAt file (committed slice_id) rest r v at =
    let tail = to_le 4 slice_id ++ rest in
    let at' : IsAt file (rec_commit ∷ (to_le 4 commit_magic ++ tail)) =
      rw (append_assoc (to_le 4 commit_magic) (to_le 4 slice_id) rest) at at in
    let (type, one, at1) = recover_record-type file rec_commit (to_le 4 commit_magic ++ tail) at' in
    let file1 = (read 1 file).1 in
    let (magic, at2, b, p) =
      read-IsAt 4 file1 (to_le 4 commit_magic) tail at1 (length-to_le 4 commit_magic) in
    let (slice, at3, b', p') =
      read-IsAt 4 (read 4 file1).1 (to_le 4 slice_id) rest at2 (length-to_le 4 slice_id) in
    (
      (read 4 (read 4 file1).1).1,
      rw (one, type, magic, from_le-to_le 4 commit_magic (omega arith)) refl,
      at3,
    )

-- A record that was not written to its end: a declaration that lacks a byte, or a commit that lacks
-- a byte of its magic number.
abbrev pub IsCutDeclaration : List ℕ → Type 0
IsCutDeclaration [] = Unit
IsCutDeclaration (len ∷ bytes) = length bytes < len + 8

pub data Torn : List ℕ → Type 0 where
  nothing : Torn []
  cut_declaration : (bytes : List ℕ) → IsCutDeclaration bytes → Torn (rec_declaration ∷ bytes)
  cut_commit : (bytes : List ℕ) → length bytes < 4 → All IsByte bytes → Torn (rec_commit ∷ bytes)

pub record_bytes_pos : (x : Record) → 0 < length (record_bytes x)
unfolding declaration_bytes commit_bytes
record_bytes_pos (declared filename offset) = omega arith
record_bytes_pos (committed slice_id) = omega arith

-- One round for each record.
pub recover_records-log :
    (rs : List Record) (k : ℕ) (file : InStream) (tail : List ℕ) (r : Recovery)
    → All IsRecord rs
    → IsAt file (log_of rs ++ tail)
    → (file' : InStream) × (recover_records (length rs + k) file r
        ≡ recover_records k file' (run r rs))
      × IsAt file' tail
unfolding recover_records
recover_records-log [] k file tail r v at =
    let z : 0 + k ≡ k = omega arith in (file, ap (λ (t : ℕ). recover_records t file r) z, at)
recover_records-log (x ∷ rs) k file tail r (vx, v) at =
    let rest = log_of rs ++ tail in
    let at' : IsAt file (record_bytes x ++ rest) =
      rw (append_assoc (record_bytes x) (log_of rs) tail) at at in
    let more =
      peek_eof-more file (record_bytes x ++ rest) at'
        (omega (arith, length-append (record_bytes x) rest, record_bytes_pos x)) in
    let (file1, e, at1) = recover_record-IsAt file x rest r vx at' in
    let (file', again, at2) = recover_records-log rs k file1 tail (apply r x) v at1 in
    let n : suc (length rs) + k ≡ suc (length rs + k) = omega arith in
    (file', rw n (rw (more, e) again), at2)

-- A stream that has failed ends the loop.
recover_records-failed :
    (k : ℕ) (file : InStream) (r : Recovery) → file.failbit ≡ true → recover_records k file r ≡ r
unfolding recover_records
recover_records-failed zero file r h = refl
recover_records-failed (suc k) file r h = rw (peek_eof-failed file h) refl

recover_declaration-cut :
    (file : InStream) (bytes : List ℕ) (r : Recovery)
    → IsCutDeclaration bytes
    → IsAt file bytes
    → (recover_declaration file r).0.failbit ≡ true
unfolding recover_declaration
recover_declaration-cut file [] r cut at =
    let (got, fail) = read-short 1 file [] at (omega arith) in
    let n = from_le (read 1 file).0 in
    (read-failed 8 (read n (read 1 file).1).1 (read-failed n (read 1 file).1 fail).1).1
recover_declaration-cut file (len ∷ bytes) r cut at =
    let (value, one, at1) = recover_record-type file len bytes at in
    let file1 = (read 1 file).1 in
    elim (Bool-cases (ltb (length bytes) len)) [
      | inl short ↦
          let (got, fail) = read-short len file1 bytes at1 (ltb→lt (length bytes) len short) in
          rw value (read-failed 8 (read len file1).1 fail).1
      | inr enough ↦
          let front = take len bytes in
          let back = drop len bytes in
          let front_len : length front ≡ len = ground (arith, length-take len bytes) in
          let at1' : IsAt file1 (front ++ back) = rw (take-append-drop len bytes) at1 in
          let (got, at2, b, p) = read-IsAt len file1 front back at1' front_len in
          let (got', fail) =
            read-short 8 (read len file1).1 back at2 (omega (arith, length-drop len bytes)) in
          rw value fail
    ]

recover_commit-cut :
    (file : InStream) (bytes : List ℕ) (r : Recovery)
    → length bytes < 4
    → All IsByte bytes
    → IsAt file bytes
    → ((recover_commit file r).0.failbit ≡ true) × ((recover_commit file r).1 ≡ r)
unfolding recover_commit
recover_commit-cut file bytes r short values at =
    let (got, fail) = read-short 4 file bytes at short in
    let below = from_le-lt bytes values in
    let few : length bytes ≤ 3 = omega arith in
    let room : 256 ^ length bytes ≤ 256 ^ 3 = pow-le-pow_right {n = 256} (omega arith) few in
    let other : nat_eq (from_le bytes) commit_magic ≡ false = ground (arith, below, room) in
    ((read-failed 4 (read 4 file).1 fail).1, rw (got, other) refl)

recover_declaration-committed :
    (file : InStream) (r : Recovery)
    → (recover_declaration file r).1.last_committed_lengths ≡ r.last_committed_lengths
unfolding recover_declaration
recover_declaration-committed file r = refl

-- A record that is cut off commits nothing.
pub recover_records-Torn :
    (k : ℕ) (file : InStream) (tail : List ℕ) (r : Recovery)
    → Torn tail
    → IsAt file tail
    → (recover_records k file r).last_committed_lengths ≡ r.last_committed_lengths
unfolding recover_records recover_record
recover_records-Torn zero file tail r t at = refl
recover_records-Torn (suc k) file _ r nothing at = rw (peek_eof-end file at) refl
recover_records-Torn (suc k) file _ r (cut_declaration bytes cut) at =
    let more = peek_eof-more file (rec_declaration ∷ bytes) at (omega arith) in
    let (type, one, at1) = recover_record-type file rec_declaration bytes at in
    let out = recover_declaration (read 1 file).1 r in
    let fail = recover_declaration-cut (read 1 file).1 bytes r cut at1 in
    let stop = recover_records-failed k out.0 out.1 fail in
    let same : out.1.last_committed_lengths ≡ r.last_committed_lengths =
      recover_declaration-committed (read 1 file).1 r in
    rw (more, one, type) (ap (λ (s : Recovery). s.last_committed_lengths) stop ∙ same)
recover_records-Torn (suc k) file _ r (cut_commit bytes short values) at =
    let more = peek_eof-more file (rec_commit ∷ bytes) at (omega arith) in
    let (type, one, at1) = recover_record-type file rec_commit bytes at in
    let out = recover_commit (read 1 file).1 r in
    let (fail, same) = recover_commit-cut (read 1 file).1 bytes r short values at1 in
    let stop = recover_records-failed k out.0 out.1 fail in
    rw (more, one, type) (ap (λ (s : Recovery). s.last_committed_lengths) (stop ∙ same))
