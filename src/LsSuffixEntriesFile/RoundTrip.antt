-- ===== src/LsSuffixEntriesFile/RoundTrip.antt =====
-- apps/wedding_cake/include/ls_suffix_entries_file.hpp: reading entries that were appended.
use wedding_cake_cpp.Base.{
  ℕ, zero, suc, ◌+◌, ◌-◌, ◌*◌, ◌%◌, ◌^◌, ◌<◌, ◌≤◌, ◌≡◌, refl, ap, sym, ◌∙◌, List, [], ◌∷◌, ◌++◌,
  append_assoc, append-nil, true, false, ltb, nat_eq, nat_eq_iff, lt→ltb, le→ltb, some, Result, ok,
  ◌>>=◌, arith, length, length-append, length-take, length-drop, get_elem?, get_elem?-lt, drop,
  drop-append_more, All, Bool-cases, inl, inr, bit_and,
}
use native.Mathlib.Nat.{mod-eq_of_lt, mod-mod, mul-le-mul_right}
use wedding_cake_cpp.Base.Bytes.{to_le, from_le, length-to_le, write_at}
use wedding_cake_cpp.Base.Bits.{bit_and-mask, from_le-to_le_mod}
use wedding_cake_cpp.Types.{LocalPi}
use wedding_cake_cpp.Hash.{subspan}
use wedding_cake_cpp.FileStream.{InStream, IsAt, seekg, read, read-IsAt}
use wedding_cake_cpp.LsSuffixEntriesFile.{
  Format, new_format, Entry, Writer, Reader, append, suffix_entry_bytes, pi_mask, seek_entry,
  is_unusable, ReadNext, read_local_pi, read_next,
}

-- A format that the constructor makes.
pub record IsFormat (f : Format) : Type 0 where
  pub some_pi : 1 ≤ f.local_pi_bytes_count
  pub pi_fits : f.local_pi_bytes_count ≤ 8
  pub suffix_fits : f.suffix_start_idx + f.ls_suffix_bytes_count ≡ f.hash_bytes_count
  pub entry_size : f.entry_bytes ≡ f.ls_suffix_bytes_count + f.local_pi_bytes_count

pub new_format-IsFormat :
    (hash_bytes pi_bytes prefix_bits : ℕ)
    → 1 ≤ pi_bytes
    → pi_bytes ≤ 8
    → prefix_bits < hash_bytes * 8
    → (f : Format) × (new_format hash_bytes pi_bytes prefix_bits ≡ ok f) × IsFormat f
unfolding new_format
new_format-IsFormat hash_bytes pi_bytes prefix_bits pos few below =
    let some_test : nat_eq pi_bytes 0 ≡ false = ground arith in
    rw (lt→ltb prefix_bits (hash_bytes * 8) below, some_test, le→ltb 8 pi_bytes few)
      (
        _,
        refl,
        record { some_pi = pos; pi_fits = few; suffix_fits = omega arith; entry_size = refl },
      )

abbrev HasSize : ℕ → Entry → Type 0
HasSize n entry = length entry.hash ≡ n

-- Entries appended one after the other.
abbrev pub append_all : Writer → List Entry → Result Writer
append_all w [] = ok w
append_all w (entry ∷ entries) = append w entry >>= λ w'. append_all w' entries

abbrev all_bytes : Format → List Entry → List ℕ
all_bytes f [] = []
all_bytes f (entry ∷ entries) = suffix_entry_bytes f entry ++ all_bytes f entries

-- Entries of the size are all accepted.
pub append_all-bytes :
    (w : Writer) (entries : List Entry)
    → All (HasSize w.format.hash_bytes_count) entries
    → append_all w entries ≡ ok (record w { file = w.file ++ all_bytes w.format entries })
unfolding append
append_all-bytes w [] h = rw (append-nil w.file) refl
append_all-bytes w (entry ∷ entries) (size, h) =
    let n = w.format.hash_bytes_count in
    let f = w.format in
    let big : ltb (length entry.hash) n ≡ false = le→ltb (length entry.hash) n (omega arith) in
    rw big (
      append_all-bytes (record w { file = w.file ++ suffix_entry_bytes f entry }) entries h
      ∙ rw (append_assoc w.file (suffix_entry_bytes f entry) (all_bytes f entries)) refl)

length-suffix :
    (f : Format) (entry : Entry)
    → IsFormat f
    → HasSize f.hash_bytes_count entry
    → length (subspan entry.hash f.suffix_start_idx f.ls_suffix_bytes_count)
      ≡ f.ls_suffix_bytes_count
length-suffix f entry h size = omega (
  arith,
  length-take f.ls_suffix_bytes_count (drop f.suffix_start_idx entry.hash),
  length-drop f.suffix_start_idx entry.hash,
  h.suffix_fits,
)

length-suffix_entry_bytes :
    (f : Format) (entry : Entry)
    → IsFormat f
    → HasSize f.hash_bytes_count entry
    → length (suffix_entry_bytes f entry) ≡ f.entry_bytes
length-suffix_entry_bytes f entry h size = omega (
  arith,
  length-append (subspan entry.hash f.suffix_start_idx f.ls_suffix_bytes_count)
      (to_le f.local_pi_bytes_count entry.local_pi.value),
  length-suffix f entry h size,
  length-to_le f.local_pi_bytes_count entry.local_pi.value,
  h.entry_size,
)

drop-all_bytes :
    (f : Format) (entries : List Entry) (k : ℕ) (entry : Entry)
    → IsFormat f
    → All (HasSize f.hash_bytes_count) entries
    → get_elem? entries k ≡ some entry
    → (rest : List ℕ) × (drop (k * f.entry_bytes) (all_bytes f entries)
        ≡ suffix_entry_bytes f entry ++ rest)
      × HasSize f.hash_bytes_count entry
drop-all_bytes f [] k entry h sizes e = cc
drop-all_bytes f (x ∷ entries) zero entry h (size, sizes) e =
    let same : x ≡ entry = cc in
    let z : 0 * f.entry_bytes ≡ 0 = omega arith in
    (all_bytes f entries, rw (z, same) refl, rw (sym same) size)
drop-all_bytes f (x ∷ entries) (suc k) entry h (size, sizes) e =
    let (rest, r, s) = drop-all_bytes f entries k entry h sizes e in
    let z : suc k * f.entry_bytes ≡ f.entry_bytes + k * f.entry_bytes = omega arith in
    (
      rest,
      rw z (
          drop-append_more f.entry_bytes (k * f.entry_bytes) (suffix_entry_bytes f x)
            (all_bytes f entries) (length-suffix_entry_bytes f x h size)
          ∙ r),
      s,
    )

pi_mask-pow : (f : Format) → pi_mask f ≡ 2 ^ (f.local_pi_bytes_count * 8) - 1
pi_mask-pow f = elim (Bool-cases (nat_eq f.local_pi_bytes_count 8)) [
  | inl h ↦
      let e : f.local_pi_bytes_count ≡ 8 = (nat_eq_iff f.local_pi_bytes_count 8).0 h in rw e refl
  | inr h ↦ rw h refl
]

-- What is left of a local index in its field.
abbrev pub stored_pi : Format → LocalPi → LocalPi
stored_pi f local_pi = record { value = local_pi.value % 2 ^ (f.local_pi_bytes_count * 8) }

pi-stored :
    (f : Format) (local_pi : LocalPi)
    → bit_and (from_le (to_le f.local_pi_bytes_count local_pi.value)) (pi_mask f)
      ≡ (stored_pi f local_pi).value
pi-stored f local_pi =
    let bits = f.local_pi_bytes_count * 8 in
    let v = local_pi.value in
    ap (bit_and (from_le (to_le f.local_pi_bytes_count v))) (pi_mask-pow f)
    ∙ (bit_and-mask (from_le (to_le f.local_pi_bytes_count v)) bits
        ∙ (ap (λ (t : ℕ). t % 2 ^ bits) (from_le-to_le_mod f.local_pi_bytes_count v)
            ∙ mod-mod v (2 ^ bits)))

-- What read_next returns for an entry: its suffix stands in the buffer, in front of the same bytes
-- and behind the same.
abbrev pub entry_read : Format → Entry → List ℕ → Reader → ReadNext
entry_read f entry buf r = record {
  success = true;
  out_hash_buf =
      write_at buf f.suffix_start_idx
        (subspan entry.hash f.suffix_start_idx f.ls_suffix_bytes_count);
  out_local_pi = stored_pi f entry.local_pi;
  reader = r;
}

read_next-IsAt :
    (f : Format) (entry : Entry) (file : InStream) (rest buf : List ℕ) (pi : LocalPi)
    → IsFormat f
    → HasSize f.hash_bytes_count entry
    → f.hash_bytes_count ≤ length buf
    → IsAt file (suffix_entry_bytes f entry ++ rest)
    → (r : Reader) × (read_next (record { format = f; file = file }) buf pi
        ≡ ok (entry_read f entry buf r))
      × IsAt r.file rest
unfolding read_next read_local_pi
read_next-IsAt f entry file rest buf pi h size room at =
    let n = f.ls_suffix_bytes_count in
    let m = f.local_pi_bytes_count in
    let suffix = subspan entry.hash f.suffix_start_idx n in
    let pi_bytes = to_le m entry.local_pi.value in
    let at' : IsAt file (suffix ++ (pi_bytes ++ rest)) =
      rw (sym (append_assoc suffix pi_bytes rest)) at in
    let len = length-suffix f entry h size in
    let len' = length-to_le m entry.local_pi.value in
    let (got, at_pi, b, p) = read-IsAt n file suffix (pi_bytes ++ rest) at' len in
    let (got', at_rest, b', p') = read-IsAt m (read n file).1 pi_bytes rest at_pi len' in
    let some_bytes : nat_eq f.entry_bytes 0 ≡ false = ground (arith, h.entry_size, h.some_pi) in
    let usable : is_unusable (record { format = f; file = file }) ≡ false =
      rw (at.no_fail, some_bytes) refl in
    let big : ltb (length buf) f.hash_bytes_count ≡ false = le→ltb (length buf) _ room in
    let whole : ltb (length suffix) n ≡ false = le→ltb (length suffix) n (omega arith) in
    let whole' : ltb (length pi_bytes) m ≡ false = le→ltb (length pi_bytes) m (omega arith) in
    (
      record { format = f; file = (read m (read n file).1).1 },
      rw (usable, big, got, whole, got', whole', pi-stored f entry.local_pi) refl,
      at_rest,
    )

-- In the file that a writer leaves after entries with hashes of the size were appended to an
-- empty file, of less than 2^63 bytes, seeking to the index of any of the entries succeeds
-- whatever the state of the stream, and reading there into a buffer of the size or more gives
-- the index, cut to its field, and puts the bytes of the hash from the suffix's start on at the
-- same place of the buffer.
pub read_next-seek_entry :
    (f : Format) (entries : List Entry) (w : Writer) (k : ℕ) (entry : Entry) (file : InStream)
    (buf : List ℕ) (pi : LocalPi)
    → IsFormat f
    → All (HasSize f.hash_bytes_count) entries
    → append_all (record { format = f; file = [] }) entries ≡ ok w
    → get_elem? entries k ≡ some entry
    → file.bytes ≡ w.file
    → length entries * f.entry_bytes < 2 ^ 63
    → f.hash_bytes_count ≤ length buf
    → ((seek_entry (record { format = f; file = file }) k).0 ≡ true)
      × (r : Reader) × (read_next (seek_entry (record { format = f; file = file }) k).1 buf pi
          ≡ ok (entry_read f entry buf r))
unfolding seek_entry seekg
read_next-seek_entry f entries w k entry file buf pi h sizes written e same short room =
    let size = f.entry_bytes in
    let below = get_elem?-lt entries k entry e in
    let before : k * size ≤ length entries * size = mul-le-mul_right size (omega arith) in
    let whole : k * size % 2 ^ 64 ≡ k * size = mod-eq_of_lt (omega arith) in
    let test : ltb (k * size) (2 ^ 63) ≡ true = lt→ltb (k * size) (2 ^ 63) (omega arith) in
    let bytes = append_all-bytes (record { format = f; file = [] }) entries sizes in
    let out : w ≡ record { format = f; file = all_bytes f entries } = cc in
    let all : file.bytes ≡ all_bytes f entries = same ∙ rw out refl in
    let (rest, ahead, entry_has_size) = drop-all_bytes f entries k entry h sizes e in
    let file' : InStream = record file { position = k * size; eofbit = false; failbit = false } in
    let at : IsAt file' (suffix_entry_bytes f entry ++ rest) = record {
      no_eof = refl;
      no_fail = refl;
      rest = ap (drop (k * size)) all ∙ ahead;
    } in
    let (r, done, at_rest) = read_next-IsAt f entry file' rest buf pi h entry_has_size room at in
    rw (whole, test) (refl, r, done)
