-- ===== src/HashesOrderFile/RoundTrip.antt =====
-- apps/wedding_cake/include/hashes_order_file.hpp: reading entries that were appended.
use wedding_cake_cpp.Base.{
  ℕ, zero, suc, ◌+◌, ◌-◌, ◌*◌, ◌%◌, ◌^◌, ◌<◌, ◌≤◌, ◌≡◌, refl, ap, sym, ◌∙◌, List, [], ◌∷◌, ◌++◌,
  append_assoc, append-nil, true, false, ltb, nat_eq, nat_eq_iff, lt→ltb, ltb→lt, drop-append_more,
  some, ok, arith, length, length-append, get_elem?, get_elem?-lt, drop, Bool-cases, inl, inr, ◌⊎◌,
}
use native.Mathlib.Nat.{
  pow-le-pow_right, add-mul-mod_self_left, mul-le-mul_right, mod-eq_of_lt, mod-one,
}
use wedding_cake_cpp.Base.Bits.{pow_pos}
use wedding_cake_cpp.Base.Bytes.{u64_max, pow-add, to_le, length-to_le}
use wedding_cake_cpp.Types.{LocalPi, local_pi_no_match}
use wedding_cake_cpp.FileStream.{InStream, IsAt, seekg, peek_eof-more, read, read-IsAt}
use wedding_cake_cpp.HashesOrderFile.{
  Format, Entry, Writer, Reader, append, entry_bytes, pi_raw, prefix_field_raw, prefix_field_bytes,
  has_more, seek_entry, spare_bits_count, read_field, read_next,
}
use wedding_cake_cpp.HashesOrderFile.Fields.{
  IsFormat, stored_pi, stored_entry, pi_from_raw-stored, split_field-stored,
}

-- Entries appended one after the other.
abbrev pub append_all : Writer → List Entry → Writer
append_all w [] = w
append_all w (entry ∷ entries) = append_all (append w entry) entries

abbrev all_bytes : Format → List Entry → List ℕ
all_bytes f [] = []
all_bytes f (entry ∷ entries) = entry_bytes f entry ++ all_bytes f entries

append_all-bytes :
    (w : Writer) (entries : List Entry)
    → (append_all w entries).file ≡ w.file ++ all_bytes w.format entries
unfolding append
append_all-bytes w [] = sym (append-nil w.file)
append_all-bytes w (entry ∷ entries) =
    append_all-bytes (append w entry) entries
    ∙ append_assoc w.file (entry_bytes w.format entry) (all_bytes w.format entries)

length-prefix_field_bytes :
    (f : Format) (entry : Entry)
    → length (prefix_field_bytes f entry) ≡ f.ms_prefix_bits_bytes_count
length-prefix_field_bytes f entry = elim (Bool-cases (ltb 0 f.ms_prefix_bits_bytes_count)) [
  | inl h ↦ rw h (length-to_le f.ms_prefix_bits_bytes_count (prefix_field_raw f entry))
  | inr h ↦ rw h (ground arith)
]

pub length-entry_bytes :
    (f : Format) (entry : Entry) → IsFormat f → length (entry_bytes f entry) ≡ f.entry_bytes_count
unfolding entry_bytes
length-entry_bytes f entry h =
    let pi_bytes = to_le f.local_pi_bytes_count (pi_raw entry.local_pi) in
    omega (
      arith,
      length-append pi_bytes (prefix_field_bytes f entry),
      length-to_le f.local_pi_bytes_count (pi_raw entry.local_pi),
      length-prefix_field_bytes f entry,
      h.entry_size,
    )

-- The bytes of the entries from the `k`th on.
drop-all_bytes :
    (f : Format) (entries : List Entry) (k : ℕ) (entry : Entry)
    → IsFormat f
    → get_elem? entries k ≡ some entry
    → (rest : List ℕ) × (drop (k * f.entry_bytes_count) (all_bytes f entries)
        ≡ entry_bytes f entry ++ rest)
drop-all_bytes f [] k entry h e = cc
drop-all_bytes f (x ∷ entries) zero entry h e =
    let same : x ≡ entry = cc in
    let z : 0 * f.entry_bytes_count ≡ 0 = omega arith in (all_bytes f entries, rw (z, same) refl)
drop-all_bytes f (x ∷ entries) (suc k) entry h e =
    let (rest, r) = drop-all_bytes f entries k entry h e in
    let z : suc k * f.entry_bytes_count ≡ f.entry_bytes_count + k * f.entry_bytes_count =
      omega arith in
    (
      rest,
      rw z (
          drop-append_more f.entry_bytes_count (k * f.entry_bytes_count) (entry_bytes f x)
            (all_bytes f entries) (length-entry_bytes f x h)
          ∙ r),
    )

-- The prefix field, when its bytes are next.
read_field-IsAt :
    (f : Format) (entry : Entry) (file : InStream) (rest : List ℕ) (local_pi : LocalPi)
    → IsFormat f
    → IsAt file (prefix_field_bytes f entry ++ rest)
    → (file' : InStream) × (read_field (record { format = f; file = file }) local_pi
        ≡ ok (
          record (stored_entry f entry) { local_pi = local_pi },
          record { format = f; file = file' },
        ))
      × IsAt file' rest
unfolding read_field
read_field-IsAt f entry file rest local_pi h at =
    let n = f.ms_prefix_bits_bytes_count in
    elim (Bool-cases (ltb 0 n)) [
      | inl some_field ↦
          let pos : 0 < f.ms_prefix_bits_count =
            omega (arith, ltb→lt 0 n some_field, h.field_bytes) in
          let at' : IsAt file (to_le n (prefix_field_raw f entry) ++ rest) = rw some_field at at in
          let (got, at_rest, b, p) =
            read-IsAt n file (to_le n (prefix_field_raw f entry)) rest at'
              (length-to_le n (prefix_field_raw f entry)) in
          ((read n file).1, rw (some_field, got, split_field-stored f entry h pos) refl, at_rest)
      | inr no_field ↦
          let zero_bits : f.ms_prefix_bits_count ≡ 0 = ground (arith, h.field_bytes) in
          let zero_bytes : n ≡ 0 = ground arith in
          let at' : IsAt file rest = rw no_field at at in
          (
            file,
            rw (no_field, zero_bytes, zero_bits)
                (rw (mod-one entry.ms_prefix_bits, mod-one entry.spare_bits) refl),
            at',
          )
    ]

-- Reading an entry whose bytes are next.
pub read_next-IsAt :
    (f : Format) (entry : Entry) (file : InStream) (rest : List ℕ)
    → IsFormat f
    → IsAt file (entry_bytes f entry ++ rest)
    → (file' : InStream) × (read_next (record { format = f; file = file })
        ≡ ok (stored_entry f entry, record { format = f; file = file' }))
      × IsAt file' rest
unfolding read_next has_more entry_bytes
read_next-IsAt f entry file rest h at =
    let n = f.local_pi_bytes_count in
    let pi_bytes = to_le n (pi_raw entry.local_pi) in
    let some_entry : nat_eq f.entry_bytes_count 0 ≡ false =
      ground (arith, h.entry_size, h.some_pi) in
    let more = peek_eof-more file (entry_bytes f entry ++ rest) at (
      omega (
        arith,
        length-append (entry_bytes f entry) rest,
        length-entry_bytes f entry h,
        h.entry_size,
        h.some_pi,
      )) in
    let at' : IsAt file (pi_bytes ++ (prefix_field_bytes f entry ++ rest)) =
      rw (sym (append_assoc pi_bytes (prefix_field_bytes f entry) rest)) at in
    let (got, at_field, b, p) =
      read-IsAt n file pi_bytes (prefix_field_bytes f entry ++ rest) at'
        (length-to_le n (pi_raw entry.local_pi)) in
    let (file', e, at_rest) =
      read_field-IsAt f entry (read n file).1 rest (stored_pi f entry.local_pi) h at_field in
    (file', rw (some_entry, more, got, pi_from_raw-stored f entry.local_pi) e, at_rest)

-- In the file that a writer leaves after some entries were appended to an empty file, of less
-- than 2^63 bytes and with a prefix below 64 bits, seeking to the index of any of the entries
-- succeeds while the stream has not failed, and reading there gives the entry, its parts cut to
-- their fields, an index of all ones being the sentinel.
pub seek_entry-read_next :
    (f : Format) (entries : List Entry) (k : ℕ) (entry : Entry) (file : InStream)
    → IsFormat f
    → get_elem? entries k ≡ some entry
    → file.bytes ≡ (append_all (record { format = f; file = [] }) entries).file
    → file.failbit ≡ false
    → length entries * f.entry_bytes_count < 2 ^ 63
    → ((seek_entry (record { format = f; file = file }) k).0 ≡ true)
      × (r : Reader) × (read_next (seek_entry (record { format = f; file = file }) k).1
          ≡ ok (stored_entry f entry, r))
unfolding seek_entry seekg
seek_entry-read_next f entries k entry file h e written no_fail short =
    let size = f.entry_bytes_count in
    let below = get_elem?-lt entries k entry e in
    let before : k * size ≤ length entries * size = mul-le-mul_right size (omega arith) in
    let whole : k * size % 2 ^ 64 ≡ k * size = mod-eq_of_lt (omega arith) in
    let test : ltb (k * size) (2 ^ 63) ≡ true = lt→ltb (k * size) (2 ^ 63) (omega arith) in
    let all : file.bytes ≡ all_bytes f entries =
      written ∙ append_all-bytes (record { format = f; file = [] }) entries in
    let (rest, ahead) = drop-all_bytes f entries k entry h e in
    let file' : InStream = record file { position = k * size; eofbit = false; failbit = false } in
    let at : IsAt file' (entry_bytes f entry ++ rest) = record {
      no_eof = refl;
      no_fail = refl;
      rest = ap (drop (k * size)) all ∙ ahead;
    } in
    let (file'', done, at_rest) = read_next-IsAt f entry file' rest h at in
    rw (no_fail, whole, test) (refl, record { format = f; file = file'' }, done)

-- An entry whose parts fit their fields.
pub record IsFitting (f : Format) (entry : Entry) : Type 0 where
  pub pi_below :
      (entry.local_pi ≡ local_pi_no_match)
      ⊎ (entry.local_pi.value < 2 ^ (f.local_pi_bytes_count * 8) - 1)
  pub prefix_below : entry.ms_prefix_bits < 2 ^ f.ms_prefix_bits_count
  pub spare_below : entry.spare_bits < 2 ^ spare_bits_count f

-- All ones, cut to fewer bits.
ones_mod : (bits : ℕ) → bits ≤ 64 → (2 ^ 64 - 1) % 2 ^ bits ≡ 2 ^ bits - 1
ones_mod bits le =
    let a = 2 ^ bits in
    let t = 2 ^ (64 - bits) - 1 in
    let e : 2 ^ (64 - bits) ≡ suc t = omega (arith, pow_pos (64 - bits)) in
    let n : bits + (64 - bits) ≡ 64 = omega arith in
    let split : 2 ^ 64 ≡ a * 2 ^ (64 - bits) =
      ap (λ (k : ℕ). 2 ^ k) (sym n) ∙ pow-add 2 bits (64 - bits) in
    let whole : 2 ^ 64 - 1 ≡ (a - 1) + a * t =
      omega (arith, split, pow_pos bits, ap (λ (k : ℕ). a * k) e) in
    ap (λ (k : ℕ). k % a) whole
    ∙ (add-mul-mod_self_left (a - 1) a t ∙ mod-eq_of_lt (omega (arith, pow_pos bits)))

stored_pi-fitting :
    (f : Format) (local_pi : LocalPi)
    → f.local_pi_bytes_count ≤ 8
    → (local_pi ≡ local_pi_no_match) ⊎ (local_pi.value < 2 ^ (f.local_pi_bytes_count * 8) - 1)
    → stored_pi f local_pi ≡ local_pi
stored_pi-fitting f local_pi few (inl e) =
    let bits = f.local_pi_bytes_count * 8 in
    let same : nat_eq (2 ^ bits - 1) (2 ^ bits - 1) ≡ true =
      (nat_eq_iff (2 ^ bits - 1) (2 ^ bits - 1)).1 refl in
    rw e (rw (ones_mod bits (omega arith), same) refl)
stored_pi-fitting f local_pi few (inr l) =
    let bits = f.local_pi_bytes_count * 8 in
    let v = local_pi.value in
    let bits_few : bits ≤ 64 = omega arith in
    let room : 2 ^ bits ≤ 2 ^ 64 = pow-le-pow_right {n = 2} (omega arith) bits_few in
    let other : nat_eq v u64_max ≡ false = ground (arith, room) in
    let below : v % 2 ^ bits ≡ v = mod-eq_of_lt (omega arith) in
    let not_ones : nat_eq v (2 ^ bits - 1) ≡ false = ground arith in
    rw (other, below, not_ones) refl

-- Such an entry is what the file keeps of it.
stored_entry-IsFitting :
    (f : Format) (entry : Entry) → IsFormat f → IsFitting f entry → stored_entry f entry ≡ entry
stored_entry-IsFitting f entry h fits =
    rw
      (
        stored_pi-fitting f entry.local_pi h.pi_fits fits.pi_below,
        mod-eq_of_lt fits.prefix_below,
        mod-eq_of_lt fits.spare_below,
      )
      refl

-- In the file that a writer leaves after some entries were appended to an empty file, of less
-- than 2^63 bytes and with a prefix below 64 bits, an entry whose local index is the sentinel or
-- below the all-ones value of its field, whose prefix fits its bits and whose spare bits fit
-- those that the prefix leaves is read back unchanged: while the stream has not failed, seeking
-- to its index and reading there gives the entry that was appended.
pub read_next-IsFitting :
    (f : Format) (entries : List Entry) (k : ℕ) (entry : Entry) (file : InStream)
    → IsFormat f
    → IsFitting f entry
    → get_elem? entries k ≡ some entry
    → file.bytes ≡ (append_all (record { format = f; file = [] }) entries).file
    → file.failbit ≡ false
    → length entries * f.entry_bytes_count < 2 ^ 63
    → (r : Reader) × (read_next (seek_entry (record { format = f; file = file }) k).1
        ≡ ok (entry, r))
read_next-IsFitting f entries k entry file h fits e written no_fail short =
    let (_, r, done) = seek_entry-read_next f entries k entry file h e written no_fail short in
    (r, rw (stored_entry-IsFitting f entry h fits) at done)
