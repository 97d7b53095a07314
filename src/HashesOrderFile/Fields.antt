-- ===== src/HashesOrderFile/Fields.antt =====
-- apps/wedding_cake/include/hashes_order_file.hpp: what the fields of an entry keep.
use wedding_cake_cpp.Base.{
  ℕ, ◌+◌, ◌-◌, ◌*◌, ◌/◌, ◌%◌, ◌^◌, ◌<◌, ◌≤◌, ◌≡◌, refl, ap, ap₂, subst, ◌∙◌, false, if◌then◌else◌,
  ltb, nat_eq, nat_eq_iff, lt→ltb, le→ltb, bit_and, bit_or, ok, le→leb, arith, Bool-cases, inl, inr,
}
use native.Mathlib.Nat.{pow-le-pow_right, mod-lt, mod-mod, mod-one, mod-eq_of_lt}
use wedding_cake_cpp.Base.Bytes.{to_le, from_le}
use wedding_cake_cpp.Base.Bits.{
  bit_and-mask, bit_or-shift, pow_pos, from_le-to_le_mod, fields_lt, fields_low, fields_high,
}
use wedding_cake_cpp.Types.{LocalPi, local_pi_no_match}
use wedding_cake_cpp.HashesOrderFile.{
  Format, Entry, low_mask_u64, pi_raw, prefix_part, prefix_field_raw, pi_from_raw, split_field,
  spare_bits_count, new_format,
}

-- A format that the constructor makes, whose prefix is not the whole of 64 bits.
pub record IsFormat (f : Format) : Type 0 where
  pub some_pi : 1 ≤ f.local_pi_bytes_count
  pub pi_fits : f.local_pi_bytes_count ≤ 8
  pub below_64 : f.ms_prefix_bits_count < 64
  pub field_bytes : f.ms_prefix_bits_bytes_count ≡ (f.ms_prefix_bits_count + 7) / 8
  pub entry_size : f.entry_bytes_count ≡ f.local_pi_bytes_count + f.ms_prefix_bits_bytes_count

pub new_format-IsFormat :
    (pi_bytes prefix_bits : ℕ)
    → 1 ≤ pi_bytes
    → pi_bytes ≤ 8
    → prefix_bits < 64
    → (f : Format) × (new_format pi_bytes prefix_bits ≡ ok f) × IsFormat f
unfolding new_format
new_format-IsFormat pi_bytes prefix_bits some few below =
    let some_test : nat_eq pi_bytes 0 ≡ false = ground arith in
    rw (some_test, le→ltb 8 pi_bytes few, le→leb prefix_bits 64 (omega arith))
      (
        _,
        refl,
        record {
          some_pi = some;
          pi_fits = few;
          below_64 = below;
          field_bytes = refl;
          entry_size = refl;
        },
      )

-- What is left of a local index, and of an entry, in a file.
abbrev pub stored_pi : Format → LocalPi → LocalPi
stored_pi f local_pi =
    let bits = f.local_pi_bytes_count * 8 in
    let raw = pi_raw local_pi % 2 ^ bits in
    if nat_eq raw (2 ^ bits - 1) then local_pi_no_match else record { value = raw }

abbrev pub stored_entry : Format → Entry → Entry
stored_entry f entry = record {
  local_pi = stored_pi f entry.local_pi;
  ms_prefix_bits = entry.ms_prefix_bits % 2 ^ f.ms_prefix_bits_count;
  spare_bits = entry.spare_bits % 2 ^ spare_bits_count f;
}

low_mask_u64-pow : (bits : ℕ) → low_mask_u64 bits ≡ 2 ^ bits - 1
low_mask_u64-pow bits = elim (Bool-cases (nat_eq bits 64)) [
  | inl h ↦ let e : bits ≡ 64 = (nat_eq_iff bits 64).0 h in rw e refl
  | inr h ↦ rw h refl
]

pub pi_from_raw-stored :
    (f : Format) (local_pi : LocalPi)
    → pi_from_raw f (from_le (to_le f.local_pi_bytes_count (pi_raw local_pi)))
      ≡ stored_pi f local_pi
pi_from_raw-stored f local_pi =
    let bits = f.local_pi_bytes_count * 8 in
    let v = pi_raw local_pi in
    let raw : bit_and (from_le (to_le f.local_pi_bytes_count v)) (2 ^ bits - 1) ≡ v % 2 ^ bits =
      bit_and-mask (from_le (to_le f.local_pi_bytes_count v)) bits
      ∙ (ap (λ (t : ℕ). t % 2 ^ bits) (from_le-to_le_mod f.local_pi_bytes_count v)
          ∙ mod-mod v (2 ^ bits)) in
    rw (low_mask_u64-pow bits, raw) refl

module _ (f : Format) (entry : Entry) (h : IsFormat f) where
  abbrev low : ℕ
  low = entry.ms_prefix_bits % 2 ^ f.ms_prefix_bits_count

  abbrev high : ℕ
  high = entry.spare_bits % 2 ^ spare_bits_count f

  low_lt : low < 2 ^ f.ms_prefix_bits_count
  low_lt = mod-lt entry.ms_prefix_bits (pow_pos f.ms_prefix_bits_count)

  high_lt : high < 2 ^ spare_bits_count f
  high_lt = mod-lt entry.spare_bits (pow_pos (spare_bits_count f))

  field_lt : low + high * 2 ^ f.ms_prefix_bits_count < 2 ^ (f.ms_prefix_bits_bytes_count * 8)
  field_lt =
      let e : f.ms_prefix_bits_count + spare_bits_count f ≡ f.ms_prefix_bits_bytes_count * 8 =
        omega (arith, h.field_bytes) in
      subst (λ (n : ℕ). low + high * 2 ^ f.ms_prefix_bits_count < 2 ^ n) e
        (fields_lt low high f.ms_prefix_bits_count (spare_bits_count f) low_lt high_lt)

  prefix_part-low : 0 < f.ms_prefix_bits_count → prefix_part f entry ≡ low
  prefix_part-low pos =
      rw (lt→ltb 0 f.ms_prefix_bits_count pos, low_mask_u64-pow f.ms_prefix_bits_count)
        (bit_and-mask entry.ms_prefix_bits f.ms_prefix_bits_count)

  prefix_field_raw-fields :
      0 < f.ms_prefix_bits_count
      → prefix_field_raw f entry ≡ low + high * 2 ^ f.ms_prefix_bits_count
  prefix_field_raw-fields pos =
      let sc = spare_bits_count f in
      let bits = f.ms_prefix_bits_count in
      let part = prefix_part-low pos in
      elim (Bool-cases (ltb 0 sc)) [
        | inl some_spare ↦
            let masked : bit_and entry.spare_bits (low_mask_u64 sc) ≡ high =
              ap (λ (t : ℕ). bit_and entry.spare_bits t) (low_mask_u64-pow sc)
              ∙ bit_and-mask entry.spare_bits sc in
            let few : f.ms_prefix_bits_bytes_count * 8 ≤ 64 =
              omega (arith, h.field_bytes, h.below_64) in
            let room : 2 ^ (f.ms_prefix_bits_bytes_count * 8) ≤ 2 ^ 64 =
              pow-le-pow_right {n = 2} (omega arith) few in
            let fits : high * 2 ^ bits < 2 ^ 64 = omega (arith, room, field_lt) in
            rw some_spare (
              ap₂ (λ (x y : ℕ). bit_or x (y * 2 ^ bits % 2 ^ 64)) part masked
              ∙ (ap (bit_or low) (mod-eq_of_lt fits) ∙ bit_or-shift bits low high low_lt))
        | inr no_spare ↦
            let z : sc ≡ 0 = ground arith in
            let none_high : high ≡ 0 =
              ap (λ (t : ℕ). entry.spare_bits % 2 ^ t) z ∙ mod-one entry.spare_bits in
            rw no_spare (part ∙ omega (arith, ap (λ (t : ℕ). t * 2 ^ bits) none_high))
      ]

  pub split_field-stored :
      0 < f.ms_prefix_bits_count
      → split_field f (from_le (to_le f.ms_prefix_bits_bytes_count (prefix_field_raw f entry)))
        ≡ ok (low, high)
  split_field-stored pos =
      let bits = f.ms_prefix_bits_count in
      let sc = spare_bits_count f in
      let whole : from_le (to_le f.ms_prefix_bits_bytes_count (prefix_field_raw f entry))
          ≡ low + high * 2 ^ bits =
        from_le-to_le_mod f.ms_prefix_bits_bytes_count (prefix_field_raw f entry)
        ∙ (ap (λ (t : ℕ). t % 2 ^ (f.ms_prefix_bits_bytes_count * 8)) (prefix_field_raw-fields pos)
            ∙ mod-eq_of_lt field_lt) in
      let front : bit_and (low + high * 2 ^ bits) (low_mask_u64 bits) ≡ low =
        ap (λ (t : ℕ). bit_and (low + high * 2 ^ bits) t) (low_mask_u64-pow bits)
        ∙ (bit_and-mask (low + high * 2 ^ bits) bits ∙ fields_low low high bits low_lt) in
      let few : sc ≤ 8 = omega (arith, h.field_bytes) in
      let byte : 2 ^ sc ≤ 2 ^ 8 = pow-le-pow_right {n = 2} (omega arith) few in
      let back : (low + high * 2 ^ bits) / 2 ^ bits % 256 ≡ high =
        ap (λ (t : ℕ). t % 256) (fields_high low high bits low_lt)
        ∙ mod-eq_of_lt (omega (arith, byte, high_lt)) in
      let some_bits : nat_eq bits 0 ≡ false = ground arith in
      ap (split_field f) whole
      ∙ rw (some_bits, lt→ltb bits 64 h.below_64) (ap₂ (λ (x y : ℕ). ok (x, y)) front back)
