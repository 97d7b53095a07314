-- ===== src/ObjectFolder/RoundTrip.antt =====
-- libs/evolving_disk_state/include/evolving_disk_state/tier_folder.hpp: reading back the offset in
-- the name of an object folder.
use wedding_cake_cpp.Base.{
  ℕ, zero, suc, ◌+◌, ◌-◌, ◌*◌, ◌/◌, ◌%◌, ◌^◌, ◌<◌, ◌≡◌, refl, ap, sym, ◌∙◌, List, [], ◌∷◌, true,
  false, some, nat_eq, nat_eq_iff, lt→ltb, Bool-cases, inl, inr, ok, arith,
}
use native.Mathlib.Nat.{pow-suc}
use wedding_cake_cpp.ObjectFolder.{
  to_string_fuel, object_folder_name, read_digits, is_digit, is_space, skip_spaces, signed_value,
  read_sign, stoi_whole, object_folder_single_offset,
}

read_digit :
    (d acc count : ℕ) (cs : List ℕ)
    → d < 10
    → read_digits ((48 + d) ∷ cs) acc count ≡ read_digits cs (acc * 10 + d) (count + 1)
unfolding read_digits is_digit
read_digit d acc count cs h =
    let value : acc * 10 + (48 + d - 48) ≡ acc * 10 + d = omega arith in
    let test : is_digit (48 + d) ≡ true = ground arith in rw (test, value) refl

no_space : (d : ℕ) → d < 10 → is_space (48 + d) ≡ false
unfolding is_space
no_space d h = ground arith

-- The digits of a number, read from zero on, are read as the number.
read_digits-to_string_fuel :
    (fuel n count : ℕ) (acc : List ℕ)
    → n < 10 ^ suc fuel
    → (k : ℕ) × (read_digits (to_string_fuel (suc fuel) n acc) 0 count
        ≡ read_digits acc n (count + suc k))
unfolding to_string_fuel
read_digits-to_string_fuel zero n count acc h =
    let last : nat_eq (n / 10) 0 ≡ true = ground arith in
    let value : 0 * 10 + n % 10 ≡ n = omega arith in
    rw last (0, read_digit (n % 10) 0 count acc (omega arith) ∙ rw value refl)
read_digits-to_string_fuel (suc fuel) n count acc h = elim (Bool-cases (nat_eq (n / 10) 0)) [
  | inl last ↦
      let z : n / 10 ≡ 0 = (nat_eq_iff (n / 10) 0).0 last in
      let value : 0 * 10 + n % 10 ≡ n = omega arith in
      rw last (0, read_digit (n % 10) 0 count acc (omega arith) ∙ rw value refl)
  | inr more ↦
      let (k, e) =
        read_digits-to_string_fuel fuel (n / 10) count ((48 + n % 10) ∷ acc)
          (omega (arith, pow-suc 10 (suc fuel))) in
      let value : n / 10 * 10 + n % 10 ≡ n = omega arith in
      let digits : count + suc k + 1 ≡ count + suc (suc k) = omega arith in
      rw more (
        suc k,
        e
            ∙ (read_digit (n % 10) (n / 10) (count + suc k) acc (omega arith)
                ∙ rw (value, digits) refl),
      )
]

read_digits_end : (acc count : ℕ) → read_digits [] acc count ≡ (acc, count, [])
unfolding read_digits
read_digits_end acc count = refl

-- The first character is a digit.
first_digit :
    (fuel n : ℕ) (acc : List ℕ)
    → (d : ℕ) × (rest : List ℕ) × (to_string_fuel (suc fuel) n acc ≡ (48 + d) ∷ rest) × (d < 10)
unfolding to_string_fuel
first_digit zero n acc = elim (Bool-cases (nat_eq (n / 10) 0)) [
  | inl last ↦ rw last (n % 10, acc, refl, omega arith)
  | inr more ↦ rw more (n % 10, acc, refl, omega arith)
]
first_digit (suc fuel) n acc = elim (Bool-cases (nat_eq (n / 10) 0)) [
  | inl last ↦ rw last (n % 10, acc, refl, omega arith)
  | inr more ↦ rw more (first_digit fuel (n / 10) ((48 + n % 10) ∷ acc))
]

stoi_whole-digits :
    (d n k : ℕ) (rest : List ℕ)
    → d < 10
    → read_digits ((48 + d) ∷ rest) 0 0 ≡ (n, 0 + suc k, [])
    → n < 2 ^ 31
    → stoi_whole ((48 + d) ∷ rest) ≡ some n
unfolding stoi_whole read_sign skip_spaces signed_value
stoi_whole-digits d n k rest h e small =
    let space : is_space (48 + d) ≡ false = no_space d h in
    let minus : nat_eq (48 + d) b'-' ≡ false = ground arith in
    let plus : nat_eq (48 + d) b'+' ≡ false = ground arith in
    let count : 0 + suc k ≡ suc k = omega arith in
    rw space (rw (minus, plus, e, count) (rw (lt→ltb n (2 ^ 31) small) refl))

-- The offset in the name of an object folder is the one that the name was made from, when it is
-- below 2^31.
pub object_folder_single_offset-name :
    (offset : ℕ)
    → offset < 2 ^ 31
    → object_folder_single_offset (object_folder_name offset) ≡ ok offset
unfolding object_folder_single_offset object_folder_name
object_folder_single_offset-name offset small =
    let (d, rest, front, digit) = first_digit 19 offset [] in
    let (k, e) = read_digits-to_string_fuel 19 offset 0 [] (omega arith) in
    let read : read_digits ((48 + d) ∷ rest) 0 0 ≡ (offset, 0 + suc k, []) =
      ap (λ (t : List ℕ). read_digits t 0 0) (sym front)
      ∙ (e ∙ read_digits_end offset (0 + suc k)) in
    let value = stoi_whole-digits d offset k rest digit read small in rw front (rw value refl)
