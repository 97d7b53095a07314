-- ===== src/ObjectFolder.antt =====
-- libs/evolving_disk_state/include/evolving_disk_state/tier_folder.hpp: the names Offset_<NNN> of
-- object folders. A file name is the list of its bytes.
pub mod RoundTrip
mod Examples
use wedding_cake_cpp.Base.{
  ℕ, zero, suc, ◌+◌, ◌-◌, ◌*◌, ◌/◌, ◌%◌, ◌^◌, ◌≤◌, ◌<◌, ◌≡◌, refl, List, [], ◌∷◌, ◌++◌, map, Bool,
  true, false, ◌&&◌, ◌||◌, Option, none, some, if◌then◌else◌, ltb, leb, nat_eq, length, list_eq,
  take, drop, nat_Eq, Result, ok, err, runtime_error, ◌>>=◌, arith,
}
use Prim.Native.Char.{code}
use Prim.Native.String.{String}

abbrev pub codes : String → List ℕ
codes String.[] = []
codes (String.◌∷◌ c s) = code c ∷ codes s

abbrev pub FileName : Type 0
FileName = List ℕ

abbrev pub object_folder_prefix : FileName
object_folder_prefix = codes "Offset_"

-- std::to_string of a uint64_t: the digits of n, without leading zeros. Twenty rounds are enough.
unfoldable pub to_string_fuel : ℕ → ℕ → List ℕ → List ℕ
to_string_fuel zero n acc = acc
to_string_fuel (suc fuel) n acc =
    let acc' = (48 + n % 10) ∷ acc in
    let more = to_string_fuel fuel (n / 10) acc' in if nat_eq (n / 10) 0 then acc' else more

unfoldable pub object_folder_name : ℕ → FileName
unfolding to_string_fuel
object_folder_name offset = object_folder_prefix ++ to_string_fuel 20 offset []

is_digit : ℕ → Bool
is_digit c = leb 48 c && leb c 57

-- isspace in the C locale.
is_space : ℕ → Bool
is_space c = nat_eq c 32 || (leb 9 c && leb c 13)

-- The digits at the front: their value after `acc`, how many there are, and the rest.
unfoldable pub read_digits : List ℕ → ℕ → ℕ → ℕ × ℕ × List ℕ
unfolding is_digit
read_digits [] acc count = (acc, count, [])
read_digits (c ∷ cs) acc count =
    let rest = read_digits cs (acc * 10 + (c - 48)) (count + 1) in
    if is_digit c then rest else (acc, count, c ∷ cs)

skip_spaces : List ℕ → List ℕ
unfolding is_space
skip_spaces [] = []
skip_spaces (c ∷ cs) = if is_space c then skip_spaces cs else c ∷ cs

-- std::stoi(s, &pos) with the test pos == s.length(), the int turned into a uint64_t. `none` is an
-- exception or a rest that is no part of the number.
signed_value : Bool → ℕ × ℕ × List ℕ → Option ℕ
signed_value negative (value, zero, rest) = none
signed_value negative (value, suc count, c ∷ rest) = none
signed_value true (value, suc count, []) =
    if leb value (2 ^ 31) then some ((2 ^ 64 - value) % 2 ^ 64) else none
signed_value false (value, suc count, []) = if ltb value (2 ^ 31) then some value else none

read_sign : List ℕ → Option ℕ
unfolding signed_value read_digits
read_sign [] = none
read_sign (c ∷ cs) =
    if nat_eq c b'-'
    then signed_value true (read_digits cs 0 0)
    else if nat_eq c b'+'
    then signed_value false (read_digits cs 0 0)
    else signed_value false (read_digits (c ∷ cs) 0 0)

unfoldable pub stoi_whole : List ℕ → Option ℕ
unfolding read_sign skip_spaces
stoi_whole num_str = read_sign (skip_spaces num_str)

-- dirName.rfind(prefix, 0) == 0.
abbrev pub starts_with : FileName → FileName → Bool
starts_with dir_name prefix = list_eq (take (length prefix) dir_name) prefix

unfoldable pub object_folder_single_offset : FileName → Result ℕ
object_folder_single_offset dir_name =
    if starts_with dir_name object_folder_prefix
    then elim (stoi_whole (drop (length object_folder_prefix) dir_name)) [
      | none ↦ err runtime_error
      | some n ↦ ok n
    ]
    else err runtime_error

-- One round of the directory loop: an entry is its name and whether it is a directory.
unfoldable pub collect_offset : FileName × Bool → List ℕ → List ℕ
collect_offset (dir_name, is_directory) rest =
    if is_directory && starts_with dir_name object_folder_prefix
    then elim (stoi_whole (drop (length object_folder_prefix) dir_name)) [
      | none ↦ rest
      | some n ↦ n ∷ rest
    ]
    else rest

unfoldable pub collect_offsets : List (FileName × Bool) → List ℕ
unfolding collect_offset
collect_offsets [] = []
collect_offsets (entry ∷ entries) = collect_offset entry (collect_offsets entries)

insert_sorted : ℕ → List ℕ → List ℕ
insert_sorted n [] = n ∷ []
insert_sorted n (m ∷ ms) = if leb n m then n ∷ m ∷ ms else m ∷ insert_sorted n ms

-- std::ranges::sort.
unfoldable pub sort : List ℕ → List ℕ
unfolding insert_sorted
sort [] = []
sort (n ∷ ns) = insert_sorted n (sort ns)

-- `none` is a base path that is missing or no directory.
unfoldable pub object_folder_offsets : Option (List (FileName × Bool)) → List ℕ
unfolding collect_offsets sort
object_folder_offsets none = []
object_folder_offsets (some entries) = sort (collect_offsets entries)
