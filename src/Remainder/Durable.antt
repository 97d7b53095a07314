-- ===== src/Remainder/Durable.antt =====
-- What append_hashes keeps true of a donut, and that hydration from its files gives it back.
use wedding_cake_cpp.Base.{
  ℕ, ◌+◌, ◌*◌, ◌/◌, ◌%◌, ◌^◌, ◌≤◌, ◌<◌, ◌≡◌, refl, sym, ap, ◌∙◌, List, [], ◌∷◌, ◌++◌, none, some,
  length, le→leb, ◌-◌, All, length-append, nat_Eq, string_Eq, list_Eq, ok, arith,
}
use wedding_cake_cpp.Base.Bytes.{to_le, length-to_le}
use wedding_cake_cpp.Base.Dict.{lookup, insert, length-insert_new}
use wedding_cake_cpp.Types.{Hash, LocalPi, pi_no_match_val}
use wedding_cake_cpp.ObjectFolder.{object_folder_single_offset}
use wedding_cake_cpp.Donut.{Calculator, new_calculator}
use wedding_cake_cpp.Manifest.{Folder}
use wedding_cake_cpp.Remainder.{
  Remainder, HashItem, insert_hashes, hydrate_from_bytes, hydrate_self_for_lookup,
  hashes_order_filename, hash_entries_filename, remaining_capacity,
}
use wedding_cake_cpp.Remainder.Files.{
  IsItem, count_hashes, order_bytes, suffix_bytes, IsIngester, Streams,
}
use wedding_cake_cpp.Remainder.Hydrate.{two_bytes, hydrate_entries-items}

-- No hash of `items` is in the map yet, nor twice among them.
abbrev pub Fresh : List HashItem → ℕ → List (Hash × LocalPi) → Type 0
Fresh [] local m = Unit {0}
Fresh (none ∷ items) local m = Fresh items (local + 1) m
Fresh (some h ∷ items) local m =
    (lookup h m ≡ none) × Fresh items (local + 1) (insert h (record { value = local }) m)

pub length-insert_hashes :
    (items : List HashItem) (local : ℕ) (m : List (Hash × LocalPi))
    → Fresh items local m
    → length (insert_hashes items local m) ≡ length m + count_hashes items
unfolding insert_hashes
length-insert_hashes [] local m f = omega arith
length-insert_hashes (none ∷ items) local m f = length-insert_hashes items (local + 1) m f
length-insert_hashes (some h ∷ items) local m f = omega (
  arith,
  length-insert_hashes items (local + 1) (insert h (record { value = local }) m) f.1,
  length-insert_new h (record { value = local }) m f.0,
)

pub insert_hashes-append :
    (xs ys : List HashItem) (local : ℕ) (m : List (Hash × LocalPi))
    → insert_hashes (xs ++ ys) local m
      ≡ insert_hashes ys (local + length xs) (insert_hashes xs local m)
unfolding insert_hashes
insert_hashes-append [] ys local m = ap (λ (t : ℕ). insert_hashes ys t m) (omega arith)
insert_hashes-append (none ∷ xs) ys local m =
    insert_hashes-append xs ys (local + 1) m
    ∙ ap (λ (t : ℕ). insert_hashes ys t (insert_hashes xs (local + 1) m)) (omega arith)
insert_hashes-append (some h ∷ xs) ys local m =
    let m' = insert h (record { value = local }) m in
    insert_hashes-append xs ys (local + 1) m'
    ∙ ap (λ (t : ℕ). insert_hashes ys t (insert_hashes xs (local + 1) m')) (omega arith)

pub remaining_capacity-fits :
    (d : Remainder)
    → length d.forward_lookup_vector ≤ d.capacity
    → remaining_capacity d ≡ d.capacity - length d.forward_lookup_vector
unfolding remaining_capacity
remaining_capacity-fits d fits = rw (le→leb _ _ fits) refl

-- A donut whose memory and files tell the same: what the two files hold is the encoding of the
-- vector, and the map is the one that the vector gives.
pub record IsStored (d : Remainder) : Type 0 where
  pub ingester : IsIngester d.donut_entries_calculator
  pub first : d.donut_entries_calculator.first_global_pi ≡ d.first_global_pi
  pub made :
      new_calculator d.donut_entries_calculator.hash_bytes_count 0 d.first_global_pi d.capacity
      ≡ ok d.donut_entries_calculator
  pub named_by : object_folder_single_offset d.object_path ≡ ok d.first_global_pi.value
  pub items : All (IsItem d.donut_entries_calculator.hash_bytes_count) d.forward_lookup_vector
  pub fits : length d.forward_lookup_vector ≤ d.capacity
  pub small : d.capacity ≤ 65535
  pub local_fits : d.capacity ≤ 256 ^ d.donut_entries_calculator.bytes_per_local_pi
  pub below : d.capacity + d.first_global_pi.value ≤ pi_no_match_val
  pub mapped : d.reverse_lookup_map ≡ insert_hashes d.forward_lookup_vector 0 []
  pub counted : length d.reverse_lookup_map ≡ count_hashes d.forward_lookup_vector
  pub order_file :
      lookup hashes_order_filename d.st00_manifest.folder
      ≡ some (2 ∷ order_bytes d.forward_lookup_vector 0)
  pub suffix_file :
      lookup hash_entries_filename d.st00_manifest.folder
      ≡ some (suffix_bytes d.donut_entries_calculator.bytes_per_local_pi d.forward_lookup_vector 0)
  pub streams :
      length d.forward_lookup_vector < d.capacity
      → Streams d d.st00_manifest
          (2 ∷ order_bytes d.forward_lookup_vector 0)
          (suffix_bytes d.donut_entries_calculator.bytes_per_local_pi d.forward_lookup_vector 0)

pub count_hashes-append :
    (xs ys : List HashItem) → count_hashes (xs ++ ys) ≡ count_hashes xs + count_hashes ys
count_hashes-append [] ys = omega arith
count_hashes-append (none ∷ xs) ys = count_hashes-append xs ys
count_hashes-append (some h ∷ xs) ys = omega (arith, count_hashes-append xs ys)

pub count_hashes-le : (items : List HashItem) → count_hashes items ≤ length items
count_hashes-le [] = omega arith
count_hashes-le (none ∷ items) = omega (arith, count_hashes-le items)
count_hashes-le (some h ∷ items) = omega (arith, count_hashes-le items)

length-order_bytes :
    (items : List HashItem) (next : ℕ) → length (order_bytes items next) ≡ 2 * length items
length-order_bytes [] next = refl
length-order_bytes (none ∷ items) next = omega (arith, length-order_bytes items next)
length-order_bytes (some h ∷ items) next = omega (
  arith,
  length-order_bytes items (next + 1),
  length-append (to_le 2 next) (order_bytes items (next + 1)),
  length-to_le 2 next,
)

pub hydrate_files :
    (c : Calculator) (folder : Folder) (order suffix : List ℕ)
    → lookup hashes_order_filename folder ≡ some order
    → lookup hash_entries_filename folder ≡ some suffix
    → hydrate_self_for_lookup c folder ≡ hydrate_from_bytes c order suffix
unfolding hydrate_self_for_lookup
hydrate_files c folder order suffix e f = ground arith

hydrate_items :
    (c : Calculator) (items : List HashItem)
    → IsIngester c
    → All (IsItem c.hash_bytes_count) items
    → length items ≤ 256 ^ c.bytes_per_local_pi
    → length items ≤ 65535
    → hydrate_from_bytes c (2 ∷ order_bytes items 0) (suffix_bytes c.bytes_per_local_pi items 0)
      ≡ ok (items, insert_hashes items 0 [])
unfolding hydrate_from_bytes
hydrate_items c items v p local_fits small =
    let len = length-order_bytes items 0 in
    let two = two_bytes c v in
    let aligned : 2 * length items % 2 ≡ 0 = omega arith in
    let halved : 2 * length items / 2 ≡ length items = omega arith in
    rw (two, len, aligned, halved)
      (rw
        (hydrate_entries-items c v items 0 [] [] p (omega arith)
          (omega (arith, count_hashes-le items)))
        refl)

-- Reading the folder of a stored donut gives its vector and its map.
pub hydrate-IsStored :
    (d : Remainder)
    → IsStored d
    → hydrate_self_for_lookup d.donut_entries_calculator d.st00_manifest.folder
      ≡ ok (d.forward_lookup_vector, d.reverse_lookup_map)
hydrate-IsStored d s =
    hydrate_files d.donut_entries_calculator d.st00_manifest.folder _ _ s.order_file s.suffix_file
    ∙ hydrate_items d.donut_entries_calculator d.forward_lookup_vector s.ingester s.items
        (omega (arith, s.fits, s.local_fits)) (omega (arith, s.fits, s.small))
    ∙ ap (λ (t : List (Hash × LocalPi)). ok (d.forward_lookup_vector, t)) (sym s.mapped)
