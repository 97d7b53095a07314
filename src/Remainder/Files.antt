-- ===== src/Remainder/Files.antt =====
-- What the two files of a donut hold for a list of items, and one item written and read.
use wedding_cake_cpp.Base.{
  ℕ, suc, ◌+◌, ◌≤◌, ◌<◌, ◌≡◌, refl, sym, ap, List, [], ◌∷◌, ◌++◌, false, none, some, length, All,
  append-nil, append_assoc, nat_Eq, string_Eq, list_Eq, ok, arith,
}
use wedding_cake_cpp.Base.Bytes.{IsByte, to_le}
use wedding_cake_cpp.Base.Dict.{lookup, lookup-assign}
use wedding_cake_cpp.Types.{Hash}
use wedding_cake_cpp.Hash.{ms_prefix_bytes_masked, ls_suffix_bytes_masked}
use wedding_cake_cpp.Hash.Masks.{aligned_prefix, aligned_suffix}
use wedding_cake_cpp.Donut.{Calculator}
use wedding_cake_cpp.Donut.Join.{IsValid}
use wedding_cake_cpp.Manifest.{Manifest, append_to_file, append_bytes}
use wedding_cake_cpp.Manifest.Laws.{append_to_file_open}
use wedding_cake_cpp.Remainder.{Remainder, HashItem, hashes_order_filename, hash_entries_filename}

abbrev pub IsHash : ℕ → Hash → Type 0
IsHash n h = (length h ≡ n) × All IsByte h

abbrev pub IsItem : ℕ → HashItem → Type 0
IsItem n none = Unit {0}
IsItem n (some h) = IsHash n h

abbrev pub count_hashes : List HashItem → ℕ
count_hashes [] = 0
count_hashes (none ∷ items) = count_hashes items
count_hashes (some h ∷ items) = suc (count_hashes items)

pub count_hashes-cons :
    (item : HashItem) (items : List HashItem)
    → count_hashes (item ∷ items) ≡ count_hashes (item ∷ []) + count_hashes items
count_hashes-cons none items = omega arith
count_hashes-cons (some h) items = omega arith

-- HashesOrder.bin behind its header: two bytes an item, the number of the hash or all ones.
abbrev pub order_bytes : List HashItem → ℕ → List ℕ
order_bytes [] next = []
order_bytes (none ∷ items) next = 0xff ∷ 0xff ∷ order_bytes items next
order_bytes (some h ∷ items) next = to_le 2 next ++ order_bytes items (next + 1)

-- HashEntries.bin: each hash, then its local index in `k` bytes.
abbrev pub suffix_bytes : ℕ → List HashItem → ℕ → List ℕ
suffix_bytes k [] local = []
suffix_bytes k (none ∷ items) local = suffix_bytes k items (local + 1)
suffix_bytes k (some h ∷ items) local = (h ++ to_le k local) ++ suffix_bytes k items (local + 1)

pub order_bytes-append :
    (xs ys : List HashItem) (next : ℕ)
    → order_bytes (xs ++ ys) next ≡ order_bytes xs next ++ order_bytes ys (next + count_hashes xs)
order_bytes-append [] ys next = ap (order_bytes ys) (omega arith)
order_bytes-append (none ∷ xs) ys next =
    ap (λ (t : List ℕ). 0xff ∷ 0xff ∷ t) (order_bytes-append xs ys next)
order_bytes-append (some h ∷ xs) ys next =
    let e : next + 1 + count_hashes xs ≡ next + suc (count_hashes xs) = omega arith in
    rw (order_bytes-append xs ys (next + 1), e)
      (sym (append_assoc (to_le 2 next) (order_bytes xs (next + 1)) _))

pub suffix_bytes-append :
    (k : ℕ) (xs ys : List HashItem) (local : ℕ)
    → suffix_bytes k (xs ++ ys) local
      ≡ suffix_bytes k xs local ++ suffix_bytes k ys (local + length xs)
suffix_bytes-append k [] ys local = ap (suffix_bytes k ys) (omega arith)
suffix_bytes-append k (none ∷ xs) ys local =
    let e : local + 1 + length xs ≡ local + suc (length xs) = omega arith in
    rw (suffix_bytes-append k xs ys (local + 1), e) refl
suffix_bytes-append k (some h ∷ xs) ys local =
    let e : local + 1 + length xs ≡ local + suc (length xs) = omega arith in
    rw (suffix_bytes-append k xs ys (local + 1), e)
      (sym (append_assoc (h ++ to_le k local) (suffix_bytes k xs (local + 1)) _))

-- The calculator of a donut of the ingester tier, whose prefix is empty.
pub record IsIngester (c : Calculator) : Type 0 where
  pub valid : IsValid c
  pub no_prefix : c.prefix_bits_count ≡ 0
  pub some_bytes : 0 < c.hash_bytes_count
  pub narrow : c.bytes_per_local_pi ≤ 2

-- Both files are open for appending, and hold `order` and `suffix`.
pub record Streams (d : Remainder) (m : Manifest) (order suffix : List ℕ) : Type 0 where
  pub i : ℕ
  pub j : ℕ
  pub order_handle : d.file_handle_hashes_order ≡ some i
  pub suffix_handle : d.file_handle_suffix_entries ≡ some j
  pub unsealed : m.finished_sealed ≡ false
  pub order_open : lookup i m.open_files_by_handle ≡ some hashes_order_filename
  pub suffix_open : lookup j m.open_files_by_handle ≡ some hash_entries_filename
  pub order_file : lookup hashes_order_filename m.folder ≡ some order
  pub suffix_file : lookup hash_entries_filename m.folder ≡ some suffix

-- An append extends the file whose handle it is given, and no other.
module _ (d : Remainder) (m : Manifest) (order suffix bytes : List ℕ)
    (s : Streams d m order suffix) where
  pub append-order :
      (m' : Manifest) × (append_to_file m d.file_handle_hashes_order bytes ≡ ok m')
      × Streams d m' (order ++ bytes) suffix
  append-order = (
    append_bytes m s.i hashes_order_filename bytes,
    rw (s.order_handle)
        (append_to_file_open m s.i hashes_order_filename bytes s.unsealed s.order_open),
    record {
      i = s.i;
      j = s.j;
      order_handle = s.order_handle;
      suffix_handle = s.suffix_handle;
      unsealed = s.unsealed;
      order_open = s.order_open;
      suffix_open = s.suffix_open;
      order_file = rw (lookup-assign, s.order_file) refl;
      suffix_file = rw (lookup-assign) s.suffix_file;
    },
  )

  pub append-suffix :
      (m' : Manifest) × (append_to_file m d.file_handle_suffix_entries bytes ≡ ok m')
      × Streams d m' order (suffix ++ bytes)
  append-suffix = (
    append_bytes m s.j hash_entries_filename bytes,
    rw (s.suffix_handle)
        (append_to_file_open m s.j hash_entries_filename bytes s.unsealed s.suffix_open),
    record {
      i = s.i;
      j = s.j;
      order_handle = s.order_handle;
      suffix_handle = s.suffix_handle;
      unsealed = s.unsealed;
      order_open = s.order_open;
      suffix_open = s.suffix_open;
      order_file = rw (lookup-assign) s.order_file;
      suffix_file = rw (lookup-assign, s.suffix_file) refl;
    },
  )

module _ (c : Calculator) (v : IsIngester c) (h : Hash) (p : IsHash c.hash_bytes_count h) where
  pub no_prefix_part : ms_prefix_bytes_masked c.hash_bytes_count h c.prefix_bits_count ≡ []
  no_prefix_part =
      let e = aligned_prefix c.hash_bytes_count 0 h [] (omega arith) refl in
      rw (← append-nil h, v.no_prefix) e

  pub whole_suffix_part : ls_suffix_bytes_masked c.hash_bytes_count h c.prefix_bits_count ≡ h
  whole_suffix_part =
      let e = aligned_suffix c.hash_bytes_count 0 h [] (omega arith) refl in
      rw v.no_prefix (rw append-nil at e)
