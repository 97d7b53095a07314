-- ===== src/Remainder/Closed.antt =====
-- A donut that was opened over an existing folder has no file open.
use wedding_cake_cpp.Base.{
  ℕ, zero, suc, ◌+◌, ◌<◌, ◌≡◌, ◌≢◌, refl, List, [], ◌∷◌, Option, none, some, min, inl, inr,
  Bool-cases, ltb, leb, length, take, replicate, nat_Eq, string_Eq, list_Eq, ok, guard, >>=-eq-ok,
  assertion_failed, arith,
}
use wedding_cake_cpp.Base.Dict.{lookup}
use wedding_cake_cpp.Remainder.Reopen.{register_files-folder}
use wedding_cake_cpp.Types.{add_base}
use wedding_cake_cpp.Donut.{
  suffixes_entry_size, hashes_order_entry_size, write_hashes_order_file_entry,
  write_suffixes_file_entry, new_calculator,
}
use wedding_cake_cpp.Manifest.{
  Manifest, Folder, new_manifest, unregistered, register_files, append_to_file,
}
use wedding_cake_cpp.ObjectFolder.{FileName, object_folder_single_offset}
use wedding_cake_cpp.Remainder.{
  Remainder, HashItem, Writing, new_remainder, hydrate_self_for_lookup, append_entries,
  append_entry, append_suffix_entry, append_hashes, remaining_capacity,
}

-- Nothing can be appended where no file is open.
append_to_file_closed :
    (m m' : Manifest) (h : Option ℕ) (bytes : List ℕ)
    → m.open_files_by_handle ≡ []
    → append_to_file m h bytes ≢ ok m'
unfolding append_to_file lookup
append_to_file_closed m m' none bytes closed = ground arith
append_to_file_closed m m' (some h) bytes closed = ground arith

append_suffix_entry-manifest :
    (d : Remainder) (item : HashItem) (w w' : Writing) (index : ℕ)
    → w.manifest.open_files_by_handle ≡ []
    → append_suffix_entry d item w ≡ ok (w', index)
    → w'.manifest.open_files_by_handle ≡ []
unfolding append_suffix_entry
append_suffix_entry-manifest d item w w' index closed e =
    let ((count, buffer), e₁, e₂) =
      >>=-eq-ok
        (write_suffixes_file_entry d.donut_entries_calculator item
          (add_base (record { value = w.local_pi_int }) d.first_global_pi) w.suffix_buffer)
        _ e in
    elim (Bool-cases (ltb 0 count)) [
      | inl some_bytes ↦
          let (m, e₃, _) =
            >>=-eq-ok (append_to_file w.manifest d.file_handle_suffix_entries (take count buffer)) _
              (rw some_bytes at e₂) in
          absurd (
            append_to_file_closed w.manifest m d.file_handle_suffix_entries (take count buffer)
              closed e₃)
      | inr no_bytes ↦ let e₃ = rw no_bytes at e₂ in ground (arith, e₃)
    ]

append_entries_closed :
    (d : Remainder) (item : HashItem) (items : List HashItem) (w w' : Writing)
    → w.manifest.open_files_by_handle ≡ []
    → append_entries d (item ∷ items) w ≢ ok w'
unfolding append_entries append_entry
append_entries_closed d item items w w' closed e =
    let (w₁, e₁, _) = >>=-eq-ok (append_entry d item w) _ e in
    let ((w₂, index), e₂, e₃) = >>=-eq-ok (append_suffix_entry d item w) _ e₁ in
    let (count, e₄, e₅) =
      >>=-eq-ok
        (write_hashes_order_file_entry d.donut_entries_calculator item index 2
          w₂.hashes_order_buffer)
        _ e₃ in
    let (m, e₆, _) =
      >>=-eq-ok (append_to_file w₂.manifest d.file_handle_hashes_order (take count.0 count.1)) _
        e₅ in
    append_to_file_closed w₂.manifest m d.file_handle_hashes_order (take count.0 count.1)
      (append_suffix_entry-manifest d item w w₂ index closed e₂) e₆

take_first :
    (n : ℕ) (item : HashItem) (items : List HashItem)
    → 0 < n
    → (rest : List HashItem) × (take n (item ∷ items) ≡ item ∷ rest)
take_first zero item items h = absurd (omega arith)
take_first (suc n) item items h = (take n items, refl)

new_remainder-closed :
    (n : ℕ) (path : FileName) (capacity : ℕ) (folder : Folder) (d : Remainder)
    → new_remainder n path capacity (some folder) ≡ ok d
    → d.st00_manifest.open_files_by_handle ≡ []
unfolding new_remainder new_manifest
new_remainder-closed n path capacity folder d e =
    let m : Manifest = register_files (unregistered folder) folder in
    let (offset, _, e₁) = >>=-eq-ok (object_folder_single_offset path) _ e in
    let (c, _, e₂) = >>=-eq-ok (new_calculator n 0 (record { value = offset }) capacity) _ e₁ in
    let (p, _, e₃) = >>=-eq-ok (hydrate_self_for_lookup c m.folder) _ e₂ in
    ground (arith, e₃, (register_files-folder (unregistered folder) folder).1)

-- A donut opened over an existing folder that has room left accepts no batch of one entry or
-- more: whatever the folder holds, append_hashes does not succeed, since no file of the folder
-- has been opened.
pub append_hashes-reopened :
    (n : ℕ) (path : FileName) (capacity : ℕ) (folder : Folder) (d : Remainder) (item : HashItem)
    (items : List HashItem) (r : Remainder × ℕ)
    → new_remainder n path capacity (some folder) ≡ ok d
    → 0 < remaining_capacity d
    → append_hashes d (item ∷ items) ≢ ok r
unfolding append_hashes
append_hashes-reopened n path capacity folder d item items r made room e =
    let closed = new_remainder-closed n path capacity folder d made in
    let taking : ℕ = min (length (item ∷ items)) (remaining_capacity d) in
    let (rest, first) = take_first taking item items (omega arith) in
    let c = d.donut_entries_calculator in
    let (_, _, e₁) =
      >>=-eq-ok (guard (leb (suffixes_entry_size c) (c.hash_bytes_count + 2)) assertion_failed) _
        e in
    let (_, _, e₂) =
      >>=-eq-ok (guard (leb (hashes_order_entry_size c 2) 2) assertion_failed) _ e₁ in
    let start : Writing = record {
      manifest = d.st00_manifest;
      local_pi_int = length d.forward_lookup_vector;
      next_suffix_file_index = length d.reverse_lookup_map;
      suffix_buffer = replicate (c.hash_bytes_count + 2) 0;
      hashes_order_buffer = replicate 2 0;
    } in
    let (w', e₃, _) = >>=-eq-ok (append_entries d (take taking (item ∷ items)) start) _ e₂ in
    append_entries_closed d item rest start w' closed (rw first at e₃)
