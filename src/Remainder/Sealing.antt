-- ===== src/Remainder/Sealing.antt =====
-- apps/wedding_cake/include/ingester_evolver_types.hpp: seal_if_full.
use wedding_cake_cpp.Base.{
  ℕ, ◌≡◌, refl, sym, ◌<◌, ◌∙◌, Option, none, some, inl, inr, Bool-cases, nat_eq, nat_eq_iff, length,
  nat_Eq, string_Eq, list_Eq, arith,
}
use wedding_cake_cpp.Manifest.{Manifest, close_file, finish_and_seal, flush}
use wedding_cake_cpp.Remainder.{Remainder, seal_if_full}
use wedding_cake_cpp.Remainder.Durable.{IsStored}

close_file-folder : (m : Manifest) (h : Option ℕ) → (close_file m h).folder ≡ m.folder
unfolding close_file
close_file-folder m none = refl
close_file-folder m (some h) = refl

sealed_manifest : Remainder → Manifest
sealed_manifest d = finish_and_seal (
    close_file (close_file d.st00_manifest d.file_handle_suffix_entries) d.file_handle_hashes_order)

sealed_manifest-folder : (d : Remainder) → (sealed_manifest d).folder ≡ d.st00_manifest.folder
unfolding sealed_manifest finish_and_seal flush
sealed_manifest-folder d =
    close_file-folder (close_file d.st00_manifest d.file_handle_suffix_entries)
      d.file_handle_hashes_order
    ∙ close_file-folder d.st00_manifest d.file_handle_suffix_entries

full-IsStored :
    (d : Remainder)
    → length d.forward_lookup_vector ≡ d.capacity
    → IsStored d
    → IsStored (record d { st00_manifest = sealed_manifest d })
full-IsStored d full s = record {
  ingester = s.ingester;
  first = s.first;
  made = s.made;
  named_by = s.named_by;
  items = s.items;
  fits = s.fits;
  small = s.small;
  local_fits = s.local_fits;
  below = s.below;
  mapped = s.mapped;
  counted = s.counted;
  order_file = rw (sealed_manifest-folder d) s.order_file;
  suffix_file = rw (sealed_manifest-folder d) s.suffix_file;
  streams = λ h. absurd (omega arith);
}

-- Sealing changes the manifest alone, and a manifest is sealed exactly when the donut is full.
pub record SealsTo (d d' : Remainder) : Type 0 where
  pub stored : IsStored d'
  pub vector : d'.forward_lookup_vector ≡ d.forward_lookup_vector
  pub mapped : d'.reverse_lookup_map ≡ d.reverse_lookup_map
  pub capacity : d'.capacity ≡ d.capacity
  pub path : d'.object_path ≡ d.object_path
  pub first : d'.first_global_pi ≡ d.first_global_pi
  pub calculator : d'.donut_entries_calculator ≡ d.donut_entries_calculator
  pub sealed :
      d'.st00_manifest.finished_sealed ≡ nat_eq (length d'.forward_lookup_vector) d'.capacity

pub seal_if_full-SealsTo : (d : Remainder) → IsStored d → SealsTo d (seal_if_full d)
unfolding seal_if_full sealed_manifest finish_and_seal flush
seal_if_full-SealsTo d s = elim (Bool-cases (nat_eq (length d.forward_lookup_vector) d.capacity)) [
  | inl full ↦ rw full (record {
    stored = full-IsStored d ((nat_eq_iff _ _).0 full) s;
    vector = refl;
    mapped = refl;
    capacity = refl;
    path = refl;
    first = refl;
    calculator = refl;
    sealed = sym full;
  })
  | inr free ↦ rw free (record {
    stored = s;
    vector = refl;
    mapped = refl;
    capacity = refl;
    path = refl;
    first = refl;
    calculator = refl;
    sealed =
        let some_room : length d.forward_lookup_vector < d.capacity =
          ground (arith, free, s.fits) in
        (s.streams some_room).unsealed ∙ sym free;
  })
]
