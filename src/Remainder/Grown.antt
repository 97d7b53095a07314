-- ===== src/Remainder/Grown.antt =====
-- What an accepted batch makes of any donut, stored or not.
use wedding_cake_cpp.Base.{
  ℕ, subst, sym, [], some, get_elem?, Bool-cases, inl, inr, nat_eq, ◌+◌, ◌≤◌, ◌≡◌, ap, ◌∙◌, List,
  ◌++◌, min, leb, length, take, replicate, ok, assertion_failed, guard, guard-eq-ok, >>=-eq-ok,
  arith, nat_Eq, list_Eq,
}
use native.Mathlib.Nat.{zero-add}
use wedding_cake_cpp.Types.{Hash, HashItem, GlobalPi}
use wedding_cake_cpp.Manifest.{Manifest}
use wedding_cake_cpp.Donut.{hashes_order_entry_size, suffixes_entry_size}
use wedding_cake_cpp.Remainder.{
  Remainder, Writing, append_hashes, append_entries, remaining_capacity, seal_if_full,
  insert_hashes, reverse_lookup,
}
use wedding_cake_cpp.Remainder.Durable.{insert_hashes-append}
use wedding_cake_cpp.Remainder.Places.{IsMapped, reverse_lookup-earliest}

-- The donut with some more entries in memory, and its manifest after they were written.
abbrev pub grown : Remainder → List HashItem → Manifest → Remainder
grown d taken m = record d {
  st00_manifest = m;
  reverse_lookup_map = insert_hashes taken (length d.forward_lookup_vector) d.reverse_lookup_map;
  forward_lookup_vector = d.forward_lookup_vector ++ taken;
}

-- Inversion of a call that succeeds.
pub append_hashes-grown :
    (d d' : Remainder) (ram_buffer : List HashItem) (n : ℕ)
    → append_hashes d ram_buffer ≡ ok (d', n)
    → (m : Manifest) × (n ≡ min (length ram_buffer) (remaining_capacity d))
      × (d' ≡ seal_if_full (grown d (take n ram_buffer) m))
      × (length (d.forward_lookup_vector ++ take n ram_buffer) ≤ d.capacity)
unfolding append_hashes
append_hashes-grown d d' ram_buffer n e =
    let c = d.donut_entries_calculator in
    let taking : ℕ = min (length ram_buffer) (remaining_capacity d) in
    let taken : List HashItem = take taking ram_buffer in
    let (_, _, e₁) =
      >>=-eq-ok (guard (leb (suffixes_entry_size c) (c.hash_bytes_count + 2)) assertion_failed) _
        e in
    let (_, _, e₂) =
      >>=-eq-ok (guard (leb (hashes_order_entry_size c 2) 2) assertion_failed) _ e₁ in
    let start : Writing = record {
      manifest = d.st00_manifest;
      local_pi_int = length d.forward_lookup_vector;
      next_suffix_file_index = length d.reverse_lookup_map;
      suffix_buffer = replicate (c.hash_bytes_count + 2) 0;
      hashes_order_buffer = replicate 2 0;
    } in
    let (w, _, e₃) = >>=-eq-ok (append_entries d taken start) _ e₂ in
    let (u, fits, e₄) =
      >>=-eq-ok
        (guard (leb (length (d.forward_lookup_vector ++ taken)) d.capacity) assertion_failed) _
        e₃ in
    let count : n ≡ taking = ground (arith, e₄) in
    let same : d' ≡ seal_if_full (grown d taken w.manifest) = ground (arith, e₄) in
    (
      w.manifest,
      count,
      rw count same,
      rw count (ground (arith, guard-eq-ok _ assertion_failed u fits)),
    )

pub seal_if_full-vector :
    (d : Remainder) → (seal_if_full d).forward_lookup_vector ≡ d.forward_lookup_vector
unfolding seal_if_full
seal_if_full-vector d = ground arith

seal_if_full-first : (d : Remainder) → (seal_if_full d).first_global_pi ≡ d.first_global_pi
unfolding seal_if_full
seal_if_full-first d = ground arith

seal_if_full-IsMapped : (d : Remainder) → IsMapped d → IsMapped (seal_if_full d)
unfolding seal_if_full
seal_if_full-IsMapped d h = elim (Bool-cases (nat_eq (length d.forward_lookup_vector) d.capacity)) [
  | inl full ↦ rw full (record { fits = h.fits; below = h.below; mapped = h.mapped })
  | inr free ↦ rw free h
]

-- Hashes may repeat.
append_hashes-IsMapped :
    (d d' : Remainder) (ram_buffer : List HashItem) (n : ℕ)
    → IsMapped d
    → append_hashes d ram_buffer ≡ ok (d', n)
    → IsMapped d'
append_hashes-IsMapped d d' ram_buffer n h e =
    let (m, count, same, fits) = append_hashes-grown d d' ram_buffer n e in
    let vec = d.forward_lookup_vector in
    let taken = take n ram_buffer in
    rw same (
      seal_if_full-IsMapped (grown d taken m) (record {
        fits = fits;
        below = h.below;
        mapped =
            ap (insert_hashes taken (length vec)) h.mapped
            ∙ ap (λ (k : ℕ). insert_hashes taken k (insert_hashes vec 0 []))
                (sym (zero-add (length vec)))
            ∙ sym (insert_hashes-append vec taken 0 []);
      }))

abbrev FoundAt : Remainder → Hash → ℕ → GlobalPi → List HashItem → Type 0
FoundAt d h i first vec =
    (j : ℕ) × (j ≤ i)
    × (reverse_lookup d h ≡ record { value = j + first.value })
    × (get_elem? vec j ≡ some (some h))

-- After a successful call of append_hashes, in whose batch hashes may repeat each other or those
-- of the donut, on a donut whose map is that of its vector and whose indices stay below the
-- sentinel, the reverse lookup of a hash that stands at place i of the old vector followed by
-- the taken hashes gives the index of a place j of the hash there with j at most i.
pub append_hashes-earliest :
    (d d' : Remainder) (ram_buffer : List HashItem) (n : ℕ) (h : Hash) (i : ℕ)
    → IsMapped d
    → append_hashes d ram_buffer ≡ ok (d', n)
    → get_elem? (d.forward_lookup_vector ++ take n ram_buffer) i ≡ some (some h)
    → (j : ℕ) × (j ≤ i)
      × (reverse_lookup d' h ≡ record { value = j + d.first_global_pi.value })
      × (get_elem? (d.forward_lookup_vector ++ take n ram_buffer) j ≡ some (some h))
append_hashes-earliest d d' ram_buffer n h i mapped e at =
    let (m, count, same, fits) = append_hashes-grown d d' ram_buffer n e in
    let g = grown d (take n ram_buffer) m in
    let vec : d'.forward_lookup_vector ≡ d.forward_lookup_vector ++ take n ram_buffer =
      ap (λ (t : Remainder). t.forward_lookup_vector) same ∙ seal_if_full-vector g in
    let first : d'.first_global_pi ≡ d.first_global_pi =
      ap (λ (t : Remainder). t.first_global_pi) same ∙ seal_if_full-first g in
    let at' : get_elem? d'.forward_lookup_vector i ≡ some (some h) =
      ap (λ (t : List HashItem). get_elem? t i) vec ∙ at in
    let found =
      reverse_lookup-earliest d' h i (append_hashes-IsMapped d d' ram_buffer n mapped e) at' in
    subst (λ (t : List HashItem). FoundAt d' h i d.first_global_pi t) vec
      (subst (λ (g : GlobalPi). FoundAt d' h i g d'.forward_lookup_vector) first found)
