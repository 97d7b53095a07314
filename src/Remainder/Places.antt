-- ===== src/Remainder/Places.antt =====
-- Lookups in a stored donut: the two directions agree.
use wedding_cake_cpp.Base.{
  ℕ, ◌+◌, ◌-◌, ◌≤◌, ◌<◌, ◌≡◌, ◌≢◌, refl, ap, ◌∙◌, List, [], ◌∷◌, ◌++◌, append_assoc, append-nil,
  none, some, length, length-append, get_elem?, nat_Eq, list_Eq, ok, Option-cases, true, ◌⊎◌, inl,
  inr, arith,
}
use wedding_cake_cpp.Base.Dict.{lookup, insert}
use wedding_cake_cpp.Types.{
  Hash, HashItem, LocalPi, GlobalPi, add_base, global_pi_no_match, pi_no_match_val,
}
use wedding_cake_cpp.Lookup.{contains_pi}
use wedding_cake_cpp.Lookup.Index.{
  Indexes, Indexes-none, Indexes-insert, Indexes-empty, get_elem?-bound,
}
use wedding_cake_cpp.Remainder.{
  Remainder, insert_hashes, next_offset, forward_lookup, reverse_lookup,
}
use wedding_cake_cpp.Remainder.Durable.{IsStored}

-- The first place of a hash counts.
abbrev Earliest : ℕ → ℕ → Type 0
Earliest i j = j ≤ i

pub Indexes-insert_hashes :
    (items vec : List HashItem) (m : List (Hash × LocalPi))
    → Indexes Earliest vec m
    → Indexes Earliest (vec ++ items) (insert_hashes items (length vec) m)
unfolding insert_hashes
Indexes-insert_hashes [] vec m x = rw (append-nil vec) x
Indexes-insert_hashes (none ∷ items) vec m x =
    let grown = length-append vec (none ∷ []) in
    let e = append_assoc vec (none ∷ []) items in
    let rest = Indexes-insert_hashes items (vec ++ (none ∷ [])) m (Indexes-none vec m Earliest x) in
    rw (grown, e) at rest
Indexes-insert_hashes (some h ∷ items) vec m x =
    let grown = length-append vec (some h ∷ []) in
    let e = append_assoc vec (some h ∷ []) items in
    let m' = insert h (record { value = length vec }) m in
    let rest = Indexes-insert_hashes items (vec ++ (some h ∷ [])) m' (Indexes-insert vec m h x) in
    rw (grown, e) at rest

-- The map of a donut is that of its vector, in which a hash may repeat, and its indices are below
-- the sentinel.
pub record IsMapped (d : Remainder) : Type 0 where
  pub fits : length d.forward_lookup_vector ≤ d.capacity
  pub below : d.capacity + d.first_global_pi.value ≤ pi_no_match_val
  pub mapped : d.reverse_lookup_map ≡ insert_hashes d.forward_lookup_vector 0 []

pub IsStored-IsMapped : (d : Remainder) → IsStored d → IsMapped d
IsStored-IsMapped d s = record { fits = s.fits; below = s.below; mapped = s.mapped }

IsMapped-Indexes :
    (d : Remainder) → IsMapped d → Indexes Earliest d.forward_lookup_vector d.reverse_lookup_map
IsMapped-Indexes d s =
    rw s.mapped (Indexes-insert_hashes d.forward_lookup_vector [] [] (Indexes-empty Earliest))

add_base_below :
    (local : LocalPi) (base : GlobalPi)
    → local.value + base.value < pi_no_match_val
    → add_base local base ≡ record { value = local.value + base.value }
unfolding add_base
add_base_below local base h = ground arith

next_offset_below :
    (d : Remainder)
    → IsMapped d
    → (next_offset d).value ≡ length d.forward_lookup_vector + d.first_global_pi.value
unfolding next_offset add_base
next_offset_below d s = let fits = s.fits in let below = s.below in ground arith

inside_donut :
    (d : Remainder) (i : ℕ)
    → IsMapped d
    → i < length d.forward_lookup_vector
    → (add_base (record { value = i }) d.first_global_pi
        ≡ record { value = i + d.first_global_pi.value })
      × (contains_pi d.first_global_pi
            (next_offset d)
            (record { value = i + d.first_global_pi.value })
          ≡ true)
unfolding contains_pi
inside_donut d i s inside =
    let next = next_offset_below d s in
    (
      add_base_below (record { value = i }) d.first_global_pi (omega (arith, s.fits, s.below)),
      ground (arith, next),
    )

-- The entry at place i is found at the index i places after the first.
pub forward_lookup-at :
    (d : Remainder) (i : ℕ) (item : HashItem)
    → IsMapped d
    → get_elem? d.forward_lookup_vector i ≡ some item
    → forward_lookup d (add_base (record { value = i }) d.first_global_pi) ≡ ok item
unfolding forward_lookup
forward_lookup-at d i item s at =
    let inside = get_elem?-bound d.forward_lookup_vector i item at in
    let (e, c) = inside_donut d i s inside in
    let index : i + d.first_global_pi.value - d.first_global_pi.value ≡ i = omega arith in
    rw (e, c, index, at) refl

reverse_lookup_cases :
    (d : Remainder) (h : Hash)
    → ((lookup h d.reverse_lookup_map ≡ none) × (reverse_lookup d h ≡ global_pi_no_match))
      ⊎ ((local : LocalPi) × (lookup h d.reverse_lookup_map ≡ some local)
          × (reverse_lookup d h ≡ add_base local d.first_global_pi))
unfolding reverse_lookup
reverse_lookup_cases d h = elim (Option-cases (lookup h d.reverse_lookup_map)) [
  | inl missing ↦ inl (missing, ground (arith, missing))
  | inr (local, found) ↦ inr (local, found, ground (arith, found))
]

-- In a stored donut, if the reverse lookup of a hash finds an index, the forward lookup of that
-- index gives the hash.
pub forward_lookup-reverse_lookup :
    (d : Remainder) (h : Hash)
    → IsStored d
    → reverse_lookup d h ≢ global_pi_no_match
    → forward_lookup d (reverse_lookup d h) ≡ ok (some h)
forward_lookup-reverse_lookup d h s real = elim (reverse_lookup_cases d h) [
  | inl (missing, e) ↦ absurd (real e)
  | inr (local, found, e) ↦
      let m = IsStored-IsMapped d s in
      rw e (forward_lookup-at d local.value (some h) m ((IsMapped-Indexes d m).sound h local found))
]

-- In a donut whose map is that of its vector, in which hashes may repeat, and whose indices stay
-- below the sentinel, the reverse lookup of a hash gives the index of a place of the hash that
-- is not behind any other: for each place i of the hash, of a place j with j at most i.
pub reverse_lookup-earliest :
    (d : Remainder) (h : Hash) (i : ℕ)
    → IsMapped d
    → get_elem? d.forward_lookup_vector i ≡ some (some h)
    → (j : ℕ) × (j ≤ i)
      × (reverse_lookup d h ≡ record { value = j + d.first_global_pi.value })
      × (get_elem? d.forward_lookup_vector j ≡ some (some h))
reverse_lookup-earliest d h i s at =
    let x = IsMapped-Indexes d s in
    let (local, found, early) = x.complete h i at in
    let there = x.sound h local found in
    let inside = get_elem?-bound d.forward_lookup_vector local.value (some h) there in
    elim (reverse_lookup_cases d h) [
      | inl (missing, e) ↦ absurd (ground (arith, missing, found))
      | inr (other, found', e) ↦
          let same : other ≡ local = ground (arith, found, found') in
          (
            local.value,
            early,
            e
                ∙ ap (λ (t : LocalPi). add_base t d.first_global_pi) same
                ∙ (inside_donut d local.value s inside).0,
            there,
          )
    ]
