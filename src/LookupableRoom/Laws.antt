-- ===== src/LookupableRoom/Laws.antt =====
-- A room of donuts that follow each other asks the donut that has the index.
use wedding_cake_cpp.Base.{
  ℕ, ◌≤◌, ◌<◌, ◌≡◌, ◌≢◌, refl, sym, ap, ◌∙◌, List, [], ◌∷◌, ◌++◌, append_assoc, append-nil, All,
  true, false, some, arith,
}
use wedding_cake_cpp.Types.{Hash, GlobalPi, pi_no_match_val}
use wedding_cake_cpp.Lookup.{Lookupable, contains_pi}
use wedding_cake_cpp.BufferRoom.{BufferRoom}
use wedding_cake_cpp.LookupableRoom.{
  first_offset, back, next_offset, reverse, search, forward_lookup, search_hash, reverse_lookup,
}

-- The donuts begin at `start`, and each begins where the one before it ends.
abbrev pub Follows : ℕ → List Lookupable → Type 0
Follows start [] = Unit {0}
Follows start (donut ∷ donuts) =
    (donut.first_offset.value ≡ start)
    × (start ≤ donut.next_offset.value)
    × Follows donut.next_offset.value donuts

Follows-at :
    (start : ℕ) (before : List Lookupable) (donut : Lookupable) (after : List Lookupable)
    → Follows start (before ++ (donut ∷ after))
    → (start ≤ donut.first_offset.value)
      × (donut.first_offset.value ≤ donut.next_offset.value)
      × Follows donut.next_offset.value after
Follows-at start [] donut after (e, h, rest) = (omega arith, omega arith, rest)
Follows-at start (x ∷ before) donut after (e, h, rest) =
    let (p, q, r) = Follows-at x.next_offset.value before donut after rest in (omega arith, q, r)

back_bound :
    (donut : Lookupable) (donuts : List Lookupable)
    → Follows donut.next_offset.value donuts
    → donut.next_offset.value ≤ (back donut donuts).next_offset.value
unfolding back
back_bound donut [] f = omega arith
back_bound donut (x ∷ donuts) (e, h, rest) = omega (arith, back_bound x donuts rest)

back-append :
    (x : Lookupable) (before : List Lookupable) (donut : Lookupable) (after : List Lookupable)
    → back x (before ++ (donut ∷ after)) ≡ back donut after
unfolding back
back-append x [] donut after = refl
back-append x (y ∷ before) donut after = back-append y before donut after

reverse-append : (xs ys : List Lookupable) → reverse (xs ++ ys) ≡ reverse ys ++ reverse xs
reverse-append [] ys = sym (append-nil (reverse ys))
reverse-append (x ∷ xs) ys =
    ap (λ (t : List Lookupable). t ++ (x ∷ [])) (reverse-append xs ys)
    ∙ append_assoc (reverse ys) (reverse xs) (x ∷ [])

-- Donuts that begin behind the index are passed over.
search-later :
    (global_pi : GlobalPi) (start : ℕ) (later rest : List Lookupable)
    → Follows start later
    → global_pi.value < start
    → search (reverse later ++ rest) global_pi ≡ search rest global_pi
unfolding search contains_pi
search-later global_pi start [] rest f h = refl
search-later global_pi start (x ∷ later) rest (e, le, f) h =
    let skip = search-later global_pi x.next_offset.value later (x ∷ rest) f (omega arith) in
    ap (λ (t : List Lookupable). search t global_pi) (append_assoc (reverse later) (x ∷ []) rest)
    ∙ skip
    ∙ ground arith

contains_cases :
    (first next global_pi : GlobalPi)
    → contains_pi first next global_pi ≡ true
    → (first.value ≤ global_pi.value) × (global_pi.value < next.value)
unfolding contains_pi
contains_cases first next global_pi h = (ground arith, ground arith)

contains_pi-true :
    (first next global_pi : GlobalPi)
    → first.value ≤ global_pi.value
    → global_pi.value < next.value
    → contains_pi first next global_pi ≡ true
unfolding contains_pi
contains_pi-true first next global_pi p q = ground arith

module _ (global_pi : GlobalPi) (start : ℕ) (donut : Lookupable) (after : List Lookupable) where
  search-donut :
      (before : List Lookupable)
      → Follows start (before ++ (donut ∷ after))
      → contains_pi donut.first_offset donut.next_offset global_pi ≡ true
      → search (reverse (before ++ (donut ∷ after))) global_pi
        ≡ some (donut.forward_lookup global_pi)
  unfolding search
  search-donut before f inside =
      let (_, _, later) = Follows-at start before donut after f in
      let (_, below) = contains_cases donut.first_offset donut.next_offset global_pi inside in
      ap (λ (t : List Lookupable). search t global_pi)
        (reverse-append before (donut ∷ after)
          ∙ append_assoc (reverse after) (donut ∷ []) (reverse before))
      ∙ search-later global_pi donut.next_offset.value after (donut ∷ reverse before) later below
      ∙ simp inside

  -- In a room of donuts that each begin where the one before ends, the lookup of an index asks the
  -- donut whose range contains it, wherever it stands among the donuts.
  pub forward_lookup-donut :
      (room : BufferRoom Lookupable) (before : List Lookupable)
      → Follows start (before ++ (donut ∷ after))
      → contains_pi donut.first_offset donut.next_offset global_pi ≡ true
      → forward_lookup
          (record room { items = before ++ (donut ∷ after); is_discarding = false })
          global_pi
        ≡ donut.forward_lookup global_pi
  unfolding forward_lookup first_offset next_offset
  forward_lookup-donut room [] f inside =
      let (_, _, later) = Follows-at start [] donut after f in
      let (low, high) = contains_cases donut.first_offset donut.next_offset global_pi inside in
      let within =
        contains_pi-true donut.first_offset (back donut after).next_offset global_pi low
          (omega (arith, back_bound donut after later)) in
      rw (within, search-donut [] f inside) refl
  forward_lookup-donut room (x ∷ before) f inside =
      let (from, _, later) = Follows-at start (x ∷ before) donut after f in
      let (low, high) = contains_cases donut.first_offset donut.next_offset global_pi inside in
      let within =
        contains_pi-true x.first_offset (back donut after).next_offset global_pi
          (omega (arith, f.0)) (omega (arith, back_bound donut after later)) in
      rw (back-append x before donut after, within, search-donut (x ∷ before) f inside) refl

-- The donut does not know the hash.
abbrev pub Misses : Hash → Lookupable → Type 0
Misses hash donut = (donut.reverse_lookup hash).value ≡ pi_no_match_val

search_hash-donut :
    (hash : Hash) (before after : List Lookupable) (donut : Lookupable)
    → All (Misses hash) before
    → (donut.reverse_lookup hash).value ≢ pi_no_match_val
    → search_hash (before ++ (donut ∷ after)) hash ≡ donut.reverse_lookup hash
unfolding search_hash
search_hash-donut hash [] after donut miss found = ground arith
search_hash-donut hash (x ∷ before) after donut (m, miss) found =
    let rest = search_hash-donut hash before after donut miss found in ground arith

-- The lookup of a hash in a room gives the answer of the oldest donut that knows the hash.
pub reverse_lookup-donut :
    (room : BufferRoom Lookupable) (hash : Hash) (before after : List Lookupable)
    (donut : Lookupable)
    → All (Misses hash) before
    → (donut.reverse_lookup hash).value ≢ pi_no_match_val
    → reverse_lookup (record room { items = before ++ (donut ∷ after); is_discarding = false }) hash
      ≡ donut.reverse_lookup hash
unfolding reverse_lookup
reverse_lookup-donut room hash before after donut miss found =
    search_hash-donut hash before after donut miss found
