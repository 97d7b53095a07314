-- ===== src/Lookup/Index.antt =====
-- A reverse lookup map that tells where the hashes of a forward vector stand.
use wedding_cake_cpp.Base.{
  ℕ, zero, suc, ◌≤◌, ◌<◌, ◌≡◌, refl, ap, ◌⊎◌, inl, inr, ◌∙◌, List, [], ◌∷◌, ◌++◌, none, some,
  length, length-append, get_elem?, get_elem?-append_left, Bool-cases, Option-cases, true, list_eq,
  list_eq_iff, nat_Eq, list_Eq, arith,
}
use wedding_cake_cpp.Base.Dict.{
  lookup, assign, insert, lookup-assign, lookup-insert, length-insert_old,
}
use wedding_cake_cpp.Types.{Hash, HashItem, LocalPi}

-- Each entry of the map points at its hash, and each hash of the vector is in the map, at an index
-- that is related to the one where the hash was found.
pub record Indexes (R : ℕ → ℕ → Type 0) (vec : List HashItem) (m : List (Hash × LocalPi))
    : Type 0 where
  pub sound :
      (h : Hash) (local : LocalPi)
      → lookup h m ≡ some local
      → get_elem? vec local.value ≡ some (some h)
  pub complete :
      (h : Hash) (i : ℕ)
      → get_elem? vec i ≡ some (some h)
      → (local : LocalPi) × (lookup h m ≡ some local) × R i local.value

pub get_elem?-last :
    (vec : List HashItem) (item : HashItem)
    → get_elem? (vec ++ (item ∷ [])) (length vec) ≡ some item
get_elem?-last [] item = refl
get_elem?-last (x ∷ vec) item = get_elem?-last vec item

pub get_elem?-bound :
    (vec : List HashItem) (i : ℕ) (item : HashItem) → get_elem? vec i ≡ some item → i < length vec
get_elem?-bound [] i item h = cc
get_elem?-bound (x ∷ vec) zero item h = omega arith
get_elem?-bound (x ∷ vec) (suc i) item h = omega (arith, get_elem?-bound vec i item h)

-- The entry at an index of the grown vector: an old one, or the new one.
pub snoc_cases :
    (vec : List HashItem) (item found : HashItem) (i : ℕ)
    → get_elem? (vec ++ (item ∷ [])) i ≡ some found
    → (get_elem? vec i ≡ some found) ⊎ ((i ≡ length vec) × (found ≡ item))
snoc_cases [] item found zero h = inr (refl, ground (arith, h))
snoc_cases [] item found (suc i) h = cc
snoc_cases (x ∷ vec) item found zero h = inl h
snoc_cases (x ∷ vec) item found (suc i) h = elim (snoc_cases vec item found i h) [
  | inl old ↦ inl old
  | inr (e, f) ↦ inr (ap suc e, f)
]

module _ (vec : List HashItem) (m : List (Hash × LocalPi)) where
  -- An old entry of the map still points at its hash.
  kept_sound :
      (R : ℕ → ℕ → Type 0) (item : HashItem) (h : Hash) (local : LocalPi)
      → Indexes R vec m
      → lookup h m ≡ some local
      → get_elem? (vec ++ (item ∷ [])) local.value ≡ some (some h)
  kept_sound R item h local x e =
      let at = x.sound h local e in
      get_elem?-append_left vec (item ∷ []) local.value
        (get_elem?-bound vec local.value (some h) at)
      ∙ at

  pub Indexes-none : (R : ℕ → ℕ → Type 0) → Indexes R vec m → Indexes R (vec ++ (none ∷ [])) m
  Indexes-none R x = record {
    sound = λ h local e. kept_sound R none h local x e;
    complete = λ h i at. elim (snoc_cases vec none (some h) i at) [
      | inl old ↦ x.complete h i old
      | inr (e, f) ↦ absurd (ground (arith, f))
    ];
  }

  last_place :
      (h : Hash) (item : HashItem) (i : ℕ)
      → get_elem? (vec ++ (some h ∷ [])) i ≡ some item
      → i ≤ length vec
  last_place h item i at =
      omega
        (arith, get_elem?-bound (vec ++ (some h ∷ [])) i item at, length-append vec (some h ∷ []))

  module _ (h : Hash) where
    abbrev here : LocalPi
    here = record { value = length vec }

    -- After `m[h] = length vec` the map tells the last place of each hash.
    pub Indexes-assign : Indexes ◌≤◌ vec m → Indexes ◌≤◌ (vec ++ (some h ∷ [])) (assign h here m)
    Indexes-assign x = record {
      sound = λ k local e. elim (Bool-cases (list_eq h k)) [
        | inl same ↦
            let e' = rw (lookup-assign h k here m, same) at e in
            let hk = (list_eq_iff h k).0 same in ground (arith, e', hk, get_elem?-last vec (some h))
        | inr other ↦ kept_sound ◌≤◌ (some h) k local x (rw (lookup-assign h k here m, other) at e)
      ];
      complete = λ k i at. elim (Bool-cases (list_eq h k)) [
        | inl same ↦ (here, rw (lookup-assign h k here m, same) refl, last_place h (some k) i at)
        | inr other ↦ elim (snoc_cases vec (some h) (some k) i at) [
          | inl old ↦
              let (l, f, r) = x.complete k i old in (l, rw (lookup-assign h k here m, other) f, r)
          | inr (e, f) ↦ absurd (ground (arith, f, other, list_eq_iff h k))
        ]
      ];
    }

    -- After `m.insert({h, length vec})` it tells the first place.
    pub Indexes-insert :
        Indexes (λ i j. j ≤ i) vec m
        → Indexes (λ i j. j ≤ i) (vec ++ (some h ∷ [])) (insert h here m)
    Indexes-insert x = elim (Option-cases (lookup h m)) [
      | inl new ↦ record {
        sound = λ k local e. elim (Bool-cases (list_eq h k)) [
          | inl same ↦
              let e' = rw (lookup-insert h k here m, same, new) at e in
              ground (arith, e', (list_eq_iff h k).0 same, get_elem?-last vec (some h))
          | inr other ↦
              kept_sound (λ i j. j ≤ i) (some h) k local x
                (rw (lookup-insert h k here m, other) at e)
        ];
        complete = λ k i at. elim (snoc_cases vec (some h) (some k) i at) [
          | inl old ↦
              let (l, f, r) = x.complete k i old in
              elim (Bool-cases (list_eq h k)) [
                | inl same ↦ absurd (ground (arith, f, new, (list_eq_iff h k).0 same))
                | inr other ↦ (l, rw (lookup-insert h k here m, other) f, r)
              ]
          | inr (e, f) ↦
              let same : list_eq h k ≡ true = ground (arith, f, list_eq_iff h k) in
              (here, rw (lookup-insert h k here m, same, new) refl, omega (arith, e))
        ];
      }
      | inr (old, found) ↦
          let kept = length-insert_old h here old m found in
          record {
            sound = λ k local e. kept_sound (λ i j. j ≤ i) (some h) k local x (rw kept at e);
            complete = λ k i at. elim (snoc_cases vec (some h) (some k) i at) [
              | inl there ↦ let (l, f, r) = x.complete k i there in (l, rw kept f, r)
              | inr (e, f) ↦
                  let k_is_h : k ≡ h = ground (arith, f) in
                  let bound = get_elem?-bound vec old.value (some h) (x.sound h old found) in
                  (old, rw (kept, k_is_h) found, omega (arith, e))
            ];
          }
    ]

-- An empty map tells the places of an empty vector.
pub Indexes-empty : (R : ℕ → ℕ → Type 0) → Indexes R [] []
unfolding lookup
Indexes-empty R = record {
  sound = λ h local e. absurd (ground (arith, e));
  complete = λ h i at. absurd (ground (arith, at));
}
