-- ===== src/Types/Examples.antt =====
-- Indices and hashes at concrete values.
use wedding_cake_cpp.Base.{ℕ, ◌≡◌, [], ◌∷◌, not, ◌||◌, list_eq, nat_Eq, arith}
use wedding_cake_cpp.Types.{
  add_base, sub_base, sub_local, distance, hash_lt, sub_base-add_base, hash_lt_trichotomy,
}

sub_base-add_base_example :
    (sub_base
        (add_base (record { value = 5 }) (record { value = 65535 }))
        (record { value = 65535 })
      ≡ record { value = 5 })
    × (sub_local (add_base (record { value = 5 }) (record { value = 65535 })) (record { value = 5 })
        ≡ record { value = 65535 })
    × (distance
          (add_base (record { value = 5 }) (record { value = 65535 }))
          (record { value = 65535 })
        ≡ 5)
sub_base-add_base_example =
    sub_base-add_base (record { value = 5 }) (record { value = 65535 }) (omega arith)

hash_lt_trichotomy_example :
    hash_lt (1 ∷ 2 ∷ []) (1 ∷ 3 ∷ [])
    ≡ not (list_eq {A = ℕ} (1 ∷ 2 ∷ []) (1 ∷ 3 ∷ []) || hash_lt (1 ∷ 3 ∷ []) (1 ∷ 2 ∷ []))
hash_lt_trichotomy_example = hash_lt_trichotomy (1 ∷ 2 ∷ []) (1 ∷ 3 ∷ [])
