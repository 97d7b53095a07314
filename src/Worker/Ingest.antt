-- ===== src/Worker/Ingest.antt =====
-- A whole round of the worker.
use wedding_cake_cpp.Base.{
  ℕ, zero, suc, ◌≤◌, ◌≡◌, inl, inr, refl, sym, ap, subst, ◌∙◌, List, [], ◌∷◌, ◌++◌, append-nil,
  Bool, true, none, some, nat_eq, length, Result, ok, assertion_failed, guard, guard-eq-ok,
  Result-cases, Bool-cases, leb, >>=-eq-ok, arith,
}
use wedding_cake_cpp.Types.{HashItem}
use wedding_cake_cpp.Remainder.{remaining_capacity}
use wedding_cake_cpp.TierFolder.{IngesterTierFolder, Disk, directory_of}
use wedding_cake_cpp.Worker.{
  Round, waiting, stuck, moved, ingest_round, Drained, after_round, ingest, after_ingest,
  worker_lambda,
}
use wedding_cake_cpp.Worker.Order.{
  tier_entries, IsNewDisk, Keeps, RoundKeeps, ingest_round-RoundKeeps,
}

new_disk :
    (tier tier' : IngesterTierFolder) → tier'.disk ≡ tier.disk → IsNewDisk tier → IsNewDisk tier'
new_disk tier tier' e new path = ap (λ (t : Disk). (directory_of path t).st00) e ∙ new path

after_round-Keeps :
    (tier tier' : IngesterTierFolder) (ram_buffer rest : List HashItem)
    (again : IngesterTierFolder → List HashItem → Result Drained) (round : Round)
    → ((t : IngesterTierFolder)
        → (r : List HashItem) → IsNewDisk t
        → again t r ≡ ok (some (tier', rest))
        → Keeps t r tier' rest)
    → IsNewDisk tier
    → RoundKeeps tier ram_buffer round
    → after_round again round ≡ ok (some (tier', rest))
    → Keeps tier ram_buffer tier' rest
after_round-Keeps tier tier' ram_buffer rest again waiting ih new k e = absurd (ground (arith, e))
after_round-Keeps tier tier' ram_buffer rest again (stuck t r) ih new k e =
    let same_tier : t ≡ tier' = ground (arith, e) in
    let same_rest : r ≡ rest = ground (arith, e) in
    subst (λ (t : IngesterTierFolder). Keeps tier ram_buffer t rest) same_tier
      (subst (Keeps tier ram_buffer t) same_rest k)
after_round-Keeps tier tier' ram_buffer rest again (moved t r) ih new ((k, disk), _) e =
    let (later, disk') = ih t r (new_disk tier t disk new) e in (later ∙ k, disk' ∙ disk)

pub ingest-Keeps :
    (fuel : ℕ) (tier tier' : IngesterTierFolder) (ram_buffer rest : List HashItem)
    → IsNewDisk tier
    → ingest fuel tier ram_buffer ≡ ok (some (tier', rest))
    → Keeps tier ram_buffer tier' rest
unfolding ingest
ingest-Keeps fuel tier tier' [] rest new e =
    let same_tier : tier ≡ tier' = ground (arith, e) in
    let same_rest : [] ≡ rest = ground (arith, e) in
    subst (λ (t : IngesterTierFolder). Keeps tier [] t rest) same_tier
      (subst (Keeps tier [] tier) same_rest (refl, refl))
ingest-Keeps zero tier tier' (item ∷ ram_buffer) rest new e =
    let same_tier : tier ≡ tier' = ground (arith, e) in
    let same_rest : item ∷ ram_buffer ≡ rest = ground (arith, e) in
    subst (λ (t : IngesterTierFolder). Keeps tier (item ∷ ram_buffer) t rest) same_tier
      (subst (Keeps tier (item ∷ ram_buffer) tier) same_rest (refl, refl))
ingest-Keeps (suc fuel) tier tier' (item ∷ ram_buffer) rest new e =
    let (round, e₁, e₂) = >>=-eq-ok (ingest_round tier (item ∷ ram_buffer)) _ e in
    after_round-Keeps tier tier' (item ∷ ram_buffer) rest (λ t r. ingest fuel t r) round
      (λ t r n f. ingest-Keeps fuel t tier' r rest n f) new
      (ingest_round-RoundKeeps tier (item ∷ ram_buffer) round new e₁) e₂

emptied : (rest : List HashItem) → nat_eq (length rest) 0 ≡ true → rest ≡ []
emptied [] h = refl
emptied (x ∷ rest) h = absurd (ground (arith, h))

after_ingest-some :
    (result : Drained) (tier' : IngesterTierFolder) (rest : List HashItem) (capacity : ℕ)
    → after_ingest result ≡ ok (some (tier', rest, capacity))
    → (result ≡ some (tier', [])) × (rest ≡ []) × (capacity ≡ remaining_capacity tier'.hatchling)
after_ingest-some none tier' rest capacity e = absurd (ground (arith, e))
after_ingest-some (some (t, r)) tier' rest capacity e =
    let (u, k, e₁) = >>=-eq-ok (guard (nat_eq (length r) 0) assertion_failed) _ e in
    let none_left = emptied r (guard-eq-ok (nat_eq (length r) 0) assertion_failed u k) in
    (ground (arith, e₁, none_left), ground (arith, e₁, none_left), ground (arith, e₁))

-- If a round of the worker returns, no queued entry is left, the tier holds the entries that it
-- held before, the oldest donut first, followed by the queued ones in their order, however many
-- donuts they filled, and the capacity that it reports is that of the hatchling. No object
-- folder of an earlier run is left on the disk.
pub worker_lambda-entries :
    (tier tier' : IngesterTierFolder) (ram_buffer rest : List HashItem) (is_flushing : Bool)
    (capacity : ℕ)
    → IsNewDisk tier
    → worker_lambda tier ram_buffer is_flushing ≡ ok (some (tier', rest, capacity))
    → (rest ≡ [])
      × (tier_entries tier' ≡ tier_entries tier ++ ram_buffer)
      × (capacity ≡ remaining_capacity tier'.hatchling)
unfolding worker_lambda
worker_lambda-entries tier tier' [] rest is_flushing capacity new e =
    let same : tier ≡ tier' = ground (arith, e) in
    (
      ground (arith, e),
      ap (λ (t : IngesterTierFolder). tier_entries t) (sym same) ∙ sym (append-nil _),
      ground (arith, e),
    )
worker_lambda-entries tier tier' (item ∷ ram_buffer) rest is_flushing capacity new e =
    let (result, e₁, e₂) =
      >>=-eq-ok (ingest (suc (length ram_buffer)) tier (item ∷ ram_buffer)) _ e in
    let (all, empty, room) = after_ingest-some result tier' rest capacity e₂ in
    let (kept, _) =
      ingest-Keeps (suc (length ram_buffer)) tier tier' (item ∷ ram_buffer) [] new
        (e₁ ∙ ap (λ (t : Drained). ok t) all) in
    (empty, sym (append-nil _) ∙ kept, room)

after_round-same :
    (tier : IngesterTierFolder) (item : HashItem) (ram_buffer : List HashItem)
    (again again' : IngesterTierFolder → List HashItem → Result Drained) (round : Round)
    → ((t : IngesterTierFolder)
        → (r : List HashItem) → IsNewDisk t
        → length r ≤ length ram_buffer
        → again t r ≡ again' t r)
    → IsNewDisk tier
    → RoundKeeps tier (item ∷ ram_buffer) round
    → after_round again round ≡ after_round again' round
after_round-same tier item ram_buffer again again' waiting same new k = refl
after_round-same tier item ram_buffer again again' (stuck t r) same new k = refl
after_round-same tier item ram_buffer again again' (moved t r) same new ((k, disk), short) =
    elim (Bool-cases (leb (suc (length ram_buffer)) (length r))) [
      | inl long ↦ absurd (ground (arith, short (ground (arith, long))))
      | inr less ↦ same t r (new_disk tier t disk new) (ground (arith, less))
    ]

-- The ingestion loop ends after as many rounds as there are entries: any greater count of rounds
-- gives the same result, since each round but the last takes an entry. No object folder of an
-- earlier run is left on the disk.
pub ingest_enough :
    (fuel more : ℕ) (tier : IngesterTierFolder) (ram_buffer : List HashItem)
    → IsNewDisk tier
    → length ram_buffer ≤ fuel
    → fuel ≤ more
    → ingest more tier ram_buffer ≡ ingest fuel tier ram_buffer
unfolding ingest
ingest_enough fuel more tier [] new h le = refl
ingest_enough zero more tier (item ∷ ram_buffer) new h le = absurd (omega arith)
ingest_enough (suc fuel) zero tier (item ∷ ram_buffer) new h le = absurd (omega arith)
ingest_enough (suc fuel) (suc more) tier (item ∷ ram_buffer) new h le =
    elim (Result-cases (ingest_round tier (item ∷ ram_buffer))) [
      | inl (round, e) ↦
          let same =
            after_round-same tier item ram_buffer (λ t r. ingest more t r) (λ t r. ingest fuel t r)
              round (λ t r n l. ingest_enough fuel more t r n (omega arith) (omega arith)) new
              (ingest_round-RoundKeeps tier (item ∷ ram_buffer) round new e) in
          rw e same
      | inr (error, e) ↦ rw e refl
    ]
