-- ===== src/ShallowTree/Members.antt =====
-- include/wedding_cake/shallow_tree.hpp: the items of a bucket.
use wedding_cake_cpp.Base.{
  ℕ, zero, suc, ◌<◌, ◌≡◌, refl, ap, sym, subst, ◌∙◌, List, [], ◌∷◌, Bool, true, false, ◌⊎◌, inl,
  inr, nat_eq, nat_eq_iff, length, All, Bool-cases, set, get_or,
}
use wedding_cake_cpp.ShallowTree.{HashLocalPresentation, Items, byte_of}
use wedding_cake_cpp.ShallowTree.Buckets.{bucket, buckets_from}
use wedding_cake_cpp.ShallowTree.Masks.{agrees, agrees-set, agrees_other}

module _ {A : Type 0} where
  abbrev pub In : A → List A → Type 0
  In x [] = ⊥
  In x (y ∷ ys) = (x ≡ y) ⊎ In x ys

  pub In-All {κ} : (P : A → Type κ) (xs : List A) (x : A) → All P xs → In x xs → P x
  In-All P [] x h i = absurd i
  In-All P (y ∷ ys) x h (inl e) = subst P (sym e) h.0
  In-All P (y ∷ ys) x h (inr i) = In-All P ys x h.1 i

  pub All-In {κ} : (P : A → Type κ) (xs : List A) → ((x : A) → In x xs → P x) → All P xs
  All-In P [] h = tt
  All-In P (y ∷ ys) h = (h y (inl refl), All-In P ys (λ x i. h x (inr i)))

bucket-cons :
    (b v : ℕ) (y : HashLocalPresentation) (input : Items)
    → ((byte_of b y ≡ v) × (bucket b v (y ∷ input) ≡ y ∷ bucket b v input))
      ⊎ (bucket b v (y ∷ input) ≡ bucket b v input)
unfolding bucket
bucket-cons b v y input = elim (Bool-cases (nat_eq (byte_of b y) v)) [
  | inl e ↦ inl ((nat_eq_iff (byte_of b y) v).0 e, rw e refl)
  | inr e ↦ inr (rw e refl)
]

-- A bucket holds items of the input whose byte is its value.
pub In-bucket :
    (b v : ℕ) (input : Items) (x : HashLocalPresentation)
    → In x (bucket b v input)
    → In x input × (byte_of b x ≡ v)
unfolding bucket
In-bucket b v [] x i = absurd i
In-bucket b v (y ∷ input) x i = elim (bucket-cons b v y input) [
  | inl (e, c) ↦
      let i' : In x (y ∷ bucket b v input) = subst (In x) c i in
      elim i' [
        | inl s ↦ (inl s, ap (byte_of b) s ∙ e)
        | inr j ↦ let (k, g) = In-bucket b v input x j in (inr k, g)
      ]
  | inr c ↦
      let i' : In x (bucket b v input) = subst (In x) c i in
      let (k, g) = In-bucket b v input x i' in (inr k, g)
]

-- Each item of the input is in the bucket of its byte.
pub bucket-In :
    (b v : ℕ) (input : Items) (x : HashLocalPresentation)
    → In x input
    → byte_of b x ≡ v
    → In x (bucket b v input)
unfolding bucket
bucket-In b v [] x i e = absurd i
bucket-In b v (y ∷ input) x (inl s) e =
    let here : nat_eq (byte_of b y) v ≡ true =
      (nat_eq_iff (byte_of b y) v).1 (ap (byte_of b) (sym s) ∙ e) in
    rw here (inl s)
bucket-In b v (y ∷ input) x (inr i) e =
    let j = bucket-In b v input x i e in
    elim (bucket-cons b v y input) [ inl (d, c) ↦ rw c (inr j) | inr c ↦ rw c j ]

pub bucket-All {κ} :
    (P : HashLocalPresentation → Type κ) (b v : ℕ) (input : Items)
    → All P input
    → All P (bucket b v input)
bucket-All P b v input h =
    All-In P (bucket b v input) (λ x i. In-All P input x h (In-bucket b v input x i).0)

pub buckets-All {κ} :
    (P : HashLocalPresentation → Type κ) (b v n : ℕ) (input : Items)
    → All P input
    → All (All P) (buckets_from b v n input)
unfolding buckets_from
buckets-All P b v zero input h = tt
buckets-All P b v (suc n) input h = (bucket-All P b v input h, buckets-All P b (suc v) n input h)

-- An item as the tree takes it: its hash is `n` bytes.
pub record IsItem (n : ℕ) (item : HashLocalPresentation) : Type 0 where
  pub size : length item.hash ≡ n
  pub bytes : (b : ℕ) → byte_of b item < 256

-- No two items have the same bytes on the mask.
abbrev pub Distinct : List Bool → Items → Type 0
Distinct mask [] = Unit
Distinct mask (x ∷ xs) =
    All (λ (y : HashLocalPresentation). agrees mask x.hash y.hash ≡ false) xs × Distinct mask xs

module _ (mask : List Bool) (b : ℕ) (unused : get_or mask b false ≡ true) where
  -- What distinguishes two items of a bucket is another byte.
  pub Distinct-bucket :
      (v : ℕ) (input : Items)
      → All (IsItem (length mask)) input
      → Distinct mask input
      → Distinct (set mask b false) (bucket b v input)
  unfolding bucket
  Distinct-bucket v [] items d = tt
  Distinct-bucket v (x ∷ input) (ix, items) (dx, d) =
      let rest = Distinct-bucket v input items d in
      elim (bucket-cons b v x input) [
        | inr c ↦ rw c rest
        | inl (e, c) ↦ rw c (
          All-In _ (bucket b v input) (λ y i.
              let (j, g) = In-bucket b v input y i in
              let iy = In-All (IsItem (length mask)) input y items j in
              sym (agrees-set mask b x.hash y.hash unused ix.size iy.size (e ∙ sym g))
              ∙ In-All _ input y dx j),
          rest,
        )
      ]

  pub Distinct-buckets :
      (v n : ℕ) (input : Items)
      → All (IsItem (length mask)) input
      → Distinct mask input
      → All (Distinct (set mask b false)) (buckets_from b v n input)
  unfolding buckets_from
  Distinct-buckets v zero input items d = tt
  Distinct-buckets v (suc n) input items d =
      (Distinct-bucket v input items d, Distinct-buckets (suc v) n input items d)

  -- The converse: the items of each bucket are distinct, and those of two buckets differ there.
  pub buckets-Distinct :
      (input : Items)
      → All (IsItem (length mask)) input
      → ((v : ℕ) → v < 256 → Distinct (set mask b false) (bucket b v input))
      → Distinct mask input
  unfolding bucket
  buckets-Distinct [] items d = tt
  buckets-Distinct (x ∷ input) (ix, items) d =
      let v = byte_of b x in
      let here : nat_eq v v ≡ true = (nat_eq_iff v v).1 refl in
      let dv : Distinct (set mask b false) (bucket b v (x ∷ input)) = d v (ix.bytes b) in
      let own : Distinct (set mask b false) (x ∷ bucket b v input) = rw here at dv in
      (
        All-In _ input (λ y i.
            let iy = In-All (IsItem (length mask)) input y items i in
            elim (Bool-cases (nat_eq v (byte_of b y))) [
              | inl same ↦
                  let e = (nat_eq_iff v (byte_of b y)).0 same in
                  agrees-set mask b x.hash y.hash unused ix.size iy.size e
                  ∙ In-All _ (bucket b v input) y own.0 (bucket-In b v input y i (sym e))
              | inr other ↦ agrees_other mask b x.hash y.hash unused ix.size iy.size other
            ]),
        buckets-Distinct input items (λ w below. elim (bucket-cons b w x input) [
          | inl (e, c) ↦
              let both : Distinct (set mask b false) (x ∷ bucket b w input) =
                subst (Distinct (set mask b false)) c (d w below) in
              both.1
          | inr c ↦ subst (Distinct (set mask b false)) c (d w below)
        ]),
      )
