-- ===== src/ShallowTree/Buckets.antt =====
-- include/wedding_cake/shallow_tree.hpp: the buckets of a byte's values, which
-- bucket_partition_by_byte is to lay out one behind the other, and what its counts are.
use wedding_cake_cpp.Base.{
  ℕ, zero, suc, ◌+◌, ◌<◌, ◌≡◌, refl, ap, sym, List, [], ◌∷◌, ◌++◌, if◌then◌else◌, nat_eq,
  nat_eq_iff, arith, length, replicate, length-set, All,
}
use wedding_cake_cpp.ShallowTree.{HashLocalPresentation, Items, byte_of, increment, tally}

-- The items whose byte has the value `v`, in the order of the input.
unfoldable pub bucket : ℕ → ℕ → Items → Items
bucket b v [] = []
bucket b v (item ∷ input) =
    let rest = bucket b v input in if nat_eq (byte_of b item) v then item ∷ rest else rest

-- The buckets of the `n` values from `v` on.
unfoldable pub buckets_from : ℕ → ℕ → ℕ → Items → List Items
buckets_from b v zero input = []
buckets_from b v (suc n) input = bucket b v input ∷ buckets_from b (suc v) n input

abbrev pub concat : List Items → Items
concat [] = []
concat (items ∷ rest) = items ++ concat rest

abbrev pub lengths : List Items → List ℕ
lengths [] = []
lengths (items ∷ rest) = length items ∷ lengths rest

-- Whether an item's byte is below `n`.
abbrev pub HasByteBelow : ℕ → ℕ → HashLocalPresentation → Type 0
HasByteBelow b n item = byte_of b item < n

abbrev pub push : ℕ → HashLocalPresentation → List Items → List Items
push i x [] = []
push zero x (items ∷ rest) = (x ∷ items) ∷ rest
push (suc i) x (items ∷ rest) = items ∷ push i x rest

pub length-buckets_from : (b v n : ℕ) (input : Items) → length (buckets_from b v n input) ≡ n
unfolding buckets_from
length-buckets_from b v zero input = refl
length-buckets_from b v (suc n) input = ap suc (length-buckets_from b (suc v) n input)

buckets_from_above :
    (b v n : ℕ) (x : HashLocalPresentation) (input : Items)
    → byte_of b x < v
    → buckets_from b v n (x ∷ input) ≡ buckets_from b v n input
unfolding buckets_from bucket
buckets_from_above b v zero x input h = refl
buckets_from_above b v (suc n) x input h =
    ground (arith, buckets_from_above b (suc v) n x input (omega arith), nat_eq_iff (byte_of b x) v)

-- An item of the input goes to the front of its bucket.
pub buckets_from-cons :
    (b v n i : ℕ) (x : HashLocalPresentation) (input : Items)
    → byte_of b x ≡ v + i
    → i < n
    → buckets_from b v n (x ∷ input) ≡ push i x (buckets_from b v n input)
unfolding buckets_from bucket
buckets_from-cons b v zero i x input e h = absurd (omega arith)
buckets_from-cons b v (suc n) zero x input e h =
    ground (arith, buckets_from_above b (suc v) n x input (omega arith), nat_eq_iff (byte_of b x) v)
buckets_from-cons b v (suc n) (suc i) x input e h = ground (
  arith,
  buckets_from-cons b (suc v) n i x input (omega arith) (omega arith),
  nat_eq_iff (byte_of b x) v,
)

-- The counts, added to those there were.
abbrev pub add_all : List ℕ → List ℕ → List ℕ
add_all [] ns = []
add_all (m ∷ ms) [] = m ∷ ms
add_all (m ∷ ms) (n ∷ ns) = (m + n) ∷ add_all ms ns

increment-push :
    (i : ℕ) (x : HashLocalPresentation) (ms : List ℕ) (bs : List Items)
    → length bs ≡ length ms
    → i < length ms
    → add_all (increment ms i) (lengths bs) ≡ add_all ms (lengths (push i x bs))
increment-push i x [] bs e h = absurd (omega arith)
increment-push i x (m ∷ ms) [] e h = absurd (omega arith)
increment-push zero x (m ∷ ms) (items ∷ bs) e h =
    let s : suc m + length items ≡ m + suc (length items) = omega arith in rw s refl
increment-push (suc i) x (m ∷ ms) (items ∷ bs) e h =
    ap (◌∷◌ (m + length items)) (increment-push i x ms bs (omega arith) (omega arith))

add_all-empty :
    (b v : ℕ) (ms : List ℕ) → add_all ms (lengths (buckets_from b v (length ms) [])) ≡ ms
unfolding buckets_from bucket
add_all-empty b v [] = refl
add_all-empty b v (m ∷ ms) =
    let s : m + 0 ≡ m = omega arith in rw (s, add_all-empty b (suc v) ms) refl

pub tally-buckets :
    (b : ℕ) (ms : List ℕ) (input : Items)
    → All (HasByteBelow b (length ms)) input
    → tally b ms input ≡ add_all ms (lengths (buckets_from b 0 (length ms) input))
unfolding tally
tally-buckets b ms [] h = sym (add_all-empty b 0 ms)
tally-buckets b ms (x ∷ input) (hx, h) =
    let k = byte_of b x in
    let len : length (increment ms k) ≡ length ms = length-set ms k _ in
    let again = tally-buckets b (increment ms k) input (rw len h) in
    let rest =
      increment-push k x ms (buckets_from b 0 (length ms) input)
        (length-buckets_from b 0 (length ms) input) hx in
    rw (again, len, rest, buckets_from-cons b 0 (length ms) k x input (omega arith) hx) refl

pub add_all-zeros : (n : ℕ) (ns : List ℕ) → length ns ≡ n → add_all (replicate n 0) ns ≡ ns
add_all-zeros zero [] h = refl
add_all-zeros zero (m ∷ ns) h = absurd (omega arith)
add_all-zeros (suc n) [] h = absurd (omega arith)
add_all-zeros (suc n) (m ∷ ns) h =
    let s : 0 + m ≡ m = omega arith in rw (s, add_all-zeros n ns (omega arith)) refl
