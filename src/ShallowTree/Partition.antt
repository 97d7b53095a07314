-- ===== src/ShallowTree/Partition.antt =====
-- include/wedding_cake/shallow_tree.hpp: bucket_partition_by_byte against the buckets of the byte.
use wedding_cake_cpp.Base.{
  ℕ, zero, suc, ◌<◌, ◌≤◌, ◌≡◌, refl, ap, ap₂, sym, subst, ◌∙◌, List, [], ◌∷◌, ◌++◌, arith, length,
  drop, replicate, All, length-append, take-append, length-replicate,
}
use wedding_cake_cpp.ShallowTree.{
  HashLocalPresentation, Items, byte_of, tally, scatter, offsets_from, bucket_partition_by_byte,
}
use wedding_cake_cpp.ShallowTree.Buckets.{
  bucket, buckets_from, concat, lengths, push, HasByteBelow, buckets_from-cons, length-buckets_from,
  tally-buckets, add_all-zeros,
}
use wedding_cake_cpp.ShallowTree.Segments.{
  cut, sum, flat-cut, starts-cut, cut-Fits, finals-cut, length-cut, scatter-flat,
}

length-lengths : (bs : List Items) → length (lengths bs) ≡ length bs
length-lengths [] = refl
length-lengths (items ∷ bs) = ap suc (length-lengths bs)

pub counts-buckets :
    (b n : ℕ) (input : Items)
    → All (HasByteBelow b n) input
    → tally b (replicate n 0) input ≡ lengths (buckets_from b 0 n input)
counts-buckets b n input h =
    let zeros_n : List ℕ = replicate n 0 in
    let len : length zeros_n ≡ n = length-replicate {A = ℕ} n 0 in
    let bs = buckets_from b 0 n input in
    let zeros =
      add_all-zeros n (lengths bs)
        (omega (arith, length-lengths bs, length-buckets_from b 0 n input)) in
    rw (tally-buckets b zeros_n input (rw len h), len, zeros) refl

sum-push :
    (i : ℕ) (x : HashLocalPresentation) (bs : List Items)
    → i < length bs
    → sum (lengths (push i x bs)) ≡ suc (sum (lengths bs))
sum-push i x [] h = absurd (omega arith)
sum-push zero x (items ∷ bs) h = omega arith
sum-push (suc i) x (items ∷ bs) h = omega (arith, sum-push i x bs (omega arith))

sum_empty : (b v n : ℕ) → sum (lengths (buckets_from b v n [])) ≡ 0
unfolding buckets_from bucket
sum_empty b v zero = refl
sum_empty b v (suc n) = omega (arith, sum_empty b (suc v) n)

-- Each item is in one bucket.
pub sum-buckets :
    (b n : ℕ) (input : Items)
    → All (HasByteBelow b n) input
    → sum (lengths (buckets_from b 0 n input)) ≡ length input
sum-buckets b n [] h = sum_empty b 0 n
sum-buckets b n (x ∷ input) (hx, h) =
    let bs = buckets_from b 0 n input in
    let cons = buckets_from-cons b 0 n (byte_of b x) x input (omega arith) hx in
    rw cons (
      omega (
        arith,
        sum-push (byte_of b x) x bs (omega (arith, length-buckets_from b 0 n input)),
        sum-buckets b n input h,
      ))

pub length-concat : (bs : List Items) → length (concat bs) ≡ sum (lengths bs)
length-concat [] = refl
length-concat (items ∷ bs) = omega (arith, length-append items (concat bs), length-concat bs)

pub scatter-buckets :
    (b n : ℕ) (input scratch : Items)
    → All (HasByteBelow b n) input
    → length input ≤ length scratch
    → scatter b (offsets_from 0 (lengths (buckets_from b 0 n input))) input scratch
      ≡ concat (buckets_from b 0 n input) ++ drop (length input) scratch
scatter-buckets b n input scratch h room =
    let bs = buckets_from b 0 n input in
    let ns = lengths bs in
    let total = sum-buckets b n input h in
    let fits : sum ns ≤ length scratch = omega arith in
    let segments = cut ns scratch in
    let done =
      scatter-flat b n input segments (drop (sum ns) scratch)
        (omega (arith, length-cut bs scratch, length-buckets_from b 0 n input)) h
        (cut-Fits bs scratch fits) in
    subst (λ k. scatter b (offsets_from 0 ns) input scratch ≡ concat bs ++ drop k scratch) total
      (ap₂ (λ (o : List ℕ) (t : Items). scatter b o input t) (sym (starts-cut 0 ns scratch fits))
          (sym (flat-cut ns scratch fits))
        ∙ (done
            ∙ ap (λ (t : List Items). concat t ++ drop (sum ns) scratch) (finals-cut bs scratch)))

-- For items whose byte is below 256 and a scratch buffer at least as long as the input, the
-- partition in linear time is that by 256 passes: the counts are the sizes of the buckets of the
-- byte's values, the input afterwards is the buckets one behind the other, each in the order of
-- the input, and the rest of the scratch buffer is as before.
pub bucket_partition_by_byte-buckets :
    (input scratch : Items) (byte_index : ℕ)
    → All (HasByteBelow byte_index 256) input
    → length input ≤ length scratch
    → bucket_partition_by_byte input byte_index scratch ≡ (
      lengths (buckets_from byte_index 0 256 input),
      concat (buckets_from byte_index 0 256 input),
      concat (buckets_from byte_index 0 256 input) ++ drop (length input) scratch,
    )
unfolding bucket_partition_by_byte
bucket_partition_by_byte-buckets input scratch b h room =
    let bs = buckets_from b 0 256 input in
    let len : length (concat bs) ≡ length input =
      omega (arith, length-concat bs, sum-buckets b 256 input h) in
    rw (counts-buckets b 256 input h, scatter-buckets b 256 input scratch h room)
      (rw (take-append (length input) (concat bs) (drop (length input) scratch) len) refl)
