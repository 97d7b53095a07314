-- ===== src/ShallowTree/Construction.antt =====
-- include/wedding_cake/shallow_tree.hpp: the constructor of ShallowTree and its lookup.
use wedding_cake_cpp.Base.{
  ℕ, suc, ◌-◌, ◌<◌, ◌≤◌, ◌≡◌, refl, ap, sym, subst, ◌∙◌, List, [], ◌∷◌, Bool, true, false, arith,
  length, get_or, replicate, length-append, length-replicate, All, Result, Result-cases, ◌⊎◌, ok,
  err, Outcome, >>=-Outcome, runtime_error, Option, none, some, nat_eq, nat_eq_iff, le→leb, le→ltb,
  inl, inr,
}
use wedding_cake_cpp.Types.{Hash, LocalPi, local_pi_no_match}
use wedding_cake_cpp.ShallowTree.{
  HashLocalPresentation, Items, Node, ShallowTree, initial_mask, handled_bytes, scratch_of, root_of,
  new_shallow_tree,
}
use wedding_cake_cpp.ShallowTree.Search.{lookup_root, lookup_hash_unique_reassured_candidate}
use wedding_cake_cpp.ShallowTree.Visit.{
  nodes_on, leaves_on, root_stack, visit_all_nodes, count_leaves, count_nodes, length-visit_all,
  count_leaves-visit_all,
}
use wedding_cake_cpp.ShallowTree.Masks.{bits_left-le}
use wedding_cake_cpp.ShallowTree.Members.{In-All, All-In, IsItem, Distinct}
use wedding_cake_cpp.ShallowTree.Build.{
  Duplicates, Made, make_leaf_node-Outcome, recurse_generate_node-Outcome,
}
use wedding_cake_cpp.ShallowTree.Lookups.{Candidate}
use wedding_cake_cpp.ShallowTree.Nodes.{Right, leaf-Right, slots-Right, RootRight}

pub length-initial_mask : (n handled : ℕ) → handled ≤ n → length (initial_mask n handled) ≡ n
length-initial_mask n handled h = omega (
  arith,
  length-append (replicate handled false) (replicate (n - handled) true),
  length-replicate handled false,
  length-replicate (n - handled) true,
)

-- The parameters that the constructor accepts, for a hash of `n` bytes.
pub record IsShape (n ls_tail_bits_count : ℕ) : Type 0 where
  pub some_bytes : 1 ≤ n
  pub few_bytes : n ≤ 64
  pub tail_fits : handled_bytes ls_tail_bits_count ≤ n

root_of-Outcome :
    (n handled count : ℕ) (input : Items)
    → handled ≤ n
    → All (IsItem (length (initial_mask n handled))) input
    → Outcome
        (RootRight (suc count) (initial_mask n handled) input)
        (Duplicates (initial_mask n handled) input)
        (root_of n handled (suc count) input)
unfolding root_of
root_of-Outcome n handled count [] fits items = refl
root_of-Outcome n handled count (hp ∷ []) fits items =
    >>=-Outcome (λ node. Right (suc count) (initial_mask n handled) node (hp ∷ [])) _ (λ error. ⊥) _
      _ _
      (make_leaf_node-Outcome count (Right (suc count)) (leaf-Right count) (slots-Right (suc count))
        (initial_mask n handled) hp handled items.0)
      (λ node r. r) (λ error h. absurd h)
root_of-Outcome n handled count (hp ∷ hp' ∷ input) fits items =
    let all = hp ∷ hp' ∷ input in
    let mask = initial_mask n handled in
    >>=-Outcome (Made (Right (suc count) mask) all (scratch_of all)) _ (Duplicates mask all) _ _ _
      (recurse_generate_node-Outcome count (Right (suc count)) (leaf-Right count)
        (slots-Right (suc count)) (suc n) mask handled all (scratch_of all)
        (omega (arith, bits_left-le mask, length-initial_mask n handled fits)) (omega arith) items
        (omega (arith, length-replicate {A = HashLocalPresentation} (length all) _)))
      (λ made r. r.0) (λ error h. h)

module _ (n ls count : ℕ) (input : Items) (shape : IsShape n ls)
    (items : All (IsItem n) input) where
  abbrev tree_mask : List Bool
  tree_mask = initial_mask n (handled_bytes ls)

  -- The tree around a root.
  abbrev tree_of : Option Node → ShallowTree
  tree_of root = record {
    hash_bytes_count = n;
    ls_tail_bits_count = ls;
    reassurance_bytes_count = suc count;
    hash_count = length input;
    root_slot = root;
  }

  -- The constructor makes a tree of a right root, or finds duplicates.
  constructed :
      ((root : Option Node) × (new_shallow_tree n input ls (suc count) ≡ ok (tree_of root))
        × RootRight (suc count) tree_mask input root)
      ⊎ ((new_shallow_tree n input ls (suc count) ≡ err runtime_error) × ¬ Distinct tree_mask input)
  unfolding new_shallow_tree
  constructed =
      let h = handled_bytes ls in
      let len : length tree_mask ≡ n = length-initial_mask n h shape.tail_fits in
      let items' : All (IsItem (length tree_mask)) input = rw len items in
      let low = le→ltb n 1 shape.some_bytes in
      let high = le→ltb 64 n shape.few_bytes in
      let fits = le→leb h n shape.tail_fits in
      let r = root_of n h (suc count) input in
      let o = root_of-Outcome n h count input shape.tail_fits items' in
      elim (Result-cases r) [
        | inl (root, e) ↦
            let right : RootRight (suc count) tree_mask input root =
              subst (Outcome (RootRight (suc count) tree_mask input) (Duplicates tree_mask input)) e
                o in
            inl (root, rw (low, high, fits, e) refl, right)
        | inr (error, e) ↦
            let bad : Duplicates tree_mask input error =
              subst (Outcome (RootRight (suc count) tree_mask input) (Duplicates tree_mask input)) e
                o in
            inr (rw (low, high, fits, e) (ap err bad.0), bad.1)
      ]

  lookup-root :
      (root : Option Node)
      → RootRight (suc count) tree_mask input root
      → All
          (λ (x : HashLocalPresentation).
            lookup_hash_unique_reassured_candidate (tree_of root) x.hash ≡ ok x.presentation_index)
          input
  unfolding lookup_hash_unique_reassured_candidate lookup_root
  lookup-root none r = rw r tt
  lookup-root (some node) r = All-In _ input (λ x i.
      let size = In-All (IsItem n) input x items i in
      let same : nat_eq (length x.hash) n ≡ true = (nat_eq_iff (length x.hash) n).1 size.size in
      rw same (In-All _ input x r.0 i))

  -- For a hash size of 1 to 64 bytes and a tail within it, items of that size no two of which have
  -- the same bytes outside the tail, and leaves that keep at least one byte, the constructor
  -- succeeds, and the lookup of each item's hash returns the presentation index of the item.
  pub new_shallow_tree-Distinct :
      Distinct tree_mask input
      → (t : ShallowTree) × (new_shallow_tree n input ls (suc count) ≡ ok t)
        × All
            (λ (x : HashLocalPresentation).
              lookup_hash_unique_reassured_candidate t x.hash ≡ ok x.presentation_index)
            input
  new_shallow_tree-Distinct d = elim constructed [
    | inl (root, e, r) ↦ (tree_of root, e, lookup-root root r)
    | inr (e, bad) ↦ absurd (bad d)
  ]

  root-Distinct :
      (root : Option Node) → RootRight (suc count) tree_mask input root → Distinct tree_mask input
  root-Distinct none r = rw r tt
  root-Distinct (some node) r = r.2

  -- For parameters that the constructor accepts, items of the size, and leaves that keep at least
  -- one byte, the constructor throws runtime_error when two of the items have the same bytes
  -- outside the tail.
  pub new_shallow_tree_duplicates :
      ¬ Distinct tree_mask input → new_shallow_tree n input ls (suc count) ≡ err runtime_error
  new_shallow_tree_duplicates bad = elim constructed [
    | inl (root, e, r) ↦ absurd (bad (root-Distinct root r))
    | inr (e, b) ↦ e
  ]

  -- What a lookup returns, as an outcome and as a value.
  value_of :
      (Q : LocalPi → Type 0) (r : Result LocalPi)
      → Outcome Q (λ error. ⊥) r
      → (pi : LocalPi) × (r ≡ ok pi) × Q pi
  value_of Q (ok pi) h = (pi, refl, h)
  value_of Q (err error) h = absurd h

  lookup_root-Candidate :
      (root : Option Node) (target : Hash)
      → RootRight (suc count) tree_mask input root
      → length target ≡ n
      → ((b : ℕ) → get_or target b 0 < 256)
      → (pi : LocalPi) × (lookup_hash_unique_reassured_candidate (tree_of root) target ≡ ok pi)
        × Candidate (suc count) tree_mask target input pi
  unfolding lookup_hash_unique_reassured_candidate lookup_root
  lookup_root-Candidate none target r size below =
      let same : nat_eq (length target) n ≡ true = (nat_eq_iff (length target) n).1 size in
      rw same (local_pi_no_match, refl, inl refl)
  lookup_root-Candidate (some node) target r size below =
      let same : nat_eq (length target) n ≡ true = (nat_eq_iff (length target) n).1 size in
      let len = length-initial_mask n (handled_bytes ls) shape.tail_fits in
      rw same (value_of _ _ (r.1 target (size ∙ sym len) below))

  -- In a tree that the constructor made with accepted parameters, items of the size, and leaves
  -- that keep at least one byte, the lookup of any hash of the size ends without a read out of
  -- bounds, and returns either no match or the presentation index of an item, which agrees with
  -- the hash on each byte outside the tail when the leaves keep as many bytes as the tail leaves.
  pub lookup-Candidate :
      (t : ShallowTree) (target : Hash)
      → new_shallow_tree n input ls (suc count) ≡ ok t
      → length target ≡ n
      → ((b : ℕ) → get_or target b 0 < 256)
      → (pi : LocalPi) × (lookup_hash_unique_reassured_candidate t target ≡ ok pi)
        × Candidate (suc count) tree_mask target input pi
  lookup-Candidate t target made size below = elim constructed [
    | inl (root, e, r) ↦
        let same : tree_of root ≡ t = cc in
        subst
          (λ u.
            (pi : LocalPi) × (lookup_hash_unique_reassured_candidate u target ≡ ok pi)
            × Candidate (suc count) tree_mask target input pi)
          same (lookup_root-Candidate root target r size below)
    | inr (e, bad) ↦ cc
  ]

  leaves_on-root :
      (root : Option Node)
      → RootRight (suc count) tree_mask input root
      → leaves_on (root_stack root) ≡ length input
  leaves_on-root none r = rw r refl
  leaves_on-root (some node) r = omega (arith, r.3)

  -- In a tree that the constructor made with accepted parameters, items of the size, and leaves
  -- that keep at least one byte, with as many rounds as there are nodes or more, the visitor is
  -- called with as many leaves as there are hashes, and the count of nodes is that of the
  -- structure.
  pub visit_all_nodes-leaves :
      (fuel : ℕ) (t : ShallowTree)
      → new_shallow_tree n input ls (suc count) ≡ ok t
      → nodes_on (root_stack t.root_slot) ≤ fuel
      → (count_leaves (visit_all_nodes fuel t) ≡ t.hash_count)
        × (count_nodes fuel t ≡ nodes_on (root_stack t.root_slot))
  unfolding visit_all_nodes count_nodes
  visit_all_nodes-leaves fuel t made enough = elim constructed [
    | inl (root, e, r) ↦
        let same : tree_of root ≡ t = cc in
        let hashes : t.hash_count ≡ length input = rw (sym same) refl in
        let roots : t.root_slot ≡ root = rw (sym same) refl in
        let all : leaves_on (root_stack t.root_slot) ≡ length input =
          rw roots (leaves_on-root root r) in
        (
          count_leaves-visit_all fuel (root_stack t.root_slot) enough ∙ (all ∙ sym hashes),
          length-visit_all fuel (root_stack t.root_slot) enough,
        )
    | inr (e, bad) ↦ cc
  ]
