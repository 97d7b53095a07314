-- ===== src/ShallowTree/Visit.antt =====
-- include/wedding_cake/shallow_tree.hpp: visit_all_nodes and count_nodes. The stack is a list with
-- its top in front.
use wedding_cake_cpp.Base.{
  ℕ, zero, suc, ◌+◌, ◌≤◌, ◌≡◌, refl, List, [], ◌∷◌, Option, none, some, arith, length,
}
use wedding_cake_cpp.ShallowTree.{Node, Slots, slots, end, empty_slot, full_slot, leaf, ShallowTree}

-- Pushing the full slots, in their order.
unfoldable pub push_slots : Slots → List Node → List Node
push_slots end stack = stack
push_slots (empty_slot s) stack = push_slots s stack
push_slots (full_slot node s) stack = push_slots s (node ∷ stack)

unfoldable pub push_children : Node → List Node → List Node
push_children (leaf depth l) stack = stack
push_children (slots depth b s) stack = push_slots s stack

-- The nodes that the visitor is called with, in their order.
unfoldable pub visit_all : ℕ → List Node → List Node
visit_all zero stack = []
visit_all (suc fuel) [] = []
visit_all (suc fuel) (curr ∷ stack) = curr ∷ visit_all fuel (push_children curr stack)

abbrev pub root_stack : Option Node → List Node
root_stack none = []
root_stack (some node) = node ∷ []

unfoldable pub visit_all_nodes : ℕ → ShallowTree → List Node
visit_all_nodes fuel t = visit_all fuel (root_stack t.root_slot)

-- The lambda of count_nodes adds one for each node that it is called with.
unfoldable pub count_nodes : ℕ → ShallowTree → ℕ
count_nodes fuel t = length (visit_all_nodes fuel t)

-- The nodes and the leaves of a node, by its structure.
unfoldable mutual
  pub nodes_in : Node → ℕ
  nodes_in (leaf depth l) = 1
  nodes_in (slots depth b s) = suc (nodes_below s)

  pub nodes_below : Slots → ℕ
  nodes_below end = 0
  nodes_below (empty_slot s) = nodes_below s
  nodes_below (full_slot node s) = nodes_in node + nodes_below s

unfoldable mutual
  pub leaves_in : Node → ℕ
  leaves_in (leaf depth l) = 1
  leaves_in (slots depth b s) = leaves_below s

  pub leaves_below : Slots → ℕ
  leaves_below end = 0
  leaves_below (empty_slot s) = leaves_below s
  leaves_below (full_slot node s) = leaves_in node + leaves_below s

-- How many of some nodes are leaves.
unfoldable pub count_leaves : List Node → ℕ
count_leaves [] = 0
count_leaves (leaf depth l ∷ nodes) = suc (count_leaves nodes)
count_leaves (slots depth b s ∷ nodes) = count_leaves nodes

abbrev pub nodes_on : List Node → ℕ
nodes_on [] = 0
nodes_on (node ∷ stack) = nodes_in node + nodes_on stack

abbrev pub leaves_on : List Node → ℕ
leaves_on [] = 0
leaves_on (node ∷ stack) = leaves_in node + leaves_on stack

nodes_on-push_slots :
    (s : Slots) (stack : List Node) → nodes_on (push_slots s stack) ≡ nodes_below s + nodes_on stack
unfolding push_slots nodes_in
nodes_on-push_slots end stack = omega arith
nodes_on-push_slots (empty_slot s) stack = nodes_on-push_slots s stack
nodes_on-push_slots (full_slot node s) stack = omega (arith, nodes_on-push_slots s (node ∷ stack))

leaves_on-push_slots :
    (s : Slots) (stack : List Node)
    → leaves_on (push_slots s stack) ≡ leaves_below s + leaves_on stack
unfolding push_slots leaves_in
leaves_on-push_slots end stack = omega arith
leaves_on-push_slots (empty_slot s) stack = leaves_on-push_slots s stack
leaves_on-push_slots (full_slot node s) stack = omega (arith, leaves_on-push_slots s (node ∷ stack))

pub length-visit_all :
    (fuel : ℕ) (stack : List Node)
    → nodes_on stack ≤ fuel
    → length (visit_all fuel stack) ≡ nodes_on stack
unfolding visit_all push_children nodes_in
length-visit_all zero stack h = omega arith
length-visit_all (suc fuel) [] h = refl
length-visit_all (suc fuel) (leaf depth l ∷ stack) h =
    omega (arith, length-visit_all fuel stack (omega arith))
length-visit_all (suc fuel) (slots depth b s ∷ stack) h =
    let e = nodes_on-push_slots s stack in
    omega (arith, e, length-visit_all fuel (push_slots s stack) (omega arith))

pub count_leaves-visit_all :
    (fuel : ℕ) (stack : List Node)
    → nodes_on stack ≤ fuel
    → count_leaves (visit_all fuel stack) ≡ leaves_on stack
unfolding visit_all push_children nodes_in leaves_in count_leaves
count_leaves-visit_all zero [] h = refl
count_leaves-visit_all zero (leaf depth l ∷ stack) h = absurd (omega arith)
count_leaves-visit_all zero (slots depth b s ∷ stack) h = absurd (omega arith)
count_leaves-visit_all (suc fuel) [] h = refl
count_leaves-visit_all (suc fuel) (leaf depth l ∷ stack) h =
    omega (arith, count_leaves-visit_all fuel stack (omega arith))
count_leaves-visit_all (suc fuel) (slots depth b s ∷ stack) h =
    let e = nodes_on-push_slots s stack in
    omega (
      arith,
      leaves_on-push_slots s stack,
      count_leaves-visit_all fuel (push_slots s stack) (omega arith),
    )
