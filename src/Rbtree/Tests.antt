-- ===== src/Rbtree/Tests.antt =====
-- Runs of the functions of my_rbtree.c on a tree of numbers.
use my_libs.Base.{
  ℕ, ◌+◌, ◌≡◌, ◌⊎◌, ◌↔◌, refl, Bool, true, false, some, none, List, [], ◌++◌, ◌∷◌, arith, u32,
  if◌then◌else◌, ◌==◌,
}
use my_libs.Base.Int.{ℤ, pos, negsuc, sub_ℕ, is_neg, is_pos}
use my_libs.Rbtree.{
  Colour, red, black, Tree, null_element, node, to_left, to_right, Rbtree, descend, link, rb_insert,
  fix_insert, settle, rotate_from, same_side, paint, colour_of, rbtree_left_rotate,
  rbtree_right_rotate, rbtree_insert, rbtree_search, rbtree_search_from, FreeCall, free_key,
}
use my_libs.Rbtree.Walk.{tree_walk, rbtree_walk_right_root_left, for_each, tree_walk_lem}
use my_libs.Rbtree.Check.{test_rb_tree, Even, test_rb_tree_lem}
use my_libs.Rbtree.Valid.{IsValid}
use my_libs.Rbtree.Keeps.{rbtree_search-rbtree_insert}
use my_libs.Rbtree.Delete.{
  rbtree_delete, unlink, rebalance, fix_delete, settle_sibling, lift_sibling,
}
use my_libs.Rbtree.Position.{LastPos, rbtree_search_edge, rbtree_search_next}
use my_libs.Rbtree.Position.Step.{
  First, prior, after, element, elements_from, rbtree_search_next_lem, rbtree_search_edge_lem,
}
use my_libs.Rbtree.Delete.Remove.{Deleted, Untouched, rbtree_delete-IsValid}
use my_libs.Rbtree.Search.{IsKeyOrder, Searched, rbtree_search_lem}

abbrev leaf : Colour → ℕ → Tree
leaf c k = node null_element null_element 1 c k

abbrev tree_of : Tree → ℕ → Rbtree
tree_of root n = record {
  root = root;
  elements = n;
  size = 8;
  memory_limit = 0;
  allocated = 0;
  offset = 0;
  is_delete = true;
  has_free = false;
  no_duplicates = false;
}

-- Full: the next key below 20 moves the red up.
abbrev seven : Rbtree
seven = tree_of (node (leaf red 10) (leaf red 30) 1 black 20) 3

insert_recolours :
    rbtree_insert sub_ℕ 24 true seven 15 0
    ≡ some (
      true,
      record seven {
        root = node (node null_element (leaf red 15) 1 black 10) (leaf black 30) 1 black 20;
        elements = 4;
        allocated = 32;
      },
    )
unfolding rbtree_insert descend link rb_insert fix_insert paint colour_of u32
insert_recolours = refl

abbrev bent : Tree
bent = node (leaf red 10) null_element 1 black 20

insert_rotates_twice :
    rbtree_insert sub_ℕ 24 true (tree_of bent 2) 15 0
    ≡ some (
      true,
      record seven {
        root = node (leaf red 10) (leaf red 20) 1 black 15;
        elements = 3;
        allocated = 32;
      },
    )
unfolding rbtree_insert descend link rb_insert fix_insert settle rotate_from same_side
    rbtree_left_rotate rbtree_right_rotate paint colour_of u32
insert_rotates_twice = refl

searches : (rbtree_search sub_ℕ seven 30 ≡ some 30) × (rbtree_search sub_ℕ seven 15 ≡ none)
unfolding rbtree_search rbtree_search_from
searches = (refl, refl)

test_rb_tree_runs :
    (test_rb_tree seven.root ≡ pos 1)
    × (test_rb_tree (node (node (leaf red 5) null_element 1 red 10) null_element 1 black 20)
        ≡ negsuc 0)
unfolding test_rb_tree colour_of
test_rb_tree_runs = (refl, refl)

-- Sums up the keys, and stops at 20.
abbrev until_twenty : ℕ → ℕ → ℕ → ℤ × ℕ
until_twenty key count sum = if key == 20 then (pos 7, sum) else (pos 0, sum + key)

walk_stops : tree_walk until_twenty true seven 0 ≡ (pos 7, 30)
unfolding tree_walk rbtree_walk_right_root_left
walk_stops = refl

subtraction-IsKeyOrder : IsKeyOrder sub_ℕ
subtraction-IsKeyOrder = record {
  swapped = λ a b. ground arith;
  neg_trans = λ a b c h k. ground arith;
}

rbtree_search_lem_example : Searched sub_ℕ seven.root 15 (rbtree_search sub_ℕ seven 15)
rbtree_search_lem_example =
    rbtree_search_lem sub_ℕ subtraction-IsKeyOrder seven 15
      ((tt, tt, tt, tt), (tt, tt, tt, tt), (tt, refl, tt), (tt, refl, tt))

tree_walk_lem_example :
    tree_walk until_twenty true seven 0 ≡ for_each until_twenty ((30, 1) ∷ (20, 1) ∷ (10, 1) ∷ []) 0
tree_walk_lem_example = tree_walk_lem until_twenty true seven 0

test_rb_tree_lem_example : Even seven.root 1 ↔ (test_rb_tree seven.root ≡ pos 1)
test_rb_tree_lem_example = test_rb_tree_lem seven.root 1

seven-Even : Even seven.root 1
unfolding colour_of
seven-Even = (0, refl, (refl, refl, refl, refl), (refl, refl, refl, refl))

seven-IsValid : IsValid sub_ℕ seven
unfolding colour_of
seven-IsValid = record {
  top = refl;
  black_count = 1;
  even = seven-Even;
  ordered = ((refl, (refl, tt)), ((refl, tt), (tt, tt)));
  numbered = refl;
  word = omega arith;
}

rbtree_search-rbtree_insert_example :
    (r : Bool × Rbtree) × (rbtree_insert sub_ℕ 24 true seven 15 0 ≡ some r)
    × (k : ℕ) × (rbtree_search sub_ℕ r.1 15 ≡ some k)
    × (is_neg (sub_ℕ k 15) ≡ false)
    × (is_pos (sub_ℕ k 15) ≡ false)
rbtree_search-rbtree_insert_example =
    rbtree_search-rbtree_insert sub_ℕ subtraction-IsKeyOrder 24 seven 15 0 seven-IsValid
      (omega arith)

rbtree_delete-IsValid_example :
    (r : ℕ × (List FreeCall × Rbtree)) × (rbtree_delete sub_ℕ 24 seven 20 0 ≡ some r)
    × IsValid sub_ℕ r.1.1
    × (Deleted sub_ℕ seven 20 r ⊎ Untouched sub_ℕ seven 20 r)
rbtree_delete-IsValid_example =
    rbtree_delete-IsValid sub_ℕ subtraction-IsKeyOrder 24 seven 20 0 seven-IsValid

-- A black element goes below a red sibling: two rotations of the tree.
abbrev eight : Rbtree
eight =
    record (tree_of
      (node (leaf black 10) (node (leaf black 30) (leaf black 50) 1 red 40) 1 black 20) 5) {
        allocated = 160;
        has_free = true;
      }

delete_rotates :
    rbtree_delete sub_ℕ 24 eight 10 0
    ≡ some (
      0,
      (
        free_key 10 ∷ [],
        record eight {
          root = node (node null_element (leaf red 30) 1 black 20) (leaf black 50) 1 black 40;
          elements = 4;
          allocated = 128;
        },
      ),
    )
unfolding rbtree_delete descend unlink rebalance fix_delete settle_sibling lift_sibling paint
    colour_of u32
delete_rotates = refl

abbrev at_root : LastPos
at_root = record {
  path = [];
  left = leaf red 10;
  right = leaf red 30;
  count = 1;
  colour = black;
  key = 20;
}

rbtree_search_next_lem_example :
    First seven.root
      (prior at_root ++ element at_root ∷ [])
      (after at_root)
      (rbtree_search_next at_root to_left to_right)
rbtree_search_next_lem_example = rbtree_search_next_lem at_root

rbtree_search_edge_lem_example :
    elements_from 3 (rbtree_search_edge seven to_left) ≡ (10, 1) ∷ (20, 1) ∷ (30, 1) ∷ []
rbtree_search_edge_lem_example = rbtree_search_edge_lem seven 3 (omega arith)
