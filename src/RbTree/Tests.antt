-- ===== src/RbTree/Tests.antt =====
-- Runs of src/base/rbtree.c on trees of numbers.
use forfun.Prelude.{ℕ, ◌+◌, ◌*◌, ◌^◌, ◌≤◌, ◌≡◌, refl, true, false, none, some, inl, List, [], ◌∷◌}
use forfun.Comparator.{nat_comparator}
use forfun.RbTree.{
  Tree, leaf, node, search_rb_tree, insert_rb_node, insert_into_rb_tree, balance, lean_left,
  lean_right, split_four,
}
use forfun.RbTree.Search.{IsSearchTree, update, search-insert}
use forfun.RbTree.Balance.{nil, black}
use forfun.RbTree.Growth.{IsBalanced, insert_rb_node-IsBalanced}
use forfun.RbTree.Depth.{depth, size, insert_all, insert_all-depth}
use forfun.RbTree.Remove.{done, remove_from_rb_tree}
use forfun.RbTree.Remove.Root.{search-remove}

-- The pairs 1 ↦ 10, 2 ↦ 20 and 4 ↦ 40.
abbrev three : Tree ℕ ℕ
three = node false (node false leaf 1 10 leaf) 2 20 (node false leaf 4 40 leaf)

three-IsSearchTree : IsSearchTree nat_comparator three
three-IsSearchTree = ((refl, (refl, tt)), ((refl, tt), (tt, tt)))

three-IsBalanced : IsBalanced three
three-IsBalanced = (2, inl (black (black nil nil) (black nil nil)))

-- The tree that an insertion of 3 ↦ 30 makes.
abbrev four : Tree ℕ ℕ
four = node false (node false leaf 1 10 leaf) 2 20 (node false (node true leaf 3 30 leaf) 4 40 leaf)

three-to-four : insert_into_rb_tree nat_comparator true three 3 30 ≡ some four
unfolding insert_into_rb_tree insert_rb_node balance lean_left lean_right split_four
three-to-four = refl

search-insert_example :
    (search_rb_tree nat_comparator four 3
      ≡ update nat_comparator (search_rb_tree nat_comparator three) 3 (some 30) 3)
    × IsSearchTree nat_comparator four
search-insert_example =
    search-insert nat_comparator three four 3 30 3 three-IsSearchTree three-to-four

search-remove_example :
    (t' : Tree ℕ ℕ) × (remove_from_rb_tree nat_comparator three 2 ≡ done t')
    × ((p : ℕ)
        → search_rb_tree nat_comparator t' p
          ≡ update nat_comparator (search_rb_tree nat_comparator three) 2 none p)
    × IsSearchTree nat_comparator t'
    × IsBalanced t'
search-remove_example = search-remove nat_comparator three 2 three-IsSearchTree three-IsBalanced

insert_rb_node-IsBalanced_example : IsBalanced (insert_rb_node nat_comparator three 3 30)
insert_rb_node-IsBalanced_example =
    insert_rb_node-IsBalanced nat_comparator 3 30 three three-IsBalanced

abbrev pairs : List (ℕ × ℕ)
pairs = (1, 10) ∷ (2, 20) ∷ []

insert_all-depth_example :
    (h : ℕ) × (depth (insert_all nat_comparator pairs leaf) ≤ 2 * h + 2)
    × (2 ^ h ≤ size (insert_all nat_comparator pairs leaf) + 1)
insert_all-depth_example = insert_all-depth nat_comparator pairs
