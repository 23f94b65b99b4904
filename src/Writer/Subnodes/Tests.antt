-- ===== src/Writer/Subnodes/Tests.antt =====
-- A run of the subnode trees of crates/pstforge-pst/src/writer.rs, and their theorem there.
use pstforge.Base.{ℕ, false, true, List, [], ◌∷◌, ◌++◌, ok, sort_by, ◌≡◌, refl}
use pstforge.Writer.Block.{BlockId, BlockSpec, LeafSubnodeEntry, subnode, new_block_id}
use pstforge.Writer.DataTree.{append_block, take_block_id}
use pstforge.Writer.Subnodes.{
  append_subnode_tree_at, append_subnode_tree, append_subnode_levels, append_subnode_leaves,
}
use pstforge.Writer.Subnodes.Shape.{IsListing, IsTreeUnder, in_order}
use pstforge.Writer.Subnodes.Listing.{append_subnode_tree_at-IsTreeUnder}
use pstforge.Writer.Subnodes.Levels.{IsSubnodeTree, append_subnode_tree-IsSubnodeTree}

abbrev entry : ℕ → LeafSubnodeEntry
entry node = record { node = node; block = record { internal = false; index = node } }

abbrev two_entries : List LeafSubnodeEntry
two_entries = entry 63 ∷ entry 31 ∷ []

abbrev subnode_root : BlockId
subnode_root = record { internal = true; index = 4 }

abbrev subnodes_out : ℕ × List BlockSpec
subnodes_out = (
  9,
  record { id = subnode_root; payload = subnode (entry 31 ∷ entry 63 ∷ []); ref_count = 2 } ∷ [],
)

append_subnode_tree_at_runs : append_subnode_tree_at two_entries subnode_root 9 [] ≡ ok subnodes_out
unfolding append_subnode_tree_at append_subnode_leaves sort_by
append_subnode_tree_at_runs = refl

append_subnode_tree_at-IsTreeUnder_example :
    IsListing two_entries
    × ((pushed : List BlockSpec) × (subnodes_out.1 ≡ [] ++ pushed)
        × IsTreeUnder subnode_root (in_order two_entries) 9 9 pushed)
append_subnode_tree_at-IsTreeUnder_example =
    append_subnode_tree_at-IsTreeUnder two_entries subnode_root 9 [] subnodes_out
      append_subnode_tree_at_runs

abbrev tree_out : BlockId × ℕ × List BlockSpec
tree_out =
    let root : BlockId = record { internal = true; index = 9 } in
    (
      root,
      10,
      record { id = root; payload = subnode (entry 31 ∷ entry 63 ∷ []); ref_count = 2 } ∷ [],
    )

append_subnode_tree_runs : append_subnode_tree two_entries 9 [] ≡ ok tree_out
unfolding append_subnode_tree append_subnode_levels append_subnode_leaves append_block take_block_id
    new_block_id sort_by
append_subnode_tree_runs = refl

append_subnode_tree-IsSubnodeTree_example :
    IsListing two_entries
    × ((pushed : List BlockSpec) × (tree_out.2 ≡ [] ++ pushed)
        × IsSubnodeTree (in_order two_entries) 9 tree_out.0 10 pushed)
append_subnode_tree-IsSubnodeTree_example =
    append_subnode_tree-IsSubnodeTree two_entries 9 [] tree_out append_subnode_tree_runs
