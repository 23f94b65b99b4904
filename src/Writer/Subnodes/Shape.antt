-- ===== src/Writer/Subnodes/Shape.antt =====
-- What the trees of subnode entries of crates/pstforge-pst/src/writer.rs are, and what entries they list.
use mathlib.Core.List.{Permᴰ}
use pstforge.Base.{
  ℕ, suc, ◌+◌, ◌*◌, ◌≤◌, ◌<◌, true, not, List, [], ◌∷◌, ◌++◌, some, leb, ◌==◌, length, sort_by,
  sort_by-AllPairs, Permᴰ-sort_by, All-map, AllPairs, ◌≡◌, arith,
}
use pstforge.Writer.Block.{
  BlockId, BlockSpec, LeafSubnodeEntry, IntermediateSubnodeEntry, subnode, intermediate_subnode,
}
use pstforge.Writer.BTree.{head?}
use pstforge.Writer.DataTree.{max_data_block_payload}
use pstforge.Writer.DataTree.RoundTrip.{concat}
use pstforge.Writer.Subnodes.{max_subnode_tree_entries}

-- The block id of an index with the bit for blocks that list others.
abbrev pub internal_id : ℕ → BlockId
internal_id index = record { internal = true; index = index }

-- A block of the lowest level under the id of this index; its header of 8 bytes and 24 bytes for each
-- entry fit a block. The entry for it in the block above has its id and the node of its first entry.
pub record IsLeaf (index : ℕ) (entry : IntermediateSubnodeEntry) (block : BlockSpec)
    (group : List LeafSubnodeEntry) : Type 0 where
  pub written : block ≡ record { id = internal_id index; payload = subnode group; ref_count = 2 }
  pub fits : 8 + length group * 24 ≤ max_data_block_payload
  pub first :
      (e : LeafSubnodeEntry) × (head? group ≡ some e)
      × (entry ≡ record { node = e.node; block = internal_id index })

-- Blocks with the indices from one on, and the entries for them, that have the given groups.
abbrev pub AreLeaves :
    ℕ → List IntermediateSubnodeEntry → List BlockSpec → List (List LeafSubnodeEntry) → Type 0
AreLeaves index (e ∷ es) (b ∷ bs) (g ∷ gs) = IsLeaf index e b g × AreLeaves (suc index) es bs gs
AreLeaves index [] [] [] = Unit
AreLeaves index _ _ _ = ⊥

-- The lowest blocks of a tree with two levels, with the indices from `first` on, and the entries of the
-- block above, which fit a block too.
pub record HasLeaves (first : ℕ) (entries : List LeafSubnodeEntry) (leaves : List BlockSpec)
    (above : List IntermediateSubnodeEntry) : Type 0 where
  pub groups : List (List LeafSubnodeEntry)
  pub whole : concat groups ≡ entries
  pub are : AreLeaves first above leaves groups
  pub fits : 8 + length above * 16 ≤ max_data_block_payload

abbrev pub leaf_root : BlockId → List LeafSubnodeEntry → BlockSpec
leaf_root root entries = record { id = root; payload = subnode entries; ref_count = 2 }

abbrev pub upper_root : BlockId → List IntermediateSubnodeEntry → BlockSpec
upper_root root above = record { id = root; payload = intermediate_subnode 1 above; ref_count = 2 }

-- A tree under a root whose id was there before, with the index of the next block before and after: one
-- block that lists the entries in this order, or lowest blocks with the next indices and the root above
-- them.
pub data IsTreeUnder (root : BlockId) (entries : List LeafSubnodeEntry) (next : ℕ)
    : ℕ → List BlockSpec → Type 0 where
  one_block :
      8 + length entries * 24 ≤ max_data_block_payload
      → IsTreeUnder root entries next next (leaf_root root entries ∷ [])
  two_levels :
      (leaves : List BlockSpec) (above : List IntermediateSubnodeEntry)
      → HasLeaves next entries leaves above
      → IsTreeUnder root entries next (next + length leaves) (leaves ++ upper_root root above ∷ [])

-- The entries in the order of their nodes, type and index together as one number; those with the same
-- node keep their order.
abbrev pub in_order : List LeafSubnodeEntry → List LeafSubnodeEntry
in_order = sort_by (λ a b. leb a.node b.node)

-- What a subnode tree can be made of: at least one entry, and at most 340 in each of 510 blocks; and the
-- list in order has the same entries, each with a node at most that of any later one.
pub record IsListing (entries : List LeafSubnodeEntry) : Type 0 where
  pub some_entry : 0 < length entries
  pub few : length entries ≤ 340 * 510
  pub same_entries : Permᴰ (in_order entries) entries
  pub ascending : AllPairs (λ a b. a.node ≤ b.node) (in_order entries)

leb-le : (a b : ℕ) → leb a b ≡ true → a ≤ b
leb-le a b e = ground (arith, e)

AllPairs-map :
    {A : Type 0} (R S : A → A → Type 0)
    → ((a b : A) → R a b → S a b)
    → (xs : List A) → AllPairs R xs
    → AllPairs S xs
AllPairs-map R S f [] h = tt
AllPairs-map R S f (x ∷ xs) h = (All-map (R x) (S x) (f x) xs h.0, AllPairs-map R S f xs h.1)

pub guards-IsListing :
    (entries : List LeafSubnodeEntry)
    → not (length entries == 0) ≡ true
    → leb (length entries) max_subnode_tree_entries ≡ true
    → IsListing entries
guards-IsListing entries some_entry few = record {
  some_entry = ground (arith, some_entry);
  few = ground (arith, few);
  same_entries = Permᴰ-sort_by (λ a b. leb a.node b.node) entries;
  ascending =
      AllPairs-map (λ a b. leb a.node b.node ≡ true) (λ a b. a.node ≤ b.node)
        (λ a b e. leb-le a.node b.node e) (in_order entries)
        (sort_by-AllPairs (λ a b. leb a.node b.node) (λ a b e. ground (arith, e))
          (λ a b c e h. ground (arith, e, h)) entries);
}
