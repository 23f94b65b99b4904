-- ===== src/Writer/Subnodes/Levels.antt =====
-- The levels of the subnode trees of crates/pstforge-pst/src/writer.rs: there are at most two.
use pstforge.Base.{
  ℕ, zero, suc, ◌+◌, ◌*◌, ◌^◌, ◌≤◌, true, not, List, [], ◌∷◌, ◌++◌, leb, ltb, ◌==◌, length, ok,
  or_abort, or_err, checked, >>=-eq-ok, ◌≡◌, sym, ap, ◌∙◌, subst, append-nil, append_assoc, arith,
}
use pstforge.Writer.Error.{value_too_large}
use pstforge.Writer.Block.{
  BlockId, BlockSpec, LeafSubnodeEntry, IntermediateSubnodeEntry, intermediate_subnode,
}
use pstforge.Writer.BTree.{head?}
use pstforge.Writer.DataTree.{chunks, push, append_block, max_data_block_payload}
use pstforge.Writer.DataTree.RoundTrip.{concat, ok_injective}
use pstforge.Writer.RowMatrix.Slices.{chunks_in_last}
use pstforge.Writer.Subnodes.{
  subnode_leaf_capacity, subnode_intermediate_capacity, max_subnode_tree_entries,
  append_subnode_leaves, append_subnode_tree, append_subnode_levels, append_subnode_parents,
}
use pstforge.Writer.Subnodes.Shape.{
  internal_id, AreLeaves, HasLeaves, leaf_root, upper_root, in_order, IsListing, guards-IsListing,
}
use pstforge.Writer.Subnodes.Listing.{
  guard-true, append_block-push, append_subnode_leaves-HasLeaves,
}

-- A tree with the next indices, and its root with the index after it: one block that lists the entries
-- in this order, or lowest blocks and the root behind them.
pub data IsSubnodeTree (entries : List LeafSubnodeEntry) (next : ℕ)
    : BlockId → ℕ → List BlockSpec → Type 0 where
  alone :
      8 + length entries * 24 ≤ max_data_block_payload
      → IsSubnodeTree entries next
          (internal_id next)
          (suc next)
          (leaf_root (internal_id next) entries ∷ [])
  above_leaves :
      (leaves : List BlockSpec) (above : List IntermediateSubnodeEntry)
      → HasLeaves next entries leaves above
      → IsSubnodeTree entries next
          (internal_id (next + length leaves))
          (suc (next + length leaves))
          (leaves ++ upper_root (internal_id (next + length leaves)) above ∷ [])

-- A tree with its root, behind the blocks that were there.
abbrev pub Grows :
    List LeafSubnodeEntry → ℕ → List BlockSpec → BlockId × ℕ × List BlockSpec → Type 0
Grows entries next blocks out =
    (pushed : List BlockSpec) × (out.2 ≡ blocks ++ pushed)
    × IsSubnodeTree entries next out.0 out.1 pushed

one_root :
    (above : IntermediateSubnodeEntry) (leaves : List BlockSpec) (entries : List LeafSubnodeEntry)
    (next : ℕ) (blocks : List BlockSpec)
    → HasLeaves next entries leaves (above ∷ [])
    → Grows entries next blocks (above.block, next + length leaves, blocks ++ leaves)
one_root above leaves entries next blocks has = single leaves has.groups has.whole has.are
  where
    single :
        (leaves : List BlockSpec) (groups : List (List LeafSubnodeEntry))
        → concat groups ≡ entries
        → AreLeaves next (above ∷ []) leaves groups
        → Grows entries next blocks (above.block, next + length leaves, blocks ++ leaves)
    single [] groups same are = elim are [ ]
    single (b ∷ bs) [] same are = elim are [ ]
    single (b ∷ []) (g ∷ []) same are =
        let whole : g ≡ entries = sym (append-nil g) ∙ same in
        subst (λ entries. Grows entries next blocks (above.block, next + 1, blocks ++ b ∷ [])) whole
          (subst (λ id. Grows g next blocks (id, next + 1, blocks ++ b ∷ []))
            (sym (ap (λ entry. entry.block) are.0.first.2))
            (subst (λ end. Grows g next blocks (internal_id next, end, blocks ++ b ∷ []))
              (omega arith) (_, ap (λ b. blocks ++ b ∷ []) are.0.written, alone are.0.fits)))
    single (b ∷ []) (g ∷ h ∷ gs) same are = elim are.1 [ ]
    single (b ∷ c ∷ bs) (g ∷ gs) same are = elim are.1 [ ]

one_parent :
    (level : ℕ) (roots : List IntermediateSubnodeEntry) (next : ℕ) (blocks : List BlockSpec)
    (out : List IntermediateSubnodeEntry × ℕ × List BlockSpec)
    → append_subnode_parents level (roots ∷ []) next blocks ≡ ok out
    → (node : ℕ) × (out ≡ (
      record { node = node; block = internal_id next } ∷ [],
      suc next,
      blocks
          ++ record {
            id = internal_id next;
            payload = intermediate_subnode level roots;
            ref_count = 2;
          }
            ∷ [],
    ))
unfolding append_subnode_parents
one_parent level roots next blocks out e =
    let (pushed, appended, e1) =
      >>=-eq-ok (append_block push true (intermediate_subnode level roots) next blocks) _ e in
    let (first, found, e2) = >>=-eq-ok (or_abort (head? roots)) _ e1 in
    (
      first.node,
      sym (ok_injective e2)
          ∙ ap (λ pushed. (record { node = first.node; block = pushed.0 } ∷ [], pushed.1, pushed.2))
              (append_block-push (intermediate_subnode level roots) next blocks pushed appended),
    )

levels_one :
    (fuel level : ℕ) (root : IntermediateSubnodeEntry) (next : ℕ) (blocks : List BlockSpec)
    (out : BlockId × ℕ × List BlockSpec)
    → append_subnode_levels fuel level (root ∷ []) next blocks ≡ ok out
    → (root.block, next, blocks) ≡ out
unfolding append_subnode_levels
levels_one zero level root next blocks out e = cc
levels_one (suc fuel) level root next blocks out e = ok_injective e

append_subnode_levels-Grows :
    (fuel : ℕ) (roots : List IntermediateSubnodeEntry) (leaves : List BlockSpec)
    (entries : List LeafSubnodeEntry) (next : ℕ) (blocks : List BlockSpec)
    (out : BlockId × ℕ × List BlockSpec)
    → HasLeaves next entries leaves roots
    → append_subnode_levels fuel 1 roots (next + length leaves) (blocks ++ leaves) ≡ ok out
    → Grows entries next blocks out
unfolding append_subnode_levels
append_subnode_levels-Grows zero roots leaves entries next blocks out has e = cc
append_subnode_levels-Grows (suc fuel) [] leaves entries next blocks out has e = cc
append_subnode_levels-Grows (suc fuel) (r ∷ []) leaves entries next blocks out has e =
    subst (Grows entries next blocks) (ok_injective e) (one_root r leaves entries next blocks has)
append_subnode_levels-Grows (suc fuel) (r ∷ r' ∷ rs) leaves entries next blocks out has e =
    let roots = r ∷ r' ∷ rs in
    let several : ltb 1 (length roots) ≡ true = ground arith in
    let few : length roots ≤ subnode_intermediate_capacity = omega (arith, has.fits) in
    let single : chunks subnode_intermediate_capacity roots ≡ roots ∷ [] =
      chunks_in_last (suc (length rs)) subnode_intermediate_capacity roots (omega arith) few in
    let behind = next + length leaves in
    let (made, appended, e1) =
      >>=-eq-ok
        (append_subnode_parents 1 (chunks subnode_intermediate_capacity roots) behind
          (blocks ++ leaves))
        _ (rw several at e) in
    let (level, deeper, e2) =
      >>=-eq-ok (or_err (checked (2 ^ 8) (1 + 1)) (value_too_large "subnode tree depth"))
        (λ above. append_subnode_levels fuel above made.0 made.1 made.2) e1 in
    let (node, alone_above) = one_parent 1 roots behind (blocks ++ leaves) made (
      subst (λ parts. append_subnode_parents 1 parts behind (blocks ++ leaves) ≡ ok made) single
        appended) in
    let last =
      subst (λ made. append_subnode_levels fuel level made.0 made.1 made.2 ≡ ok out) alone_above
        e2 in
    subst (Grows entries next blocks) (levels_one fuel level _ _ _ out last) (
      leaves ++ upper_root (internal_id behind) roots ∷ [],
      append_assoc blocks leaves _,
      above_leaves leaves roots has,
    )

-- When a subnode tree is made, there are at least one entry and at most 340 times 510, and the blocks
-- that are pushed behind those that were there form a tree of one or two levels, no block larger than
-- 8,176 bytes. Its blocks have ids with the consecutive indices from the next one on, the root last, the
-- root's id is returned, and the next index afterwards is the one behind the root's. Its lowest blocks
-- list all of the entries, in the ascending order of the nodes, and those of equal nodes in the order in
-- which they were given; with two levels, each entry of the root has the id of a lowest block and the
-- node of its first entry.
pub append_subnode_tree-IsSubnodeTree :
    (entries : List LeafSubnodeEntry) (next : ℕ) (blocks : List BlockSpec)
    (out : BlockId × ℕ × List BlockSpec)
    → append_subnode_tree entries next blocks ≡ ok out
    → IsListing entries
      × ((pushed : List BlockSpec) × (out.2 ≡ blocks ++ pushed)
          × IsSubnodeTree (in_order entries) next out.0 out.1 pushed)
unfolding append_subnode_tree
append_subnode_tree-IsSubnodeTree entries next blocks out e =
    let (some_entries, e1) = guard-true (not (length entries == 0)) _ _ out e in
    let (few, e2) = guard-true (leb (length entries) max_subnode_tree_entries) _ _ out e1 in
    let sorted = in_order entries in
    let listing = guards-IsListing entries some_entries few in
    let (made, leaves_made, e3) =
      >>=-eq-ok (append_subnode_leaves (chunks subnode_leaf_capacity sorted) next blocks) _ e2 in
    let (leaves, same, count, has) =
      append_subnode_leaves-HasLeaves entries next blocks made listing leaves_made in
    let behind : append_subnode_levels (suc (length made.0)) 1 made.0 made.1 (blocks ++ leaves)
        ≡ ok out =
      subst (λ pushed. append_subnode_levels (suc (length made.0)) 1 made.0 made.1 pushed ≡ ok out)
        same e3 in
    (
      listing,
      append_subnode_levels-Grows (suc (length made.0)) made.0 leaves sorted next blocks out has (
          subst
            (λ end.
              append_subnode_levels (suc (length made.0)) 1 made.0 end (blocks ++ leaves) ≡ ok out)
            count behind),
    )
