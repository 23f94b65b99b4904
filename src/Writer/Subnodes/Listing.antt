-- ===== src/Writer/Subnodes/Listing.antt =====
-- The trees of subnode entries of crates/pstforge-pst/src/writer.rs list the entries that they were made
-- of.
use pstforge.Base.{
  ℕ, suc, ◌+◌, ◌*◌, ◌≤◌, Bool, true, false, not, List, [], ◌∷◌, ◌++◌, Option, some, none, leb, ◌==◌,
  length, ok, ◌>>=◌, or_abort, or_err, checked_add, guard, >>=-eq-ok, length-sort_by, All, ◌≡◌,
  refl, sym, ap, ap₂, ◌∙◌, subst, inl, inr, append-nil, append_assoc, Bool-cases, arith,
}
use pstforge.Writer.Error.{WriterError, WriterResult, value_too_large}
use pstforge.Writer.Block.{
  BlockId, BlockSpec, BlockPayload, LeafSubnodeEntry, IntermediateSubnodeEntry, subnode,
  new_block_id,
}
use pstforge.Writer.BTree.{head?}
use pstforge.Writer.DataTree.{chunks, push, append_block, take_block_id, max_data_block_payload}
use pstforge.Writer.DataTree.RoundTrip.{concat-chunks, All-chunks, ok_injective}
use pstforge.Writer.DataTree.Success.{length-chunks_in}
use pstforge.Writer.Subnodes.{
  subnode_leaf_capacity, subnode_intermediate_capacity, max_subnode_tree_entries,
  append_subnode_leaves, append_subnode_tree_at,
}
use pstforge.Writer.Subnodes.Shape.{
  internal_id, AreLeaves, HasLeaves, upper_root, IsTreeUnder, one_block, two_levels, in_order,
  IsListing, guards-IsListing,
}

-- A guard that was passed.
pub guard-true :
    {B : Type 0} (test : Bool) (reason : WriterError) (further : Unit {0} → WriterResult B)
    (out : B)
    → (guard test reason >>= further) ≡ ok out
    → (test ≡ true) × (further tt ≡ ok out)
guard-true true reason further out e = (refl, e)
guard-true false reason further out e = cc

pub or_abort-some :
    {A : Type 0} (value : Option A) (x : A)
    → ◌≡◌ {A = WriterResult A} (or_abort value) (ok x)
    → value ≡ some x
or_abort-some none x e = cc
or_abort-some (some y) x e = ap some (ok_injective e)

pub append_block-push :
    (payload : BlockPayload) (next : ℕ) (blocks : List BlockSpec)
    (out : BlockId × ℕ × List BlockSpec)
    → append_block push true payload next blocks ≡ ok out
    → out ≡ (
      internal_id next,
      suc next,
      blocks ++ record { id = internal_id next; payload = payload; ref_count = 2 } ∷ [],
    )
unfolding append_block take_block_id new_block_id
append_block-push payload next blocks out e =
    let (taken, took, more) = >>=-eq-ok (take_block_id true next) _ e in
    let known : taken ≡ (internal_id next, suc next) = taken_id next taken took in
    sym (ok_injective more)
    ∙ ap
        (λ taken. (
          taken.0,
          taken.1,
          blocks ++ record { id = taken.0; payload = payload; ref_count = 2 } ∷ [],
        ))
        known
  where
    taken_id :
        (next : ℕ) (taken : BlockId × ℕ)
        → take_block_id true next ≡ ok taken
        → taken ≡ (internal_id next, suc next)
    taken_id next taken e =
        let (after, counted, more) =
          >>=-eq-ok (or_err (checked_add next 1) (value_too_large "block id")) _ e in
        let (id, named, last) = >>=-eq-ok (new_block_id true next) _ more in
        sym (ok_injective last)
        ∙ ap₂ (λ id after. (id, after)) (ground (arith, named)) (ground (arith, counted))

pub append_subnode_leaves-AreLeaves :
    (groups : List (List LeafSubnodeEntry)) (next : ℕ) (blocks : List BlockSpec)
    (out : List IntermediateSubnodeEntry × ℕ × List BlockSpec)
    → All (λ group. length group ≤ subnode_leaf_capacity) groups
    → append_subnode_leaves groups next blocks ≡ ok out
    → (leaves : List BlockSpec) × (out.2 ≡ blocks ++ leaves)
      × (out.1 ≡ next + length leaves)
      × AreLeaves next out.0 leaves groups
unfolding append_subnode_leaves
append_subnode_leaves-AreLeaves [] next blocks out fit e =
    subst
      (λ out.
        (leaves : List BlockSpec) × (out.2 ≡ blocks ++ leaves)
        × (out.1 ≡ next + length leaves)
        × AreLeaves next out.0 leaves [])
      (ok_injective e) ([], sym (append-nil blocks), omega arith, tt)
append_subnode_leaves-AreLeaves (group ∷ rest) next blocks out fit e =
    let block : BlockSpec = record {
      id = internal_id next;
      payload = subnode group;
      ref_count = 2;
    } in
    let (pushed, appended, e1) =
      >>=-eq-ok (append_block push true (subnode group) next blocks) _ e in
    let known = append_block-push (subnode group) next blocks pushed appended in
    let (first, found, e2) = >>=-eq-ok (or_abort (head? group)) _ e1 in
    let (more, finished, e3) = >>=-eq-ok (append_subnode_leaves rest pushed.1 pushed.2) _ e2 in
    let finished' : append_subnode_leaves rest (suc next) (blocks ++ block ∷ []) ≡ ok more =
      subst (λ pushed. append_subnode_leaves rest pushed.1 pushed.2 ≡ ok more) known finished in
    let (leaves, same, count, are) =
      append_subnode_leaves-AreLeaves rest (suc next) (blocks ++ block ∷ []) more fit.1 finished' in
    subst
      (λ out.
        (leaves : List BlockSpec) × (out.2 ≡ blocks ++ leaves)
        × (out.1 ≡ next + length leaves)
        × AreLeaves next out.0 leaves (group ∷ rest))
      (ok_injective e3)
      (
        block ∷ leaves,
        same ∙ append_assoc blocks (block ∷ []) leaves,
        omega (arith, count),
        (
          record {
            written = refl;
            fits = leaf_room (length group) fit.0;
            first = (
              first,
              or_abort-some (head? group) first found,
              ap (λ pushed. record { node = first.node; block = pushed.0 }) known,
            );
          },
          are,
        ),
      )
  where
    leaf_room : (n : ℕ) → n ≤ subnode_leaf_capacity → 8 + n * 24 ≤ max_data_block_payload
    leaf_room n h = omega (arith, h)

length-AreLeaves :
    (index : ℕ) (above : List IntermediateSubnodeEntry) (leaves : List BlockSpec)
    (groups : List (List LeafSubnodeEntry))
    → AreLeaves index above leaves groups
    → length above ≡ length groups
length-AreLeaves index [] [] [] h = refl
length-AreLeaves index [] [] (g ∷ gs) h = elim h [ ]
length-AreLeaves index [] (b ∷ bs) gs h = elim h [ ]
length-AreLeaves index (e ∷ es) [] gs h = elim h [ ]
length-AreLeaves index (e ∷ es) (b ∷ bs) [] h = elim h [ ]
length-AreLeaves index (e ∷ es) (b ∷ bs) (g ∷ gs) h =
    ap suc (length-AreLeaves (suc index) es bs gs h.1)

-- The leaves of a list that passed the guards.
pub append_subnode_leaves-HasLeaves :
    (entries : List LeafSubnodeEntry) (next : ℕ) (blocks : List BlockSpec)
    (out : List IntermediateSubnodeEntry × ℕ × List BlockSpec)
    → IsListing entries
    → append_subnode_leaves (chunks subnode_leaf_capacity (in_order entries)) next blocks ≡ ok out
    → (leaves : List BlockSpec) × (out.2 ≡ blocks ++ leaves)
      × (out.1 ≡ next + length leaves)
      × HasLeaves next (in_order entries) leaves out.0
append_subnode_leaves-HasLeaves entries next blocks out listing e =
    let sorted = in_order entries in
    let groups = chunks subnode_leaf_capacity sorted in
    let (leaves, same, count, are) =
      append_subnode_leaves-AreLeaves groups next blocks out
        (All-chunks subnode_leaf_capacity sorted) e in
    let listed : length sorted ≤ subnode_intermediate_capacity * subnode_leaf_capacity =
      omega (arith, length-sort_by (λ a b. leb a.node b.node) entries, listing.few) in
    (
      leaves,
      same,
      count,
      record {
        groups = groups;
        whole = concat-chunks subnode_leaf_capacity (omega arith) sorted;
        are = are;
        fits = omega (
          arith,
          length-AreLeaves next out.0 leaves groups are,
          length-chunks_in subnode_leaf_capacity (length sorted) subnode_intermediate_capacity
              sorted listed,
        );
      },
    )

-- When a subnode tree is made under a given root, there are at least one entry and at most 340 times
-- 510, and the blocks that are pushed form a tree of one or two levels under that root, no block larger
-- than 8,176 bytes. Its lowest blocks list all of the entries, in the ascending order of the nodes, and
-- those of equal nodes in the order in which they were given. In a tree of two levels the lowest blocks
-- have ids with the consecutive indices from the next one on, the next index afterwards is the one behind
-- them, and each entry of the root has the id of a lowest block and the node of its first entry. In a
-- tree of one level the next index stays.
pub append_subnode_tree_at-IsTreeUnder :
    (entries : List LeafSubnodeEntry) (root : BlockId) (next : ℕ) (blocks : List BlockSpec)
    (out : ℕ × List BlockSpec)
    → append_subnode_tree_at entries root next blocks ≡ ok out
    → IsListing entries
      × ((pushed : List BlockSpec) × (out.1 ≡ blocks ++ pushed)
          × IsTreeUnder root (in_order entries) next out.0 pushed)
unfolding append_subnode_tree_at
append_subnode_tree_at-IsTreeUnder entries root next blocks out e =
    let (some_entries, e1) = guard-true (not (length entries == 0)) _ _ out e in
    let (few, e2) = guard-true (leb (length entries) max_subnode_tree_entries) _ _ out e1 in
    let sorted = in_order entries in
    let listing = guards-IsListing entries some_entries few in
    (
      listing,
      elim (Bool-cases (leb (length sorted) subnode_leaf_capacity)) [
        | inl small ↦
            subst
              (λ out.
                (pushed : List BlockSpec) × (out.1 ≡ blocks ++ pushed)
                × IsTreeUnder root sorted next out.0 pushed)
              (ok_injective (rw small at e2)) (_, refl, one_block (one_room (length sorted) small))
        | inr large ↦
            let (made, leaves_made, done) =
              >>=-eq-ok (append_subnode_leaves (chunks subnode_leaf_capacity sorted) next blocks) _
                (rw large at e2) in
            let (leaves, same, count, has) =
              append_subnode_leaves-HasLeaves entries next blocks made listing leaves_made in
            subst
              (λ out.
                (pushed : List BlockSpec) × (out.1 ≡ blocks ++ pushed)
                × IsTreeUnder root sorted next out.0 pushed)
              (ok_injective done)
              (
                leaves ++ upper_root root made.0 ∷ [],
                ap (λ front. front ++ upper_root root made.0 ∷ []) same
                    ∙ append_assoc blocks leaves _,
                subst
                    (λ end.
                      IsTreeUnder root sorted next end (leaves ++ upper_root root made.0 ∷ []))
                    (sym count) (two_levels leaves made.0 has),
              )
      ],
    )
  where
    one_room : (n : ℕ) → leb n subnode_leaf_capacity ≡ true → 8 + n * 24 ≤ max_data_block_payload
    one_room n h = ground (arith, h)
