-- ===== src/Registry/Tree.antt =====
-- The library tree of core/accounting.c. A node has a name, the gates filed under it, and the array of
-- its subnodes; here it stands with the node that follows it in the same array.
use logxcontroll_v.Base.{List, [], ◌∷◌, ◌++◌, if◌then◌else◌, Ptr}
use Prim.Native.String.{String}
use text.Mathlib.Text.{◌==◌ as str_eq}

-- struct library_tree_node, with the rest of the array behind it
pub data LibraryTree : Type 0 where
  no_node : LibraryTree
  node : String → List Ptr → LibraryTree → LibraryTree → LibraryTree

-- The nodes that get_or_create_library_path makes for the names that the search did not find; the gate
-- goes to the last of them.
unfoldable pub new_nodes : String → List String → Ptr → LibraryTree
new_nodes name [] entry = node name (entry ∷ []) no_node no_node
new_nodes name (next ∷ path) entry = node name [] (new_nodes next path entry) no_node

-- get_or_create_library_path for a path that has a name, and the append to the gates of the node: the
-- search takes the first node with the name and goes on in its subnodes.
unfoldable pub add_gate : LibraryTree → String → List String → Ptr → LibraryTree
unfolding new_nodes
add_gate no_node name path entry = new_nodes name path entry
add_gate (node n gates subnodes others) name [] entry =
    let rest = add_gate others name [] entry in
    if str_eq name n
    then node n (gates ++ entry ∷ []) subnodes others
    else node n gates subnodes rest
add_gate (node n gates subnodes others) name (next ∷ path) entry =
    let below = add_gate subnodes next path entry in
    let rest = add_gate others name (next ∷ path) entry in
    if str_eq name n then node n gates below others else node n gates subnodes rest
