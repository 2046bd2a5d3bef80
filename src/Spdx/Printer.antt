-- ===== src/Spdx/Printer.antt =====
-- spdx_printer.py. `print` and its methods call one another on the parts of a node: the model is
-- one function of the node, with `_wrap_if_or` given the printed child.
use debcraft.Prelude.{true, false, ◌++◌}
use debcraft.Prelude.Text.{Text, codes}
use debcraft.Spdx.Values.{SpdxNode, simple_node, with_node, and_node, or_node}

-- `_wrap_if_or`, given what `print` returns for the node.
unfoldable pub wrap_if_or : SpdxNode → Text → Text
wrap_if_or (or_node l r) result = codes "(" ++ result ++ codes ")"
wrap_if_or (simple_node i o) result = result
wrap_if_or (with_node l e) result = result
wrap_if_or (and_node l r) result = result

unfoldable pub print : SpdxNode → Text
unfolding wrap_if_or
print (simple_node identifier true) = identifier ++ codes "+"
print (simple_node identifier false) = identifier
print (with_node license exception) = print license ++ codes " WITH " ++ exception
print (and_node left right) =
    wrap_if_or left (print left) ++ codes " AND " ++ wrap_if_or right (print right)
print (or_node left right) = print left ++ codes " OR " ++ print right
