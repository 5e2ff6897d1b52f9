-- ===== src/Sql/Select2.antt =====
-- src/sql/function.cpp: the functions by which the parser makes nodes, queries.
use Prim.Native.Nat.{ℕ}
use mosito.Base.Int.{ℤ}
use mosito.Sql.NodeType.{NodeType}
use mosito.Sql.Nodes.{Node}
use mosito.Sql.Nodes.Text.{CString}
use mosito.Sql.Arena.{Alloc, new_node}

unfoldable pub new_groupby_list : NodeType → CString → ℕ → ℤ → Alloc ℕ
unfolding new_node
new_groupby_list type groupbystring next with_rollup = new_node (
    Node.groupby_list (record {
      type = type;
      groupbystring = groupbystring;
      next = next;
      with_rollup = with_rollup;
    }))

unfoldable pub new_groupby_expr : NodeType → ℕ → ℤ → ℕ → Alloc ℕ
unfolding new_node
new_groupby_expr type args sorttype next =
    new_node
      (Node.groupby_expr (record { type = type; args = args; sorttype = sorttype; next = next }))

unfoldable pub new_having_list : NodeType → CString → ℕ → Alloc ℕ
unfolding new_node
new_having_list type havingstring next =
    new_node (Node.having_list (record { type = type; havingstring = havingstring; next = next }))

unfoldable pub new_orderby_list : NodeType → CString → ℕ → Alloc ℕ
unfolding new_node
new_orderby_list type orderbystring next =
    new_node
      (Node.orderby_list (record { type = type; orderbystring = orderbystring; next = next }))

unfoldable pub new_orderby_expr : NodeType → ℕ → CString → ℕ → Alloc ℕ
unfolding new_node
new_orderby_expr type args sorttype next =
    new_node
      (Node.orderby_expr (record { type = type; args = args; sorttype = sorttype; next = next }))

unfoldable pub new_limit_expr : NodeType → ℕ → ℕ → Alloc ℕ
unfolding new_node
new_limit_expr type offset row_count =
    new_node (Node.limit_expr (record { type = type; offset = offset; row_count = row_count }))
