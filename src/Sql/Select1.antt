-- ===== src/Sql/Select1.antt =====
-- src/sql/function.cpp: the functions by which the parser makes nodes, queries.
use Prim.Native.Nat.{ℕ}
use mathlib.Core.Option.{some}
use mosito.Base.Int.{ℤ}
use mosito.Sql.NodeType.{NodeType}
use mosito.Sql.Nodes.{Node}
use mosito.Sql.Nodes.Text.{CString}
use mosito.Sql.Arena.{
  Alloc, new_node, malloc, store, insert_node_pointer, new_exprlistheader, pure, ◌>>=◌, ◌>>◌,
}

unfoldable pub new_expr : NodeType → CString → Alloc ℕ
unfolding new_node
new_expr t d = new_node (Node.expr (record { type = t; content = d }))

unfoldable pub new_expr_list : NodeType → ℕ → ℕ → Alloc ℕ
unfolding new_node
new_expr_list t content next =
    new_node (Node.expr_list (record { type = t; content = content; next = next }))

unfoldable pub new_column : NodeType → CString → CString → ℕ → Alloc ℕ
unfolding new_node
new_column t parameter1 parameter2 next = new_node (
    Node.columns
      (record { type = t; parameter1 = parameter1; parameter2 = parameter2; next = next }))

unfoldable pub new_expr_cal : NodeType → CString → CString → ℤ → ℕ → ℕ → Alloc ℕ
unfolding new_node
new_expr_cal type sign parameter cmp lnext rnext = new_node (
    Node.expr_cal (record {
      type = type;
      str = some "";
      sign = sign;
      parameter = parameter;
      cmp = cmp;
      lnext = lnext;
      rnext = rnext;
    }))

unfoldable pub new_expr_func : NodeType → CString → ℕ → ℕ → ℕ → ℕ → Alloc ℕ
unfolding new_node
new_expr_func type funname args parameter1 parameter2 next = new_node (
    Node.expr_func (record {
      type = type;
      str = some "";
      funname = funname;
      args = args;
      parameter1 = parameter1;
      parameter2 = parameter2;
      next = next;
    }))

unfoldable pub new_table : NodeType → CString → CString → CString → ℤ → ℕ → Alloc ℕ
unfolding new_exprlistheader store insert_node_pointer
new_table type dbname tablename astablename issubquery subquery = do
  a ← malloc
  header ← new_exprlistheader NodeType.t_expr_list_header 0 0
  store a (
      Node.table (record {
        type = type;
        dbname = dbname;
        tablename = tablename;
        astablename = astablename;
        issubquery = issubquery;
        subquery = subquery;
        whcdn = header;
      }))
  insert_node_pointer a
  pure a

unfoldable pub new_join : NodeType → ℤ → ℕ → ℕ → ℕ → Alloc ℕ
unfolding new_node
new_join type jointype lnext rnext condition = new_node (
    Node.join (record {
      type = type;
      jointype = jointype;
      lnext = lnext;
      rnext = rnext;
      condition = condition;
    }))

unfoldable pub new_condition : NodeType → ℤ → ℕ → Alloc ℕ
unfolding new_node
new_condition type conditiontype args =
    new_node (Node.condition (record { type = type; conditiontype = conditiontype; args = args }))

unfoldable pub new_subquery : NodeType → CString → ℕ → Alloc ℕ
unfolding new_node
new_subquery type querystring next =
    new_node (Node.subquery (record { type = type; querystring = querystring; next = next }))

unfoldable pub new_query_stmt : NodeType → CString → ℤ → ℕ → ℕ → ℕ → ℕ → ℕ → ℕ → ℕ → ℕ → Alloc ℕ
unfolding new_node
new_query_stmt t querystring select_opts select_list from_list where_list groupby_list having_list
      orderby_list limit_list into_list =
    new_node (
      Node.query_stmt (record {
        type = t;
        querystring = querystring;
        select_opts = select_opts;
        select_list = select_list;
        from_list = from_list;
        where_list = where_list;
        groupby_list = groupby_list;
        having_list = having_list;
        orderby_list = orderby_list;
        limit_list = limit_list;
        into_list = into_list;
      }))

unfoldable pub new_select_list : NodeType → ℤ → ℕ → ℕ → Alloc ℕ
unfolding new_node
new_select_list type isall args next =
    new_node (Node.select_list (record { type = type; isall = isall; args = args; next = next }))

unfoldable pub new_select_expr : NodeType → CString → ℕ → Alloc ℕ
unfolding new_node
new_select_expr type ascolname colname =
    new_node (Node.select_expr (record { type = type; ascolname = ascolname; colname = colname }))

unfoldable pub new_from_list : NodeType → ℕ → ℕ → Alloc ℕ
unfolding new_exprlistheader store insert_node_pointer
new_from_list type args next = do
  a ← malloc
  header ← new_exprlistheader NodeType.t_expr_list_header 0 0
  store a (Node.from_list (record { type = type; args = args; next = next; whcdn = header }))
  insert_node_pointer a
  pure a

unfoldable pub new_from_expr : NodeType → CString → ℕ → Alloc ℕ
unfolding new_node
new_from_expr type astablename next =
    new_node (Node.from_expr (record { type = type; astablename = astablename; next = next }))

unfoldable pub new_where_list : NodeType → CString → ℕ → Alloc ℕ
unfolding new_node
new_where_list type wherestring next =
    new_node (Node.where_list (record { type = type; wherestring = wherestring; next = next }))
