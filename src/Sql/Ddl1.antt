-- ===== src/Sql/Ddl1.antt =====
-- src/sql/function.cpp: the functions by which the parser makes nodes, other statements.
use Prim.Native.Nat.{ℕ}
use mosito.Base.Int.{ℤ}
use mosito.Sql.NodeType.{NodeType}
use mosito.Sql.Nodes.{Node}
use mosito.Sql.Nodes.Text.{CString}
use mosito.Sql.Arena.{Alloc, new_node}

unfoldable pub new_insert_stmt : ℤ → CString → ℕ → ℕ → ℕ → ℕ → ℕ → Alloc ℕ
unfolding new_node
new_insert_stmt insert_opt tablename col_list insert_val_list insert_assign_list
      insert_assign_list_from_set select_stmt =
    new_node (
      Node.insert_stmt (record {
        type = NodeType.t_insert_stmt;
        insert_opt = insert_opt;
        tablename = tablename;
        col_list = col_list;
        insert_val_list = insert_val_list;
        insert_assign_list = insert_assign_list;
        insert_assign_list_from_set = insert_assign_list_from_set;
        select_stmt = select_stmt;
      }))

unfoldable pub new_insert_value_list : ℕ → ℕ → Alloc ℕ
unfolding new_node
new_insert_value_list insert_vals next = new_node (
    Node.insert_val_list
      (record { type = NodeType.t_insert_val_list; insert_vals = insert_vals; next = next }))

unfoldable pub new_insert_vals : ℤ → ℕ → ℕ → Alloc ℕ
unfolding new_node
new_insert_vals value_type expr next = new_node (
    Node.insert_vals
      (record { type = NodeType.t_insert_vals; value_type = value_type; expr = expr; next = next }))

unfoldable pub new_insert_assign_list : CString → ℤ → ℕ → ℕ → Alloc ℕ
unfolding new_node
new_insert_assign_list col_name value_type expr next = new_node (
    Node.insert_assign_list (record {
      type = NodeType.t_insert_assign;
      col_name = col_name;
      value_type = value_type;
      expr = expr;
      next = next;
    }))

unfoldable pub new_create_database_stmt : NodeType → ℤ → ℤ → CString → Alloc ℕ
unfolding new_node
new_create_database_stmt type create_type check name = new_node (
    Node.create_database_stmt
      (record { type = type; create_type = create_type; check = check; name = name }))

unfoldable pub new_create_table_stmt : NodeType → ℤ → ℤ → CString → CString → ℕ → ℕ → Alloc ℕ
unfolding new_node
new_create_table_stmt type create_type check name1 name2 list select_stmt = new_node (
    Node.create_table_stmt (record {
      type = type;
      create_type = create_type;
      check = check;
      name1 = name1;
      name2 = name2;
      list = list;
      select_stmt = select_stmt;
    }))

unfoldable pub new_create_col_list : NodeType → ℕ → ℕ → Alloc ℕ
unfolding new_node
new_create_col_list type content next =
    new_node (Node.create_col_list (record { type = type; content = content; next = next }))

unfoldable pub new_create_def : NodeType → ℤ → CString → ℕ → ℕ → ℕ → Alloc ℕ
unfolding new_node
new_create_def type deftype name datatype col_atts col_list = new_node (
    Node.create_def (record {
      type = type;
      deftype = deftype;
      name = name;
      datatype = datatype;
      col_atts = col_atts;
      col_list = col_list;
    }))

unfoldable pub new_column_atts : NodeType → ℤ → ℤ → ℕ → CString → ℕ → Alloc ℕ
unfolding new_node
new_column_atts type datatype num1 num2 s col_list = new_node (
    Node.column_atts (record {
      type = type;
      datatype = datatype;
      num1 = num1;
      num2 = num2;
      s = s;
      col_list = col_list;
    }))

unfoldable pub new_create_select_stmt : NodeType → ℤ → ℤ → ℕ → Alloc ℕ
unfolding new_node
new_create_select_stmt type ignore_replace temporary select_stmt = new_node (
    Node.create_select_stmt (record {
      type = type;
      ignore_replace = ignore_replace;
      temporary = temporary;
      select_stmt = select_stmt;
    }))

unfoldable pub new_create_projection_stmt : NodeType → CString → ℕ → ℤ → CString → Alloc ℕ
unfolding new_node
new_create_projection_stmt type tablename column_list partition_num partition_attribute_name =
    new_node (
      Node.create_projection_stmt (record {
        type = type;
        tablename = tablename;
        column_list = column_list;
        partition_num = partition_num;
        partition_attribute_name = partition_attribute_name;
      }))

unfoldable pub new_do_stmt : NodeType → ℕ → Alloc ℕ
unfolding new_node
new_do_stmt type content = new_node (Node.do_stmt (record { type = type; content = content }))

unfoldable pub new_truncate_stmt : NodeType → CString → Alloc ℕ
unfolding new_node
new_truncate_stmt type name = new_node (Node.truncate_stmt (record { type = type; name = name }))

unfoldable pub new_alter_database_stmt : NodeType → ℤ → CString → ℕ → Alloc ℕ
unfolding new_node
new_alter_database_stmt type createtype name opt = new_node (
    Node.alterdatabase_stmt
      (record { type = type; createtype = createtype; name = name; opt = opt }))

unfoldable pub new_opt_csc : NodeType → ℤ → CString → CString → Alloc ℕ
unfolding new_node
new_opt_csc type datatype s1 s2 =
    new_node (Node.opt_csc (record { type = type; datatype = datatype; s1 = s1; s2 = s2 }))
