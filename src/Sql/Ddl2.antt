-- ===== src/Sql/Ddl2.antt =====
-- src/sql/function.cpp: the functions by which the parser makes nodes, other statements.
use Prim.Native.Nat.{ℕ}
use mathlib.Core.Bool.{Bool}
use mosito.Base.Int.{ℤ}
use mosito.Sql.NodeType.{NodeType}
use mosito.Sql.Nodes.{Node}
use mosito.Sql.Nodes.Text.{CString}
use mosito.Sql.Arena.{Alloc, new_node}

unfoldable pub new_alter_table_stmt : NodeType → ℤ → CString → ℕ → Alloc ℕ
unfolding new_node
new_alter_table_stmt type isignore name parameter = new_node (
    Node.altertable_stmt
      (record { type = type; isignore = isignore; name = name; parameter = parameter }))

unfoldable pub new_alter_def : NodeType → ℤ → CString → CString → ℤ → ℤ → ℕ → ℕ → Alloc ℕ
unfolding new_node
new_alter_def type altertype name1 name2 datatype coltype parameter next = new_node (
    Node.alter_def (record {
      type = type;
      altertype = altertype;
      name1 = name1;
      name2 = name2;
      datatype = datatype;
      coltype = coltype;
      parameter = parameter;
      next = next;
    }))

unfoldable pub new_datatype : NodeType → ℤ → ℕ → ℤ → ℕ → ℤ → ℕ → Alloc ℕ
unfolding new_node
new_datatype type datatype len opt_uz opt_csc isbinary enum_list = new_node (
    Node.datatype (record {
      type = type;
      datatype = datatype;
      length = len;
      opt_uz = opt_uz;
      opt_csc = opt_csc;
      isbinary = isbinary;
      enum_list = enum_list;
    }))

unfoldable pub new_length : NodeType → ℤ → ℤ → Alloc ℕ
unfolding new_node
new_length type data1 data2 =
    new_node (Node.length (record { type = type; data1 = data1; data2 = data2 }))

unfoldable pub new_enum_list : NodeType → CString → ℕ → Alloc ℕ
unfolding new_node
new_enum_list type s next = new_node (Node.enum_list (record { type = type; s = s; next = next }))

unfoldable pub new_create_index : NodeType → ℤ → CString → ℤ → CString → ℕ → Alloc ℕ
unfolding new_node
new_create_index type index_att index_name index_type table_name index_col_name = new_node (
    Node.createindex_stmt (record {
      type = type;
      index_att = index_att;
      index_name = index_name;
      index_type = index_type;
      table_name = table_name;
      index_col_name = index_col_name;
    }))

unfoldable pub new_index_col_list : NodeType → CString → ℕ → ℤ → ℕ → Alloc ℕ
unfolding new_node
new_index_col_list type name len asc_desc next = new_node (
    Node.index_col_list
      (record { type = type; name = name; length = len; asc_desc = asc_desc; next = next }))

unfoldable pub new_drop_index : NodeType → CString → CString → Alloc ℕ
unfolding new_node
new_drop_index type index_name table_name =
    new_node (
      Node.dropindex_stmt
        (record { type = type; index_name = index_name; table_name = table_name }))

unfoldable pub new_drop_database : NodeType → ℤ → ℤ → CString → Alloc ℕ
unfolding new_node
new_drop_database type drop_type check name = new_node (
    Node.dropdatabase_stmt
      (record { type = type; droptype = drop_type; check = check; name = name }))

unfoldable pub new_drop_table : NodeType → ℤ → ℤ → ℤ → ℕ → Alloc ℕ
unfolding new_node
new_drop_table type is_temp is_check opt_rc table_list = new_node (
    Node.droptable_stmt (record {
      type = type;
      is_temp = is_temp;
      is_check = is_check;
      option_rc = opt_rc;
      table_list = table_list;
    }))

unfoldable pub new_load_table : NodeType → CString → ℕ → CString → CString → Alloc ℕ
unfolding new_node
new_load_table type table_name path column_separator tuple_separator = new_node (
    Node.loadtable_stmt (record {
      type = type;
      table_name = table_name;
      path = path;
      column_separator = column_separator;
      tuple_separator = tuple_separator;
    }))

unfoldable pub new_table_list : NodeType → CString → CString → ℕ → Alloc ℕ
unfolding new_node
new_table_list type name1 name2 next =
    new_node (Node.tablelist (record { type = type; name1 = name1; name2 = name2; next = next }))

unfoldable pub new_show_stmt : ℤ → Bool → CString → CString → Alloc ℕ
unfolding new_node
new_show_stmt show_type full database_name like_string = new_node (
    Node.show_stmt (record {
      type = NodeType.t_show_stmt;
      full = full;
      show_type = show_type;
      database_name = database_name;
      like_string = like_string;
    }))
