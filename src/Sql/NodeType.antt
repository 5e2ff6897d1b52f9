-- ===== src/Sql/NodeType.antt =====
-- src/sql/sql_node_struct.h: the tag that every node of the parse tree starts with.

-- The constructors stand in the order of the enumeration.
pub data NodeType : Type 0 where
  t_none t_name t_uservar t_name_name : NodeType
  t_stringval t_intnum t_approxnum t_bool : NodeType
  t_dateval t_timeval t_datatimeval t_table : NodeType
  t_column t_join t_subquery t_condition : NodeType
  t_query_stmt t_stmt t_do_stmt t_truncate_stmt : NodeType
  t_select_list t_select_opts t_select_expr t_expr_list_header : NodeType
  t_expr t_expr_list t_expr_cal t_expr_func : NodeType
  t_expr_relation t_from_list t_from_expr t_from_table : NodeType
  t_where_list t_groupby_list t_groupby_expr t_having_list : NodeType
  t_orderby_list t_orderby_expr t_limit_list t_limit_expr : NodeType
  t_insert_stmt t_insert_val_list t_insert_vals t_insert_assign : NodeType
  t_create_database_stmt t_create_table_stmt t_create_col_list t_create_def : NodeType
  t_create_projection_stmt t_alter_database_stmt t_alter_table_stmt t_alter_def : NodeType
  t_create_select_stmt t_column_atts t_opt_csc t_datatype : NodeType
  t_length t_enum_list t_create_index_stmt t_index_col_list : NodeType
  t_drop_index t_drop_database_stmt t_drop_table_stmt t_table_list : NodeType
  t_load_table_stmt t_show_stmt : NodeType
