-- ===== src/Sql/Nodes.antt =====
-- src/sql/sql_node_struct.h: what an address of the parse tree holds.
pub mod Text
pub mod Query1
pub mod Query2
pub mod Ddl
use Query1.{
  ExprListHeader, Stmt, Expr, ExprList, Columns, ExprCal, ExprFunc, Table, Join, Condition,
  Subquery, QueryStmt, SelectList, SelectExpr,
}
use Query2.{
  FromList, FromExpr, WhereList, GroupbyList, GroupbyExpr, HavingList, OrderbyList, OrderbyExpr,
  LimitExpr, InsertStmt, InsertValList, InsertVals, InsertAssignList,
}
use Ddl.{
  CreateDatabaseStmt, CreateTableStmt, CreateColList, CreateDef, ColumnAtts, CreateSelectStmt,
  CreateProjectionStmt, DoStmt, TruncateStmt, AlterdatabaseStmt, OptCsc, AltertableStmt, AlterDef,
  Datatype, Length, EnumList, CreateindexStmt, IndexColList, DropindexStmt, DropdatabaseStmt,
  DroptableStmt, LoadtableStmt, Tablelist, ShowStmt,
}

-- One constructor for each struct that the parser allocates.
pub data Node : Type 0 where
  expr_list_header : ExprListHeader → Node
  stmt : Stmt → Node
  expr : Expr → Node
  expr_list : ExprList → Node
  columns : Columns → Node
  expr_cal : ExprCal → Node
  expr_func : ExprFunc → Node
  table : Table → Node
  join : Join → Node
  condition : Condition → Node
  subquery : Subquery → Node
  query_stmt : QueryStmt → Node
  select_list : SelectList → Node
  select_expr : SelectExpr → Node
  from_list : FromList → Node
  from_expr : FromExpr → Node
  where_list : WhereList → Node
  groupby_list : GroupbyList → Node
  groupby_expr : GroupbyExpr → Node
  having_list : HavingList → Node
  orderby_list : OrderbyList → Node
  orderby_expr : OrderbyExpr → Node
  limit_expr : LimitExpr → Node
  insert_stmt : InsertStmt → Node
  insert_val_list : InsertValList → Node
  insert_vals : InsertVals → Node
  insert_assign_list : InsertAssignList → Node
  create_database_stmt : CreateDatabaseStmt → Node
  create_table_stmt : CreateTableStmt → Node
  create_col_list : CreateColList → Node
  create_def : CreateDef → Node
  column_atts : ColumnAtts → Node
  create_select_stmt : CreateSelectStmt → Node
  create_projection_stmt : CreateProjectionStmt → Node
  do_stmt : DoStmt → Node
  truncate_stmt : TruncateStmt → Node
  alterdatabase_stmt : AlterdatabaseStmt → Node
  opt_csc : OptCsc → Node
  altertable_stmt : AltertableStmt → Node
  alter_def : AlterDef → Node
  datatype : Datatype → Node
  length : Length → Node
  enum_list : EnumList → Node
  createindex_stmt : CreateindexStmt → Node
  index_col_list : IndexColList → Node
  dropindex_stmt : DropindexStmt → Node
  dropdatabase_stmt : DropdatabaseStmt → Node
  droptable_stmt : DroptableStmt → Node
  loadtable_stmt : LoadtableStmt → Node
  tablelist : Tablelist → Node
  show_stmt : ShowStmt → Node
