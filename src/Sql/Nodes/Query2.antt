-- ===== src/Sql/Nodes/Query2.antt =====
-- src/sql/sql_node_struct.h: the structs of queries and of what statements share. Pointers to nodes are
-- addresses, 0 the null pointer.
use Prim.Native.Nat.{ℕ}
use mosito.Base.Int.{ℤ}
use mosito.Sql.NodeType.{NodeType}
use mosito.Sql.Nodes.Text.{CString}

pub record FromList : Type 0 where
  pub type : NodeType
  pub args : ℕ
  pub next : ℕ
  pub whcdn : ℕ

pub record FromExpr : Type 0 where
  pub type : NodeType
  pub astablename : CString
  pub next : ℕ

pub record WhereList : Type 0 where
  pub type : NodeType
  pub wherestring : CString
  pub next : ℕ

pub record GroupbyList : Type 0 where
  pub type : NodeType
  pub groupbystring : CString
  pub next : ℕ
  pub with_rollup : ℤ

pub record GroupbyExpr : Type 0 where
  pub type : NodeType
  pub args : ℕ
  pub sorttype : ℤ
  pub next : ℕ

pub record HavingList : Type 0 where
  pub type : NodeType
  pub havingstring : CString
  pub next : ℕ

pub record OrderbyList : Type 0 where
  pub type : NodeType
  pub orderbystring : CString
  pub next : ℕ

pub record OrderbyExpr : Type 0 where
  pub type : NodeType
  pub args : ℕ
  pub sorttype : CString
  pub next : ℕ

pub record LimitExpr : Type 0 where
  pub type : NodeType
  pub offset : ℕ
  pub row_count : ℕ

pub record InsertStmt : Type 0 where
  pub type : NodeType
  pub insert_opt : ℤ
  pub tablename : CString
  pub col_list : ℕ
  pub insert_val_list : ℕ
  pub insert_assign_list : ℕ
  pub insert_assign_list_from_set : ℕ
  pub select_stmt : ℕ

pub record InsertValList : Type 0 where
  pub type : NodeType
  pub insert_vals : ℕ
  pub next : ℕ

pub record InsertVals : Type 0 where
  pub type : NodeType
  pub value_type : ℤ
  pub expr : ℕ
  pub next : ℕ

pub record InsertAssignList : Type 0 where
  pub type : NodeType
  pub col_name : CString
  pub value_type : ℤ
  pub expr : ℕ
  pub next : ℕ
