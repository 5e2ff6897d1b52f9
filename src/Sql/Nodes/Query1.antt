-- ===== src/Sql/Nodes/Query1.antt =====
-- src/sql/sql_node_struct.h: the structs of queries and of what statements share. Pointers to nodes are
-- addresses, 0 the null pointer.
use Prim.Native.Nat.{ℕ}
use mosito.Base.Int.{ℤ}
use mosito.Sql.NodeType.{NodeType}
use mosito.Sql.Nodes.Text.{CString}

pub record ExprListHeader : Type 0 where
  pub type : NodeType
  pub header : ℕ
  pub tail : ℕ

pub record Stmt : Type 0 where
  pub type : NodeType
  pub content : ℕ
  pub next : ℕ
  pub last : ℕ

pub record Expr : Type 0 where
  pub type : NodeType
  pub content : CString

pub record ExprList : Type 0 where
  pub type : NodeType
  pub content : ℕ
  pub next : ℕ

pub record Columns : Type 0 where
  pub type : NodeType
  pub parameter1 : CString
  pub parameter2 : CString
  pub next : ℕ

pub record ExprCal : Type 0 where
  pub type : NodeType
  pub str : CString
  pub sign : CString
  pub parameter : CString
  pub cmp : ℤ
  pub lnext : ℕ
  pub rnext : ℕ

pub record ExprFunc : Type 0 where
  pub type : NodeType
  pub str : CString
  pub funname : CString
  pub args : ℕ
  pub parameter1 : ℕ
  pub parameter2 : ℕ
  pub next : ℕ

pub record Table : Type 0 where
  pub type : NodeType
  pub dbname : CString
  pub tablename : CString
  pub astablename : CString
  pub issubquery : ℤ
  pub subquery : ℕ
  pub whcdn : ℕ

pub record Join : Type 0 where
  pub type : NodeType
  pub jointype : ℤ
  pub lnext : ℕ
  pub rnext : ℕ
  pub condition : ℕ

pub record Condition : Type 0 where
  pub type : NodeType
  pub conditiontype : ℤ
  pub args : ℕ

pub record Subquery : Type 0 where
  pub type : NodeType
  pub querystring : CString
  pub next : ℕ

pub record QueryStmt : Type 0 where
  pub type : NodeType
  pub querystring : CString
  pub select_opts : ℤ
  pub select_list : ℕ
  pub from_list : ℕ
  pub where_list : ℕ
  pub groupby_list : ℕ
  pub having_list : ℕ
  pub orderby_list : ℕ
  pub limit_list : ℕ
  pub into_list : ℕ

pub record SelectList : Type 0 where
  pub type : NodeType
  pub isall : ℤ
  pub args : ℕ
  pub next : ℕ

pub record SelectExpr : Type 0 where
  pub type : NodeType
  pub ascolname : CString
  pub colname : ℕ
