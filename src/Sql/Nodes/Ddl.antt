-- ===== src/Sql/Nodes/Ddl.antt =====
-- src/sql/sql_node_struct.h: the structs of the statements that define data. A `double` is its bit
-- pattern.
use Prim.Native.Nat.{ℕ}
use mathlib.Core.Bool.{Bool}
use mosito.Base.Int.{ℤ}
use mosito.Sql.NodeType.{NodeType}
use mosito.Sql.Nodes.Text.{CString}

pub record CreateDatabaseStmt : Type 0 where
  pub type : NodeType
  pub create_type : ℤ
  pub check : ℤ
  pub name : CString

pub record CreateTableStmt : Type 0 where
  pub type : NodeType
  pub create_type : ℤ
  pub check : ℤ
  pub name1 : CString
  pub name2 : CString
  pub list : ℕ
  pub select_stmt : ℕ

pub record CreateColList : Type 0 where
  pub type : NodeType
  pub content : ℕ
  pub next : ℕ

pub record CreateDef : Type 0 where
  pub type : NodeType
  pub deftype : ℤ
  pub name : CString
  pub datatype : ℕ
  pub col_atts : ℕ
  pub col_list : ℕ

pub record ColumnAtts : Type 0 where
  pub type : NodeType
  pub datatype : ℤ
  pub num1 : ℤ
  pub num2 : ℕ
  pub s : CString
  pub col_list : ℕ

pub record CreateSelectStmt : Type 0 where
  pub type : NodeType
  pub ignore_replace : ℤ
  pub temporary : ℤ
  pub select_stmt : ℕ

pub record CreateProjectionStmt : Type 0 where
  pub type : NodeType
  pub tablename : CString
  pub column_list : ℕ
  pub partition_num : ℤ
  pub partition_attribute_name : CString

pub record DoStmt : Type 0 where
  pub type : NodeType
  pub content : ℕ

pub record TruncateStmt : Type 0 where
  pub type : NodeType
  pub name : CString

pub record AlterdatabaseStmt : Type 0 where
  pub type : NodeType
  pub createtype : ℤ
  pub name : CString
  pub opt : ℕ

pub record OptCsc : Type 0 where
  pub type : NodeType
  pub datatype : ℤ
  pub s1 : CString
  pub s2 : CString

pub record AltertableStmt : Type 0 where
  pub type : NodeType
  pub isignore : ℤ
  pub name : CString
  pub parameter : ℕ

pub record AlterDef : Type 0 where
  pub type : NodeType
  pub altertype : ℤ
  pub name1 : CString
  pub name2 : CString
  pub datatype : ℤ
  pub coltype : ℤ
  pub parameter : ℕ
  pub next : ℕ

pub record Datatype : Type 0 where
  pub type : NodeType
  pub datatype : ℤ
  pub length : ℕ
  pub opt_uz : ℤ
  pub opt_csc : ℕ
  pub isbinary : ℤ
  pub enum_list : ℕ

pub record Length : Type 0 where
  pub type : NodeType
  pub data1 : ℤ
  pub data2 : ℤ

pub record EnumList : Type 0 where
  pub type : NodeType
  pub s : CString
  pub next : ℕ

pub record CreateindexStmt : Type 0 where
  pub type : NodeType
  pub index_att : ℤ
  pub index_name : CString
  pub index_type : ℤ
  pub table_name : CString
  pub index_col_name : ℕ

pub record IndexColList : Type 0 where
  pub type : NodeType
  pub name : CString
  pub length : ℕ
  pub asc_desc : ℤ
  pub next : ℕ

pub record DropindexStmt : Type 0 where
  pub type : NodeType
  pub index_name : CString
  pub table_name : CString

pub record DropdatabaseStmt : Type 0 where
  pub type : NodeType
  pub droptype : ℤ
  pub check : ℤ
  pub name : CString

pub record DroptableStmt : Type 0 where
  pub type : NodeType
  pub is_temp : ℤ
  pub is_check : ℤ
  pub option_rc : ℤ
  pub table_list : ℕ

pub record LoadtableStmt : Type 0 where
  pub type : NodeType
  pub table_name : CString
  pub path : ℕ
  pub column_separator : CString
  pub tuple_separator : CString

pub record Tablelist : Type 0 where
  pub type : NodeType
  pub name1 : CString
  pub name2 : CString
  pub next : ℕ

pub record ShowStmt : Type 0 where
  pub type : NodeType
  pub full : Bool
  pub show_type : ℤ
  pub database_name : CString
  pub like_string : CString
