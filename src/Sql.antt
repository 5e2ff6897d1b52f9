-- ===== src/Sql.antt =====
-- src/sql/function.cpp and sql_node_struct.h: the parse tree.
pub mod NodeType
pub mod Nodes
pub mod Arena
pub mod Statements
pub mod Literal
pub mod Ddl1
pub mod Ddl2
pub mod Select1
pub mod Select2
