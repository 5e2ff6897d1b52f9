-- ===== src/Sql/Statements.antt =====
-- src/sql/function.cpp: the list of statements (`newStmt`), and the release of all nodes.
pub mod Append
pub mod Release
use mosito.Base.{ℕ, suc, ◌≡◌, Option, none, some, List, [], ◌∷◌, ◌++◌, if◌then◌else◌, ◌==◌}
use mosito.Sql.NodeType.{NodeType}
use mosito.Sql.Nodes.{Node}
use mosito.Sql.Nodes.Query1.{Stmt}
use mosito.Sql.Arena.{Arena, Alloc, update, malloc, store, insert_node_pointer, pure, ◌>>=◌, ◌>>◌}

-- `(Stmt *)p`, where `p` points to a statement; a read through any other pointer is a fault.
unfoldable pub load_stmt : ℕ → Alloc Stmt
load_stmt p s = elim (s.cell p) [
  | none ↦ none
  | some n ↦ elim n [ Node.stmt x ↦ some (x, s) | _ ↦ none ]
]

-- Linking `a` behind the last node of the list at `list`, which its head points to.
unfoldable pub append_stmt : ℕ → ℕ → Alloc ℕ
unfolding load_stmt store
append_stmt list a = do
  head ← load_stmt list
  tail ← load_stmt head.last
  store head.last (Node.stmt (record tail { next = a }))
  head' ← load_stmt list
  store list (Node.stmt (record head' { last = a }))
  pure list

-- The new node is linked behind the list at hand; without one it is itself the head of a list, and is
-- registered.
unfoldable pub new_stmt : NodeType → ℕ → ℕ → Alloc ℕ
unfolding append_stmt insert_node_pointer
new_stmt t list new_node = do
  a ← malloc
  store a (Node.stmt (record { type = t; content = new_node; next = 0; last = a }))
  if list == 0 then (insert_node_pointer a >> pure a) else append_stmt list a

-- `FreeAllNode`: `free` of each registered node, and the registry is cleared.
unfoldable pub free_each : List ℕ → (ℕ → Option Node) → ℕ → Option Node
free_each [] cell = cell
free_each (p ∷ ps) cell = free_each ps (update cell p none)

unfoldable pub free_all_node : Arena → Arena
unfolding free_each
free_all_node s = record s { cell = free_each s.node_pointer s.cell; node_pointer = [] }
