-- ===== src/Sql/Arena.antt =====
-- src/sql/function.cpp: where the parser's nodes live. `malloc` hands out addresses that are never used
-- again; `NodePointer` lists the nodes that `FreeAllNode` has to free. What `malloc` can still serve
-- is a number that the environment chooses: at 0 the code reports "out of space!" and exits, which
-- is `none`.
use mosito.Base.{ℕ, zero, suc, Option, none, some, List, [], ◌∷◌, ◌++◌, if◌then◌else◌, ◌==◌}
use mosito.Sql.NodeType.{NodeType}
use mosito.Sql.Nodes.{Node}

pub record Arena : Type 0 where
  pub cell : ℕ → Option Node
  pub next : ℕ
  pub space : ℕ
  pub node_pointer : List ℕ

abbrev pub Alloc : Type 0 → Type 0
Alloc A = Arena → Option (A × Arena)

infixl 5 ◌>>=◌ ◌>>◌
abbrev pub ◌>>=◌ : {A B : Type 0} → Alloc A → (A → Alloc B) → Alloc B
◌>>=◌ m f s = elim (m s) [ none ↦ none | some (a, s') ↦ f a s' ]

abbrev pub ◌>>◌ : {B : Type 0} → Alloc (Unit {0}) → Alloc B → Alloc B
m >> k = m >>= λ _. k

abbrev pub pure : {A : Type 0} → A → Alloc A
pure a s = some (a, s)

-- The parser starts with no node; address 0 is the null pointer.
abbrev pub start : ℕ → Arena
start space = record { cell = λ p. none; next = 1; space = space; node_pointer = [] }

abbrev pub update : (ℕ → Option Node) → ℕ → Option Node → ℕ → Option Node
update f p v q = if q == p then v else f q

abbrev pub malloc : Alloc ℕ
malloc s = elim s.space [
  | zero ↦ none
  | suc n ↦ some (s.next, record s { next = suc s.next; space = n })
]

unfoldable pub store : ℕ → Node → Alloc (Unit {0})
store p n s = some (tt, record s { cell = update s.cell p (some n) })

unfoldable pub insert_node_pointer : ℕ → Alloc (Unit {0})
insert_node_pointer p s = some (tt, record s { node_pointer = s.node_pointer ++ p ∷ [] })

-- What the allocating functions have in common: the node is made, filled in and registered.
unfoldable pub new_node : Node → Alloc ℕ
unfolding store insert_node_pointer
new_node n = do a ← malloc; store a n; insert_node_pointer a; pure a

-- `newExprlistheader` sets its own tag, and registers nothing.
unfoldable pub new_exprlistheader : NodeType → ℕ → ℕ → Alloc ℕ
unfolding store
new_exprlistheader type header tail = do
  node ← malloc
  store node (
      Node.expr_list_header
        (record { type = NodeType.t_expr_list_header; header = header; tail = tail }))
  pure node
