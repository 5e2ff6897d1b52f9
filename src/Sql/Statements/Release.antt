-- ===== src/Sql/Statements/Release.antt =====
-- What `FreeAllNode` frees: the registered nodes, and no others.
use mosito.Base.{
  ℕ, suc, ◌≤◌, ◌<◌, ◌≡◌, ◌≢◌, refl, Option, none, some, List, [], ◌∷◌, ◌++◌, if◌then◌else◌, ◌==◌,
  Bool, false, ◌||◌, All, arith,
}
use mosito.Base.Int.{ℤ}
use mosito.Sql.NodeType.{NodeType}
use mosito.Sql.Nodes.{Node}
use mosito.Sql.Nodes.Text.{CString}
use mosito.Sql.Arena.{Arena, update, new_node}
use mosito.Sql.Select1.{new_table, new_from_list}
use mosito.Sql.Statements.{free_each, free_all_node}

-- Addresses are handed out once: nothing at or above `next` is in use or registered.
pub record IsWf (s : Arena) : Type 0 where
  pub fresh : (p : ℕ) → s.next ≤ p → s.cell p ≡ none
  pub registered : All (λ p. p < s.next) s.node_pointer
  pub not_null : 0 < s.next

abbrev pub contains : ℕ → List ℕ → Bool
contains q [] = false
contains q (p ∷ ps) = q == p || contains q ps

free_each_lem :
    (ps : List ℕ) (cell : ℕ → Option Node) (q : ℕ)
    → free_each ps cell q ≡ (if contains q ps then none else cell q)
unfolding free_each
free_each_lem [] cell q = refl
free_each_lem (p ∷ ps) cell q = ground (arith, free_each_lem ps (update cell p none) q)

-- `FreeAllNode` frees every registered node, leaves every other one allocated, and forgets them all.
pub free_all_node_lem :
    (s : Arena) (q : ℕ)
    → ((free_all_node s).cell q ≡ (if contains q s.node_pointer then none else s.cell q))
      × ((free_all_node s).node_pointer ≡ [])
unfolding free_all_node
free_all_node_lem s q = (free_each_lem s.node_pointer s.cell q, refl)

pub contains_append :
    (q p : ℕ) (ps : List ℕ) → contains q (ps ++ p ∷ []) ≡ (contains q ps || q == p)
contains_append q p [] = ground arith
contains_append q p (r ∷ ps) = ground (arith, contains_append q p ps)

pub contains_above : (q n : ℕ) (ps : List ℕ) → All (λ p. p < n) ps → n ≤ q → contains q ps ≡ false
contains_above q n [] a h = refl
contains_above q n (p ∷ ps) a h = ground (arith, contains_above q n ps a.1 h)

All-append :
    (m n p : ℕ) (ps : List ℕ)
    → m ≤ n
    → p < n
    → All (λ q. q < m) ps
    → All (λ q. q < n) (ps ++ p ∷ [])
All-append m n p [] h k a = (k, tt)
All-append m n p (q ∷ ps) h k a = (omega (arith, a.0), All-append m n p ps h k a.1)

-- A node that is made and registered: its address was unused, it holds the node, nothing else has
-- changed, the invariant is kept, and `FreeAllNode` frees it.
pub record Made (s : Arena) (n : Node) (p : ℕ) (s' : Arena) : Type 0 where
  pub unused : s.cell p ≡ none
  pub not_null : p ≢ 0
  pub holds : s'.cell p ≡ some n
  pub others : (q : ℕ) → q ≢ p → s'.cell q ≡ s.cell q
  pub wf : IsWf s'
  pub freed : (free_all_node s').cell p ≡ none

made : (s : Arena) → ℕ → Node → Arena
made s k n = record {
  cell = update s.cell s.next (some n);
  next = suc s.next;
  space = k;
  node_pointer = s.node_pointer ++ s.next ∷ [];
}

new_node_lem :
    (s : Arena) (k : ℕ) (n : Node) → s.space ≡ suc k → new_node n s ≡ some (s.next, made s k n)
unfolding new_node made
new_node_lem s k n e = ground (arith, e)

-- While there is space, a node that is made and registered gets an unused address that is not null.
-- It holds the node, nothing else changes, the invariant is kept, and `FreeAllNode` frees it.
pub new_node-Made :
    (s : Arena) (k : ℕ) (n : Node)
    → IsWf s
    → s.space ≡ suc k
    → (p : ℕ) × (s' : Arena) × (new_node n s ≡ some (p, s')) × Made s n p s'
unfolding made
new_node-Made s k n w e = (
  s.next,
  made s k n,
  new_node_lem s k n e,
  record {
    unused = w.fresh s.next (omega arith);
    not_null = omega (arith, w.not_null);
    holds = ground arith;
    others = λ q h. ground (arith, h);
    wf = record {
      fresh = λ p h. ground (arith, w.fresh p);
      registered =
          All-append s.next (suc s.next) s.next s.node_pointer (omega arith) (omega arith)
            w.registered;
      not_null = omega arith;
    };
    freed = ground (
      arith,
      (free_all_node_lem (made s k n) s.next).0,
      contains_append s.next s.next s.node_pointer,
    );
  },
)

abbrev pub header : Node
header = Node.expr_list_header (record { type = NodeType.t_expr_list_header; header = 0; tail = 0 })

-- The list header that `newTable` and `newFromList` make beside their node is at the next address and
-- is not registered: `FreeAllNode` frees the table or list, and leaves its header allocated.
pub header_leaks :
    (s : Arena) (k : ℕ) (t : NodeType) (db name alias : CString) (sub : ℤ) (subquery args next : ℕ)
    → IsWf s
    → s.space ≡ suc (suc k)
    → ((s' : Arena) × (new_table t db name alias sub subquery s ≡ some (s.next, s'))
        × ((free_all_node s').cell s.next ≡ none)
        × ((free_all_node s').cell (suc s.next) ≡ some header))
      × ((s' : Arena) × (new_from_list t args next s ≡ some (s.next, s'))
          × ((free_all_node s').cell s.next ≡ none)
          × ((free_all_node s').cell (suc s.next) ≡ some header))
unfolding new_table new_from_list
header_leaks s k t db name alias sub subquery args next w e = (
  (after table, ground (arith, e), freed table, kept table),
  (after list, ground (arith, e), freed list, kept list),
)
  where
    table : Node
    table = Node.table (record {
      type = t;
      dbname = db;
      tablename = name;
      astablename = alias;
      issubquery = sub;
      subquery = subquery;
      whcdn = suc s.next;
    })

    list : Node
    list = Node.from_list (record { type = t; args = args; next = next; whcdn = suc s.next })

    after : Node → Arena
    after n = record {
      cell = update (update s.cell (suc s.next) (some header)) s.next (some n);
      next = suc (suc s.next);
      space = k;
      node_pointer = s.node_pointer ++ s.next ∷ [];
    }

    freed : (n : Node) → (free_all_node (after n)).cell s.next ≡ none
    freed n = ground (
      arith,
      (free_all_node_lem (after n) s.next).0,
      contains_append s.next s.next s.node_pointer,
    )

    kept : (n : Node) → (free_all_node (after n)).cell (suc s.next) ≡ some header
    kept n = ground (
      arith,
      (free_all_node_lem (after n) (suc s.next)).0,
      contains_append (suc s.next) s.next s.node_pointer,
      contains_above (suc s.next) s.next s.node_pointer w.registered,
    )
