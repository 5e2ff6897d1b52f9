-- ===== src/Sql/Statements/Append.antt =====
-- `newStmt` keeps a list of statements, with a pointer to its end in the head.
use mosito.Base.{
  ℕ, suc, ◌≤◌, ◌<◌, ◌≡◌, ◌≢◌, refl, ap, sym, subst, ◌∙◌, Option, none, some, List, [], ◌∷◌, ◌++◌,
  if◌then◌else◌, ◌==◌, inl, inr, arith, Bool-cases,
}
use mosito.Sql.NodeType.{NodeType}
use mosito.Sql.Nodes.{Node}
use mosito.Sql.Nodes.Query1.{Stmt}
use mosito.Sql.Arena.{Arena}
use mosito.Sql.Statements.{new_stmt, free_all_node}
use mosito.Sql.Statements.Release.{IsWf, free_all_node_lem, contains_above}

-- The statements from address `p` on hold `d` and `ds`; they are linked in the order of their
-- addresses, and the last one stands at `last`.
abbrev pub IsChain : (ℕ → Option Node) → ℕ → ℕ → List ℕ → ℕ → Type 0
IsChain cell p d [] last =
    (x : Stmt) × (cell p ≡ some (Node.stmt x)) × (x.content ≡ d) × (x.next ≡ 0) × (p ≡ last)
IsChain cell p d (e ∷ ds) last =
    (x : Stmt) × (cell p ≡ some (Node.stmt x))
    × (x.content ≡ d)
    × (p < x.next)
    × IsChain cell x.next e ds last

-- The list at `h`: its head points to its end.
pub record IsList (s : Arena) (h : ℕ) (d : ℕ) (ds : List ℕ) : Type 0 where
  pub head : Stmt
  pub at_head : s.cell h ≡ some (Node.stmt head)
  pub chain : IsChain s.cell h d ds head.last
  pub not_null : h ≢ 0
  pub below : head.last < s.next

chain_le :
    (cell : ℕ → Option Node) (p d : ℕ) (ds : List ℕ) (last : ℕ)
    → IsChain cell p d ds last
    → p ≤ last
chain_le cell p d [] last (x, c, e, n, l) = omega arith
chain_le cell p d (e ∷ ds) last (x, c, eq, n, r) = omega (arith, chain_le cell x.next e ds last r)

-- Two statements with the same content and the same successor.
abbrev SameLink : Stmt → Option Node → Type 0
SameLink x c = (y : Stmt) × (c ≡ some (Node.stmt y)) × (y.content ≡ x.content) × (y.next ≡ x.next)

module _ (cell cell' : ℕ → Option Node) (a n last : ℕ)
    (same : (q : ℕ) (x : Stmt) → q < last → cell q ≡ some (Node.stmt x) → SameLink x (cell' q))
    (linked : (x : Stmt)
      → cell last ≡ some (Node.stmt x)
      → (y : Stmt) × (cell' last ≡ some (Node.stmt y)) × (y.content ≡ x.content) × (y.next ≡ a))
    (new : (z : Stmt) × (cell' a ≡ some (Node.stmt z)) × (z.content ≡ n) × (z.next ≡ 0))
    (above : last < a) where
  IsChain-extend :
      (p d : ℕ) (ds : List ℕ) → IsChain cell p d ds last → IsChain cell' p d (ds ++ n ∷ []) a
  IsChain-extend p d [] (x, c, e, z, l) =
      let (y, h, same_content, next) = linked x (ap cell (sym l) ∙ c) in
      (
        y,
        ap cell' l ∙ h,
        same_content ∙ e,
        omega (arith, next, l, above),
        (new.0, ap cell' next ∙ new.1, new.2, new.3, next),
      )
  IsChain-extend p d (e ∷ ds) (x, c, eq, lt, r) =
      let (y, h, same_content, next) =
        same p x (omega (arith, chain_le cell x.next e ds last r)) c in
      (
        y,
        h,
        same_content ∙ eq,
        omega (arith, next),
        subst (λ q. IsChain cell' q e (ds ++ n ∷ []) a) (sym next) (IsChain-extend x.next e ds r),
      )

-- The heap after an append: the new statement at `a`, the last one linked to it, the head pointing to
-- it. A head that is its own end is rewritten twice.
relinked : (ℕ → Option Node) → ℕ → Stmt → Stmt → ℕ → Stmt → ℕ → Option Node
relinked cell h head tail a new q =
    if q == h
    then some (
        Node.stmt (record (if head.last == h then record tail { next = a } else head) { last = a }))
    else (if q == head.last
        then some (Node.stmt (record tail { next = a }))
        else (if q == a then some (Node.stmt new) else cell q))

chain_last :
    (cell : ℕ → Option Node) (p d : ℕ) (ds : List ℕ) (last : ℕ)
    → IsChain cell p d ds last
    → (x : Stmt) × (cell last ≡ some (Node.stmt x))
chain_last cell p d [] last (x, c, e, n, l) = (x, ap cell (sym l) ∙ c)
chain_last cell p d (e ∷ ds) last (x, c, eq, n, r) = chain_last cell x.next e ds last r

fresh_stmt : NodeType → ℕ → ℕ → Stmt
fresh_stmt t n a = record { type = t; content = n; next = 0; last = a }

linked_arena : Arena → ℕ → ℕ → Stmt → Stmt → Stmt → Arena
linked_arena s k h head tail new = record {
  cell = relinked s.cell h head tail s.next new;
  next = suc s.next;
  space = k;
  node_pointer = s.node_pointer;
}

new_stmt_lem :
    (s : Arena) (k h n : ℕ) (t : NodeType) (head tail : Stmt)
    → s.space ≡ suc k
    → h ≢ 0
    → h < s.next
    → head.last < s.next
    → s.cell h ≡ some (Node.stmt head)
    → s.cell head.last ≡ some (Node.stmt tail)
    → new_stmt t h n s ≡ some (h, linked_arena s k h head tail (fresh_stmt t n s.next))
unfolding new_stmt linked_arena relinked fresh_stmt
new_stmt_lem s k h n t head tail e nz hb lb ch cl = ground (arith, e, ch, cl)

module _ (cell : ℕ → Option Node) (h a : ℕ) (head tail new : Stmt)
    (at_head : cell h ≡ some (Node.stmt head))
    (at_last : cell head.last ≡ some (Node.stmt tail)) where
  abbrev after : ℕ → Option Node
  after = relinked cell h head tail a new

  relinked_same :
      (q : ℕ) (x : Stmt)
      → q < head.last
      → q < a
      → cell q ≡ some (Node.stmt x)
      → SameLink x (after q)
  unfolding relinked
  relinked_same q x l la c = elim (Bool-cases (q == h)) [
    | inl e ↦
        let same : q ≡ h = ground (arith, e) in
        let eq : some (Node.stmt x) ≡ some (Node.stmt head) = sym c ∙ ap cell same ∙ at_head in
        (record head { last = a }, ground (arith, e), ground (arith, eq), ground (arith, eq))
    | inr ne ↦ (x, ground (arith, ne, c), refl, refl)
  ]

  relinked_last :
      (x : Stmt)
      → cell head.last ≡ some (Node.stmt x)
      → (y : Stmt) × (after head.last ≡ some (Node.stmt y)) × (y.content ≡ x.content) × (y.next ≡ a)
  unfolding relinked
  relinked_last x c =
      let eq : some (Node.stmt x) ≡ some (Node.stmt tail) = sym c ∙ at_last in
      elim (Bool-cases (head.last == h)) [
        | inl e ↦ (record tail { next = a; last = a }, ground (arith, e), ground (arith, eq), refl)
        | inr ne ↦ (record tail { next = a }, ground (arith, ne), ground (arith, eq), refl)
      ]

  relinked_new : h < a → head.last < a → after a ≡ some (Node.stmt new)
  unfolding relinked
  relinked_new hh hl = ground arith

-- `newStmt` with a list at hand appends the new statement to it and gives the same list back. The new
-- node is not registered, so that `FreeAllNode` does not free it.
pub new_stmt-IsList :
    (s : Arena) (k h d n : ℕ) (ds : List ℕ) (t : NodeType)
    → IsWf s
    → IsList s h d ds
    → s.space ≡ suc k
    → (s' : Arena) × (new_stmt t h n s ≡ some (h, s'))
      × IsList s' h d (ds ++ n ∷ [])
      × (s'.node_pointer ≡ s.node_pointer)
      × ((free_all_node s').cell s.next ≢ none)
unfolding linked_arena relinked fresh_stmt
new_stmt-IsList s k h d n ds t w l e = appended (chain_last s.cell h d ds l.head.last l.chain)
  where
    le : h ≤ l.head.last
    le = chain_le s.cell h d ds l.head.last l.chain

    new : Stmt
    new = fresh_stmt t n s.next

    appended :
        (x : Stmt) × (s.cell l.head.last ≡ some (Node.stmt x))
        → (s' : Arena) × (new_stmt t h n s ≡ some (h, s'))
          × IsList s' h d (ds ++ n ∷ [])
          × (s'.node_pointer ≡ s.node_pointer)
          × ((free_all_node s').cell s.next ≢ none)
    appended (tail, at_last) = (
      linked_arena s k h l.head tail new,
      new_stmt_lem s k h n t l.head tail e l.not_null (omega (arith, le, l.below)) l.below l.at_head
          at_last,
      record {
        head = record (if l.head.last == h then record tail { next = s.next } else l.head) {
          last = s.next;
        };
        at_head = ground arith;
        chain =
            IsChain-extend s.cell after' s.next n l.head.last
              (λ q x less.
                relinked_same s.cell h s.next l.head tail new l.at_head at_last q x less
                  (omega (arith, l.below)))
              (relinked_last s.cell h s.next l.head tail new l.at_head at_last)
              (new, created, refl, refl) l.below h d ds l.chain;
        not_null = l.not_null;
        below = omega arith;
      },
      refl,
      λ freed. ground (
        arith,
        created,
        (free_all_node_lem (linked_arena s k h l.head tail new) s.next).0,
        contains_above s.next s.next s.node_pointer w.registered,
      ),
    )
      where
        after' : ℕ → Option Node
        after' = relinked s.cell h l.head tail s.next new

        created : after' s.next ≡ some (Node.stmt new)
        created =
            relinked_new s.cell h s.next l.head tail new l.at_head at_last
              (omega (arith, le, l.below)) l.below
