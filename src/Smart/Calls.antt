-- ===== src/Smart/Calls.antt =====
-- Sequences of constructions, copies, assignments and destructions.
use mosito.Base.{ℕ, ◌≡◌, refl, ap, subst, sym, ◌∙◌, Option, none, some, get_or, ltb}
use mosito.Smart.{Store, start, construct, copy, assign, destroy}
use mosito.Smart.Counts.{
  pointers_to, IsCounted, start-IsCounted, construct-IsCounted, copied, copied-IsCounted, dropped,
  dropped-IsCounted, assigned, assigned-IsCounted,
}

pub data Call : Type 0 where
  constructs : Call
  copies : ℕ → Call
  assigns : ℕ → ℕ → Call
  destroys : ℕ → Call

abbrev pub execute : Store → Call → Option Store
execute s constructs = some (construct s)
execute s (copies i) = copy s i
execute s (assigns i j) = assign s i j
execute s (destroys i) = destroy s i

-- The pointers that a call uses are there.
abbrev pub HasPointer : Store → ℕ → Type 0
HasPointer s i = (c : ℕ) × (get_or s.pointers i none ≡ some c)

abbrev pub InScope : Store → Call → Type 0
InScope s constructs = Unit {0}
InScope s (copies i) = HasPointer s i
InScope s (assigns i j) = HasPointer s i × HasPointer s j
InScope s (destroys i) = HasPointer s i

copy-copied :
    (s : Store) (i c : ℕ) → get_or s.pointers i none ≡ some c → copy s i ≡ some (copied s c)
unfolding copy copied
copy-copied s i c e = rw (e, copy) refl

destroy-dropped :
    (s : Store) (i c : ℕ) → get_or s.pointers i none ≡ some c → destroy s i ≡ some (dropped s i c)
unfolding destroy dropped
destroy-dropped s i c e = rw (e, destroy) refl

assign-assigned :
    (s : Store) (i j c d : ℕ)
    → get_or s.pointers i none ≡ some c
    → get_or s.pointers j none ≡ some d
    → assign s i j ≡ some (assigned s i c d)
unfolding assign assigned
assign-assigned s i j c d e g = rw (g, e, assign) refl

-- A call on pointers that are there keeps the counts right, an assignment of a pointer to itself or
-- among pointers to the same object included: each counts the pointers to its object, which is
-- allocated as long as there is one.
pub execute-IsCounted :
    (s : Store) (call : Call)
    → IsCounted s
    → InScope s call
    → (s' : Store) × (execute s call ≡ some s') × IsCounted s'
execute-IsCounted s constructs v h = (construct s, refl, construct-IsCounted s v)
execute-IsCounted s (copies i) v (c, e) =
    (copied s c, copy-copied s i c e, copied-IsCounted s i c v e)
execute-IsCounted s (assigns i j) v ((c, e), (d, g)) =
    (assigned s i c d, assign-assigned s i j c d e g, assigned-IsCounted s i j c d v e g)
execute-IsCounted s (destroys i) v (c, e) =
    (dropped s i c, destroy-dropped s i c e, dropped-IsCounted s i c v e)

-- The stores that the calls of a program reach.
pub data Reaches : Store → Store → Type 0 where
  here : {s : Store} → Reaches s s
  then_call :
      {s t u : Store} (call : Call)
      → Reaches s t
      → InScope t call
      → execute t call ≡ some u
      → Reaches s u

Reaches-IsCounted : {s t : Store} → IsCounted s → Reaches s t → IsCounted t
Reaches-IsCounted v here = v
Reaches-IsCounted v (then_call {s} {t} {u} call r h e) =
    let n = execute-IsCounted t call (Reaches-IsCounted v r) h in
    subst IsCounted (ap (λ o. elim o [ none ↦ t | some x ↦ x ]) (sym n.1 ∙ e)) n.2

-- In every store that a program reaches, an object is allocated exactly when a pointer refers to it.
pub Reaches-allocated :
    (s : Store) (c : ℕ) → Reaches start s → s.allocated c ≡ ltb 0 (pointers_to c s.pointers)
Reaches-allocated s c r =
    let v = Reaches-IsCounted start-IsCounted r in v.live c ∙ ap (ltb 0) (v.counted c)
