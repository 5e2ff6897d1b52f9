-- ===== src/Smart.antt =====
-- src/common/m_smart_ptr.h: reference-counted pointers. A counter is a number, with its count and
-- whether it and its object are still allocated. The SmartPtr objects of the program are a list; one
-- that was destroyed is `none`. The functions give `none` when they are used on such a one.
pub mod Counts
pub mod Calls
use mosito.Base.{
  ℕ, zero, suc, ◌+◌, ◌-◌, Bool, true, false, Option, none, some, List, [], ◌∷◌, ◌++◌, get_or, set,
  ◌==◌, if◌then◌else◌,
}

pub record Store : Type 0 where
  pub count : ℕ → ℕ
  pub allocated : ℕ → Bool
  pub next : ℕ
  pub pointers : List (Option ℕ)

abbrev pub update {ℓ} : {A : Type ℓ} → (ℕ → A) → ℕ → A → ℕ → A
update f c v d = if d == c then v else f d

abbrev pub start : Store
start = record { count = λ c. 0; allocated = λ c. false; next = 0; pointers = [] }

-- `SmartPtr(T *t)` with a new Counter. Every object is given to it once: two counters of one object are
-- not in the model.
unfoldable pub construct : Store → Store
construct s = record {
  count = update s.count s.next 1;
  allocated = update s.allocated s.next true;
  next = suc s.next;
  pointers = s.pointers ++ some s.next ∷ [];
}

-- `++ptr->count`, and `if(--ptr->count==0) delete ptr`.
unfoldable pub retain : Store → ℕ → Store
retain s c = record s { count = update s.count c (s.count c + 1) }

unfoldable pub release : Store → ℕ → Store
release s c = record s {
  count = update s.count c (s.count c - 1);
  allocated = if s.count c - 1 == 0 then update s.allocated c false else s.allocated;
}

-- `SmartPtr(const SmartPtr<T>& p)`.
unfoldable pub copy : Store → ℕ → Option Store
unfolding retain
copy s i = elim (get_or s.pointers i none) [
  | none ↦ none
  | some c ↦ some (record (retain s c) { pointers = s.pointers ++ some c ∷ [] })
]

-- `operator=` of pointer `i` with pointer `j`.
unfoldable pub assign : Store → ℕ → ℕ → Option Store
unfolding retain release
assign s i j = elim (get_or s.pointers j none) [
  | none ↦ none
  | some d ↦ elim (get_or s.pointers i none) [
    | none ↦ none
    | some c ↦ some (record (release (retain s d) c) { pointers = set s.pointers i (some d) })
  ]
]

-- The destructor.
unfoldable pub destroy : Store → ℕ → Option Store
unfolding release
destroy s i = elim (get_or s.pointers i none) [
  | none ↦ none
  | some c ↦ some (record (release s c) { pointers = set s.pointers i none })
]
