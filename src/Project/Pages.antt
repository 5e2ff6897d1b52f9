-- ===== src/Project/Pages.antt =====
-- src/physical/m_project.cpp: what the calls of `execute` store.
use mosito.Base.{
  concat, ℕ, zero, suc, ◌<◌, ◌≡◌, refl, ap, sym, ◌∙◌, Bool, true, false, Option, none, some, List,
  [], ◌∷◌, ◌++◌, length, All, arith, inl, inr, ◌⊎◌, length-append,
}
use mathlib.Core.List.{append_assoc, append-nil}
use mosito.Project.{Project, Outcome, answers, fill_from, execute, gather}

module _ {ℓ} (Tuple : Type ℓ) where
  -- No page of the child is empty.
  abbrev pub AreFull : List (List Tuple) → Type 0
  AreFull pages = All (λ p. 0 < length p) pages

  -- What `fill_from` answers for the tuples `xs` to come: a full block, or a last one.
  pub record IsFill (room : ℕ) (xs block : List Tuple) (o : Outcome Tuple) : Type ℓ where
    pub answer : Bool
    pub stored : List Tuple
    pub child : List (List Tuple)
    pub iterator : List Tuple
    pub outcome :
        o
        ≡ answers answer
            (block ++ stored)
            (record { child = child; buffer_iterator = some iterator })
    pub full : AreFull child
    pub tuples : xs ≡ stored ++ (iterator ++ concat child)
    pub last :
        ((answer ≡ true) × (length stored ≡ room))
        ⊎ ((answer ≡ false) × (length stored < room) × (xs ≡ stored))

  one_more :
      (room : ℕ) (x : Tuple) (xs block : List Tuple) (o : Outcome Tuple)
      → IsFill room xs (block ++ x ∷ []) o
      → IsFill (suc room) (x ∷ xs) block o
  one_more room x xs block o f = record {
    answer = f.answer;
    stored = x ∷ f.stored;
    child = f.child;
    iterator = f.iterator;
    outcome =
        f.outcome
        ∙ ap
            (λ b.
              answers f.answer b (record { child = f.child; buffer_iterator = some f.iterator }))
            (append_assoc block (x ∷ []) f.stored);
    full = f.full;
    tuples = ap (◌∷◌ x) f.tuples;
    last = elim f.last [
      | inl (a, l) ↦ inl (a, omega (arith, l))
      | inr (a, l, e) ↦ inr (a, omega (arith, l), ap (◌∷◌ x) e)
    ];
  }

  fill_from-IsFill :
      (room : ℕ) (child : List (List Tuple)) (it block : List Tuple)
      → AreFull child
      → IsFill room (it ++ concat child) block (fill_from Tuple room child (some it) block)
  unfolding fill_from
  fill_from-IsFill zero child it block h = record {
    answer = true;
    stored = [];
    child = child;
    iterator = it;
    outcome =
        ap (λ b. answers true b (record { child = child; buffer_iterator = some it }))
          (sym (append-nil block));
    full = h;
    tuples = refl;
    last = inl (refl, refl);
  }
  fill_from-IsFill (suc room) child (x ∷ it) block h =
      one_more room x (it ++ concat child) block _
        (fill_from-IsFill room child it (block ++ x ∷ []) h)
  fill_from-IsFill (suc room) [] [] block h = record {
    answer = false;
    stored = [];
    child = [];
    iterator = [];
    outcome =
        ap (λ b. answers false b (record { child = []; buffer_iterator = some [] }))
          (sym (append-nil block));
    full = tt;
    tuples = refl;
    last = inr (refl, omega arith, refl);
  }
  fill_from-IsFill (suc room) ([] ∷ child) [] block h = absurd (omega (arith, h.0))
  fill_from-IsFill (suc room) ((x ∷ page) ∷ child) [] block h =
      one_more room x (page ++ concat child) block _
        (fill_from-IsFill room child page (block ++ x ∷ []) h.1)

  -- What the calls that answer true store of the tuples `xs`, and what is left for the last one.
  pub record IsStored (room : ℕ) (xs : List Tuple) (o : Option (List (List Tuple))) : Type ℓ where
    pub pages : List (List Tuple)
    pub lost : List Tuple
    pub given : o ≡ some pages
    pub full : All (λ p. length p ≡ room) pages
    pub tuples : xs ≡ concat pages ++ lost
    pub few : length lost < room

  gather-full :
      (room fuel : ℕ) (p q : Project Tuple) (block : List Tuple) (pages : List (List Tuple))
      → execute Tuple room p ≡ answers true block q
      → gather Tuple room fuel q ≡ some pages
      → gather Tuple room (suc fuel) p ≡ some (block ∷ pages)
  unfolding gather
  gather-full room fuel p q block pages e f = rw (e, gather, f) refl

  gather-last :
      (room fuel : ℕ) (p q : Project Tuple) (block : List Tuple)
      → execute Tuple room p ≡ answers false block q
      → gather Tuple room (suc fuel) p ≡ some []
  unfolding gather
  gather-last room fuel p q block e = rw (e, gather) refl

  IsStored-more :
      (room fuel : ℕ) (p : Project Tuple) (xs : List Tuple)
      → 0 < room
      → length xs < suc fuel
      → ((child : List (List Tuple)) (it : List Tuple)
          → AreFull child
          → length (it ++ concat child) < fuel
          → IsStored room
              (it ++ concat child)
              (gather Tuple room fuel (record { child = child; buffer_iterator = some it })))
      → IsFill room xs [] (execute Tuple room p)
      → IsStored room xs (gather Tuple room (suc fuel) p)
  IsStored-more room fuel p xs r l again f = elim f.last [
    | inl (a, n) ↦
        let rest = again f.child f.iterator f.full (
          omega (
            arith,
            ap length f.tuples,
            length-append f.stored (f.iterator ++ concat f.child),
            n,
          )) in
        record {
          pages = f.stored ∷ rest.pages;
          lost = rest.lost;
          given =
              gather-full room fuel p _ f.stored rest.pages
                (f.outcome
                  ∙ ap
                      (λ b.
                        answers b f.stored
                          (record { child = f.child; buffer_iterator = some f.iterator }))
                      a)
                rest.given;
          full = (n, rest.full);
          tuples =
              f.tuples
              ∙ ap (λ ys. f.stored ++ ys) rest.tuples
              ∙ sym (append_assoc f.stored (concat rest.pages) rest.lost);
          few = rest.few;
        }
    | inr (a, n, e) ↦ record {
      pages = [];
      lost = f.stored;
      given = gather-last room fuel p _ f.stored (
          f.outcome
          ∙ ap
              (λ b.
                answers b f.stored (record { child = f.child; buffer_iterator = some f.iterator }))
              a);
      full = tt;
      tuples = e;
      few = n;
    }
  ]

  gather-IsStored :
      (room fuel : ℕ) (child : List (List Tuple)) (it : List Tuple)
      → 0 < room
      → AreFull child
      → length (it ++ concat child) < fuel
      → IsStored room
          (it ++ concat child)
          (gather Tuple room fuel (record { child = child; buffer_iterator = some it }))
  unfolding execute
  gather-IsStored room zero child it r h l = absurd (omega arith)
  gather-IsStored room (suc fuel) child it r h l =
      IsStored-more room fuel (record { child = child; buffer_iterator = some it })
        (it ++ concat child) r l (λ child it h l. gather-IsStored room fuel child it r h l)
        (fill_from-IsFill room child it [] h)

  start-IsFill :
      (room : ℕ) (page : List Tuple) (pages : List (List Tuple))
      → 0 < room
      → AreFull pages
      → IsFill room
          (concat (page ∷ pages))
          []
          (execute Tuple room (record { child = page ∷ pages; buffer_iterator = none }))
  unfolding execute fill_from
  start-IsFill zero page pages r h = absurd (omega arith)
  start-IsFill (suc room) page pages r h = fill_from-IsFill (suc room) pages page [] h

  -- The calls of the projection until one answers false, when the child gives at least one
  -- page and no page but the first is empty, and a block of the caller has room for a tuple: no null
  -- pointer is followed, and the fuel is enough with more rounds than tuples. Each call that
  -- answers true stores as many tuples as its block has room for; together these are the child's
  -- tuples in their order, but for the last ones, fewer than a block has room for.
  pub project-IsStored :
      (room fuel : ℕ) (page : List Tuple) (pages : List (List Tuple))
      → 0 < room
      → AreFull pages
      → length (concat (page ∷ pages)) < fuel
      → IsStored room
          (concat (page ∷ pages))
          (gather Tuple room fuel (record { child = page ∷ pages; buffer_iterator = none }))
  project-IsStored room zero page pages r h l = absurd (omega arith)
  project-IsStored room (suc fuel) page pages r h l =
      IsStored-more room fuel (record { child = page ∷ pages; buffer_iterator = none })
        (concat (page ∷ pages)) r l (λ child it h l. gather-IsStored room fuel child it r h l)
        (start-IsFill room page pages r h)
