-- ===== src/Sql/Literal/Roundtrip.antt =====
-- `GetCorrectString` undoes the escaping of a text.
use mosito.Base.{
  ℕ, zero, suc, ◌+◌, ◌-◌, ◌≤◌, ◌<◌, ◌≡◌, ◌≢◌, refl, ap, sym, ◌∙◌, ◌⊎◌, inl, inr, List, [], ◌∷◌,
  ◌++◌, length, get_or, if◌then◌else◌, ◌==◌, arith, length-append, All, Bool-cases,
}
use mathlib.Core.List.{append_assoc}
use mosito.Sql.Literal.{correct_from, get_correct_string}

-- How a character is written inside a literal.
abbrev pub escape_char : ℕ → List ℕ
escape_char c =
    if c == 10
    then 92 ∷ b'n' ∷ []
    else (if c == 9
        then 92 ∷ b't' ∷ []
        else (if c == 39 then 92 ∷ 39 ∷ [] else (if c == 34 then 92 ∷ 34 ∷ [] else c ∷ [])))

abbrev pub escape_text : List ℕ → List ℕ
escape_text [] = []
escape_text (c ∷ cs) = escape_char c ++ escape_text cs

get_or-append : (xs ys : List ℕ) (k : ℕ) → get_or (xs ++ ys) (length xs + k) 0 ≡ get_or ys k 0
get_or-append [] ys k = ap (λ n. get_or ys n 0) (omega arith)
get_or-append (x ∷ xs) ys k =
    ap (λ n. get_or (x ∷ (xs ++ ys)) n 0) {x = suc (length xs) + k} {y = suc (length xs + k)}
      (omega arith)
    ∙ get_or-append xs ys k

-- The escape code `e` stands for the character `v`.
abbrev Stands : ℕ → ℕ → Type 0
Stands e v =
    ((e ≡ b'n') × (v ≡ 10))
    ⊎ (((e ≡ b't') × (v ≡ 9)) ⊎ (((e ≡ 39) × (v ≡ 39)) ⊎ ((e ≡ 34) × (v ≡ 34))))

abbrev Escaped : ℕ → List ℕ → Type 0
Escaped c cs = (e : ℕ) × (cs ≡ 92 ∷ e ∷ []) × Stands e c

escape_char-cases : (c : ℕ) → (escape_char c ≡ c ∷ []) ⊎ Escaped c (escape_char c)
escape_char-cases c = elim (Bool-cases (c == 10)) [
  | inl e ↦ inr (b'n', ground (arith, e), inl (refl, ground (arith, e)))
  | inr a ↦ elim (Bool-cases (c == 9)) [
    | inl e ↦ inr (b't', ground (arith, e), inr (inl (refl, ground (arith, e))))
    | inr b ↦ elim (Bool-cases (c == 39)) [
      | inl e ↦ inr (39, ground (arith, e), inr (inr (inl (refl, ground (arith, e)))))
      | inr d ↦ elim (Bool-cases (c == 34)) [
        | inl e ↦ inr (34, ground (arith, e), inr (inr (inr (refl, ground (arith, e)))))
        | inr g ↦ inl (ground (arith, a, b, d, g))
      ]
    ]
  ]
]

-- The loop at a position inside the quotes.
module _ (f : ℕ) (src : List ℕ) (i : ℕ) (inside : i < length src - 1) where
  copy_step :
      (c : ℕ)
      → get_or src i 0 ≡ c
      → c ≢ 92
      → correct_from (suc f) src i ≡ c ∷ correct_from f src (i + 1)
  unfolding correct_from
  copy_step c e n = ground (arith, e)

  escape_step :
      (e v : ℕ)
      → get_or src i 0 ≡ 92
      → get_or src (i + 1) 0 ≡ e
      → i + 1 ≢ length src - 1
      → Stands e v
      → correct_from (suc f) src i ≡ v ∷ correct_from f src (i + 2)
  unfolding correct_from
  escape_step e v a b n s = ground (arith, a, b)

at :
    (src pre rest : List ℕ) (k : ℕ)
    → src ≡ pre ++ rest
    → get_or src (length pre + k) 0 ≡ get_or rest k 0
at src pre rest k e = ap (λ s. get_or s (length pre + k) 0) e ∙ get_or-append pre rest k

length-split : (src pre rest : List ℕ) → src ≡ pre ++ rest → length src ≡ length pre + length rest
length-split src pre rest e = ap length e ∙ length-append pre rest

module _ (q : ℕ) where
  abbrev closed : List ℕ → List ℕ
  closed xs = escape_text xs ++ q ∷ []

  closed_some : (xs : List ℕ) → 0 < length (closed xs)
  closed_some xs = omega (arith, length-append (escape_text xs) (q ∷ []))

  stops :
      (fuel : ℕ) (src pre : List ℕ) → src ≡ pre ++ q ∷ [] → correct_from fuel src (length pre) ≡ []
  unfolding correct_from
  stops zero src pre e = refl
  stops (suc fuel) src pre e = ground (arith, length-split src pre (q ∷ []) e)

  correct_from-escape_text :
      (fuel : ℕ) (src pre xs : List ℕ)
      → src ≡ pre ++ closed xs
      → All (λ c. c ≢ 92) xs
      → length xs ≤ fuel
      → correct_from fuel src (length pre) ≡ xs
  correct_from-escape_text zero src pre [] e a h = stops 0 src pre e
  correct_from-escape_text zero src pre (x ∷ xs) e a h = absurd (omega arith)
  correct_from-escape_text (suc fuel) src pre [] e a h = stops (suc fuel) src pre e
  correct_from-escape_text (suc fuel) src pre (x ∷ xs) e a h = elim (escape_char-cases x) [
    | inl plain ↦
        let split : src ≡ pre ++ (x ∷ closed xs) =
          e ∙ ap (λ l. pre ++ ((l ++ escape_text xs) ++ q ∷ [])) plain in
        copy_step fuel src (length pre)
          (omega (arith, length-split src pre _ split, closed_some xs)) x
          (ap (λ n. get_or src n 0) (omega arith) ∙ at src pre _ 0 split) a.0
        ∙ ap (◌∷◌ x) (
            ap (correct_from fuel src) (omega (arith, length-append pre (x ∷ [])))
            ∙ correct_from-escape_text fuel src (pre ++ x ∷ []) xs
                (split ∙ sym (append_assoc pre (x ∷ []) (closed xs))) a.1 (omega arith))
    | inr (c, code, stands) ↦
        let split : src ≡ pre ++ (92 ∷ c ∷ closed xs) =
          e ∙ ap (λ l. pre ++ ((l ++ escape_text xs) ++ q ∷ [])) code in
        escape_step fuel src (length pre)
          (omega (arith, length-split src pre _ split, closed_some xs)) c x
          (ap (λ n. get_or src n 0) (omega arith) ∙ at src pre _ 0 split) (at src pre _ 1 split)
          (omega (arith, length-split src pre _ split, closed_some xs)) stands
        ∙ ap (◌∷◌ x) (
            ap (correct_from fuel src) (omega (arith, length-append pre (92 ∷ c ∷ [])))
            ∙ correct_from-escape_text fuel src (pre ++ 92 ∷ c ∷ []) xs
                (split ∙ sym (append_assoc pre (92 ∷ c ∷ []) (closed xs))) a.1 (omega arith))
  ]

length-le-escape_text : (xs : List ℕ) → length xs ≤ length (escape_text xs)
length-le-escape_text [] = omega arith
length-le-escape_text (x ∷ xs) =
    ground (arith, length-le-escape_text xs, length-append (escape_char x) (escape_text xs))

-- A text that has no backslash, written as a literal with its line feeds, tabs and quotes escaped and
-- quotes (of any kind) around it, is read back.
pub get_correct_string-escape_text :
    (open_quote close_quote : ℕ) (xs : List ℕ)
    → All (λ c. c ≢ 92) xs
    → get_correct_string (open_quote ∷ (escape_text xs ++ close_quote ∷ [])) ≡ xs
unfolding get_correct_string
get_correct_string-escape_text o q xs a =
    correct_from-escape_text q (suc (length (closed q xs))) (o ∷ closed q xs) (o ∷ []) xs refl a
      (omega (arith, length-le-escape_text xs, length-append (escape_text xs) (q ∷ [])))
