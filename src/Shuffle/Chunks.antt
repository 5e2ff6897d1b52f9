-- ===== src/Shuffle/Chunks.antt =====
-- What becomes of the tuples of one range.
use mosito.Base.{
  ℕ, ◌+◌, ◌≤◌, ◌<◌, ◌≡◌, refl, ap, sym, ◌∙◌, List, [], ◌∷◌, ◌++◌, map, length, take, All,
  All-append, arith,
}
use mathlib.Core.List.{append_assoc, append-nil}
use mosito.Shuffle.{Tuple}

-- Full pages, each with the tuple that comes after it.
abbrev pub flat : List (List Tuple × Tuple) → List Tuple
flat [] = []
flat (f ∷ fs) = f.0 ++ f.1 ∷ flat fs

flat-snoc :
    (fs : List (List Tuple × Tuple)) (page : List Tuple) (t : Tuple)
    → flat (fs ++ (page, t) ∷ []) ≡ flat fs ++ (page ++ t ∷ [])
flat-snoc [] page t = refl
flat-snoc (f ∷ fs) page t =
    ap (λ ts. f.0 ++ f.1 ∷ ts) (flat-snoc fs page t)
    ∙ sym (append_assoc f.0 (f.1 ∷ flat fs) (page ++ t ∷ []))

map-snoc {ℓ κ} :
    {A : Type ℓ} {B : Type κ} (f : A → B) (xs : List A) (a : A)
    → map f (xs ++ a ∷ []) ≡ map f xs ++ f a ∷ []
map-snoc f [] a = refl
map-snoc f (x ∷ xs) a = ap (◌∷◌ (f x)) (map-snoc f xs a)

length-snoc {ℓ} : {A : Type ℓ} (xs : List A) (a : A) → length (xs ++ a ∷ []) ≡ length xs + 1
length-snoc [] a = refl
length-snoc (x ∷ xs) a = omega (arith, length-snoc xs a)

module _ (room counted : ℕ) where
  -- The tuples are full pages, after each of them a tuple that is in no page, and the tuples of the
  -- page that is being filled. The pages are those that were put, cut where the count begins.
  pub record IsChunked (tuples : List Tuple) (pages : List (List Tuple)) (buffer : List Tuple)
      : Type 0 where
    pub full : List (List Tuple × Tuple)
    pub tuples_eq : tuples ≡ flat full ++ buffer
    pub pages_eq : pages ≡ map (λ f. take counted f.0) full
    pub whole : All (λ f. length f.0 ≡ room) full
    pub fits : length buffer ≤ room

  pub none-IsChunked : IsChunked [] [] []
  none-IsChunked = record {
    full = [];
    tuples_eq = refl;
    pages_eq = refl;
    whole = tt;
    fits = omega arith;
  }

  pub stored-IsChunked :
      (tuples : List Tuple) (pages : List (List Tuple)) (buffer : List Tuple) (t : Tuple)
      → length buffer < room
      → IsChunked tuples pages buffer
      → IsChunked (tuples ++ t ∷ []) pages (buffer ++ t ∷ [])
  stored-IsChunked tuples pages buffer t l c = record {
    full = c.full;
    tuples_eq = ap (λ ts. ts ++ t ∷ []) c.tuples_eq ∙ append_assoc (flat c.full) buffer (t ∷ []);
    pages_eq = c.pages_eq;
    whole = c.whole;
    fits = omega (arith, length-snoc buffer t);
  }

  pub put-IsChunked :
      (tuples : List Tuple) (pages : List (List Tuple)) (buffer : List Tuple) (t : Tuple)
      → length buffer ≡ room
      → IsChunked tuples pages buffer
      → IsChunked (tuples ++ t ∷ []) (pages ++ take counted buffer ∷ []) []
  put-IsChunked tuples pages buffer t l c = record {
    full = c.full ++ (buffer, t) ∷ [];
    tuples_eq =
        ap (λ ts. ts ++ t ∷ []) c.tuples_eq
        ∙ append_assoc (flat c.full) buffer (t ∷ [])
        ∙ sym (flat-snoc c.full buffer t)
        ∙ sym (append-nil _);
    pages_eq =
        ap (λ ps. ps ++ take counted buffer ∷ []) c.pages_eq
        ∙ sym (map-snoc (λ f. take counted f.0) c.full (buffer, t));
    whole = All-append _ c.full (buffer, t) c.whole l;
    fits = omega arith;
  }
