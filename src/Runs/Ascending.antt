-- ===== src/Runs/Ascending.antt =====
-- Ascending lists.
use mosito.Base.{◌≡◌, Bool, true, List, [], ◌∷◌, ◌++◌, All, All-append}

module _ {ℓ} {T : Type ℓ} (compare : T → T → Bool) where
  abbrev pub IsAscending : List T → Type 0
  IsAscending [] = Unit
  IsAscending (x ∷ xs) = All (λ y. compare x y ≡ true) xs × IsAscending xs

  pub IsAscending-snoc :
      (xs : List T) (y : T)
      → All (λ x. compare x y ≡ true) xs
      → IsAscending xs
      → IsAscending (xs ++ y ∷ [])
  IsAscending-snoc [] y h a = (tt, tt)
  IsAscending-snoc (x ∷ xs) y h a =
      (All-append (λ z. compare x z ≡ true) xs y a.0 h.0, IsAscending-snoc xs y h.1 a.1)
