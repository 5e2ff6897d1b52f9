-- ===== src/Tests/Workers.antt =====
-- Three workers register, of which the second cannot be connected to; the first message to the third is
-- lost, and the others arrive in another order than they were sent.
use mosito.Base.{ℕ, ◌+◌, ◌≡◌, refl, Bool, true, false, [], ◌∷◌, map}
use mosito.Heap.Same.{count}
use mosito.Register.{MessageIp, Cluster, aconnect, send_all, register_worker, handler}
use mosito.Register.Mesh.{Steps, starts, registers, handles, loses, wants, mesh, Steps-mesh}

abbrev told : ℕ → ℕ → MessageIp ℕ
told to message = record { to = to; message = message }

abbrev met : Cluster ℕ
met = record {
  endpoints_info = 1 ∷ 2 ∷ 3 ∷ [];
  coordinator_connects = (1, true) ∷ (2, false) ∷ (3, true) ∷ [];
  connects = (3, 2) ∷ (2, 1) ∷ [];
  in_flight = [];
  lost = told 3 1 ∷ [];
}

three : Steps ℕ (1 ∷ 2 ∷ 3 ∷ []) met
unfolding register_worker aconnect send_all handler
three =
    handles
      (handles
        (loses (registers (registers (registers starts 1 true) 2 false) 3 true) (told 2 1 ∷ [])
          (told 3 1) (told 3 2 ∷ []) refl)
        (told 2 1 ∷ []) (told 3 2) [] refl)
      [] (told 2 1) [] refl

Steps-mesh_example :
    (map (λ a. a.0) met.coordinator_connects ≡ 1 ∷ 2 ∷ 3 ∷ [])
    × ((p : ℕ × ℕ → Bool)
        → count p met.connects + count (λ m. p (wants ℕ m)) met.lost
          ≡ count p (mesh ℕ [] (1 ∷ 2 ∷ 3 ∷ [])))
Steps-mesh_example = Steps-mesh ℕ (1 ∷ 2 ∷ 3 ∷ []) met three refl
