-- ===== src/Register/Mesh.antt =====
-- src/deploy/m_coordinator.cpp and m_worker.h: when no message is on its way, the workers have
-- tried to be a mesh, but for the messages that were lost.
use mosito.Base.{◌+◌, ◌≡◌, refl, ap, ◌∙◌, Bool, true, false, List, [], ◌∷◌, ◌++◌, map, arith}
use mathlib.Core.List.{append_assoc, append-nil, map-append}
use mosito.Heap.Same.{count, count-append}
use mosito.Register.{MessageIp, Cluster, no_workers, aconnect, send_all, register_worker, handler}

module _ {ℓ} (Address : Type ℓ) where
  -- The clusters that come about when workers register, in this order, and messages arrive or are lost,
  -- in any. `Connect` may answer either way.
  pub data Steps : List Address → Cluster Address → Type ℓ where
    starts : Steps [] (no_workers Address)
    registers :
        {ips : List Address} {c : Cluster Address}
        → Steps ips c
        → (ip : Address) (answer : Bool)
        → Steps (ips ++ ip ∷ []) (register_worker Address c ip answer)
    handles :
        {ips : List Address} {c : Cluster Address}
        → Steps ips c
        → (before : List (MessageIp Address)) (m : MessageIp Address)
          (after : List (MessageIp Address))
        → c.in_flight ≡ before ++ m ∷ after
        → Steps ips (handler Address (record c { in_flight = before ++ after }) m)
    loses :
        {ips : List Address} {c : Cluster Address}
        → Steps ips c
        → (before : List (MessageIp Address)) (m : MessageIp Address)
          (after : List (MessageIp Address))
        → c.in_flight ≡ before ++ m ∷ after
        → Steps ips (record c { in_flight = before ++ after; lost = m ∷ c.lost })

  abbrev pub wants : MessageIp Address → Address × Address
  wants m = (m.to, m.message)

  -- A node with every one of a list.
  abbrev pub with_each : Address → List Address → List (Address × Address)
  with_each new_node [] = []
  with_each new_node (ip ∷ ips) = (new_node, ip) ∷ with_each new_node ips

  -- Every later node with every earlier one.
  abbrev pub mesh : List Address → List Address → List (Address × Address)
  mesh earlier [] = []
  mesh earlier (ip ∷ ips) = with_each ip earlier ++ mesh (earlier ++ ip ∷ []) ips

  mesh-snoc :
      (p : Address × Address → Bool) (earlier ips : List Address) (ip : Address)
      → count p (mesh earlier (ips ++ ip ∷ []))
        ≡ count p (mesh earlier ips) + count p (with_each ip (earlier ++ ips))
  mesh-snoc p earlier [] ip = omega (
    arith,
    count-append p (with_each ip earlier) [],
    ap (λ es. count p (with_each ip es)) (append-nil earlier),
  )
  mesh-snoc p earlier (first ∷ ips) ip = omega (
    arith,
    count-append p (with_each first earlier) (mesh (earlier ++ first ∷ []) (ips ++ ip ∷ [])),
    count-append p (with_each first earlier) (mesh (earlier ++ first ∷ []) ips),
    mesh-snoc p (earlier ++ first ∷ []) ips ip,
    ap (λ es. count p (with_each ip es)) (append_assoc earlier (first ∷ []) ips),
  )

  count-send_all :
      (p : Address × Address → Bool) (ip : Address) (ips : List Address)
      → count (λ m. p (wants m)) (send_all Address ip ips) ≡ count p (with_each ip ips)
  unfolding send_all
  count-send_all p ip [] = refl
  count-send_all p ip (e ∷ es) = omega (arith, count-send_all p ip es)

  -- Every pair has tried to connect, or is to do so, or its message was lost.
  pub record IsKnown (ips : List Address) (c : Cluster Address) : Type ℓ where
    pub endpoints_info : c.endpoints_info ≡ ips
    pub coordinator_connects : map (λ a. a.0) c.coordinator_connects ≡ ips
    pub pairs :
        (p : Address × Address → Bool)
        → count p c.connects
            + count (λ m. p (wants m)) c.in_flight
            + count (λ m. p (wants m)) c.lost
          ≡ count p (mesh [] ips)

  -- The round is the same whatever `aconnect` answers.
  register_worker_lem :
      (c : Cluster Address) (ip : Address) (answer : Bool)
      → register_worker Address c ip answer ≡ record c {
        coordinator_connects = c.coordinator_connects ++ (ip, answer) ∷ [];
        in_flight = c.in_flight ++ send_all Address ip c.endpoints_info;
        endpoints_info = c.endpoints_info ++ ip ∷ [];
      }
  unfolding register_worker aconnect
  register_worker_lem c ip true = refl
  register_worker_lem c ip false = refl

  registers-IsKnown :
      (ips : List Address) (c : Cluster Address) (ip : Address) (answer : Bool)
      → IsKnown ips c
      → IsKnown (ips ++ ip ∷ []) (register_worker Address c ip answer)
  registers-IsKnown ips c ip answer k = rw (register_worker_lem c ip answer) (record {
    endpoints_info = ap (λ es. es ++ ip ∷ []) k.endpoints_info;
    coordinator_connects =
        map-append (λ a. a.0) c.coordinator_connects ((ip, answer) ∷ [])
        ∙ ap (λ es. es ++ ip ∷ []) k.coordinator_connects;
    pairs = λ p. omega (
      arith,
      k.pairs p,
      mesh-snoc p [] ips ip,
      count-append (λ m. p (wants m)) c.in_flight (send_all Address ip c.endpoints_info),
      count-send_all p ip c.endpoints_info,
      ap (λ es. count p (with_each ip es)) k.endpoints_info,
    );
  })

  handles-IsKnown :
      (ips : List Address) (c : Cluster Address) (before : List (MessageIp Address))
      (m : MessageIp Address) (after : List (MessageIp Address))
      → c.in_flight ≡ before ++ m ∷ after
      → IsKnown ips c
      → IsKnown ips (handler Address (record c { in_flight = before ++ after }) m)
  unfolding handler
  handles-IsKnown ips c before m after e k = record {
    endpoints_info = k.endpoints_info;
    coordinator_connects = k.coordinator_connects;
    pairs = λ p. omega (
      arith,
      k.pairs p,
      count-append p c.connects (wants m ∷ []),
      ap (count (λ m. p (wants m))) e,
      count-append (λ m. p (wants m)) before (m ∷ after),
      count-append (λ m. p (wants m)) before after,
    );
  }

  loses-IsKnown :
      (ips : List Address) (c : Cluster Address) (before : List (MessageIp Address))
      (m : MessageIp Address) (after : List (MessageIp Address))
      → c.in_flight ≡ before ++ m ∷ after
      → IsKnown ips c
      → IsKnown ips (record c { in_flight = before ++ after; lost = m ∷ c.lost })
  loses-IsKnown ips c before m after e k = record {
    endpoints_info = k.endpoints_info;
    coordinator_connects = k.coordinator_connects;
    pairs = λ p. omega (
      arith,
      k.pairs p,
      ap (count (λ m. p (wants m))) e,
      count-append (λ m. p (wants m)) before (m ∷ after),
      count-append (λ m. p (wants m)) before after,
    );
  }

  Steps-IsKnown : {ips : List Address} {c : Cluster Address} → Steps ips c → IsKnown ips c
  Steps-IsKnown starts = record {
    endpoints_info = refl;
    coordinator_connects = refl;
    pairs = λ p. refl;
  }
  Steps-IsKnown (registers s ip answer) = registers-IsKnown _ _ ip answer (Steps-IsKnown s)
  Steps-IsKnown (handles s before m after e) =
      handles-IsKnown _ _ before m after e (Steps-IsKnown s)
  Steps-IsKnown (loses s before m after e) = loses-IsKnown _ _ before m after e (Steps-IsKnown s)

  -- However registrations and messages come in turn, whatever `Connect` answers and whichever messages
  -- are lost: when no message is on its way, the coordinator has tried to connect to every worker, in
  -- the order of their registration, and every worker has tried to connect to each of those that
  -- registered before it, once for each, and to no other, but for those whose address was lost on its
  -- way to it.
  pub Steps-mesh :
      (ips : List Address) (c : Cluster Address)
      → Steps ips c
      → c.in_flight ≡ []
      → (map (λ a. a.0) c.coordinator_connects ≡ ips)
        × ((p : Address × Address → Bool)
            → count p c.connects + count (λ m. p (wants m)) c.lost ≡ count p (mesh [] ips))
  Steps-mesh ips c s e =
      let k = Steps-IsKnown s in
      (k.coordinator_connects, (λ p. omega (arith, k.pairs p, ap (count (λ m. p (wants m))) e)))
