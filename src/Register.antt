-- ===== src/Register.antt =====
-- src/deploy/m_coordinator.cpp and m_worker.h: how workers register, and come to know each other. An
-- address is any value. The actor library delivers a message that was sent to a worker at most once,
-- at any time, or drops it; `Send`'s result is not read. What the library does in `Connect` is not
-- looked at, only with what it was called and, in `aconnect`, what it answered.
pub mod Mesh
use mosito.Base.{Bool, true, false, not, if◌then◌else◌, List, [], ◌∷◌, ◌++◌, map}

module _ {ℓ} (Address : Type ℓ) where
  -- A MessageIP on its way to a worker.
  pub record MessageIp : Type ℓ where
    pub to : Address
    pub message : Address

  pub record Cluster : Type ℓ where
    pub endpoints_info : List Address
    -- The calls of `Connect` by the coordinator with their answers, and by the workers: who, and to
    -- whom.
    pub coordinator_connects : List (Address × Bool)
    pub connects : List (Address × Address)
    pub in_flight : List MessageIp
    pub lost : List MessageIp

  abbrev pub no_workers : Cluster
  no_workers = record {
    endpoints_info = [];
    coordinator_connects = [];
    connects = [];
    in_flight = [];
    lost = [];
  }

  -- `answer` is what `Connect` gives.
  unfoldable pub aconnect : Cluster → Address → Bool → Bool × Cluster
  aconnect c ip answer =
      let tried = record c { coordinator_connects = c.coordinator_connects ++ (ip, answer) ∷ [] } in
      if not answer then (false, tried) else (true, tried)

  -- The loop that sends the new node the endpoints that are known.
  unfoldable pub send_all : Address → List Address → List MessageIp
  send_all new_node [] = []
  send_all new_node (ip ∷ ips) = record { to = new_node; message = ip } ∷ send_all new_node ips

  -- One round of `register_worker`, for a worker that has sent its address. What `aconnect` answers is
  -- not read.
  unfoldable pub register_worker : Cluster → Address → Bool → Cluster
  unfolding aconnect send_all
  register_worker c ip answer =
      let joined = (aconnect c ip answer).1 in
      record joined {
        in_flight = joined.in_flight ++ send_all ip joined.endpoints_info;
        endpoints_info = joined.endpoints_info ++ ip ∷ [];
      }

  -- `WorkerConnector::handler` of the worker that the message goes to.
  unfoldable pub handler : Cluster → MessageIp → Cluster
  handler c m = record c { connects = c.connects ++ (m.to, m.message) ∷ [] }
