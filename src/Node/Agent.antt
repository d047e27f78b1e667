-- ===== src/Node/Agent.antt =====
-- airstore/node/registration.py and heartbeat.py: the requests of a node to the manager.
pub mod Attempts
use air_store.Prelude.{ℕ, zero, suc, ◌+◌, Bool, false, Option, none, some, ◌==◌, if◌then◌else◌}
use air_store.Node.Handlers.{Reply, no_reply, response, is_success}

-- `NodeRegistrationResponse` of `register`, and the number of requests that it sent.
pub record Registration : Type 0 where
  pub success : Bool
  pub requests : ℕ

-- The body of an answer is the field `success` of a `NodeRegistrationResponse`, or `none` where it
-- is not JSON or has not the fields of one: then `resp.json()` or the constructor raises, as
-- `raise_for_status` does where the status is no 2xx. The loop ends where nothing raises.
abbrev pub accepted : Reply (Option Bool) → Option Bool
accepted no_reply = none
accepted (response code body) = if is_success code then body else none

-- `for attempt in range(1, retries + 1)`, from the attempt `attempt` on; `reply` is the answer to
-- each attempt.
unfoldable pub register_from : ℕ → ℕ → (ℕ → Reply (Option Bool)) → Registration
register_from zero attempt reply = record { success = false; requests = 0 }
register_from (suc rounds) attempt reply =
    let rest = register_from rounds (attempt + 1) reply in
    elim (accepted (reply attempt)) [
      | some success ↦ record { success = success; requests = 1 }
      | none ↦ record rest { requests = suc rest.requests }
    ]

unfoldable pub register : ℕ → (ℕ → Reply (Option Bool)) → Registration
unfolding register_from
register retries reply = register_from retries 1 reply

-- `send_heartbeat_once`: the answer, where the status is 200.
unfoldable pub send_heartbeat_once : {A : Type 0} → Reply A → Option A
send_heartbeat_once no_reply = none
send_heartbeat_once (response code body) = if code == 200 then some body else none
