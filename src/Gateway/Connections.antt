-- ===== src/Gateway/Connections.antt =====
-- access/gateway.go: the connections that the gateway holds open for each access session, and the
-- sessions revoked within the last ten minutes. A connection is its id; every function is one
-- critical section of activeMu. Revoke and Close close the network connection besides.
use device_management_platfo.Base.{
  ℕ, ◌+◌, ◌-◌, ◌*◌, String, Bool, true, false, Option, none, some, List, [], ◌∷◌, eqb, ltb,
  if◌then◌else◌, is_some, lookup, insert, remove, delete, Result, ok, err,
}
use device_management_platfo.Store.{Error, not_found, second}

pub record Gateway : Type 0 where
  pub active : List (String × List ℕ)
  pub revoked : List (String × ℕ)
  pub next_id : ℕ

abbrev pub new_gateway : Gateway
new_gateway = record { active = []; revoked = []; next_id = 0 }

abbrev pub ten_minutes : ℕ
ten_minutes = 600 * second

-- g.active[sessionID]
abbrev pub listed : Option (List ℕ) → List ℕ
listed none = []
listed (some ids) = ids

unfoldable pub connections : String → Gateway → List ℕ
connections session_id g = listed (lookup session_id g.active)

-- pruneRevokedLocked
unfoldable pub prune_revoked : ℕ → Gateway → Gateway
prune_revoked now g = record g {
  revoked = delete (λ entry. ltb entry.1 (now - ten_minutes)) g.revoked;
}

-- Revoke, up to the closing of the connections that it returns.
unfoldable pub revoke : String → ℕ → Gateway → Gateway × List ℕ
revoke session_id now g =
    let pruned = prune_revoked now g in
    (
      record pruned { revoked = insert session_id now pruned.revoked },
      connections session_id pruned,
    )

-- trackWebActivityConn, of a connection that is there.
unfoldable pub track : String → ℕ → Gateway → Gateway × Result Error ℕ
track session_id now g =
    let pruned = prune_revoked now g in
    let connection_id = g.next_id + 1 in
    if is_some (lookup session_id pruned.revoked) then (pruned, err not_found) else (
      record pruned {
        next_id = connection_id;
        active = insert session_id (connection_id ∷ connections session_id pruned) pruned.active;
      },
      ok connection_id,
    )

abbrev pub is_empty : List ℕ → Bool
is_empty [] = true
is_empty (_ ∷ _) = false

-- unregisterWebActivityConn
unfoldable pub unregister : String → ℕ → Gateway → Gateway
unregister session_id connection_id g =
    let left = delete (eqb connection_id) (connections session_id g) in
    if is_empty left
    then record g { active = remove session_id g.active }
    else record g { active = insert session_id left g.active }
