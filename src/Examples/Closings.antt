-- ===== src/Examples/Closings.antt =====
-- The theorem on the closing of the sessions of a device, at the concrete node and store.
use device_management_platfo.Store.{active}
use device_management_platfo.Base.{
  ◌≢◌, ℕ, ◌≡◌, refl, String, true, [], ◌∷◌, if◌then◌else◌, eqb, All, exists, lookup, find, insert,
  count, delete, select, update,
}
use device_management_platfo.Gateway.Connections.{new_gateway, connections, prune_revoked, revoke}
use device_management_platfo.Store.Access.{
  of_resource, revoke_resource_sessions, endpoint_route, close_session, on_device,
}
use device_management_platfo.Api.Forwards.Closing.{
  World, close_resource_sessions, remove_forwards, remove_resource_forward, audit_all, revoke_all,
}
use device_management_platfo.Api.Forwards.Closed.{
  IsSessionOf, HasTombstone, close_resource_sessions_lem,
}
use device_management_platfo.Store.PortForwards.{
  list_port_forwards, joined, forward_of, delete_port_forward, scan_port_forward,
}
use device_management_platfo.Adapter.Forwards.{delete_node_forward}
use device_management_platfo.Adapter.Calls.{demand, call, known}
use device_management_platfo.Adapter.Signing.{
  prepare, resolve_endpoint, apply_nps_signature, received, validate_nps_business_response,
  classify_nps_http_error, path_with_raw_query, sign_nps_request,
}
use device_management_platfo.Api.Forwards.{audit_from_request}
use device_management_platfo.Gateway.Location.{path_of}
use device_management_platfo.Store.{insert_audit}
use device_management_platfo.Examples.Forwards.{pool}
use device_management_platfo.Examples.Nodes.{NodeState, world, origin}

abbrev record_id : ℕ → String
record_id n = if eqb n 0 then "l1" else (if eqb n 1 then "l2" else "l3")

-- A running forward and an active session of the device.
abbrev before : World NodeState
before = record { db = pool; outside = ([], []); gateways = new_gateway ∷ [] }

abbrev done : World NodeState
done = (close_resource_sessions world true record_id 7 origin "p1" "d1" before).1

close_resource_sessions_lem_example :
    All (λ s. IsSessionOf done.db "p1" "d1" s → s.status ≢ active) done.db.access_sessions
    × All
        (λ s.
          IsSessionOf before.db "p1" "d1" s
          → s.status ≡ active
          → All (HasTombstone 7 s.id) done.gateways)
        before.db.access_sessions
unfolding close_resource_sessions remove_forwards list_port_forwards joined forward_of
    endpoint_route find remove_resource_forward delete_node_forward demand call prepare
    resolve_endpoint apply_nps_signature received validate_nps_business_response known
    delete_port_forward classify_nps_http_error path_with_raw_query sign_nps_request audit_all
    revoke_all audit_from_request insert lookup count delete exists select update connections
    prune_revoked revoke path_of close_session of_resource on_device revoke_resource_sessions
    scan_port_forward insert_audit
close_resource_sessions_lem_example =
    close_resource_sessions_lem world true record_id 7 origin "p1" "d1" before done refl
