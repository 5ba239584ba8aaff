-- ===== src/Gateway/Access.antt =====
-- Who is let through to a device.
use device_management_platfo.Base.{
  ℕ, ◌-◌, ◌≡◌, ◌≢◌, sym, ap, subst, ◌∙◌, arith, inl, inr, String, Bool, true, false, ◌||◌, not,
  some, ◌==◌, Bool-cases, Option-cases, Result-cases, Result, ok, err, find, find-test, find-IsIn,
  IsIn,
}
use device_management_platfo.Store.{Db, AccessSession, TextOrder}
use device_management_platfo.Store.Access.{EndpointRoute, endpoint_route}
use device_management_platfo.Store.Access.Grants.{resolvable, see_session, resolve_access_grant}
use device_management_platfo.Store.Access.Live.{
  IsStanding, resolvable-IsStanding, resolvable-project,
}
use device_management_platfo.Gateway.Upstream.{gateway_upstream}
use device_management_platfo.Gateway.Serve.{
  GatewayRequest, Answer, refused, proxied, is_one_of, valid_access_token, exchange_grant,
  resolve_authorized_access, admitted, serve,
}

-- What a result or an answer holds.
abbrev value_of : {E A : Type 0} → A → Result E A → A
value_of a (ok b) = b
value_of a (err e) = a

abbrev found_of : AccessSession × EndpointRoute → Answer → AccessSession × EndpointRoute
found_of found (proxied s route up) = (s, route)
found_of found _ = found

abbrev upstream_of : String × ℕ × String → Answer → String × ℕ × String
upstream_of u (proxied t route up) = up
upstream_of u _ = u

-- A grant that resolves is of a session in the table that passes the statement's test, and the route
-- is that of the session's endpoint.
resolve-found :
    (later : TextOrder) (token_hash grant_hash : String) (now cutoff : ℕ) (db : Db)
    (session : AccessSession) (route : EndpointRoute)
    → (resolve_access_grant later token_hash grant_hash now cutoff db).1 ≡ ok (session, route)
    → (s : AccessSession) × (find
          (resolvable later db token_hash grant_hash now cutoff)
          db.access_sessions
        ≡ some s)
      × (session ≡ see_session now s)
      × (endpoint_route db s.endpoint_id ≡ ok route)
unfolding resolve_access_grant
resolve-found later token_hash grant_hash now cutoff db session route e =
    let hit = resolvable later db token_hash grant_hash now cutoff in
    elim (Option-cases (find hit db.access_sessions)) [
      | inl absent ↦ cc (rw (resolve_access_grant, absent) at e)
      | inr (s, there) ↦ elim (Result-cases (endpoint_route db s.endpoint_id)) [
        | inl (failure, broken) ↦ cc (rw (resolve_access_grant, there, broken) at e)
        | inr (found, routed) ↦
            (let both = rw (resolve_access_grant, there, routed) at e in
              let same : (see_session now s, found) ≡ (session, route) =
                ap (value_of (session, route)) both in
              (s, there, sym (ap (λ p. p.0) same), rw routed (ap (λ p. ok p.1) same)))
      ]
    ]

module _ (digest trim to_lower : String → String) (equal_fold : String → String → Bool)
    (contains_any : String → String → Bool) (is_current : String → Bool) (later : TextOrder)
    (socks_route : EndpointRoute → Bool) where
  exchange_grant-unproxied :
      (r : GatewayRequest) (idle_ttl now : ℕ) (db : Db) (session : AccessSession)
      (route : EndpointRoute) (up : String × ℕ × String)
      → (exchange_grant digest trim to_lower equal_fold contains_any is_current later socks_route r
          idle_ttl now db).1
        ≢ proxied session route up
  unfolding exchange_grant
  exchange_grant-unproxied r idle_ttl now db session route up e = ground arith

  resolved-grant :
      (r : GatewayRequest) (idle_ttl now : ℕ) (db : Db) (found : AccessSession × EndpointRoute)
      → (resolve_authorized_access digest trim to_lower equal_fold contains_any is_current later
          socks_route r idle_ttl now db).1
        ≡ ok found
      → (grant : String) × (r.grant_cookie ≡ some grant)
        × ((resolve_access_grant later (digest r.token) (digest grant) now (now - idle_ttl) db).1
            ≡ ok found)
  unfolding resolve_authorized_access
  resolved-grant r idle_ttl now db found e = elim (Option-cases r.grant_cookie) [
    | inl absent ↦ cc (rw (resolve_authorized_access, absent) at e)
    | inr (grant, sent) ↦
        elim (Bool-cases (
          valid_access_token digest trim to_lower equal_fold contains_any is_current later
            socks_route grant)) [
              | inl valid ↦
                  elim (Result-cases
                    (resolve_access_grant later (digest r.token) (digest grant) now (now - idle_ttl)
                      db).1) [
                        | inl (failure, broken) ↦
                            cc (rw (resolve_authorized_access, sent, valid, broken) at e)
                        | inr (got, resolved) ↦ (
                          grant,
                          sent,
                          rw resolved (
                              ap ok (
                                ap (value_of found)
                                  (rw (resolve_authorized_access, sent, valid, resolved) at e))),
                        )
                      ]
              | inr invalid ↦ cc (rw (resolve_authorized_access, sent, invalid) at e)
            ]
  ]

  admitted-cases :
      (r : GatewayRequest) (session : AccessSession) (route : EndpointRoute) (done : Unit {0})
      → admitted digest trim to_lower equal_fold contains_any is_current later socks_route r session
          route
        ≡ ok done
      → (is_one_of session.source_ip "" r.source_ip ≡ true)
        × ((session.mode == "web") ≡ true)
        × ((route.access_type == "web_proxy") ≡ true)
  unfolding admitted
  admitted-cases r session route done e = (ground arith, ground arith, ground arith)

  browsed :
      (r : GatewayRequest) (idle_ttl now : ℕ) (db : Db) (session : AccessSession)
      (route : EndpointRoute) (up : String × ℕ × String)
      → elim (resolve_authorized_access digest trim to_lower equal_fold contains_any is_current
          later socks_route r idle_ttl now db).1 [
            | err status ↦ refused status
            | ok found ↦
                elim (admitted digest trim to_lower equal_fold contains_any is_current later
                  socks_route r found.0 found.1) [
                    | err status ↦ refused status
                    | ok _ ↦
                        proxied found.0 found.1 (gateway_upstream found.1 r.path r.sticky_https)
                  ]
          ]
        ≡ proxied session route up
      → ((resolve_authorized_access digest trim to_lower equal_fold contains_any is_current later
            socks_route r idle_ttl now db).1
          ≡ ok (session, route))
        × ((done : Unit {0}) × (admitted digest trim to_lower equal_fold contains_any is_current
                later socks_route r session route
              ≡ ok done))
        × (up ≡ gateway_upstream route r.path r.sticky_https)
  browsed r idle_ttl now db session route up e =
      elim (Result-cases
        (resolve_authorized_access digest trim to_lower equal_fold contains_any is_current later
          socks_route r idle_ttl now db).1) [
            | inl (status, unresolved) ↦ cc (rw unresolved at e)
            | inr (found, resolved) ↦
                elim (Result-cases (
                  admitted digest trim to_lower equal_fold contains_any is_current later socks_route
                    r found.0 found.1)) [
                      | inl (status, barred) ↦ cc (rw (resolved, barred) at e)
                      | inr (done, let_in) ↦
                          (let answer = rw (resolved, let_in) at e in
                            let same : found ≡ (session, route) = ap (found_of found) answer in
                            let is_up : gateway_upstream found.1 r.path r.sticky_https ≡ up =
                              ap (upstream_of up) answer in
                            (
                              resolved ∙ ap ok same,
                              (
                                done,
                                subst
                                    (λ x.
                                      admitted digest trim to_lower equal_fold contains_any
                                        is_current later socks_route r x.0 x.1
                                      ≡ ok done)
                                    same let_in,
                              ),
                              sym is_up ∙ ap (λ x. gateway_upstream x.1 r.path r.sticky_https) same,
                            ))
                    ]
          ]

  serve-cases :
      (r : GatewayRequest) (idle_ttl now : ℕ) (db : Db) (session : AccessSession)
      (route : EndpointRoute) (up : String × ℕ × String)
      → (serve digest trim to_lower equal_fold contains_any is_current later socks_route r idle_ttl
          now db).1
        ≡ proxied session route up
      → ((not r.subdomain || not (is_current r.token)) ≡ false)
        × ((resolve_authorized_access digest trim to_lower equal_fold contains_any is_current later
              socks_route r idle_ttl now db).1
            ≡ ok (session, route))
        × ((done : Unit {0}) × (admitted digest trim to_lower equal_fold contains_any is_current
                later socks_route r session route
              ≡ ok done))
        × (up ≡ gateway_upstream route r.path r.sticky_https)
  unfolding serve
  serve-cases r idle_ttl now db session route up e =
      elim (Bool-cases (not r.subdomain || not (is_current r.token))) [
        | inl closed ↦ cc (rw (serve, closed) at e)
        | inr opened ↦ elim (Bool-cases (r.path == ".dmp/authorize")) [
          | inl start ↦ ground (arith, start)
          | inr onward ↦ elim (Bool-cases (r.path == ".dmp/session")) [
            | inl exchange ↦ absurd (
                exchange_grant-unproxied r idle_ttl now db session route up
                  (rw (serve, opened, onward, exchange) at e))
            | inr browse ↦
                let (resolved, let_in, is_up) =
                  browsed r idle_ttl now db session route up
                    (rw (serve, opened, onward, browse) at e) in
                (opened, resolved, let_in, is_up)
          ]
        ]
      ]

  -- A request is passed on to a device only on a session's own subdomain, with a cookie whose grant,
  -- with the label of the subdomain, is that of a row of the access sessions which is exchanged,
  -- active, not expired and seen after the idle cutoff, as is its login session, of an enabled user;
  -- to the endpoint of the row in the row's project; from the address that the session was made from, where it has one; for a web session on a web
  -- endpoint; and to the upstream of that endpoint.
  pub proxied_lem :
      (r : GatewayRequest) (idle_ttl now : ℕ) (db : Db) (session : AccessSession)
      (route : EndpointRoute) (up : String × ℕ × String)
      → (serve digest trim to_lower equal_fold contains_any is_current later socks_route r idle_ttl
          now db).1
        ≡ proxied session route up
      → (r.subdomain ≡ true)
        × (is_current r.token ≡ true)
        × ((grant : String) × (s : AccessSession) × (r.grant_cookie ≡ some grant)
            × IsIn s db.access_sessions
            × IsStanding later db (digest r.token) (digest grant) now (now - idle_ttl) s
            × (route.project_id ≡ s.project_id)
            × (session ≡ see_session now s)
            × (endpoint_route db s.endpoint_id ≡ ok route))
        × (is_one_of session.source_ip "" r.source_ip ≡ true)
        × ((session.mode == "web") ≡ true)
        × ((route.access_type == "web_proxy") ≡ true)
        × (up ≡ gateway_upstream route r.path r.sticky_https)
  proxied_lem r idle_ttl now db session route up e =
      let (opened, resolved, (done, let_in), is_up) =
        serve-cases r idle_ttl now db session route up e in
      let (grant, sent, got) = resolved-grant r idle_ttl now db (session, route) resolved in
      let (s, there, seen, routed) =
        resolve-found later (digest r.token) (digest grant) now (now - idle_ttl) db session route
          got in
      let live =
        find-test (resolvable later db (digest r.token) (digest grant) now (now - idle_ttl))
          db.access_sessions s there in
      let (address, mode, kind) = admitted-cases r session route done let_in in
      (
        ground (arith, opened),
        ground (arith, opened),
        (
          grant,
          s,
          sent,
          find-IsIn _ db.access_sessions s there,
          resolvable-IsStanding later db (digest r.token) (digest grant) now (now - idle_ttl) s
              live,
          resolvable-project later db (digest r.token) (digest grant) now (now - idle_ttl) s route
              live routed,
          seen,
          routed,
        ),
        address,
        mode,
        kind,
        is_up,
      )
