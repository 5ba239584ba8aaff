-- ===== src/Examples/Sessions.antt =====
-- The theorems on access sessions at concrete data.
use device_management_platfo.Base.{
  ◌≡◌, refl, sym, eq_iff, true, ◌*◌, All, find, count, exists, update, err,
}
use device_management_platfo.Store.{Db, is_active, not_found, second}
use device_management_platfo.Store.Access.{
  endpoint_route, revoke_access_session, enabled_user, joins,
}
use device_management_platfo.Store.Access.Grants.{
  exchange_access_grant, expire_access_sessions, live, exchangeable, resolvable,
  touch_access_session, auth_live, resolve_access_grant,
}
use device_management_platfo.Store.Access.Final.{
  here, next, touches, expires, IsClosed-lasts, IsClosed,
}
use device_management_platfo.Store.Access.Once.{exchanged_once}
use device_management_platfo.Store.Access.Sweep.{expire_leaves_live}
use device_management_platfo.Examples.{after, sample, note}

abbrev exchanged : Db
exchanged = (exchange_access_grant after "k1" "g1" (20 * second) (20 * second) 0 sample).0

abbrev touched : Db
touched = (touch_access_session after "s1" (21 * second) 0 exchanged).0

exchanged_once_example :
    (exchange_access_grant after "k1" "g1" (30 * second) (30 * second) 0 touched).1 ≡ err not_found
unfolding exchange_access_grant exchangeable resolvable live endpoint_route exists find count update
    auth_live enabled_user resolve_access_grant joins
exchanged_once_example =
    exchanged_once after sample "k1" "g1" (20 * second) (20 * second) 0 _ touched "g1" (30 * second)
      (30 * second) 0 (refl, (refl, tt)) refl (next here (touches "s1" (21 * second) 0))

abbrev revoked_visit : Db
revoked_visit = (revoke_access_session "s1" "l1" (20 * second) note sample).0

IsClosed-lasts_example :
    IsClosed "s1" (expire_access_sessions after (40 * second) 0 revoked_visit).0.access_sessions
unfolding revoke_access_session exists find count update
IsClosed-lasts_example =
    IsClosed-lasts after "s1" (next here (expires (40 * second) 0))
      ((λ _. refl, (λ e. sym ((eq_iff "s2" "s1").1 e), tt)), refl)

expire_leaves_live_example :
    All
      (λ s.
        is_active s.status ≡ true
        → live after
            (expire_access_sessions after (40 * second) (5 * second) sample).0
            (40 * second)
            (5 * second)
            s
          ≡ true)
      (expire_access_sessions after (40 * second) (5 * second) sample).0.access_sessions
expire_leaves_live_example = expire_leaves_live after (40 * second) (5 * second) sample
