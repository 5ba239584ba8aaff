-- ===== src/Gateway/Revocation.antt =====
-- What a revocation of an access session means for its connections.
use device_management_platfo.Base.{
  ℕ, ◌+◌, ◌-◌, ◌≤◌, ◌≡◌, refl, sym, subst, arith, String, true, false, some, List, [], ◌∷◌, ◌==◌,
  eq_iff, eqb, ltb, if_split, Bool-cases, inl, inr, is_some, lookup, delete, All, All-delete,
  All-map, lookup-insert, lookup-insert_self, lookup-remove, lookup-delete_kept, exists, err,
}
use device_management_platfo.Store.{not_found}
use device_management_platfo.Gateway.Connections.{
  Gateway, ten_minutes, listed, connections, prune_revoked, revoke, track, unregister, is_empty,
}

pub data Event : Type 0 where
  revokes tracks : String → ℕ → Event
  unregisters : String → ℕ → Event

abbrev pub handle : Event → Gateway → Gateway
handle (revokes s now) g = (revoke s now g).0
handle (tracks s now) g = (track s now g).0
handle (unregisters s id) g = unregister s id g

abbrev pub handle_all : List Event → Gateway → Gateway
handle_all [] g = g
handle_all (e ∷ es) g = handle_all es (handle e g)

-- The event happens between the time and ten minutes after it.
abbrev pub Within : ℕ → Event → Type 0
Within t (revokes s now) = (t ≤ now) × (now ≤ t + ten_minutes)
Within t (tracks s now) = (t ≤ now) × (now ≤ t + ten_minutes)
Within t (unregisters s id) = Unit

-- The session is revoked since t, and the connections it has are among those held.
Cut : String → ℕ → List ℕ → Gateway → Type 0
Cut s t held g =
    ((u : ℕ) × (lookup s g.revoked ≡ some u) × (t ≤ u))
    × All (λ id. exists (eqb id) held ≡ true) (connections s g)

Cut-prune :
    (s : String) (t now : ℕ) (held : List ℕ) (g : Gateway)
    → now ≤ t + ten_minutes
    → Cut s t held g
    → Cut s t held (prune_revoked now g)
unfolding Cut prune_revoked connections
Cut-prune s t now held g near ((u, e, le), h) = (
  (u, lookup-delete_kept (λ at. ltb at (now - ten_minutes)) s u g.revoked e (ground arith), le),
  h,
)

Cut-revoke :
    (s asked : String) (t now : ℕ) (held : List ℕ) (g : Gateway)
    → t ≤ now
    → now ≤ t + ten_minutes
    → Cut s t held g
    → Cut s t held (revoke asked now g).0
unfolding Cut revoke prune_revoked connections
Cut-revoke s asked t now held g late near h =
    let ((u, e, le), ids) = Cut-prune s t now held g near h in
    let entered = lookup-insert asked s now (prune_revoked now g).revoked in
    (
      elim (Bool-cases (asked == s)) [
        | inl same ↦ (now, rw (entered, same) refl, late)
        | inr other ↦ (u, rw (entered, other) e, le)
      ],
      ids,
    )

-- A session that is not revoked is not one that is.
unrevoked_other :
    (s asked : String) (u : ℕ) (m : List (String × ℕ))
    → lookup s m ≡ some u
    → is_some (lookup asked m) ≡ false
    → (asked == s) ≡ false
unrevoked_other s asked u m e free = elim (Bool-cases (asked == s)) [
  | inl same ↦
      (let named : asked ≡ s = ground (arith, same, eq_iff asked s) in
        let held : is_some (lookup asked m) ≡ true = rw (named, e) refl in cc)
  | inr other ↦ other
]

Cut-track :
    (s asked : String) (t now : ℕ) (held : List ℕ) (g : Gateway)
    → now ≤ t + ten_minutes
    → Cut s t held g
    → Cut s t held (track asked now g).0
unfolding Cut track connections
Cut-track s asked t now held g near h =
    let pruned = Cut-prune s t now held g near h in
    let ((u, e, le), ids) = pruned in
    elim (Bool-cases (is_some (lookup asked (prune_revoked now g).revoked))) [
      | inl cut ↦ rw cut pruned
      | inr free ↦
          rw
            (
              free,
              lookup-insert asked s
                  ((g.next_id + 1) ∷ listed (lookup asked (prune_revoked now g).active))
                  (prune_revoked now g).active,
              unrevoked_other s asked u (prune_revoked now g).revoked e free,
            )
            pruned
    ]

Cut-unregister :
    (s asked : String) (id t : ℕ) (held : List ℕ) (g : Gateway)
    → Cut s t held g
    → Cut s t held (unregister asked id g)
unfolding Cut unregister connections
Cut-unregister s asked id t held g (at, ids) =
    let left = delete (eqb id) (listed (lookup asked g.active)) in
    elim (Bool-cases (is_empty left)) [
      | inl done ↦
          rw (done, lookup-remove asked s g.active)
            (
              at,
              if_split (λ o. All (λ i. exists (eqb i) held ≡ true) (listed o)) (asked == s)
                  (λ _. tt) (λ _. ids),
            )
      | inr more ↦
          rw (more, lookup-insert asked s left g.active)
            (
              at,
              if_split (λ o. All (λ i. exists (eqb i) held ≡ true) (listed o)) (asked == s)
                  (λ same.
                    All-delete (λ i. exists (eqb i) held ≡ true) (eqb id)
                      (listed (lookup asked g.active))
                      (subst
                        (λ name.
                          All (λ i. exists (eqb i) held ≡ true) (listed (lookup name g.active)))
                        (sym (ground (arith, same, eq_iff asked s))) ids))
                  (λ _. ids),
            )
    ]

Cut-handle :
    (s : String) (t : ℕ) (held : List ℕ) (e : Event) (g : Gateway)
    → Within t e
    → Cut s t held g
    → Cut s t held (handle e g)
Cut-handle s t held (revokes asked now) g (late, near) h =
    Cut-revoke s asked t now held g late near h
Cut-handle s t held (tracks asked now) g (late, near) h = Cut-track s asked t now held g near h
Cut-handle s t held (unregisters asked id) g w h = Cut-unregister s asked id t held g h

Cut-handle_all :
    (s : String) (t : ℕ) (held : List ℕ) (es : List Event) (g : Gateway)
    → All (Within t) es
    → Cut s t held g
    → Cut s t held (handle_all es g)
Cut-handle_all s t held [] g w h = h
Cut-handle_all s t held (e ∷ es) g (first, w) h =
    Cut-handle_all s t held es (handle e g) w (Cut-handle s t held e g first h)

All-self : (ids : List ℕ) → All (λ id. exists (eqb id) ids ≡ true) ids
unfolding exists
All-self [] = tt
All-self (x ∷ ids) = (
  ground arith,
  All-map (λ id. exists (eqb id) ids ≡ true) (λ id. exists (eqb id) (x ∷ ids) ≡ true)
      (λ id h. ground (arith, h)) ids (All-self ids),
)

-- After a revocation of a session, whatever is revoked, tracked and unregistered in whatever order
-- within ten minutes: the session has no connection that Revoke did not return for closing, and a
-- new one is refused.
pub revoke_lem :
    (s : String) (t now : ℕ) (g : Gateway) (es : List Event)
    → All (Within t) es
    → t ≤ now
    → now ≤ t + ten_minutes
    → All
        (λ id. exists (eqb id) (revoke s t g).1 ≡ true)
        (connections s (handle_all es (revoke s t g).0))
      × ((track s now (handle_all es (revoke s t g).0)).1 ≡ err not_found)
unfolding Cut revoke track connections
revoke_lem s t now g es w late near =
    let begun : Cut s t (revoke s t g).1 (revoke s t g).0 = (
      (t, lookup-insert_self s t (prune_revoked t g).revoked, omega arith),
      All-self (connections s (prune_revoked t g)),
    ) in
    let kept = Cut-handle_all s t (revoke s t g).1 es (revoke s t g).0 w begun in
    let ((u, e, le), ids) =
      Cut-prune s t now (revoke s t g).1 (handle_all es (revoke s t g).0) near kept in
    (kept.1, rw e refl)
