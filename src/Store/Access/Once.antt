-- ===== src/Store/Access/Once.antt =====
-- A grant is exchanged once.
use device_management_platfo.Base.{
  ℕ, ◌≡◌, refl, sym, ◌∙◌, if_both, String, Bool, true, false, List, [], ◌∷◌, arith, ◌==◌, All,
  All-update, All-map, exists, exists-update, update, count, count_missed, if◌then◌else◌, inl, inr,
  ok, err, eq_iff, Bool-cases, eqb, is_none,
}
use device_management_platfo.Store.{Db, AccessSession, TextOrder, AuditInput, not_found}
use device_management_platfo.Store.Access.{
  EndpointRoute, close_session, create_access_session, CreateAccessSessionInput, new_session,
}
use device_management_platfo.Store.Access.Grants.{
  see_session, mark_exchanged, exchange_access_grant, exchangeable,
}
use device_management_platfo.Store.Access.Final.{
  Reach, here, next, IsStable, step-stable, resolve-stable, create_cases,
}

-- A row with the token is there, and every such row has had its grant exchanged.
abbrev IsSpent : String → List AccessSession → Type 0
IsSpent token_hash rows =
    All (λ s. s.token_hash ≡ token_hash → is_none s.grant_exchanged_at ≡ false) rows
    × (exists (λ s. s.token_hash == token_hash) rows ≡ true)

IsSpent-stable : (token_hash : String) → IsStable (IsSpent token_hash)
unfolding see_session mark_exchanged close_session
IsSpent-stable token_hash = record {
  sees = λ p now rows h.
      (All-update _ p _ (λ s _ c e. c e) rows h.0, exists-update _ p _ (λ s. refl) rows ∙ h.1);
  marks = λ p now rows h.
      (All-update _ p _ (λ s _ c e. refl) rows h.0, exists-update _ p _ (λ s. refl) rows ∙ h.1);
  closes_revoked = λ p now rows h.
      (All-update _ p _ (λ s _ c e. c e) rows h.0, exists-update _ p _ (λ s. refl) rows ∙ h.1);
  closes_expired = λ p now rows h.
      (All-update _ p _ (λ s _ c e. c e) rows h.0, exists-update _ p _ (λ s. refl) rows ∙ h.1);
}

create-IsSpent :
    (token_hash session_id audit_id : String) (now : ℕ) (input : CreateAccessSessionInput)
    (audit : AuditInput) (db : Db)
    → IsSpent token_hash db.access_sessions
    → IsSpent token_hash
        (create_access_session session_id audit_id now input audit db).0.access_sessions
unfolding new_session exists
create-IsSpent token_hash session_id audit_id now input audit db h =
    elim (create_cases session_id audit_id now input audit db) [
      | inl same ↦ rw same h
      | inr (added, fresh, _) ↦ rw added (((λ e. absurd (clash e fresh)), h.0), ground (arith, h.1))
    ]
  where
    clash :
        input.token_hash ≡ token_hash
        → exists (λ s. s.token_hash == input.token_hash) db.access_sessions ≡ false
        → ⊥
    clash e fresh =
        let there : exists (λ s. s.token_hash == input.token_hash) db.access_sessions ≡ true =
          rw e h.1 in
        cc

-- UNIQUE(token_hash).
abbrev pub HasUniqueTokens : List AccessSession → Type 0
HasUniqueTokens [] = Unit
HasUniqueTokens (s ∷ rows) =
    (exists (λ r. r.token_hash == s.token_hash) rows ≡ false) × HasUniqueTokens rows

module _ (later : TextOrder) (db : Db) (token_hash grant_hash : String) (now cutoff : ℕ) where
  hit : AccessSession → Bool
  hit = exchangeable later db token_hash grant_hash now cutoff

  hit_token : (s : AccessSession) → hit s ≡ true → s.token_hash ≡ token_hash
  unfolding hit exchangeable
  hit_token s e = ground (arith, eq_iff s.token_hash token_hash)

  -- A row after the UPDATE.
  row : AccessSession → AccessSession
  row s = if hit s then mark_exchanged now s else s

  row_token : (s : AccessSession) → (row s).token_hash ≡ s.token_hash
  unfolding row mark_exchanged
  row_token s = if_both (λ (r : AccessSession). r.token_hash ≡ s.token_hash) (hit s) refl refl

  -- With the token elsewhere in the table every row of `rows` has another one.
  other_tokens :
      (rows : List AccessSession)
      → exists (λ s. s.token_hash == token_hash) rows ≡ false
      → All
          (λ s. s.token_hash ≡ token_hash → is_none s.grant_exchanged_at ≡ false)
          (update hit (mark_exchanged now) rows)
  unfolding exists update row
  other_tokens [] e = tt
  other_tokens (s ∷ rows) e =
      (λ t. absurd (clash (sym (row_token s) ∙ t)), other_tokens rows (ground arith))
    where
      clash : s.token_hash ≡ token_hash → ⊥
      clash t = ground (arith, eq_iff s.token_hash token_hash)

  exchanged-IsSpent :
      (rows : List AccessSession)
      → HasUniqueTokens rows
      → count hit rows ≡ 1
      → IsSpent token_hash (update hit (mark_exchanged now) rows)
  unfolding count update exists row
  exchanged-IsSpent [] u e = absurd (omega arith)
  exchanged-IsSpent (s ∷ rows) (fresh, u) e = elim (Bool-cases (hit s)) [
    | inl taken ↦
        let t = hit_token s taken in
        (
          (λ _. marked taken, other_tokens rows (rw t at fresh)),
          ground (arith, row_token s, eq_iff (row s).token_hash token_hash),
        )
    | inr passed ↦
        let rest = exchanged-IsSpent rows u (ground arith) in
        ((λ t. absurd (clash (sym (row_token s) ∙ t) rest.1), rest.0), ground (arith, rest.1))
  ]
    where
      marked : hit s ≡ true → is_none (row s).grant_exchanged_at ≡ false
      marked taken = rw taken (unfold mark_exchanged in refl)

      clash :
          s.token_hash ≡ token_hash
          → exists (λ r. r.token_hash == token_hash) (update hit (mark_exchanged now) rows) ≡ true
          → ⊥
      clash t there =
          let here_ =
            exists-update (λ r. r.token_hash == token_hash) hit (mark_exchanged now)
              (unfold mark_exchanged in λ r. refl) rows in
          let fresh' : exists (λ r. r.token_hash == token_hash) rows ≡ false = rw t at fresh in cc

  -- No row of a spent token can be exchanged.
  spent_missed :
      (s : AccessSession)
      → (s.token_hash ≡ token_hash → is_none s.grant_exchanged_at ≡ false)
      → hit s ≡ false
  unfolding hit exchangeable
  spent_missed s h = ground (arith, h, eq_iff s.token_hash token_hash)

  exchange_spent :
      (then_ : ℕ)
      → IsSpent token_hash db.access_sessions
      → (exchange_access_grant later token_hash grant_hash now then_ cutoff db).1 ≡ err not_found
  unfolding exchange_access_grant hit
  exchange_spent then_ h =
      rw (count_missed hit db.access_sessions (All-map _ _ spent_missed db.access_sessions h.0))

  exchange_spends :
      (then_ : ℕ) (r : AccessSession × EndpointRoute)
      → HasUniqueTokens db.access_sessions
      → (exchange_access_grant later token_hash grant_hash now then_ cutoff db).1 ≡ ok r
      → IsSpent token_hash
          (exchange_access_grant later token_hash grant_hash now then_ cutoff db).0.access_sessions
  unfolding exchange_access_grant hit
  exchange_spends then_ r u e = elim (Bool-cases (eqb (count hit db.access_sessions) 1)) [
    | inl one ↦ rw one (
        resolve-stable later (IsSpent token_hash) (IsSpent-stable token_hash) token_hash grant_hash
          then_ cutoff _ (exchanged-IsSpent db.access_sessions u (ground arith)))
    | inr other ↦ absurd (failed other)
  ]
    where
      failed : eqb (count hit db.access_sessions) 1 ≡ false → ⊥
      failed other = ground arith

Reach-IsSpent :
    (later : TextOrder) (token_hash : String) {db db' : Db}
    → Reach later db db'
    → IsSpent token_hash db.access_sessions
    → IsSpent token_hash db'.access_sessions
Reach-IsSpent later token_hash here h = h
Reach-IsSpent later token_hash (next r step) h =
    step-stable later (IsSpent token_hash) (IsSpent-stable token_hash) (create-IsSpent token_hash)
      step (Reach-IsSpent later token_hash r h)

-- Where tokens are unique, as the table's constraint has it: once the grant of a token is exchanged,
-- then whatever operations on access sessions follow, every further exchange for that token, with
-- the same grant or another and at any times, is refused as not found.
pub exchanged_once :
    (later : TextOrder) (db : Db) (token_hash grant_hash : String) (now then_ cutoff : ℕ)
    (r : AccessSession × EndpointRoute) (db' : Db) (grant_hash' : String) (now' then_' cutoff' : ℕ)
    → HasUniqueTokens db.access_sessions
    → (exchange_access_grant later token_hash grant_hash now then_ cutoff db).1 ≡ ok r
    → Reach later (exchange_access_grant later token_hash grant_hash now then_ cutoff db).0 db'
    → (exchange_access_grant later token_hash grant_hash' now' then_' cutoff' db').1 ≡ err not_found
exchanged_once later db token_hash grant_hash now then_ cutoff r db' grant_hash' now' then_' cutoff'
      u e reach =
    exchange_spent later db' token_hash grant_hash' now' cutoff' then_' (
      Reach-IsSpent later token_hash reach
        (exchange_spends later db token_hash grant_hash now cutoff then_ r u e))
