-- ===== src/Adapter/Patches.antt =====
-- adapter.go, UpdateClient: the edit form of a node replaces a client, and the patch leaves the rest.
use device_management_platfo.Base.{
  ◌≡◌, refl, String, Option, none, some, List, [], ◌∷◌, lookup, All,
}
use device_management_platfo.Adapter.{NodeAdapter, RawClient}
use device_management_platfo.Adapter.Clients.{
  ClientUpdate, or_default, bool_form, patched, complete_client_form,
}

-- The text of a patch, where there is one.
abbrev written {ℓ} : {A : Type ℓ} → (A → String) → Option A → Option String
written f none = none
written f (some a) = some (f a)

module _ {S : Type 0} (o : NodeAdapter S) where
  -- The field of the form that each part of a patch is for.
  abbrev patches : ClientUpdate → List (String × Option String)
  patches u =
      ("id", none)
      ∷ ("remark", u.remark)
      ∷ ("vkey", u.verify_key)
      ∷ ("rate_limit", written o.itoa u.rate_limit)
      ∷ ("max_conn", written o.itoa u.max_conn)
      ∷ ("max_tunnel", written o.itoa u.max_tunnel)
      ∷ ("web_username", u.web_username)
      ∷ ("web_password", u.web_password)
      ∷ ("config_conn_allow", written bool_form u.config_conn_allow)
      ∷ ("u", u.basic_username)
      ∷ ("p", u.basic_password)
      ∷ ("compress", written bool_form u.compress)
      ∷ ("crypt", written bool_form u.crypt)
      ∷ ("flow_limit", written o.itoa u.flow_limit)
      ∷ []

  abbrev field_of : String → RawClient → String
  field_of key c = or_default "" (lookup key (complete_client_form o c))

  written-or_default :
      {A : Type 0} (f : A → String) (a : A) (patch : Option A)
      → some (f (or_default a patch)) ≡ some (or_default (f a) (written f patch))
  written-or_default f a none = refl
  written-or_default f a (some b) = refl

  -- In the form that UpdateClient sends, every field is that of the patch or, where the patch has none,
  -- that of the client that the node returned.
  patched_fields :
      (u : ClientUpdate) (c : RawClient)
      → All
          (λ part.
            lookup part.0 (complete_client_form o (patched u c))
            ≡ some (or_default (field_of part.0 c) part.1))
          (patches u)
  unfolding complete_client_form patched lookup
  patched_fields u c = (
    refl,
    (
      refl,
      (
        refl,
        (
          written-or_default o.itoa _ u.rate_limit,
          (
            written-or_default o.itoa _ u.max_conn,
            (
              written-or_default o.itoa _ u.max_tunnel,
              (
                refl,
                (
                  refl,
                  (
                    written-or_default bool_form _ u.config_conn_allow,
                    (
                      refl,
                      (
                        refl,
                        (
                          written-or_default bool_form _ u.compress,
                          (
                            written-or_default bool_form _ u.crypt,
                            (written-or_default o.itoa _ u.flow_limit, tt),
                          ),
                        ),
                      ),
                    ),
                  ),
                ),
              ),
            ),
          ),
        ),
      ),
    ),
  )
