-- ===== src/Shared/Users.antt =====
-- shared/manager.go, lines 319 to 421: SetTenantUsers and AddTenantUsers.
pub mod Credentials
pub mod Owners
pub mod Merging
pub mod Isolation
pub mod Secrets
pub mod Records
pub mod Frame
use text.Mathlib.Text.{starts_with}
use node_agent.Prelude.{
  String, Bool, true, false, Option, none, some, List, [], ◌∷◌, ◌==◌, if◌then◌else◌, Result, ok,
  err, ◌&&◌, not,
}
use node_agent.Prelude.Dict.{Dict, lookup, insert, delete, has_key}
use node_agent.Common.{User}
use node_agent.Tenant.{not_found, Tenant}
use node_agent.Tenant.Registry.{get, is_active}
use node_agent.Shared.{
  Core, Manager, Failure, registry, duplicate_credential, credential_in_use, sync_failed, Answer,
  prefix, namespaced_email, user_credentials, users_of, build_user, sync_to_core, remove_from_core,
}

-- creds[cred] = email, and delete(creds, cred), for every credential of a list.
unfoldable pub own_all : List String → String → Dict String → Dict String
own_all [] email creds = creds
own_all (cred ∷ more) email creds = own_all more email (insert cred email creds)

unfoldable pub disown_all : List String → Dict String → Dict String
disown_all [] creds = creds
disown_all (cred ∷ more) creds = disown_all more (delete cred creds)

-- The checks of SetTenantUsers on the credentials of one user; the batch grows.
unfoldable pub check_user :
    String → Dict String → String → List String → Dict String → Result Failure (Dict String)
check_user tenant_id creds email [] batch = ok batch
check_user tenant_id creds email (cred ∷ more) batch =
    let later = check_user tenant_id creds email more (insert cred email batch) in
    let unowned : Result Failure (Dict String) = elim (lookup cred creds) [
      | none ↦ later
      | some owner ↦ if starts_with owner (prefix tenant_id) then later else err credential_in_use
    ] in
    elim (lookup cred batch) [
      | none ↦ unowned
      | some other ↦
          if not (other == email) then err (duplicate_credential email other) else unowned
    ]

unfoldable pub check_batch :
    String → Dict String → Dict User → Dict String → Result Failure (Dict String)
unfolding check_user
check_batch tenant_id creds [] batch = ok batch
check_batch tenant_id creds ((email, u) ∷ us) batch =
    elim (check_user tenant_id creds email (user_credentials u) batch) [
      | err e ↦ err e
      | ok batch' ↦ check_batch tenant_id creds us batch'
    ]

-- The check of AddTenantUsers on the credentials of one user.
unfoldable pub is_taken : String → Dict String → String → List String → Bool
is_taken tenant_id creds email [] = false
is_taken tenant_id creds email (cred ∷ more) =
    let later = is_taken tenant_id creds email more in
    elim (lookup cred creds) [
      | none ↦ later
      | some owner ↦
          if not (owner == email) && not (starts_with owner (prefix tenant_id)) then true else later
    ]

abbrev pub tenant_is_active : Tenant → Bool
tenant_is_active t = is_active t.status

module _ {S K : Type 0} where
  -- What the manager forgets of a user that goes.
  unfoldable pub forget_user : String → User → Manager S K → Manager S K
  unfolding disown_all
  forget_user email u m = record m {
    email_to = delete email m.email_to;
    last_seen = delete email m.last_seen;
    creds = disown_all (user_credentials u) m.creds;
  }

  -- The loop that indexes the users of the request by their new emails.
  unfoldable pub new_set : String → List User → Manager S K → Dict User → Dict User
  new_set tenant_id [] m result = result
  new_set tenant_id (u ∷ us) m result =
      new_set tenant_id us m
        (insert (namespaced_email tenant_id u.email) (build_user tenant_id u m) result)

  -- The owner of an email and of its credentials.
  unfoldable pub own_user : String → String → User → Manager S K → Manager S K
  unfolding own_all
  own_user tenant_id email u m = record m {
    email_to = insert email tenant_id m.email_to;
    creds = own_all (user_credentials u) email m.creds;
  }

  unfoldable pub store_user : String → User → Manager S K → Manager S K
  unfolding own_user
  store_user tenant_id u m =
      own_user tenant_id u.email u
        (record m { users = insert tenant_id (insert u.email u (users_of tenant_id m)) m.users })

  module _ (c : Core K) where
    unfoldable pub remove_absent : Dict User → Dict User → Manager S K → Manager S K
    unfolding forget_user remove_from_core
    remove_absent [] kept m = m
    remove_absent ((email, u) ∷ us) kept m =
        let gone = forget_user email u (remove_from_core c u m) in
        remove_absent us kept (if has_key email kept then m else gone)

    -- The end of the body of either loop over users: the core is told if the tenant is active.
    unfoldable pub sync_if_active : Bool → User → Manager S K → Answer × Manager S K
    unfolding sync_to_core
    sync_if_active active u m =
        let (reply, m') = sync_to_core c u m in
        if active
        then (elim reply [ ok _ ↦ ok tt | err e ↦ err (sync_failed u.email e) ], m')
        else (ok tt, m)

    unfoldable pub refresh : String → Bool → Dict User → Manager S K → Answer × Manager S K
    unfolding own_user sync_if_active
    refresh tenant_id active [] m = (ok tt, m)
    refresh tenant_id active ((email, u) ∷ us) m =
        let (reply, m') = sync_if_active active u (own_user tenant_id email u m) in
        elim reply [ err e ↦ (err e, m') | ok _ ↦ refresh tenant_id active us m' ]

    unfoldable pub set_tenant_users : String → List User → Manager S K → Answer × Manager S K
    unfolding new_set check_batch remove_absent refresh
    set_tenant_users tenant_id users m = elim (get tenant_id m.reg) [
      | none ↦ (err (registry not_found), m)
      | some t ↦
          let set = new_set tenant_id users m [] in
          elim (check_batch tenant_id m.creds set []) [
            | err e ↦ (err e, m)
            | ok _ ↦
                let (reply, m') =
                  refresh tenant_id (tenant_is_active t) set
                    (remove_absent (users_of tenant_id m) set m) in
                elim reply [
                  | err e ↦ (err e, m')
                  | ok _ ↦ (ok tt, record m' { users = insert tenant_id set m'.users })
                ]
          ]
    ]

    unfoldable pub add_loop : String → Bool → List User → Manager S K → Answer × Manager S K
    unfolding is_taken store_user sync_if_active
    add_loop tenant_id active [] m = (ok tt, m)
    add_loop tenant_id active (u ∷ us) m =
        let nu = build_user tenant_id u m in
        let (reply, m') = sync_if_active active nu (store_user tenant_id nu m) in
        let rest : Answer × Manager S K = elim reply [
          | err e ↦ (err e, m')
          | ok _ ↦ add_loop tenant_id active us m'
        ] in
        if is_taken tenant_id m.creds nu.email (user_credentials nu)
        then (err credential_in_use, m)
        else rest

    unfoldable pub add_tenant_users : String → List User → Manager S K → Answer × Manager S K
    unfolding add_loop
    add_tenant_users tenant_id users m = elim (get tenant_id m.reg) [
      | none ↦ (err (registry not_found), m)
      | some t ↦
          add_loop tenant_id (tenant_is_active t) users
            (record m { users = insert tenant_id (users_of tenant_id m) m.users })
    ]
