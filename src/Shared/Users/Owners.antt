-- ===== src/Shared/Users/Owners.antt =====
-- Which tenant owns the credentials in use, for tenants whose ids have no dot.
use node_agent.Prelude.{
  String, ◌≡◌, ◌≢◌, inl, inr, true, arith, ◌==◌, Bool-cases, if◌then◌else◌, In, contains,
}
use node_agent.Prelude.Dict.{Dict, insert, lookup-insert}
use node_agent.Common.{User}
use node_agent.Shared.{Manager, user_credentials, users_of}
use node_agent.Shared.Names.{HasNoDot}
use node_agent.Shared.Users.Records.{Unused}
use node_agent.Shared.Users.Credentials.{owned, is_free, Carries, owned_apart}

module _ {S K : Type 0} where
  -- Every credential of a user leads to a name of the user's tenant, for the tenants whose ids have
  -- no dot; of the others it says nothing.
  abbrev pub AreOwned : Manager S K → Type 0
  AreOwned m =
      (tenant_id email : String) (u : User) (cred : String)
      → HasNoDot tenant_id
      → In (email, u) (users_of tenant_id m)
      → Carries u cred
      → owned tenant_id cred m.creds ≡ true

  pub users_of-insert :
      (tenant_id k : String) (us : Dict User) (m : Manager S K)
      → users_of k (record m { users = insert tenant_id us m.users })
        ≡ (if tenant_id == k then us else users_of k m)
  users_of-insert tenant_id k us m = ground (arith, lookup-insert tenant_id k us m.users)

  -- A credential of another tenant is none of the tenant's own, nor one that passed the checks.
  pub foreign-Unused :
      (tenant_id other cred : String) (us : Dict User) (m : Manager S K)
      → HasNoDot tenant_id
      → HasNoDot other
      → other ≢ tenant_id
      → owned other cred m.creds ≡ true
      → ((email : String) (u : User)
          → In (email, u) us
          → Carries u cred
          → is_free tenant_id cred m.creds ≡ true)
      → Unused cred us
  foreign-Unused tenant_id other cred us m d d' differ own free email u i =
      elim (Bool-cases (contains (user_credentials u) cred)) [
        | inr n ↦ n
        | inl y ↦
            absurd (differ (owned_apart other tenant_id cred m.creds d' d own (free email u i y)))
      ]

  -- The state with the records of one tenant replaced.
  abbrev pub with_users : String → Dict User → Manager S K → Manager S K
  with_users tenant_id us m = record m { users = insert tenant_id us m.users }
