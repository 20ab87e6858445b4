-- ===== src/Shared/Users/Records.antt =====
-- What the loops of SetTenantUsers and AddTenantUsers do to the records of the manager.
use text.Mathlib.Text.{starts_with}
use text.Mathlib.TextPositions.{starts_with-append}
use node_agent.Prelude.{
  String, ◌≡◌, ◌⊎◌, inl, inr, refl, sym, ap, ◌∙◌, subst, Bool, true, false, none, List, [], ◌∷◌,
  arith, ◌==◌, Option-cases, Bool-cases, Result-cases, if◌then◌else◌, not, ◌&&◌, ok, In, contains,
}
use node_agent.Prelude.Dict.{Dict, lookup, insert, has_key}
use node_agent.Common.{User}
use node_agent.Shared.{
  Core, Manager, prefix, namespaced_email, user_credentials, build_user, sync_to_core,
  remove_from_core,
}
use node_agent.Shared.Users.{forget_user, new_set, own_user, remove_absent, sync_if_active, refresh}
use node_agent.Shared.Users.Credentials.{owned, Carries, lookup-own_all, lookup-disown_all}

-- An entry of a map, wherever it stands.
pub In-insert :
    {V : Type 0} (k : String) (v : V) (m : Dict V) (x : String × V)
    → In x (insert k v m)
    → (x ≡ (k, v)) ⊎ In x m
unfolding insert
In-insert k v [] x i = i
In-insert k v ((j, w) ∷ m) x i = elim (Bool-cases (j == k)) [
  | inl y ↦
      let i' : (x ≡ (k, v)) ⊎ In x m =
        subst (λ b. In x (if b then (k, v) ∷ m else (j, w) ∷ insert k v m)) y i in
      elim i' [ inl e ↦ inl e | inr l ↦ inr (inr l) ]
  | inr n ↦
      let i' : (x ≡ (j, w)) ⊎ In x (insert k v m) =
        subst (λ b. In x (if b then (k, v) ∷ m else (j, w) ∷ insert k v m)) n i in
      elim i' [
        | inl e ↦ inr (inl e)
        | inr l ↦ elim (In-insert k v m x l) [ inl e ↦ inl e | inr t ↦ inr (inr t) ]
      ]
]

-- No user of the list has the credential.
abbrev pub Unused : String → Dict User → Type 0
Unused cred us =
    (email : String) (u : User) → In (email, u) us → contains (user_credentials u) cred ≡ false

-- Every name of the map is one of the tenant.
abbrev pub AreNamed : String → Dict User → Type 0
AreNamed tenant_id us =
    (email : String) (u : User) → In (email, u) us → starts_with email (prefix tenant_id) ≡ true

module _ {S K : Type 0} where
  pub new_set-AreNamed :
      (tenant_id : String) (us : List User) (m : Manager S K) (set : Dict User)
      → AreNamed tenant_id set
      → AreNamed tenant_id (new_set tenant_id us m set)
  unfolding new_set
  new_set-AreNamed tenant_id [] m set h = h
  new_set-AreNamed tenant_id (w ∷ us) m set h =
      new_set-AreNamed tenant_id us m
        (insert (namespaced_email tenant_id w.email) (build_user tenant_id w m) set)
        (λ f v j. elim (In-insert _ _ set (f, v) j) [
          | inl e ↦
              subst (λ x. starts_with x (prefix tenant_id) ≡ true) (sym (ap (λ p. p.0) e))
                (starts_with-append (prefix tenant_id) w.email)
          | inr k ↦ h f v k
        ])

  pub own_user-unused :
      (tenant_id email : String) (u : User) (m : Manager S K) (cred : String)
      → contains (user_credentials u) cred ≡ false
      → lookup cred (own_user tenant_id email u m).creds ≡ lookup cred m.creds
  unfolding own_user
  own_user-unused tenant_id email u m cred no_use =
      ground (arith, no_use, lookup-own_all (user_credentials u) email m.creds cred)

  pub own_user-owned :
      (tenant_id email : String) (u : User) (m : Manager S K) (cred : String)
      → starts_with email (prefix tenant_id) ≡ true
      → Carries u cred ⊎ (owned tenant_id cred m.creds ≡ true)
      → owned tenant_id cred (own_user tenant_id email u m).creds ≡ true
  unfolding own_user
  own_user-owned tenant_id email u m cred name has =
      ground (arith, has, name, lookup-own_all (user_credentials u) email m.creds cred)

  module _ (c : Core K) where
    remove_absent_one :
        (email : String) (u : User) (kept : Dict User) (m : Manager S K)
        → let m' = if has_key email kept then m else forget_user email u (remove_from_core c u m) in
          (m'.users ≡ m.users)
          × ((cred : String)
              → lookup cred m'.creds ≡ (
                  if not (has_key email kept) && contains (user_credentials u) cred
                  then none
                  else lookup cred m.creds))
    unfolding forget_user remove_from_core
    remove_absent_one email u kept m = (
      ground (arith, Option-cases m.core),
      λ cred.
          ground (arith, Option-cases m.core, lookup-disown_all (user_credentials u) m.creds cred),
    )

    pub remove_absent-users :
        (us kept : Dict User) (m : Manager S K) → (remove_absent c us kept m).users ≡ m.users
    unfolding remove_absent
    remove_absent-users [] kept m = refl
    remove_absent-users ((email, u) ∷ us) kept m =
        remove_absent-users us kept _ ∙ (remove_absent_one email u kept m).0

    pub remove_absent-Unused :
        (us kept : Dict User) (m : Manager S K) (cred : String)
        → Unused cred us
        → lookup cred (remove_absent c us kept m).creds ≡ lookup cred m.creds
    unfolding remove_absent
    remove_absent-Unused [] kept m cred no_use = refl
    remove_absent-Unused ((email, u) ∷ us) kept m cred no_use =
        remove_absent-Unused us kept _ cred (λ f v i. no_use f v (inr i))
        ∙ ground (arith, (remove_absent_one email u kept m).1 cred, no_use email u (inl refl))

    -- The calls on the core leave the records of the manager alone.
    pub sync_if_active_lem :
        (active : Bool) (u : User) (m : Manager S K)
        → ((sync_if_active c active u m).1.users ≡ m.users)
          × ((sync_if_active c active u m).1.creds ≡ m.creds)
    unfolding sync_if_active sync_to_core
    sync_if_active_lem active u m = ground (arith, Option-cases m.core)

    -- The state after one user of the loop of SetTenantUsers.
    abbrev refreshed : String → Bool → String → User → Manager S K → Manager S K
    refreshed tenant_id active email u m =
        (sync_if_active c active u (own_user tenant_id email u m)).1

    refreshed_lem :
        (tenant_id : String) (active : Bool) (email : String) (u : User) (m : Manager S K)
        → ((refreshed tenant_id active email u m).users ≡ m.users)
          × ((refreshed tenant_id active email u m).creds ≡ (own_user tenant_id email u m).creds)
    unfolding own_user
    refreshed_lem tenant_id active email u m =
        sync_if_active_lem active u (own_user tenant_id email u m)

    pub refresh-Unused :
        (tenant_id : String) (active : Bool) (us : Dict User) (m : Manager S K) (cred : String)
        → Unused cred us
        → lookup cred (refresh c tenant_id active us m).1.creds ≡ lookup cred m.creds
    unfolding refresh
    refresh-Unused tenant_id active [] m cred no_use = refl
    refresh-Unused tenant_id active ((email, u) ∷ us) m cred no_use =
        let m' = refreshed tenant_id active email u m in
        let one : lookup cred m'.creds ≡ lookup cred m.creds =
          ap (lookup cred) (refreshed_lem tenant_id active email u m).1
          ∙ own_user-unused tenant_id email u m cred (no_use email u (inl refl)) in
        let rest = refresh-Unused tenant_id active us m' cred (λ f v i. no_use f v (inr i)) in
        ground (
          arith,
          one,
          rest,
          Result-cases (sync_if_active c active u (own_user tenant_id email u m)).0,
        )

    pub refresh-owned :
        (tenant_id : String) (active : Bool) (us : Dict User) (m : Manager S K) (cred : String)
        → AreNamed tenant_id us
        → owned tenant_id cred m.creds ≡ true
        → owned tenant_id cred (refresh c tenant_id active us m).1.creds ≡ true
    unfolding refresh
    refresh-owned tenant_id active [] m cred named own = own
    refresh-owned tenant_id active ((email, u) ∷ us) m cred named own =
        let m' = refreshed tenant_id active email u m in
        let one : owned tenant_id cred m'.creds ≡ true =
          subst (λ x. owned tenant_id cred x ≡ true)
            (sym (refreshed_lem tenant_id active email u m).1)
            (own_user-owned tenant_id email u m cred (named email u (inl refl)) (inr own)) in
        let rest = refresh-owned tenant_id active us m' cred (λ f v i. named f v (inr i)) one in
        ground (
          arith,
          one,
          rest,
          Result-cases (sync_if_active c active u (own_user tenant_id email u m)).0,
        )

    pub refresh-users :
        (tenant_id : String) (active : Bool) (us : Dict User) (m : Manager S K)
        → (refresh c tenant_id active us m).1.users ≡ m.users
    unfolding refresh
    refresh-users tenant_id active [] m = refl
    refresh-users tenant_id active ((email, u) ∷ us) m =
        let m' = refreshed tenant_id active email u m in
        ground (
          arith,
          (refreshed_lem tenant_id active email u m).0,
          refresh-users tenant_id active us m',
          Result-cases (sync_if_active c active u (own_user tenant_id email u m)).0,
        )

    -- A loop that comes to its end owns every credential of its users.
    pub refresh-Carries :
        (tenant_id : String) (active : Bool) (us : Dict User) (m : Manager S K) (email : String)
        (u : User) (cred : String)
        → AreNamed tenant_id us
        → (refresh c tenant_id active us m).0 ≡ ok tt
        → In (email, u) us
        → Carries u cred
        → owned tenant_id cred (refresh c tenant_id active us m).1.creds ≡ true
    unfolding refresh
    refresh-Carries tenant_id active [] m email u cred named done i has = elim i [ ]
    refresh-Carries tenant_id active ((f, v) ∷ us) m email u cred named done i has =
        let m' = refreshed tenant_id active f v m in
        let named' : AreNamed tenant_id us = λ g w j. named g w (inr j) in
        elim (Result-cases (sync_if_active c active v (own_user tenant_id f v m)).0) [
          | inr (x, e) ↦ ground (arith, e, done)
          | inl (x, e) ↦
              let done' : (refresh c tenant_id active us m').0 ≡ ok tt = ground (arith, e, done) in
              let rest : owned tenant_id cred (refresh c tenant_id active us m').1.creds ≡ true =
                elim i [
                  | inr j ↦ refresh-Carries tenant_id active us m' email u cred named' done' j has
                  | inl s ↦ refresh-owned tenant_id active us m' cred named' (
                      subst (λ y. owned tenant_id cred y ≡ true)
                        (sym (refreshed_lem tenant_id active f v m).1)
                        (own_user-owned tenant_id f v m cred (named f v (inl refl))
                          (inl (subst (λ p. Carries p.1 cred) s has))))
                ] in
              ground (arith, e, rest)
        ]
