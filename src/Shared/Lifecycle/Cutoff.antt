-- ===== src/Shared/Lifecycle/Cutoff.antt =====
-- Suspending a tenant cuts its users off the core and keeps their records.
use node_agent.Prelude.{
  String, ◌≡◌, ◌≢◌, inl, inr, refl, sym, ◌∙◌, subst, Bool, false, some, [], ◌∷◌, arith, ◌==◌,
  eq_iff, eq_refl, Option-cases, Result-cases, if◌then◌else◌, ok, In,
}
use node_agent.Prelude.Dict.{Dict}
use node_agent.Common.{User}
use node_agent.Tenant.{Reason}
use node_agent.Tenant.Store.{Store}
use node_agent.Tenant.Registry.{suspend}
use node_agent.Shared.{Core, Manager, with_inbounds, users_of, remove_from_core}
use node_agent.Shared.Lifecycle.{remove_loop, remove_tenant_from_core, suspend_tenant}

-- A view of a core: whom it is set to serve, where an update of a user without inbounds ends that.
-- Xray/Removal.antt shows it of an Xray core, whose configuration decides.
pub record IsCore {K : Type 0} (c : Core K) : Type 0 where
  pub serves : K → String → Bool
  pub removes :
      (u : User) (k : K) (email : String)
      → (c.update_users (with_inbounds u [] ∷ []) k).0 ≡ ok tt
      → serves (c.update_users (with_inbounds u [] ∷ []) k).1 email
        ≡ (if u.email == email then false else serves k email)

module _ {K : Type 0} {c : Core K} (law : IsCore c) where
  -- No user of the list is served, and nobody else is affected.
  pub record CutOff (us : Dict User) (k k' : K) : Type 0 where
    pub gone : (email : String) (u : User) → In (email, u) us → law.serves k' u.email ≡ false
    pub others : (e : String) → law.serves k e ≡ false → law.serves k' e ≡ false
    pub kept :
        (e : String)
        → ((email : String) (u : User) → In (email, u) us → u.email ≢ e)
        → law.serves k' e ≡ law.serves k e

module _ {S K : Type 0} where
  -- The same records, with another core.
  pub record SameRecords (m m' : Manager S K) : Type 0 where
    pub reg : m'.reg ≡ m.reg
    pub users : m'.users ≡ m.users
    pub email_to : m'.email_to ≡ m.email_to
    pub creds : m'.creds ≡ m.creds
    pub last_seen : m'.last_seen ≡ m.last_seen

  pub same_records :
      (m m1 m2 : Manager S K) → SameRecords m m1 → SameRecords m1 m2 → SameRecords m m2
  same_records m m1 m2 a b = record {
    reg = b.reg ∙ a.reg;
    users = b.users ∙ a.users;
    email_to = b.email_to ∙ a.email_to;
    creds = b.creds ∙ a.creds;
    last_seen = b.last_seen ∙ a.last_seen;
  }

  pub all_same : (m : Manager S K) → SameRecords m m
  all_same m = record { reg = refl; users = refl; email_to = refl; creds = refl; last_seen = refl }

  module _ (c : Core K) where
    remove_from_core-SameRecords :
        (u : User) (m : Manager S K) → SameRecords m (remove_from_core c u m)
    unfolding remove_from_core
    remove_from_core-SameRecords u m = record {
      reg = ground (arith, Option-cases m.core);
      users = ground (arith, Option-cases m.core);
      email_to = ground (arith, Option-cases m.core);
      creds = ground (arith, Option-cases m.core);
      last_seen = ground (arith, Option-cases m.core);
    }

    remove_loop-SameRecords :
        (us : Dict User) (m : Manager S K) → SameRecords m (remove_loop c us m)
    unfolding remove_loop
    remove_loop-SameRecords [] m = all_same m
    remove_loop-SameRecords ((email, u) ∷ us) m =
        same_records m (remove_from_core c u m) _ (remove_from_core-SameRecords u m)
          (remove_loop-SameRecords us (remove_from_core c u m))

    pub remove_tenant_from_core-SameRecords :
        (tenant_id : String) (m : Manager S K)
        → SameRecords m (remove_tenant_from_core c tenant_id m)
    unfolding remove_tenant_from_core
    remove_tenant_from_core-SameRecords tenant_id m =
        let r = remove_loop-SameRecords (users_of tenant_id m) m in
        record {
          reg = ground (arith, Option-cases m.core, r.reg);
          users = ground (arith, Option-cases m.core, r.users);
          email_to = ground (arith, Option-cases m.core, r.email_to);
          creds = ground (arith, Option-cases m.core, r.creds);
          last_seen = ground (arith, Option-cases m.core, r.last_seen);
        }

    module _ (law : IsCore c) where
      remove_loop-CutOff :
          (us : Dict User) (m : Manager S K) (k : K)
          → m.core ≡ some k
          → ((u : User) (k : K) → (c.update_users (with_inbounds u [] ∷ []) k).0 ≡ ok tt)
          → (k' : K) × ((remove_loop c us m).core ≡ some k') × CutOff law us k k'
      unfolding remove_loop remove_from_core
      remove_loop-CutOff [] m k e works =
          (k, e, record { gone = λ f u i. elim i [ ]; others = λ f h. h; kept = λ f h. refl })
      remove_loop-CutOff ((email, u) ∷ us) m k e works =
          let k1 = (c.update_users (with_inbounds u [] ∷ []) k).1 in
          let now : (remove_from_core c u m).core ≡ some k1 = rw (e, remove_from_core) refl in
          let (k', e', rest) = remove_loop-CutOff us (remove_from_core c u m) k1 now works in
          let removed = law.removes u k in
          (
            k',
            e',
            record {
              gone = λ f v i. elim i [
                | inl s ↦
                    subst (λ p. law.serves k' p.1.email ≡ false) (sym s)
                      (rest.others u.email
                        (ground (arith, removed u.email (works u k), eq_refl u.email)))
                | inr j ↦ rest.gone f v j
              ];
              others = λ f h. rest.others f (ground (arith, removed f (works u k), h));
              kept = λ f h.
                  rest.kept f (λ g v j. h g v (inr j))
                  ∙ ground (arith, removed f (works u k), h email u (inl refl), eq_iff u.email f);
            },
          )

      -- Suspending a tenant takes each of its users off the core, serves nobody else any less or more,
      -- and keeps every record of the manager but the registry's. Conditions: the core is up and
      -- accepts removals, and the registry accepts the suspension.
      pub suspend_tenant-CutOff :
          (st : Store S) (tenant_id : String) (reason : Reason) (m : Manager S K) (k : K)
          → m.core ≡ some k
          → ((u : User) (k : K) → (c.update_users (with_inbounds u [] ∷ []) k).0 ≡ ok tt)
          → (suspend_tenant c st tenant_id reason m).0 ≡ ok tt
          → let m' = (suspend_tenant c st tenant_id reason m).1 in
            (k' : K) × (m'.core ≡ some k')
            × CutOff law (users_of tenant_id m) k k'
            × (m'.users ≡ m.users)
            × (m'.email_to ≡ m.email_to)
            × (m'.creds ≡ m.creds)
            × (m'.last_seen ≡ m.last_seen)
      unfolding suspend_tenant remove_tenant_from_core
      suspend_tenant-CutOff st tenant_id reason m k up works done =
          let (reply, reg) = suspend st tenant_id reason m.reg in
          let m1 : Manager S K = record m { reg = reg } in
          let (k', e, cut) = remove_loop-CutOff (users_of tenant_id m) m1 k up works in
          let same = remove_loop-SameRecords (users_of tenant_id m) m1 in
          let replied = Result-cases (suspend st tenant_id reason m.reg).0 in
          (
            k',
            ground (arith, e, up, replied, done),
            cut,
            ground (arith, up, same.users, replied, done),
            ground (arith, up, same.email_to, replied, done),
            ground (arith, up, same.creds, replied, done),
            ground (arith, up, same.last_seen, replied, done),
          )
