-- ===== src/Xray/Removal.antt =====
-- backend/xray as the core of a Manager, and what a suspension does to its configuration.
use Prim.Native.String.{◌++◌ as ◌^◌}
use node_agent.Prelude.{
  String, ◌≡◌, ◌≢◌, refl, ap, inl, inr, Bool, false, Option, some, List, [], ◌∷◌, ◌==◌, ◌&&◌, ◌||◌,
  not, arith, Bool-cases, if◌then◌else◌, contains, Result, ok, err, In,
}
use node_agent.Prelude.Dict.{has_key, lookup-delete}
use node_agent.Common.{User}
use node_agent.Stats.{Stat}
use node_agent.Tenant.{Reason}
use node_agent.Tenant.Store.{Store}
use node_agent.Shared.{Core, Manager, with_inbounds, users_of}
use node_agent.Shared.Lifecycle.{suspend_tenant}
use node_agent.Shared.Lifecycle.Cutoff.{IsCore, suspend_tenant-CutOff}
use node_agent.Xray.{Codec, Inbound}
use node_agent.Xray.Inbounds.{Handler, inbound_update, tags_of, sync_user, update_users_live}

-- The lines of errMessage, and the error that is made of them.
abbrev lines : List String → String
lines [] = ""
lines (e ∷ es) = ("\n" ^ e) ^ lines es

abbrev outcome : String → List String → Result String (Unit {0})
outcome failed [] = ok tt
outcome failed (e ∷ es) = err (failed ^ lines (e ∷ es))

module _ {Uuid H : Type 0} (x : Codec Uuid) (api : Handler Uuid H) where
  abbrev pub Xray : Type 0
  Xray = List (Inbound Uuid) × H

  -- The backend as a core: SyncUser and UpdateUsers, with the start and the statistics of a process.
  abbrev pub xray_core :
      (String → Result String Xray) → (Xray → Option (List Stat) × Xray) → Core Xray
  xray_core start get_stats = record {
    start = start;
    sync_user = λ u k.
        let (errors, is', h') = sync_user x api u k.0 k.1 in
        (outcome "failed to add user:" errors, (is', h'));
    update_users = λ us k.
        let (errors, is', h') = update_users_live x api us k.0 k.1 in
        (outcome "failed to update users:" errors, (is', h'));
    get_stats = get_stats;
  }

  -- An inbound that is managed has a client of this email. Of inbounds with one tag the last is.
  unfoldable pub has_client : List (Inbound Uuid) → String → Bool
  has_client [] email = false
  has_client (i ∷ rest) email =
      (not (i.exclude || contains (tags_of x rest) i.tag) && has_key email i.clients)
      || has_client rest email

  removal-update :
      (u : User) (i : Inbound Uuid)
      → inbound_update x i (with_inbounds u [] ∷ []) ≡ ([], u.email ∷ [])
  unfolding inbound_update
  removal-update u i = refl

  removal :
      (u : User) (is : List (Inbound Uuid)) (h : H)
      → let (errors, is', h') = update_users_live x api (with_inbounds u [] ∷ []) is h in
        (errors ≡ [])
        × (tags_of x is' ≡ tags_of x is)
        × ((email : String)
            → has_client is' email ≡ (if u.email == email then false else has_client is email))
  unfolding update_users_live has_client has_key
  removal u [] h = (refl, refl, λ email. ground arith)
  removal u (i ∷ rest) h = elim (Bool-cases (i.exclude || contains (tags_of x rest) i.tag)) [
    | inl y ↦
        let (none_failed, tags, clients) = removal u rest h in
        rw y (
          none_failed,
          ap (λ ts. if i.exclude then ts else i.tag ∷ ts) tags,
          λ email. rw (tags, y) (clients email),
        )
    | inr n ↦
        let (none_failed, tags, clients) =
          removal u rest (api.remove_inbound_user i.tag u.email h) in
        rw n (
          none_failed,
          ap (λ ts. if i.exclude then ts else i.tag ∷ ts) tags,
          λ email.
              rw (tags, n) (ground (arith, clients email, lookup-delete u.email email i.clients)),
        )
  ]

  pub xray_core-IsCore :
      (start : String → Result String Xray) (get_stats : Xray → Option (List Stat) × Xray)
      → IsCore (xray_core start get_stats)
  xray_core-IsCore start get_stats = record {
    serves = λ k email. has_client k.0 email;
    removes = λ u k email works. (removal u k.0 k.1).2 email;
  }

  -- Suspending a tenant, where the registry accepts it, leaves no client of any of its users in the
  -- configuration of an Xray core that is up; every other email has a client there exactly if it had
  -- one; and every record of the manager but the registry's stays. Whether the process let the users
  -- go is not known: errors of the removal are ignored. Of inbounds with one tag only the last is
  -- managed.
  pub suspend_tenant-Unserved :
      {S : Type 0} (start : String → Result String Xray)
      (get_stats : Xray → Option (List Stat) × Xray) (st : Store S) (tenant_id : String)
      (reason : Reason) (m : Manager S Xray) (k : Xray)
      → m.core ≡ some k
      → (suspend_tenant (xray_core start get_stats) st tenant_id reason m).0 ≡ ok tt
      → let m' = (suspend_tenant (xray_core start get_stats) st tenant_id reason m).1 in
        (k' : Xray) × (m'.core ≡ some k')
        × ((email : String) (u : User)
            → In (email, u) (users_of tenant_id m)
            → has_client k'.0 u.email ≡ false)
        × ((asked : String)
            → ((email : String) (u : User) → In (email, u) (users_of tenant_id m) → u.email ≢ asked)
            → has_client k'.0 asked ≡ has_client k.0 asked)
        × (m'.users ≡ m.users)
        × (m'.email_to ≡ m.email_to)
        × (m'.creds ≡ m.creds)
        × (m'.last_seen ≡ m.last_seen)
  unfolding xray_core-IsCore
  suspend_tenant-Unserved start get_stats st tenant_id reason m k up done =
      let c = xray_core start get_stats in
      let (k', up', cut, users, email_to, creds, last_seen) =
        suspend_tenant-CutOff c (xray_core-IsCore start get_stats) st tenant_id reason m k up
          (λ u j. ap (outcome "failed to update users:") (removal u j.0 j.1).0) done in
      (k', up', cut.gone, cut.kept, users, email_to, creds, last_seen)
