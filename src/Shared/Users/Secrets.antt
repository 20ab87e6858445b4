-- ===== src/Shared/Users/Secrets.antt =====
-- The secrets of users by their protocols, apart from the list of credentials that the code makes of
-- them: no two tenants share one.
use Prim.Native.String.{◌++◌ as ◌^◌}
use node_agent.Prelude.{
  String, ◌≡◌, ◌≢◌, inl, inr, refl, sym, ◌∙◌, subst, true, none, some, List, [], ◌∷◌, ◌++◌, arith,
  ◌||◌, eq_iff, eq_refl, Option-cases, In, ok, contains,
}
use node_agent.Common.{User, Proxy}
use node_agent.Shared.{Core, Manager, credential, proxy_credentials, user_credentials, users_of}
use node_agent.Shared.Names.{HasNoDot}
use node_agent.Shared.Users.{set_tenant_users, add_tenant_users}
use node_agent.Shared.Users.Owners.{AreOwned}
use node_agent.Shared.Users.Isolation.{
  AreOwned-apart, set_tenant_users-AreOwned, add_tenant_users-AreOwned,
}

pub data SecretKind : Type 0 where
  vless vmess trojan shadowsocks hysteria : SecretKind

abbrev pub secret_of : SecretKind → Proxy → String
secret_of vless p = elim p.vless [ none ↦ "" | some v ↦ v.id ]
secret_of vmess p = elim p.vmess [ none ↦ "" | some v ↦ v.id ]
secret_of trojan p = elim p.trojan [ none ↦ "" | some t ↦ t.password ]
secret_of shadowsocks p = elim p.shadowsocks [ none ↦ "" | some s ↦ s.password ]
secret_of hysteria p = elim p.hysteria [ none ↦ "" | some h ↦ h.auth ]

abbrev tag_of : SecretKind → String
tag_of vless = "vless:"
tag_of vmess = "vmess:"
tag_of trojan = "trojan:"
tag_of shadowsocks = "ss:"
tag_of hysteria = "hy:"

contains-append :
    (xs ys : List String) (asked : String)
    → contains (xs ++ ys) asked ≡ contains xs asked || contains ys asked
contains-append [] ys asked = refl
contains-append (x ∷ xs) ys asked = ground (arith, contains-append xs ys asked)

contains-credential :
    (tag secret : String) → secret ≢ "" → contains (credential tag secret) (tag ^ secret) ≡ true
contains-credential tag secret h = ground (arith, h, eq_iff secret "", eq_refl (tag ^ secret))

-- The credentials of a proxy, one kind after another.
parts :
    (p : Proxy) (asked : String)
    → contains (proxy_credentials p) asked
      ≡ contains (elim p.vless [ none ↦ [] | some v ↦ credential "vless:" v.id ]) asked
        || contains (elim p.vmess [ none ↦ [] | some v ↦ credential "vmess:" v.id ]) asked
        || contains (elim p.trojan [ none ↦ [] | some t ↦ credential "trojan:" t.password ]) asked
        || contains (elim p.shadowsocks [ none ↦ [] | some s ↦ credential "ss:" s.password ]) asked
        || contains (elim p.hysteria [ none ↦ [] | some h ↦ credential "hy:" h.auth ]) asked
unfolding proxy_credentials
parts p asked = simp contains-append

contains-secret :
    (kind : SecretKind) (p : Proxy)
    → secret_of kind p ≢ ""
    → contains (proxy_credentials p) (tag_of kind ^ secret_of kind p) ≡ true
contains-secret vless p h = elim (Option-cases p.vless) [
  | inl e ↦ absurd (h (ground (arith, e)))
  | inr (m, e) ↦ ground (arith, e, h, parts p ("vless:" ^ m.id), contains-credential "vless:" m.id)
]
contains-secret vmess p h = elim (Option-cases p.vmess) [
  | inl e ↦ absurd (h (ground (arith, e)))
  | inr (m, e) ↦ ground (arith, e, h, parts p ("vmess:" ^ m.id), contains-credential "vmess:" m.id)
]
contains-secret trojan p h = elim (Option-cases p.trojan) [
  | inl e ↦ absurd (h (ground (arith, e)))
  | inr (m, e) ↦
      ground
        (arith, e, h, parts p ("trojan:" ^ m.password), contains-credential "trojan:" m.password)
]
contains-secret shadowsocks p h = elim (Option-cases p.shadowsocks) [
  | inl e ↦ absurd (h (ground (arith, e)))
  | inr (m, e) ↦
      ground (arith, e, h, parts p ("ss:" ^ m.password), contains-credential "ss:" m.password)
]
contains-secret hysteria p h = elim (Option-cases p.hysteria) [
  | inl e ↦ absurd (h (ground (arith, e)))
  | inr (m, e) ↦ ground (arith, e, h, parts p ("hy:" ^ m.auth), contains-credential "hy:" m.auth)
]

user-contains-secret :
    (kind : SecretKind) (u : User) (p : Proxy)
    → u.proxies ≡ some p
    → secret_of kind p ≢ ""
    → contains (user_credentials u) (tag_of kind ^ secret_of kind p) ≡ true
unfolding user_credentials
user-contains-secret kind u p e h = ground (arith, e, contains-secret kind p h)

module _ {S K : Type 0} where
  -- Two users of two tenants whose ids have no dot have no secret of one kind in common.
  abbrev pub AreApart : Manager S K → Type 0
  AreApart m =
      (a b email email' : String) (u v : User) (p q : Proxy) (kind : SecretKind)
      → HasNoDot a
      → HasNoDot b
      → a ≢ b
      → In (email, u) (users_of a m)
      → In (email', v) (users_of b m)
      → u.proxies ≡ some p
      → v.proxies ≡ some q
      → secret_of kind p ≢ ""
      → secret_of kind p ≢ secret_of kind q

  AreOwned-AreApart : (m : Manager S K) → AreOwned m → AreApart m
  AreOwned-AreApart m h a b email email' u v p q kind da db differ i j eu ev some_text same =
      let cred = tag_of kind ^ secret_of kind p in
      let mine = user-contains-secret kind u p eu some_text in
      let theirs : contains (user_credentials v) cred ≡ true =
        subst (λ s. contains (user_credentials v) (tag_of kind ^ s) ≡ true) (sym same)
          (user-contains-secret kind v q ev (λ e. some_text (same ∙ e))) in
      let apart = AreOwned-apart m a b email email' u v cred h da db differ i j mine in
      absurd (ground (arith, theirs, apart))

  module _ (c : Core K) (tenant_id : String) (us : List User) (m : Manager S K) where
    -- After AddTenantUsers, with any reply, and after SetTenantUsers that succeeds, no user of one
    -- tenant has a secret in common with a user of another: no id of VLESS or VMess, no password of
    -- Trojan or Shadowsocks, no authentication of Hysteria, where these are not empty. This is said
    -- of the tenants whose ids have no dot. Conditions: every credential of the users of such a
    -- tenant led to a name of that tenant before, and the tenant of the call is one of them.
    pub tenant_users-AreApart :
        HasNoDot tenant_id
        → AreOwned m
        → AreApart (add_tenant_users c tenant_id us m).1
          × ((set_tenant_users c tenant_id us m).0 ≡ ok tt
              → AreApart (set_tenant_users c tenant_id us m).1)
    tenant_users-AreApart d h = (
      AreOwned-AreApart (add_tenant_users c tenant_id us m).1
          (add_tenant_users-AreOwned c tenant_id us m d h),
      λ done.
          AreOwned-AreApart (set_tenant_users c tenant_id us m).1
            (set_tenant_users-AreOwned c tenant_id us m d h done),
    )
