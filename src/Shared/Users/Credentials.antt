-- ===== src/Shared/Users/Credentials.antt =====
-- The owners of credentials: what the loops and the checks do to `creds`.
use text.Mathlib.Text.{starts_with}
use node_agent.Prelude.{
  String, ◌≡◌, inl, inr, refl, subst, Bool, true, false, Option, none, some, List, [], ◌∷◌, arith,
  eq_iff, Option-cases, Result-cases, if◌then◌else◌, ok, In, contains,
}
use node_agent.Prelude.Dict.{Dict, lookup, insert, delete, lookup-insert, lookup-delete}
use node_agent.Common.{User}
use node_agent.Shared.{prefix, user_credentials}
use node_agent.Shared.Names.{HasNoDot, prefixes_apart}
use node_agent.Shared.Users.{own_all, disown_all, check_user, check_batch, is_taken}

-- Nobody, or a name of the tenant.
abbrev free_owner : String → Option String → Bool
free_owner tenant_id none = true
free_owner tenant_id (some owner) = starts_with owner (prefix tenant_id)

abbrev owned_by : String → Option String → Bool
owned_by tenant_id none = false
owned_by tenant_id (some owner) = starts_with owner (prefix tenant_id)

-- The credential leads to a name of the tenant; to nobody else's.
abbrev pub owned : String → String → Dict String → Bool
owned tenant_id cred creds = owned_by tenant_id (lookup cred creds)

abbrev pub is_free : String → String → Dict String → Bool
is_free tenant_id cred creds = free_owner tenant_id (lookup cred creds)

abbrev pub Carries : User → String → Type 0
Carries u cred = contains (user_credentials u) cred ≡ true

pub lookup-own_all :
    (wanted : List String) (email : String) (creds : Dict String) (cred : String)
    → lookup cred (own_all wanted email creds)
      ≡ (if contains wanted cred then some email else lookup cred creds)
unfolding own_all
lookup-own_all [] email creds cred = refl
lookup-own_all (w ∷ wanted) email creds cred = ground (
  arith,
  lookup-own_all wanted email (insert w email creds) cred,
  lookup-insert w cred email creds,
)

pub lookup-disown_all :
    (gone : List String) (creds : Dict String) (cred : String)
    → lookup cred (disown_all gone creds) ≡ (if contains gone cred then none else lookup cred creds)
unfolding disown_all
lookup-disown_all [] creds cred = refl
lookup-disown_all (w ∷ gone) creds cred =
    ground (arith, lookup-disown_all gone (delete w creds) cred, lookup-delete w cred creds)

pub owned_apart :
    (a b cred : String) (creds : Dict String)
    → HasNoDot a
    → HasNoDot b
    → owned a cred creds ≡ true
    → is_free b cred creds ≡ true
    → a ≡ b
owned_apart a b cred creds h k own free = elim (Option-cases (lookup cred creds)) [
  | inl e ↦ ground (arith, e, own)
  | inr (o, e) ↦
      prefixes_apart a b o h k (subst (λ x. owned_by a x ≡ true) e own)
        (subst (λ x. free_owner b x ≡ true) e free)
]

pub is_free-owned :
    (tenant_id cred : String) (creds : Dict String)
    → owned tenant_id cred creds ≡ true
    → is_free tenant_id cred creds ≡ true
is_free-owned tenant_id cred creds own = elim (Option-cases (lookup cred creds)) [
  | inl e ↦ ground (arith, e, own)
  | inr (o, e) ↦ ground (arith, e, own)
]

-- The test of AddTenantUsers: no credential belongs to another tenant.
pub is_taken-is_free :
    (tenant_id email : String) (wanted : List String) (creds : Dict String) (cred : String)
    → starts_with email (prefix tenant_id) ≡ true
    → is_taken tenant_id creds email wanted ≡ false
    → contains wanted cred ≡ true
    → is_free tenant_id cred creds ≡ true
unfolding is_taken
is_taken-is_free tenant_id email [] creds cred own e i = ground (arith, i)
is_taken-is_free tenant_id email (w ∷ wanted) creds cred own e i =
    elim (Option-cases (lookup w creds)) [
      | inl f ↦
          ground
            (arith, e, i, f, eq_iff w cred, is_taken-is_free tenant_id email wanted creds cred own)
      | inr (o, f) ↦ ground (
        arith,
        e,
        i,
        f,
        own,
        eq_iff w cred,
        eq_iff o email,
        is_taken-is_free tenant_id email wanted creds cred own,
      )
    ]

check_user-is_free :
    (tenant_id : String) (creds : Dict String) (email : String) (wanted : List String)
    (batch batch' : Dict String) (cred : String)
    → check_user tenant_id creds email wanted batch ≡ ok batch'
    → contains wanted cred ≡ true
    → is_free tenant_id cred creds ≡ true
unfolding check_user
check_user-is_free tenant_id creds email [] batch batch' cred e i = ground (arith, i)
check_user-is_free tenant_id creds email (w ∷ wanted) batch batch' cred e i =
    let later =
      check_user-is_free tenant_id creds email wanted (insert w email batch) batch' cred in
    ground
      (arith, later, eq_iff w cred, Option-cases (lookup w creds), Option-cases (lookup w batch))

-- The checks of SetTenantUsers, likewise.
pub check_batch-is_free :
    (tenant_id : String) (creds : Dict String) (us : Dict User) (batch batch' : Dict String)
    (email : String) (u : User) (cred : String)
    → check_batch tenant_id creds us batch ≡ ok batch'
    → In (email, u) us
    → Carries u cred
    → is_free tenant_id cred creds ≡ true
unfolding check_batch
check_batch-is_free tenant_id creds [] batch batch' email u cred e i c = elim i [ ]
check_batch-is_free tenant_id creds ((f, v) ∷ us) batch batch' email u cred e i c =
    elim (Result-cases (check_user tenant_id creds f (user_credentials v) batch)) [
      | inr (x, g) ↦ ground (arith, e, g)
      | inl (b, g) ↦ elim i [
        | inl s ↦
            check_user-is_free tenant_id creds f (user_credentials v) batch b cred g
              (subst (λ p. Carries p.1 cred) s c)
        | inr j ↦
            check_batch-is_free tenant_id creds us b batch' email u cred (ground (arith, e, g)) j c
      ]
    ]
