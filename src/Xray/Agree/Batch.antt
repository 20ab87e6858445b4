-- ===== src/Xray/Agree/Batch.antt =====
-- The client that each email has in the end.
use node_agent.Prelude.{
  String, ◌≡◌, refl, ap, ◌∙◌, Option-cases, inl, inr, true, false, Option, none, some, List, [],
  ◌∷◌, arith, ◌==◌, eq_iff, if◌then◌else◌, contains,
}
use node_agent.Prelude.Dict.{Dict, lookup, insert, delete, lookup-insert, lookup-delete}
use node_agent.Common.{User, AreOnce, emails}
use node_agent.Xray.{Codec, Account, Inbound, DecodesHashes, NamesCipher}
use node_agent.Xray.Inbounds.{
  with_clients, remove_user, update_user, sync_one, sync_accounts, delete_all, accept_all,
  inbound_update,
}
use node_agent.Xray.Agree.Active.{account_of, synced_account-account_of, account_of-IsOwn}

lookup-delete_all :
    {Uuid : Type 0} (removes : List String) (m : Dict (Account Uuid)) (email : String)
    → lookup email (delete_all removes m)
      ≡ (if contains removes email then none else lookup email m)
lookup-delete_all [] m email = refl
lookup-delete_all (r ∷ rs) m email =
    ground (arith, lookup-delete_all rs (delete r m) email, lookup-delete r email m)

module _ {Uuid : Type 0} (x : Codec Uuid) where
  -- SyncUser for one user after another.
  unfoldable pub sync_each : List User → Inbound Uuid → Inbound Uuid
  sync_each [] i = i
  sync_each (u ∷ us) i = sync_each us (sync_one x u i)

  -- The client under an email: the account of the user with that email, or what was there before.
  unfoldable pub expected :
      Inbound Uuid → List User → String → Option (Account Uuid) → Option (Account Uuid)
  expected i [] email old = old
  expected i (u ∷ us) email old =
      let others = expected i us email old in if u.email == email then account_of x i u else others

  expected_absent :
      (i : Inbound Uuid) (us : List User) (email : String) (old : Option (Account Uuid))
      → contains (emails us) email ≡ false
      → expected i us email old ≡ old
  unfolding expected
  expected_absent i [] email old h = refl
  expected_absent i (u ∷ us) email old h = ground (arith, expected_absent i us email old)

  -- A user comes first, and the rest are others.
  expected-cons :
      (i : Inbound Uuid) (u : User) (us : List User) (email : String) (old : Option (Account Uuid))
      → contains (emails us) u.email ≡ false
      → expected i us email (if u.email == email then account_of x i u else old)
        ≡ expected i (u ∷ us) email old
  unfolding expected
  expected-cons i u us email old h = ground (
    arith,
    eq_iff u.email email,
    expected_absent i us u.email (account_of x i u),
    expected_absent i us email (account_of x i u),
  )

  module _ (i : Inbound Uuid) (decodes : DecodesHashes x) (named : NamesCipher x i) where
    step : User → Dict (Account Uuid) → Dict (Account Uuid)
    step u m = (sync_one x u (with_clients i m)).clients

    lookup-step :
        (u : User) (m : Dict (Account Uuid)) (email : String)
        → lookup email (step u m) ≡ (if u.email == email then account_of x i u else lookup email m)
    unfolding step sync_one update_user remove_user
    lookup-step u m email = elim (Option-cases (account_of x i u)) [
      | inl e ↦ ground (arith, lookup-delete u.email email m)
      | inr (a, e) ↦
          let own = account_of-IsOwn x i u decodes named e in
          ground (arith, own.email, own.kept, lookup-insert u.email email a m)
    ]

    sync_one-step :
        (u : User) (m : Dict (Account Uuid))
        → sync_one x u (with_clients i m) ≡ with_clients i (step u m)
    unfolding step sync_one update_user remove_user
    sync_one-step u m = ground arith

    pub sync_each-expected :
        (us : List User)
        → AreOnce us
        → (email : String) (m : Dict (Account Uuid))
        → lookup email (sync_each us (with_clients i m)).clients
          ≡ expected i us email (lookup email m)
    unfolding sync_each expected
    sync_each-expected [] once email m = refl
    sync_each-expected (u ∷ us) once email m =
        ap (λ (j : Inbound Uuid). lookup email (sync_each us j).clients) (sync_one-step u m)
        ∙ sync_each-expected us once.1 email (step u m)
        ∙ ap (expected i us email) (lookup-step u m email)
        ∙ expected-cons i u us email (lookup email m) once.0

    unfoldable pub batch : List User → Dict (Account Uuid) → Dict (Account Uuid)
    batch us m =
        let (accounts, removes) = inbound_update x i us in
        delete_all removes (accept_all x i accounts m)

    lookup-batch_active :
        (u : User) (us : List User) (m : Dict (Account Uuid)) (a : Account Uuid)
        → account_of x i u ≡ some a
        → batch (u ∷ us) m ≡ batch us (insert u.email a m)
    unfolding batch inbound_update accept_all
    lookup-batch_active u us m a e =
        let own = account_of-IsOwn x i u decodes named e in ground (arith, own.email, own.fits)

    lookup-batch_inactive :
        (u : User) (us : List User) (m : Dict (Account Uuid)) (email : String)
        → account_of x i u ≡ none
        → lookup email (batch (u ∷ us) m)
          ≡ (if u.email == email then none else lookup email (batch us m))
    unfolding batch inbound_update
    lookup-batch_inactive u us m email e =
        let (accounts, removes) = inbound_update x i us in
        ground (
          arith,
          eq_iff u.email email,
          lookup-delete_all removes (delete u.email (accept_all x i accounts m)) email,
          lookup-delete_all removes (accept_all x i accounts m) email,
          lookup-delete u.email email (accept_all x i accounts m),
        )

    pub batch-expected :
        (us : List User)
        → AreOnce us
        → (email : String) (m : Dict (Account Uuid))
        → lookup email (batch us m) ≡ expected i us email (lookup email m)
    unfolding batch inbound_update accept_all expected
    batch-expected [] once email m = refl
    batch-expected (u ∷ us) once email m = elim (Option-cases (account_of x i u)) [
      | inl e ↦
          ground (arith, lookup-batch_inactive u us m email e, batch-expected us once.1 email m)
      | inr (a, e) ↦ ground (
        arith,
        lookup-batch_active u us m a e,
        batch-expected us once.1 email (insert u.email a m),
        lookup-insert u.email email a m,
        expected-cons i u us email (lookup email m) once.0,
      )
    ]

  -- None of the users has a client yet.
  abbrev pub AreNew : List User → Dict (Account Uuid) → Type 0
  AreNew us m = (email : String) → contains (emails us) email ≡ true → lookup email m ≡ none

  pub sync_accounts-expected :
      (i : Inbound Uuid) (us : List User)
      → AreOnce us
      → (m : Dict (Account Uuid)) → AreNew us m
      → (email : String)
      → lookup email (sync_accounts x i us m) ≡ expected i us email (lookup email m)
  unfolding sync_accounts expected
  sync_accounts-expected i [] once m new email = refl
  sync_accounts-expected i (u ∷ us) once m new email = elim (Option-cases (account_of x i u)) [
    | inl e ↦
        rw (synced_account-account_of x i u, e)
          (ground (
            arith,
            sync_accounts-expected i us once.1 m (λ k h. new k (ground arith)) email,
            new email,
            eq_iff u.email email,
            expected_absent i us email (lookup email m),
          ))
    | inr (a, e) ↦
        let later : AreNew us (insert u.email a m) =
          λ k h. ground (arith, lookup-insert u.email k a m, new k, eq_iff u.email k, once.0) in
        rw (synced_account-account_of x i u, e)
          (ground (
            arith,
            sync_accounts-expected i us once.1 (insert u.email a m) later email,
            lookup-insert u.email email a m,
            expected-cons i u us email (lookup email m) once.0,
          ))
  ]
