-- ===== src/Controller/Node/Guarded.antt =====
-- Which requests and ticks change the session or what is behind it.
use node_agent.Prelude.{
  ℕ, ◌*◌, String, ◌≡◌, ◌⊎◌, inl, inr, refl, Bool, true, false, Option, none, some, List, [], ◌∷◌,
  arith, Bool-cases, Option-cases,
}
use node_agent.Prelude.Int.{ℤ, ◌-ℤ◌, pos, leb_ℤ, wrap64}
use node_agent.Controller.Node.{Backends, Controller, keep_alive_tick}
use node_agent.Controller.Node.Rest
use node_agent.Controller.Node.Rpc
use node_agent.Controller.Node.Settled.{Event, rest, rpc, tick, step}

module _ {B W Uuid : Type 0} (x : Backends B W) (parse_uuid : String → Option Uuid)
    (same_uuid : Uuid → Uuid → Bool) (api_key : Uuid) where
  abbrev IsKey : String → Type 0
  IsKey key = (k : Uuid) × (parse_uuid key ≡ some k) × (same_uuid k api_key ≡ true)

  abbrev IsRunning : Controller B → W → Type 0
  IsRunning c w = (b : B) × (c.backend ≡ some b) × (x.started b w ≡ true)

  -- What a request over HTTP needs beside the key.
  abbrev RestNeeds : Rest.Request → Controller B → W → Type 0
  RestNeeds (Rest.start s ip) c w = Unit
  RestNeeds Rest.info c w = Unit
  RestNeeds r c w = IsRunning c w

  abbrev RpcNeeds : Rpc.Call → Controller B → W → Type 0
  RpcNeeds (Rpc.start s ip) c w = Unit
  RpcNeeds Rpc.get_base_info c w = Unit
  RpcNeeds Rpc.get_outbounds_latency c w = Unit
  RpcNeeds r c w = IsRunning c w

  abbrev pub IsAdmitted : ℤ → Event → Controller B → W → Type 0
  IsAdmitted now (rest key r) c w = IsKey key × RestNeeds r c w
  IsAdmitted now (rpc none r) c w = ⊥
  IsAdmitted now (rpc (some []) r) c w = ⊥
  IsAdmitted now (rpc (some (key ∷ keys)) r) c w = IsKey key × RpcNeeds r c w
  IsAdmitted now tick c w =
      (k : ℕ) × (c.keep_alive ≡ some k)
      × (leb_ℤ (wrap64 (pos (k * 1000000000))) (now -ℤ c.last_request) ≡ true)

  IsKey-cases :
      (key : String)
      → IsKey key ⊎ ((k : Uuid) → parse_uuid key ≡ some k → same_uuid k api_key ≡ false)
  IsKey-cases key = elim (Option-cases (parse_uuid key)) [
    | inl e ↦ inr (λ k f. absurd (ground (arith, e, f)))
    | inr (k, e) ↦ elim (Bool-cases (same_uuid k api_key)) [
      | inl y ↦ inl (k, e, y)
      | inr n ↦ inr (λ k' f. ground (arith, e, f, n))
    ]
  ]

  rest-refused :
      (now : ℤ) (key : String) (r : Rest.Request) (c : Controller B) (w : W)
      → ((k : Uuid) → parse_uuid key ≡ some k → same_uuid k api_key ≡ false)
      → step x parse_uuid same_uuid api_key now (rest key r) c w ≡ (c, w)
  unfolding step Rest.serve
  rest-refused now key r c w h = elim (Option-cases (parse_uuid key)) [
    | inl e ↦ ground (arith, e)
    | inr (k, e) ↦ ground (arith, e, h k e)
  ]

  rpc-refused :
      (now : ℤ) (key : String) (keys : List String) (r : Rpc.Call) (c : Controller B) (w : W)
      → ((k : Uuid) → parse_uuid key ≡ some k → same_uuid k api_key ≡ false)
      → step x parse_uuid same_uuid api_key now (rpc (some (key ∷ keys)) r) c w ≡ (c, w)
  unfolding step Rpc.serve
  rpc-refused now key keys r c w h = elim (Option-cases (parse_uuid key)) [
    | inl e ↦ ground (arith, e)
    | inr (k, e) ↦ ground (arith, e, h k e)
  ]

  rest_behind :
      (now : ℤ) (key : String) (r : Rest.Request) (c : Controller B) (w : W)
      → IsKey key
      → Rest.route x parse_uuid same_uuid now r c w
        ≡ Rest.check_backend x parse_uuid same_uuid r c w
      → (step x parse_uuid same_uuid api_key now (rest key r) c w ≡ (c, w)) ⊎ IsRunning c w
  unfolding step Rest.serve Rest.check_backend
  rest_behind now key r c w (k, parsed, same) private = elim (Option-cases c.backend) [
    | inl e ↦ inl (ground (arith, e, parsed, same, private))
    | inr (b, e) ↦ elim (Bool-cases (x.started b w)) [
      | inl y ↦ inr (b, e, y)
      | inr n ↦ inl (ground (arith, e, n, parsed, same, private))
    ]
  ]

  rpc_behind :
      (now : ℤ) (key : String) (keys : List String) (r : Rpc.Call) (c : Controller B) (w : W)
      → IsKey key
      → Rpc.dispatch x parse_uuid same_uuid now r c w
        ≡ Rpc.with_backend x parse_uuid same_uuid r c w
      → (step x parse_uuid same_uuid api_key now (rpc (some (key ∷ keys)) r) c w ≡ (c, w))
        ⊎ IsRunning c w
  unfolding step Rpc.serve Rpc.validate_api_key Rpc.with_backend Rpc.check_backend_status
  rpc_behind now key keys r c w (k, parsed, same) private = elim (Option-cases c.backend) [
    | inl e ↦ inl (ground (arith, e, parsed, same, private))
    | inr (b, e) ↦ elim (Bool-cases (x.started b w)) [
      | inl y ↦ inr (b, e, y)
      | inr n ↦ inl (ground (arith, e, n, parsed, same, private))
    ]
  ]

  and_key {ℓ} : {A : Type ℓ} {P Q : Type 0} → A → P ⊎ Q → P ⊎ (A × Q)
  and_key a (inl p) = inl p
  and_key a (inr q) = inr (a, q)

  rest-needs :
      (now : ℤ) (key : String) (r : Rest.Request) (c : Controller B) (w : W)
      → IsKey key
      → (step x parse_uuid same_uuid api_key now (rest key r) c w ≡ (c, w)) ⊎ RestNeeds r c w
  unfolding Rest.route
  rest-needs now key (Rest.start s ip) c w h = inr tt
  rest-needs now key Rest.info c w h = inr tt
  rest-needs now key Rest.stop c w h = rest_behind now key Rest.stop c w h refl
  rest-needs now key (Rest.sync_user u) c w h = rest_behind now key (Rest.sync_user u) c w h refl
  rest-needs now key (Rest.sync_users u) c w h = rest_behind now key (Rest.sync_users u) c w h refl
  rest-needs now key (Rest.sync_users_chunked k d) c w h =
      rest_behind now key (Rest.sync_users_chunked k d) c w h refl
  rest-needs now key Rest.get_logs c w h = rest_behind now key Rest.get_logs c w h refl
  rest-needs now key Rest.get_backend_stats c w h =
      rest_behind now key Rest.get_backend_stats c w h refl
  rest-needs now key Rest.get_system_stats c w h =
      rest_behind now key Rest.get_system_stats c w h refl
  rest-needs now key (Rest.get_stats d) c w h = rest_behind now key (Rest.get_stats d) c w h refl
  rest-needs now key (Rest.get_user_online_stat d) c w h =
      rest_behind now key (Rest.get_user_online_stat d) c w h refl
  rest-needs now key (Rest.get_user_online_ip_list_stats d) c w h =
      rest_behind now key (Rest.get_user_online_ip_list_stats d) c w h refl
  rest-needs now key (Rest.get_outbounds_latency d) c w h =
      rest_behind now key (Rest.get_outbounds_latency d) c w h refl

  rpc-needs :
      (now : ℤ) (key : String) (keys : List String) (r : Rpc.Call) (c : Controller B) (w : W)
      → IsKey key
      → (step x parse_uuid same_uuid api_key now (rpc (some (key ∷ keys)) r) c w ≡ (c, w))
        ⊎ RpcNeeds r c w
  unfolding Rpc.dispatch
  rpc-needs now key keys (Rpc.start s ip) c w h = inr tt
  rpc-needs now key keys Rpc.get_base_info c w h = inr tt
  rpc-needs now key keys Rpc.stop c w h = rpc_behind now key keys Rpc.stop c w h refl
  rpc-needs now key keys (Rpc.sync_user u) c w h =
      rpc_behind now key keys (Rpc.sync_user u) c w h refl
  rpc-needs now key keys (Rpc.sync_users u) c w h =
      rpc_behind now key keys (Rpc.sync_users u) c w h refl
  rpc-needs now key keys (Rpc.sync_users_chunked k d) c w h =
      rpc_behind now key keys (Rpc.sync_users_chunked k d) c w h refl
  rpc-needs now key keys Rpc.get_stats c w h = rpc_behind now key keys Rpc.get_stats c w h refl
  rpc-needs now key keys Rpc.get_user_online_stats c w h =
      rpc_behind now key keys Rpc.get_user_online_stats c w h refl
  rpc-needs now key keys Rpc.get_user_online_ip_list_stats c w h =
      rpc_behind now key keys Rpc.get_user_online_ip_list_stats c w h refl
  rpc-needs now key keys Rpc.get_backend_stats c w h =
      rpc_behind now key keys Rpc.get_backend_stats c w h refl
  rpc-needs now key keys Rpc.get_system_stats c w h =
      rpc_behind now key keys Rpc.get_system_stats c w h refl
  rpc-needs now key keys (Rpc.get_logs d) c w h =
      rpc_behind now key keys (Rpc.get_logs d) c w h refl
  rpc-needs now key keys Rpc.get_outbounds_latency c w h = inr tt

  -- A request over HTTP or gRPC, or a tick, taken alone from its start to its end, either changes
  -- neither the session nor what is behind it; or it is a request with the API key, and one that
  -- starts the core, asks for its state, asks over gRPC for the latency of its outbounds, or comes
  -- while a backend runs; or it is a tick of a tracker, and the time since the last request has
  -- reached the keep-alive, as an int64 counts both.
  pub step-MayChange :
      (now : ℤ) (e : Event) (c : Controller B) (w : W)
      → (step x parse_uuid same_uuid api_key now e c w ≡ (c, w)) ⊎ IsAdmitted now e c w
  unfolding step Rpc.serve Rpc.validate_api_key keep_alive_tick
  step-MayChange now (rest key r) c w = elim (IsKey-cases key) [
    | inl h ↦ and_key h (rest-needs now key r c w h)
    | inr n ↦ inl (rest-refused now key r c w n)
  ]
  step-MayChange now (rpc none r) c w = inl refl
  step-MayChange now (rpc (some []) r) c w = inl refl
  step-MayChange now (rpc (some (key ∷ keys)) r) c w = elim (IsKey-cases key) [
    | inl h ↦ and_key h (rpc-needs now key keys r c w h)
    | inr n ↦ inl (rpc-refused now key keys r c w n)
  ]
  step-MayChange now tick c w = elim (Option-cases c.keep_alive) [
    | inl e ↦ inl (ground (arith, e))
    | inr (k, e) ↦
        elim (Bool-cases (leb_ℤ (wrap64 (pos (k * 1000000000))) (now -ℤ c.last_request))) [
          | inl y ↦ inr (k, e, y)
          | inr n ↦ inl (ground (arith, e, n))
        ]
  ]
