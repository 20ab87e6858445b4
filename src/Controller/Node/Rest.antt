-- ===== src/Controller/Node/Rest.antt =====
-- controller/rest: the HTTP server of a node. A request is its key and what was read of its body;
-- an answer is its status, and what a successful start or info shows.
use Prim.Native.String.{slice, len}
use node_agent.Prelude.{
  ℕ, ◌-◌, String, Bool, true, false, Option, none, some, List, [], ◌∷◌, ◌++◌, eqb, ◌==◌, ◌&&◌,
  length, ltb, leb, if◌then◌else◌, Result, ok, err,
}
use node_agent.Prelude.Int.{ℤ}
use node_agent.Common.{User}
use node_agent.Controller.Chunks.{build_users_from_chunks}
use node_agent.Controller.Node.{
  Setup, Query, stats, user_online_stats, user_online_ip_list_stats, backend_stats, Failure,
  Backends, Controller, system_stats, outbounds_latency_of, BaseInfo, new_request, disconnect,
  base_info, start_session,
}

pub record Chunk : Type 0 where
  pub index : ℕ
  pub users : List User
  pub last : Bool

-- The chunks of a stream by their index, the last index, and whether the last chunk was seen.
pub record Chunked : Type 0 where
  pub chunks : ℕ → Option (List User)
  pub last_index : ℕ
  pub saw_last : Bool

abbrev add_chunk : Chunk → (ℕ → Option (List User)) → ℕ → Option (List User)
add_chunk k chunks i =
    let joined : List User = elim (chunks i) [ none ↦ k.users | some us ↦ us ++ k.users ] in
    if eqb i k.index then some joined else chunks i

unfoldable pub gather : List Chunk → Chunked → Chunked
gather [] s = s
gather (k ∷ ks) s =
    let chunks = add_chunk k s.chunks in
    let more = gather ks (record s { chunks = chunks }) in
    if k.last then record { chunks = chunks; last_index = k.index; saw_last = true } else more

-- The chunks that can be received, up to the final one; `broken` says that the stream does not end
-- after these, but breaks.
unfoldable pub receive : List Chunk → Bool → Option Chunked
unfolding gather
receive ks broken =
    let s = gather ks (record { chunks = λ i. none; last_index = 0; saw_last = false }) in
    if s.saw_last then some s else if broken then none else some s

-- `none` or `false` is a body that cannot be read; the text of a start is the host of the remote address.
pub data Request : Type 0 where
  start : Option Setup → Option String → Request
  info stop : Request
  sync_user : Option User → Request
  sync_users : Option (List User) → Request
  sync_users_chunked : List Chunk → Bool → Request
  get_logs get_backend_stats get_system_stats : Request
  get_stats get_user_online_stat get_user_online_ip_list_stats get_outbounds_latency :
      Bool → Request

abbrev pub Answer : Type 0
Answer = ℕ × Option BaseInfo

-- common/helper.go: InterceptNotFound, by the code of the error, and GrpcCodeToHTTP.
abbrev ends_with : String → String → Bool
ends_with s t = leb (len t) (len s) && slice s (len s - len t) (len s) == t

unfoldable pub intercept_not_found : Failure → ℕ
intercept_not_found f = if ends_with f.text "not found." then 5 else f.code

unfoldable pub grpc_code_to_http : ℕ → ℕ
grpc_code_to_http code =
    if eqb code 0
    then 200
    else if eqb code 1
    then 499
    else if eqb code 3
    then 400
    else if eqb code 16
    then 401
    else if eqb code 7
    then 403
    else if eqb code 5
    then 404
    else if eqb code 6
    then 409
    else if eqb code 8
    then 429
    else if eqb code 9
    then 412
    else if eqb code 10
    then 409
    else if eqb code 11
    then 400
    else if eqb code 12
    then 501
    else if eqb code 13
    then 500
    else if eqb code 14
    then 503
    else if eqb code 4
    then 504
    else 500

module _ {B W Uuid : Type 0} (x : Backends B W) (parse_uuid : String → Option Uuid)
    (same_uuid : Uuid → Uuid → Bool) where
  abbrev replied : Controller B → Result String (Unit {0}) × W → Answer × Controller B × W
  replied c (ok _, w) = ((200, none), c, w)
  replied c (err e, w) = ((500, none), c, w)

  abbrev start_reply : Result String (Unit {0}) × Controller B × W → Answer × Controller B × W
  start_reply (ok _, c, w) = ((200, some (base_info x c w)), c, w)
  start_reply (err e, c, w) = ((503, none), c, w)

  unfoldable pub serve_start :
      ℤ → Option Setup → Option String → Controller B → W → Answer × Controller B × W
  unfolding start_session
  serve_start now none ip c w = ((400, none), c, w)
  serve_start now (some s) none c w = ((503, none), c, w)
  serve_start now (some s) (some ip) c w = start_reply (start_session x now ip s c w)

  unfoldable pub apply_chunks : Option Chunked → B → Controller B → W → Answer × Controller B × W
  unfolding build_users_from_chunks
  apply_chunks none b c w = ((400, none), c, w)
  apply_chunks (some k) b c w = elim (build_users_from_chunks k.chunks k.last_index k.saw_last) [
    | err e ↦ ((400, none), c, w)
    | ok us ↦
        replied c
          (if ltb 100 (length us) then x.update_users_and_restart us b w else x.update_users us b w)
  ]

  abbrev by_code :
      (Failure → ℕ) → Controller B → Result Failure (Unit {0}) × W → Answer × Controller B × W
  by_code status c (ok _, w) = ((200, none), c, w)
  by_code status c (err e, w) = ((status e, none), c, w)

  abbrev query_stats : Bool → Query → B → Controller B → W → Answer × Controller B × W
  query_stats readable q b c w =
      if readable
      then by_code (λ e. grpc_code_to_http (intercept_not_found e)) c (x.query q b w)
      else ((400, none), c, w)

  -- The handlers of the routes that need a backend.
  unfoldable pub handle : Request → B → Controller B → W → Answer × Controller B × W
  unfolding disconnect apply_chunks receive
  handle (start s ip) b c w = ((404, none), c, w)
  handle info b c w = ((404, none), c, w)
  handle stop b c w = let (c', w') = disconnect x c w in ((200, none), c', w')
  handle (sync_user none) b c w = ((400, none), c, w)
  handle (sync_user (some u)) b c w =
      if u.email == "" then ((400, none), c, w) else replied c (x.sync_user u b w)
  handle (sync_users none) b c w = ((400, none), c, w)
  handle (sync_users (some us)) b c w = replied c (x.sync_users us b w)
  handle (sync_users_chunked ks broken) b c w = apply_chunks (receive ks broken) b c w
  handle get_logs b c w = ((200, none), c, x.read_logs b w)
  handle get_backend_stats b c w =
      by_code (λ e. grpc_code_to_http e.code) c (x.query backend_stats b w)
  handle get_system_stats b c w = ((200, none), c, system_stats x c w)
  handle (get_stats readable) b c w = query_stats readable stats b c w
  handle (get_user_online_stat readable) b c w = query_stats readable user_online_stats b c w
  handle (get_user_online_ip_list_stats readable) b c w =
      query_stats readable user_online_ip_list_stats b c w
  handle (get_outbounds_latency readable) b c w =
      if readable then by_code (λ e. 502) c (outbounds_latency_of x c w) else ((400, none), c, w)

  -- checkBackendMiddleware.
  unfoldable pub check_backend : Request → Controller B → W → Answer × Controller B × W
  unfolding handle
  check_backend r c w = elim c.backend [
    | none ↦ ((500, none), c, w)
    | some b ↦ if x.started b w then handle r b c w else ((503, none), c, w)
  ]

  unfoldable pub route : ℤ → Request → Controller B → W → Answer × Controller B × W
  unfolding serve_start
  route now (start s ip) c w = serve_start now s ip c w
  route now info c w = ((200, some (base_info x c w)), c, w)
  route now stop c w = check_backend stop c w
  route now (sync_user u) c w = check_backend (sync_user u) c w
  route now (sync_users us) c w = check_backend (sync_users us) c w
  route now (sync_users_chunked ks broken) c w = check_backend (sync_users_chunked ks broken) c w
  route now get_logs c w = check_backend get_logs c w
  route now get_backend_stats c w = check_backend get_backend_stats c w
  route now get_system_stats c w = check_backend get_system_stats c w
  route now (get_stats readable) c w = check_backend (get_stats readable) c w
  route now (get_user_online_stat readable) c w = check_backend (get_user_online_stat readable) c w
  route now (get_user_online_ip_list_stats readable) c w =
      check_backend (get_user_online_ip_list_stats readable) c w
  route now (get_outbounds_latency readable) c w =
      check_backend (get_outbounds_latency readable) c w

  -- trackSuccessfulRequest.
  abbrev track : ℤ → Answer × Controller B × W → Answer × Controller B × W
  track now ((status, content), c, w) =
      ((status, content), if leb 200 status && ltb status 300 then new_request now c else c, w)

  -- validateApiKey, and the request behind it.
  unfoldable pub serve : Uuid → ℤ → String → Request → Controller B → W → Answer × Controller B × W
  unfolding route
  serve api_key now key r c w =
      let behind = elim (parse_uuid key) as (λ _. Answer × Controller B × W) [
        | none ↦ ((422, none), c, w)
        | some k ↦ if same_uuid k api_key then track now (route now r c w) else ((403, none), c, w)
      ] in
      if key == "" then ((401, none), c, w) else behind
