-- ===== src/Controller/Node/Rpc.antt =====
-- controller/rpc: the gRPC server of a node. A request is the values of x-api-key, or none without
-- metadata, and the message or the stream's messages.
use node_agent.Prelude.{
  ℕ, String, Bool, Option, none, some, List, [], ◌∷◌, ◌==◌, length, ltb, if◌then◌else◌, Result, ok,
  err,
}
use node_agent.Prelude.Int.{ℤ}
use node_agent.Common.{User}
use node_agent.Controller.Chunks.{build_users_from_chunks}
use node_agent.Controller.Node.{
  Setup, stats, user_online_stats, user_online_ip_list_stats, backend_stats, Failure, Backends,
  Controller, system_stats, outbounds_latency_of, BaseInfo, new_request, disconnect, base_info,
  start_session,
}
use node_agent.Controller.Node.Rest.{Chunk, Chunked, receive, intercept_not_found}

pub data RpcError : Type 0 where
  unauthenticated invalid_argument permission_denied unavailable internal unknown : RpcError
  of_code : ℕ → RpcError

-- A stream of users ends with the first message that cannot be received; a stream of chunks
-- has those that can be received, and ends or breaks. The text of a start is the client's address; the stream of logs
-- ends with the client, or else with an error.
pub data Call : Type 0 where
  start : Setup → String → Call
  get_base_info stop : Call
  sync_user : List User → Call
  sync_users : List User → Call
  sync_users_chunked : List Chunk → Bool → Call
  get_stats get_user_online_stats get_user_online_ip_list_stats get_backend_stats : Call
  get_system_stats get_outbounds_latency : Call
  get_logs : Bool → Call

abbrev pub Reply : Type 0
Reply = Result RpcError (Option BaseInfo)

module _ {B W Uuid : Type 0} (x : Backends B W) (parse_uuid : String → Option Uuid)
    (same_uuid : Uuid → Uuid → Bool) where
  unfoldable pub validate_api_key : Uuid → Option (List String) → Result RpcError (Unit {0})
  validate_api_key api_key none = err unauthenticated
  validate_api_key api_key (some []) = err unauthenticated
  validate_api_key api_key (some (key ∷ keys)) = elim (parse_uuid key) [
    | none ↦ err invalid_argument
    | some k ↦ if same_uuid k api_key then ok tt else err permission_denied
  ]

  unfoldable pub check_backend_status : Controller B → W → Result RpcError B
  check_backend_status c w = elim c.backend [
    | none ↦ err unavailable
    | some b ↦ if x.started b w then ok b else err unavailable
  ]

  abbrev start_reply : Result String (Unit {0}) × Controller B × W → Reply × Controller B × W
  start_reply (ok _, c, w) = (ok (some (base_info x c w)), c, w)
  start_reply (err e, c, w) = (err unknown, c, w)

  unfoldable pub sync_stream : List User → B → W → Reply × W
  sync_stream [] b w = (ok none, w)
  sync_stream (u ∷ us) b w =
      let (reply, w') = x.sync_user u b w in
      let later = sync_stream us b w' in
      if u.email == ""
      then (err unknown, w)
      else elim reply [ err e ↦ (err internal, w') | ok _ ↦ later ]

  abbrev replied : RpcError → Result String (Unit {0}) × W → Reply × W
  replied code (ok _, w) = (ok none, w)
  replied code (err e, w) = (err code, w)

  unfoldable pub apply_chunks : Option Chunked → B → W → Reply × W
  unfolding build_users_from_chunks
  apply_chunks none b w = (err internal, w)
  apply_chunks (some k) b w = elim (build_users_from_chunks k.chunks k.last_index k.saw_last) [
    | err e ↦ (err invalid_argument, w)
    | ok us ↦
        replied internal
          (if ltb 100 (length us) then x.update_users_and_restart us b w else x.update_users us b w)
  ]

  abbrev on_world : Controller B → Reply × W → Reply × Controller B × W
  on_world c (reply, w) = (reply, c, w)

  abbrev queried : (Failure → ℕ) → Result Failure (Unit {0}) × W → Reply × W
  queried code (ok _, w) = (ok none, w)
  queried code (err e, w) = (err (of_code (code e)), w)

  -- The handlers of the methods in backendMethods.
  unfoldable pub handle : Call → B → Controller B → W → Reply × Controller B × W
  unfolding disconnect sync_stream apply_chunks receive
  handle (start s ip) b c w = (err unknown, c, w)
  handle get_base_info b c w = (err unknown, c, w)
  handle stop b c w = let (c', w') = disconnect x c w in (ok none, c', w')
  handle (sync_user us) b c w = on_world c (sync_stream us b w)
  handle (sync_users us) b c w = on_world c (replied unknown (x.sync_users us b w))
  handle (sync_users_chunked ks broken) b c w = on_world c (apply_chunks (receive ks broken) b w)
  handle get_stats b c w = on_world c (queried intercept_not_found (x.query stats b w))
  handle get_user_online_stats b c w =
      on_world c (queried intercept_not_found (x.query user_online_stats b w))
  handle get_user_online_ip_list_stats b c w =
      on_world c (queried intercept_not_found (x.query user_online_ip_list_stats b w))
  handle get_backend_stats b c w = on_world c (queried (λ e. e.code) (x.query backend_stats b w))
  handle get_system_stats b c w = (ok none, c, system_stats x c w)
  handle get_outbounds_latency b c w = (err unknown, c, w)
  handle (get_logs left) b c w = (if left then ok none else err unknown, c, x.read_logs b w)

  unfoldable pub with_backend : Call → Controller B → W → Reply × Controller B × W
  unfolding check_backend_status handle
  with_backend r c w = elim (check_backend_status c w) [
    | err e ↦ (err e, c, w)
    | ok b ↦ handle r b c w
  ]

  unfoldable pub dispatch : ℤ → Call → Controller B → W → Reply × Controller B × W
  unfolding start_session with_backend base_info
  dispatch now (start s ip) c w = start_reply (start_session x now ip s c w)
  dispatch now get_base_info c w = (ok (some (base_info x c w)), c, w)
  dispatch now stop c w = with_backend stop c w
  dispatch now (sync_user us) c w = with_backend (sync_user us) c w
  dispatch now (sync_users us) c w = with_backend (sync_users us) c w
  dispatch now (sync_users_chunked ks broken) c w = with_backend (sync_users_chunked ks broken) c w
  dispatch now get_stats c w = with_backend get_stats c w
  dispatch now get_user_online_stats c w = with_backend get_user_online_stats c w
  dispatch now get_user_online_ip_list_stats c w = with_backend get_user_online_ip_list_stats c w
  dispatch now get_backend_stats c w = with_backend get_backend_stats c w
  dispatch now get_system_stats c w = with_backend get_system_stats c w
  dispatch now (get_logs left) c w = with_backend (get_logs left) c w
  dispatch now get_outbounds_latency c w =
      on_world c (queried (λ e. e.code) (outbounds_latency_of x c w))

  -- LoggingInterceptor.
  abbrev track : ℤ → Reply × Controller B × W → Reply × Controller B × W
  track now (ok info, c, w) = (ok info, new_request now c, w)
  track now (err e, c, w) = (err e, c, w)

  unfoldable pub serve :
      Uuid → ℤ → Option (List String) → Call → Controller B → W → Reply × Controller B × W
  unfolding validate_api_key dispatch
  serve api_key now keys r c w = elim (validate_api_key api_key keys) [
    | err e ↦ (err e, c, w)
    | ok _ ↦ track now (dispatch now r c w)
  ]
