-- ===== src/Controller/Node/Settled.antt =====
-- What the requests and the ticks leave of a session that has ended.
use node_agent.Prelude.{String, ◌≡◌, Bool, Option, none, some, List, [], ◌∷◌, arith}
use node_agent.Prelude.Int.{ℤ}
use node_agent.Controller.Node.{
  Setup, Backends, Controller, disconnect, start_backend, start_session, keep_alive_tick,
}
use node_agent.Controller.Node.Rest
use node_agent.Controller.Node.Rpc

-- Without a backend, no client is known and no tracker runs.
abbrev pub IsSettled : {B : Type 0} → Controller B → Type 0
IsSettled c = c.backend ≡ none → (c.client_ip ≡ "") × (c.keep_alive ≡ none)

pub data Event : Type 0 where
  rest : String → Rest.Request → Event
  rpc : Option (List String) → Rpc.Call → Event
  tick : Event

module _ {B W Uuid : Type 0} (x : Backends B W) (parse_uuid : String → Option Uuid)
    (same_uuid : Uuid → Uuid → Bool) (api_key : Uuid) where
  unfoldable pub step : ℤ → Event → Controller B → W → Controller B × W
  unfolding Rest.serve Rpc.serve keep_alive_tick
  step now (rest key r) c w =
      let (answer, c', w') = Rest.serve x parse_uuid same_uuid api_key now key r c w in (c', w')
  step now (rpc keys r) c w =
      let (reply, c', w') = Rpc.serve x parse_uuid same_uuid api_key now keys r c w in (c', w')
  step now tick c w = keep_alive_tick x now c w

  unfoldable pub run : List (ℤ × Event) → Controller B → W → Controller B × W
  run [] c w = (c, w)
  run ((now, e) ∷ events) c w = let (c', w') = step now e c w in run events c' w'

  start_session-IsSettled :
      (now : ℤ) (ip : String) (s : Setup) (c : Controller B) (w : W)
      → IsSettled c
      → IsSettled (start_session x now ip s c w).1
  unfolding start_session start_backend disconnect
  start_session-IsSettled now ip s c w h e = ground arith

  rest-IsSettled :
      (now : ℤ) (key : String) (r : Rest.Request) (c : Controller B) (w : W)
      → IsSettled c
      → IsSettled (Rest.serve x parse_uuid same_uuid api_key now key r c w).1
  unfolding Rest.serve Rest.route Rest.serve_start Rest.check_backend Rest.handle disconnect
  rest-IsSettled now key (Rest.start none ip) c w h e = ground arith
  rest-IsSettled now key (Rest.start (some s) none) c w h e = ground arith
  rest-IsSettled now key (Rest.start (some s) (some ip)) c w h e =
      ground (arith, start_session-IsSettled now ip s c w h)
  rest-IsSettled now key r c w h e = ground arith

  rpc-IsSettled :
      (now : ℤ) (keys : Option (List String)) (r : Rpc.Call) (c : Controller B) (w : W)
      → IsSettled c
      → IsSettled (Rpc.serve x parse_uuid same_uuid api_key now keys r c w).1
  unfolding Rpc.serve Rpc.dispatch Rpc.with_backend Rpc.handle disconnect
  rpc-IsSettled now keys (Rpc.start s ip) c w h e =
      ground (arith, start_session-IsSettled now ip s c w h)
  rpc-IsSettled now keys r c w h e = ground arith

  -- Whatever requests come over HTTP and over gRPC, in any order but one after another, each ended
  -- before the next begins, with the ticks of the tracker between them: where there is no backend at
  -- the end, no client is known and no tracker runs. Condition: this held before.
  pub run-IsSettled :
      (events : List (ℤ × Event)) (c : Controller B) (w : W)
      → IsSettled c
      → IsSettled (run events c w).0
  unfolding run step keep_alive_tick disconnect
  run-IsSettled [] c w h = h
  run-IsSettled ((now, rest key r) ∷ events) c w h =
      let (answer, c', w') = Rest.serve x parse_uuid same_uuid api_key now key r c w in
      run-IsSettled events c' w' (rest-IsSettled now key r c w h)
  run-IsSettled ((now, rpc keys r) ∷ events) c w h =
      let (reply, c', w') = Rpc.serve x parse_uuid same_uuid api_key now keys r c w in
      run-IsSettled events c' w' (rpc-IsSettled now keys r c w h)
  run-IsSettled ((now, tick) ∷ events) c w h =
      let (c', w') = keep_alive_tick x now c w in run-IsSettled events c' w' (λ e. ground arith)
