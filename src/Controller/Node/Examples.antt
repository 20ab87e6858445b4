-- ===== src/Controller/Node/Examples.antt =====
-- A session at concrete requests. A backend is its number, the world the number of free ports taken;
-- a UUID is its text.
use node_agent.Prelude.{
  ℕ, suc, String, ◌≡◌, ◌⊎◌, refl, true, Option, none, some, List, [], ◌∷◌, ◌==◌, if◌then◌else◌, ok,
  err,
}
use node_agent.Prelude.Int.{◌-ℤ◌, wrap64, ℤ, pos}
use node_agent.Controller.Node.{Backends, Controller, Setup, wireguard}
use node_agent.Controller.Node.Rest
use node_agent.Controller.Node.Rpc
use node_agent.Controller.Node.Settled.{Event, rest, rpc, tick, step, run, IsSettled, run-IsSettled}
use node_agent.Controller.Node.Guarded.{IsAdmitted, step-MayChange}

abbrev backends : Backends ℕ ℕ
backends = record {
  new_xray = λ s a m w. (err "no core", w);
  new_wireguard = λ s w. (ok w, w);
  started = λ b w. true;
  version = λ b w. "1.0";
  shutdown = λ b w. w;
  sync_user = λ u b w. (ok tt, w);
  sync_users = λ us b w. (ok tt, w);
  update_users = λ us b w. (ok tt, w);
  update_users_and_restart = λ us b w. (ok tt, w);
  query = λ q b w. (ok tt, w);
  read_logs = λ b w. w;
  find_free_port = λ w. (w, suc w);
}

abbrev parse : String → Option String
parse s = if s == "" then none else some s

abbrev new : Controller ℕ
new = record {
  backend = none;
  api_port = 1;
  metric_port = 2;
  client_ip = "";
  last_request = pos 0;
  keep_alive = none;
}

abbrev setup : Setup
setup = record {
  type = wireguard;
  config = "{}";
  users = [];
  keep_alive = 60;
  exclude_inbounds = [];
}

abbrev starting : Event
starting = rest "key" (Rest.start (some setup) (some "10.0.0.1"))

abbrev events : List (ℤ × Event)
events = (pos 5, starting) ∷ (pos 70000000000, tick) ∷ (pos 70000000001, rpc none Rpc.stop) ∷ []

new-IsSettled : IsSettled new
new-IsSettled e = (refl, refl)

started : (step backends parse ◌==◌ "key" (pos 5) starting new 3).0.backend ≡ some 3
unfolding step
started = refl

ended : (run backends parse ◌==◌ "key" events new 3).0.backend ≡ none
unfolding run step wrap64 ◌-ℤ◌
ended = refl

run-IsSettled_example : IsSettled (run backends parse ◌==◌ "key" events new 3).0
run-IsSettled_example = run-IsSettled backends parse ◌==◌ "key" events new 3 new-IsSettled

step-MayChange_example :
    (step backends parse ◌==◌ "key" (pos 5) (rest "other" Rest.stop) new 3 ≡ (new, 3))
    ⊎ IsAdmitted backends parse ◌==◌ "key" (pos 5) (rest "other" Rest.stop) new 3
step-MayChange_example =
    step-MayChange backends parse ◌==◌ "key" (pos 5) (rest "other" Rest.stop) new 3
