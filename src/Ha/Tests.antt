-- ===== src/Ha/Tests.antt =====
-- Examples of a cluster of two nodes and of a client that falls silent.
use nekoq_bootstrap.Base.{
  List, Option, Outcome, Text, [], arith, codes, drop, err, false, nat_key, none, not_ok, ok, refl,
  some, text_key, text_same, true, ℕ, ◌+◌, ◌∷◌, ◌≡◌, ◌≤◌,
}
use nekoq_bootstrap.Base.Maps.{Map, insert, is_empty, lookup, lookup-singleton}
use nekoq_bootstrap.Ha.Calls.{WireTrips}
use nekoq_bootstrap.Ha.Endpoint.{HttpEndpoint, PublicClient, check_publish_clients}
use nekoq_bootstrap.Ha.Expiry.{check_publish_clients-expired}
use nekoq_bootstrap.Ha.Following.{IsWell, worker_turn-IsWell}
use nekoq_bootstrap.Ha.Module.{
  HaModule, PeerRequest, admit, check_peer_health, health_interval, http_cluster_full, is_member,
  late_nodes, new_ha_module, unwatch_all, update_client_time,
}
use nekoq_bootstrap.Ha.Net.{Send, UrlLib, Wire, identity, inner_url_resolve, serve_cluster}
use nekoq_bootstrap.Ha.Recovering.{worker_run, worker_run-recovers}
use nekoq_bootstrap.Ha.Session.{
  Event, Session, UpToDate, at_node, session_follows, session_run, session_step, turns,
}
use nekoq_bootstrap.Ha.Watching.{HaCall, check_peer_health-recent, fulls, ha_run, ha_step}
use nekoq_bootstrap.Ha.Worker.{Turn, following, main_loop, worker_turn}
use nekoq_bootstrap.MemStore.Convergence.{IsSettled}
use nekoq_bootstrap.MemStore.Domains.{new_mem_store, resolve_domain, resolve_nested, resolve_static}
use nekoq_bootstrap.MemStore.History.{IsSettled-new, publishes}
use nekoq_bootstrap.MemStore.Model.{Json}
use nekoq_bootstrap.MemStore.Peers.{add_watch, default_data_key, fetch_full_and_watch, no_changes}
use nekoq_bootstrap.MemStore.PlainJson.{Bytes, plain_json, trips_list, trips_node}
use nekoq_bootstrap.MemStore.Services.{addr_of}

abbrev no_json : Json Text
no_json = record {
  marshal_node_data = λ d. some [];
  unmarshal_node_data = λ b. some (record { service_mapping = some [] });
  marshal_list = λ l. some [];
  unmarshal_list = λ b. some [];
}

abbrev from_peer : PeerRequest
from_peer = record { from = codes "p"; name = codes "c"; secret = codes "s" }

abbrev asked : List HaCall
asked = fulls from_peer 1000 ∷ []

abbrev module_after : HaModule
module_after =
    ha_run no_json (new_ha_module (codes "n") (codes "c") (codes "s") [] (new_mem_store [])) asked

still_watched :
    lookup (codes "p") (check_peer_health module_after 21000).storage.data_to ≡ some no_changes
unfolding check_peer_health ha_run ha_step http_cluster_full admit update_client_time
    fetch_full_and_watch add_watch lookup unwatch_all late_nodes new_ha_module text_same insert
    new_mem_store
still_watched = refl

check_peer_health-recent_example :
    (t : ℕ) × (lookup (codes "p") module_after.client_peer_mapping ≡ some t)
    × (21000 ≤ t + health_interval)
check_peer_health-recent_example =
    check_peer_health-recent no_json (codes "n") (codes "c") (codes "s") [] [] asked 21000
      (codes "p") no_changes module_after refl still_watched

abbrev quiet_turn : Turn Text
quiet_turn = record {
  connected = ok tt;
  full_data = ok (some ((default_data_key, []) ∷ []));
  changes = ok (some ((default_data_key, []) ∷ []), some ((default_data_key, []) ∷ []));
  random = 3;
}

worker_turn-IsWell_example :
    IsWell (codes "p") (worker_turn no_json (codes "p") (new_mem_store []) main_loop quiet_turn)
worker_turn-IsWell_example =
    worker_turn-IsWell no_json (codes "p") (new_mem_store []) main_loop quiet_turn tt

abbrev silent : PublicClient
silent = record {
  last_update = 0;
  publishment = (codes "web", record { addr = codes "10.0.0.1" }) ∷ [];
}

abbrev endpoint : HttpEndpoint
endpoint = record {
  storage = new_mem_store [];
  enable_auth = false;
  access_password = [];
  public_clients = (codes "n1", silent) ∷ [];
}

check_publish_clients-expired_example :
    addr_of
      (check_publish_clients endpoint 20000).storage.current_services
      (codes "web")
      (codes "n1")
    ≡ none
check_publish_clients-expired_example =
    check_publish_clients-expired endpoint 20000 (codes "n1") (codes "web") silent
      (record { addr = codes "10.0.0.1" }) (lookup-singleton (codes "n1") silent) refl
      (lookup-singleton (codes "web") (record { addr = codes "10.0.0.1" }))

-- A node "n" at its address, and the module of a worker "w" that follows it.
data Body : Type 0 where
  nothing : Body
  map_body : Map Text Bytes → Body
  changes_body : Map Text Bytes → Map Text Bytes → Body

abbrev body_map : Body → Outcome (Option (Map Text Bytes))
body_map nothing = err not_ok
body_map (map_body m) = ok (some m)
body_map (changes_body add del) = err not_ok

abbrev body_changes : Body → Outcome (Option (Map Text Bytes) × Option (Map Text Bytes))
body_changes nothing = err not_ok
body_changes (map_body m) = err not_ok
body_changes (changes_body add del) = ok (some add, some del)

abbrev plain_wire : Wire Body Bytes
plain_wire = record {
  no_body = nothing;
  marshal_map = map_body;
  unmarshal_map = body_map;
  marshal_changes = λ c. changes_body c.0 c.1;
  unmarshal_changes = body_changes;
}

abbrev plain_url : UrlLib Text
plain_url = record {
  parse = λ s. ok s;
  hostname = λ u. u;
  port = λ u. [];
  with_host = λ u host. host;
  show = λ u. u;
}

abbrev node_address : Text
node_address = codes "http://n"

abbrev no_route : Text → Text → ℕ × Body
no_route method path = (404, nothing)

abbrev to_node : ℕ → Send HaModule Body
to_node now method url r s =
    let (s', reply) = serve_cluster plain_json plain_wire no_route now method (drop 8 url) r s in
    (s', ok reply)

abbrev plain_trips : WireTrips plain_wire
plain_trips = record { map_trips = λ m. refl; changes_trips = λ add del. refl }

abbrev node_n : HaModule
node_n = new_ha_module (codes "n") (codes "c") (codes "s") [] (new_mem_store [])

abbrev worker_w : HaModule
worker_w = new_ha_module (codes "w") (codes "c") (codes "s") [] (new_mem_store [])

abbrev before : Session
before = record { node = node_n; store = new_mem_store []; phase = main_loop }

w_named : is_empty worker_w.node_id ≡ false
unfolding new_ha_module
w_named = refl

w_member : is_member node_n (identity worker_w) ≡ true
unfolding new_ha_module text_same
w_member = refl

n_settled : IsSettled node_n.storage worker_w.node_id
unfolding new_ha_module
n_settled = IsSettled-new [] (codes "w")

n_found : inner_url_resolve plain_url (λ s. s) (new_mem_store []) node_address ≡ ok node_address
unfolding inner_url_resolve resolve_domain resolve_static resolve_nested new_mem_store lookup
n_found = refl

abbrev some_events : List (Event Bytes)
some_events =
    at_node (publishes (codes "web") (record { addr = codes "10.0.0.1"; node_id = codes "x" }))
    ∷ turns 2000 4
    ∷ []

session_follows_example :
    UpToDate plain_url
      (λ s. s)
      plain_json
      plain_wire
      to_node
      worker_w
      node_address
      (codes "n")
      node_address
      (session_step plain_url
        (λ s. s)
        plain_json
        plain_wire
        to_node
        worker_w
        node_address
        (codes "n")
        (session_run plain_url
          (λ s. s)
          plain_json
          plain_wire
          to_node
          worker_w
          node_address
          (codes "n")
          (session_step plain_url
            (λ s. s)
            plain_json
            plain_wire
            to_node
            worker_w
            node_address
            (codes "n")
            before
            (turns 1000 3))
          some_events)
        (turns 3000 5))
session_follows_example =
    session_follows plain_url (λ s. s) plain_json plain_wire to_node worker_w node_address
      (codes "n") node_address no_route plain_trips trips_node trips_list
      (λ now m v method path. refl) w_named before some_events 1000 3 3000 5 refl w_member n_settled
      n_found (tt, (tt, tt))

abbrev forgotten : Session
forgotten = record { node = node_n; store = new_mem_store []; phase = following 17 2 }

abbrev twelve : List (ℕ × ℕ)
twelve =
    (1, 1)
    ∷ (2, 1)
    ∷ (3, 1)
    ∷ (4, 1)
    ∷ (5, 1)
    ∷ (6, 1)
    ∷ (7, 1)
    ∷ (8, 1)
    ∷ (9, 1)
    ∷ (10, 1)
    ∷ (11, 1)
    ∷ (12, 1)
    ∷ []

w_unknown : lookup worker_w.node_id node_n.client_peer_mapping ≡ none
unfolding new_ha_module lookup
w_unknown = refl

worker_run-recovers_example :
    UpToDate plain_url
      (λ s. s)
      plain_json
      plain_wire
      to_node
      worker_w
      node_address
      (codes "n")
      node_address
      (worker_run plain_url
        (λ s. s)
        plain_json
        plain_wire
        to_node
        worker_w
        node_address
        (codes "n")
        node_address
        forgotten
        twelve)
worker_run-recovers_example =
    worker_run-recovers plain_url (λ s. s) plain_json plain_wire to_node worker_w node_address
      (codes "n") node_address no_route forgotten twelve 17 2 plain_trips trips_node trips_list
      (λ now m v method path. refl) w_named w_member n_settled n_found refl (omega arith)
      (omega arith) w_unknown
