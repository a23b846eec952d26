-- ===== src/Ha/Module.antt =====
-- `HaModule` of core.ha.go and core.ha.peertalk.go: the requests of peers and their health. Times are
-- in milliseconds. `B` is the type of the marshalled bytes of the store.
use nekoq_bootstrap.Base.{
  Bool, List, Outcome, Text, [], err, false, if◌then◌else◌, ltb, nat_key, node_not_exist, none, ok,
  panic, some, text_key, true, ℕ, ◌&&◌, ◌*◌, ◌+◌, ◌==◌, ◌∷◌,
}
use nekoq_bootstrap.Base.Maps.{Map, delete, insert, is_empty, lookup}
use nekoq_bootstrap.MemStore.Model.{Json, MemStore}
use nekoq_bootstrap.MemStore.Peers.{
  fetch_changes_for_peer_node_request, fetch_full_and_watch, unwatch,
}

pub record HaModule : Type 0 where
  pub node_id : Text
  pub storage : MemStore
  pub node_peer_mapping : Map Text Text
  -- node ↦ LastUpdate
  pub client_peer_mapping : Map Text ℕ
  pub cluster_name : Text
  pub cluster_secret : Text

unfoldable pub other_nodes : Text → Map Text Text → Map Text Text
other_nodes node [] = []
other_nodes node ((k, v) ∷ rest) =
    let others = other_nodes node rest in if k == node then others else insert k v others

unfoldable pub new_ha_module : Text → Text → Text → Map Text Text → MemStore → HaModule
new_ha_module node cluster_name cluster_secret peer_mapping storage = record {
  node_id = node;
  storage = storage;
  node_peer_mapping = other_nodes node peer_mapping;
  client_peer_mapping = [];
  cluster_name = cluster_name;
  cluster_secret = cluster_secret;
}

unfoldable pub update_client_time : HaModule → Text → Bool → ℕ → Outcome HaModule
update_client_time ha node fails now =
    if (elim (lookup node ha.client_peer_mapping) [ none ↦ fails | some _ ↦ false ])
    then err node_not_exist
    else ok (record ha { client_peer_mapping = insert node now ha.client_peer_mapping })

-- What a request of a peer carries: the form value `from` and the two headers.
pub record PeerRequest : Type 0 where
  pub from : Text
  pub name : Text
  pub secret : Text

-- A status, and the value that the body is the JSON of.
pub data Reply {ℓ} (A : Type ℓ) : Type ℓ where
  status : ℕ → Reply A
  reply_body : A → Reply A

abbrev pub is_member : HaModule → PeerRequest → Bool
is_member ha r = r.name == ha.cluster_name && r.secret == ha.cluster_secret

-- The checks that the three handlers begin with, and the time of the peer. A handler for a known peer
-- only passes `true`.
unfoldable pub admit {ℓ} :
    {A : Type ℓ}
    → Bool
    → HaModule
    → PeerRequest
    → ℕ
    → (HaModule → HaModule × Reply A)
    → HaModule × Reply A
admit fails ha r now serve =
    if is_empty r.from then (ha, status 400) else elim (update_client_time ha r.from fails now) [
      | ok ha' ↦ (if is_member ha r then serve ha' else (ha', status 401))
      | err e ↦ (ha, status 500)
      | panic ↦ (ha, status 500)
    ]

unfoldable pub http_cluster_auth : HaModule → PeerRequest → ℕ → HaModule × Reply (Unit {0})
http_cluster_auth ha r now = admit false ha r now (λ ha'. (ha', status 200))

abbrev answered {ℓ} : {A : Type ℓ} → Outcome A → Reply A
answered (ok a) = reply_body a
answered (err e) = status 500
answered panic = status 500

module _ {B : Type 0} (json : Json B) where
  unfoldable pub http_cluster_full : HaModule → PeerRequest → ℕ → HaModule × Reply (Map Text B)
  http_cluster_full ha r now = admit false ha r now (λ ha'.
      let (m, dat) = fetch_full_and_watch json ha'.storage r.from in
      (record ha' { storage = m }, answered dat))

  unfoldable pub http_cluster_incremental :
      HaModule → PeerRequest → ℕ → HaModule × Reply (Map Text B × Map Text B)
  http_cluster_incremental ha r now = admit true ha r now (λ ha'.
      let (m, dat) = fetch_changes_for_peer_node_request json ha'.storage r.from in
      (record ha' { storage = m }, answered dat))

abbrev pub health_interval : ℕ
health_interval = 20 * 1000

-- peer.LastUpdate < now - interval
abbrev pub is_late : ℕ → ℕ → Bool
is_late now last_update = ltb (last_update + health_interval) now

-- The nodes whose health check failed, in the order in which they are met.
unfoldable pub late_nodes : ℕ → Map Text ℕ → List Text
late_nodes now [] = []
late_nodes now ((node, last_update) ∷ rest) =
    let later = late_nodes now rest in if is_late now last_update then node ∷ later else later

unfoldable pub unwatch_all : List Text → MemStore → MemStore
unwatch_all [] m = m
unwatch_all (node ∷ nodes) m = unwatch_all nodes (unwatch m node)

unfoldable pub delete_all {ℓ} : {V : Type ℓ} → List Text → Map Text V → Map Text V
delete_all [] m = m
delete_all (node ∷ nodes) m = delete_all nodes (delete node m)

-- One round of CheckPeerHealth.
unfoldable pub check_peer_health : HaModule → ℕ → HaModule
check_peer_health ha now =
    let late = late_nodes now ha.client_peer_mapping in
    record ha {
      storage = unwatch_all late ha.storage;
      client_peer_mapping = delete_all late ha.client_peer_mapping;
    }
