-- ===== src/Ha/Net.antt =====
-- The calls between nodes in core.ha.peertalk.go: what a worker sends and how a node routes it.
-- `UrlLib` is net/url, `Wire` encoding/json at the bodies, and `send` github.com/go-resty/resty: a
-- request and its status and body, on a state of the network.
use nekoq_bootstrap.Base.{
  Error, Option, Outcome, Text, codes, err, external, if◌then◌else◌, ltb, nat_key, nat_same, not_ok,
  ok, panic, text_key, ℕ, ◌%◌, ◌&&◌, ◌++◌, ◌+◌, ◌==◌, ◌∷◌,
}
use nekoq_bootstrap.Base.Io.{Io, lift, pure, raise, ◌>>=◌, ◌>>◌}
use nekoq_bootstrap.Base.Maps.{Map}
use nekoq_bootstrap.Ha.Module.{
  HaModule, PeerRequest, Reply, http_cluster_auth, http_cluster_full, http_cluster_incremental,
  reply_body, status,
}
use nekoq_bootstrap.Ha.Worker.{Phase, Turn, following, main_loop, waiting, worker_turn}
use nekoq_bootstrap.MemStore.Domains.{resolve_domain}
use nekoq_bootstrap.MemStore.Model.{Json, MemStore, domain_type_a}
use nekoq_bootstrap.MemStore.Peers.{abandon}

-- Io do

pub record UrlLib (U : Type 0) : Type 0 where
  pub parse : Text → Outcome U
  pub hostname : U → Text
  pub port : U → Text
  pub with_host : U → Text → U
  pub show : U → Text

-- `W` is the type of bodies. Marshalling a map of bytes does not fail; what is unmarshalled may be a nil
-- map.
pub record Wire (W B : Type 0) : Type 0 where
  pub no_body : W
  pub marshal_map : Map Text B → W
  pub unmarshal_map : W → Outcome (Option (Map Text B))
  pub marshal_changes : Map Text B × Map Text B → W
  pub unmarshal_changes : W → Outcome (Option (Map Text B) × Option (Map Text B))

abbrev pub Send : Type 0 → Type 0 → Type 0
Send S W = Text → Text → PeerRequest → Io S (ℕ × W)

abbrev pub http_auth : Text
http_auth = codes "/cluster/auth"

abbrev pub http_full : Text
http_full = codes "/cluster/full"

abbrev pub http_incremental : Text
http_incremental = codes "/cluster/incremental"

-- The status and the body of a handler's reply.
abbrev pub raw {ℓ} : {W : Type 0} {A : Type ℓ} → W → (A → W) → Reply A → ℕ × W
raw no_body body (status code) = (code, no_body)
raw no_body body (reply_body a) = (200, body a)

-- The address with the host that the store resolves to, if it does; a bad address panics.
unfoldable pub inner_url_resolve :
    {U : Type 0} → UrlLib U → (Text → Text) → MemStore → Text → Outcome Text
inner_url_resolve lib fqdn m addr = elim (lib.parse addr) [
  | ok u ↦ elim (resolve_domain m (fqdn (lib.hostname u)) domain_type_a) [
    | ok r ↦ ok (lib.show (lib.with_host u (r ++ b':' ∷ lib.port u)))
    | err e ↦ ok (lib.show u)
    | panic ↦ panic
  ]
  | err e ↦ panic
  | panic ↦ panic
]

module _ {W B : Type 0} (json : Json B) (wire : Wire W B) where
  -- HttpEndpoint: a node's routes. `unrouted` is what httprouter answers to any other request.
  unfoldable pub serve_cluster :
      (Text → Text → ℕ × W) → ℕ → Text → Text → PeerRequest → HaModule → HaModule × (ℕ × W)
  serve_cluster unrouted now method path r ha =
      if method == codes "POST" && path == http_auth
      then (let (ha', reply) = http_cluster_auth ha r now in
          (ha', raw wire.no_body (λ _. wire.no_body) reply))
      else if method == codes "GET" && path == http_full
      then (let (ha', reply) = http_cluster_full json ha r now in
          (ha', raw wire.no_body wire.marshal_map reply))
      else if method == codes "GET" && path == http_incremental
      then (let (ha', reply) = http_cluster_incremental json ha r now in
          (ha', raw wire.no_body wire.marshal_changes reply))
      else (ha, unrouted method path)

-- What a node sends of itself: the form value `from` and the two headers.
abbrev pub identity : HaModule → PeerRequest
identity ha = record { from = ha.node_id; name = ha.cluster_name; secret = ha.cluster_secret }

-- The body of a reply with status 200.
abbrev pub body_of {ℓ} : {S : Type ℓ} {W : Type 0} → Text → ℕ × W → Io S W
body_of message (code, body) = if nat_same code 200 then pure body else raise (external message)

module _ {S U W B : Type 0} (lib : UrlLib U) (fqdn : Text → Text) (wire : Wire W B)
    (send : Send S W) where
  unfoldable pub connect_remote : HaModule → Text → Io S (Unit {0})
  connect_remote ha host = do
    base ← lift (inner_url_resolve lib fqdn ha.storage host)
    reply ← send (codes "POST") (base ++ http_auth) (identity ha)
    body_of (codes "cluster auth failed") reply
    pure tt

  unfoldable pub query_full_data_set : HaModule → Text → Io S (Option (Map Text B))
  query_full_data_set ha addr = do
    base ← lift (inner_url_resolve lib fqdn ha.storage addr)
    reply ← send (codes "GET") (base ++ http_full) (identity ha)
    body ← body_of (codes "cluster full failed") reply
    lift (wire.unmarshal_map body)

  unfoldable pub query_incremental_data :
      HaModule → Text → Io S (Option (Map Text B) × Option (Map Text B))
  query_incremental_data ha addr = do
    base ← lift (inner_url_resolve lib fqdn ha.storage addr)
    reply ← send (codes "GET") (base ++ http_incremental) (identity ha)
    body ← body_of (codes "cluster incremental failed") reply
    lift (wire.unmarshal_changes body)

  -- The answers of one turn, with the calls that the worker makes in it; an answer that it does not ask
  -- for is an error.
  abbrev pub unasked : Error
  unasked = not_ok

  abbrev pub answers :
      ℕ
      → Outcome (Unit {0})
      → Outcome (Option (Map Text B))
      → Outcome (Option (Map Text B) × Option (Map Text B))
      → Turn B
  answers random connected full changes = record {
    connected = connected;
    full_data = full;
    changes = changes;
    random = random;
  }

  abbrev pub joined_turn : HaModule → Text → ℕ → S × Outcome (Unit {0}) → S × Turn B
  joined_turn ha addr random (s, ok c) =
      let (s', full) = query_full_data_set ha addr s in
      (s', answers random (ok c) full (err unasked))
  joined_turn ha addr random (s, err e) = (s, answers random (err e) (err unasked) (err unasked))
  joined_turn ha addr random (s, panic) = (s, answers random panic (err unasked) (err unasked))

  unfoldable pub turn_over : HaModule → Text → Text → ℕ → Phase → S → S × Turn B
  turn_over ha peer addr random main_loop s =
      let ha' = record ha { storage = abandon ha.storage peer } in
      joined_turn ha' addr random (connect_remote ha' addr s)
  turn_over ha peer addr random (following query_count retry_cnt) s =
      if ltb query_count (random % 20 + 590)
      then (let (s', changes) = query_incremental_data ha addr s in
          (s', answers random (ok tt) (err unasked) changes))
      else (let (s', full) = query_full_data_set ha addr s in
          (s', answers random (ok tt) full (err unasked)))
  turn_over ha peer addr random waiting s = (s, answers random (ok tt) (err unasked) (err unasked))

  -- A turn of PeerSyncWorker for `peer` at `addr`, with the calls that it makes.
  unfoldable pub net_turn :
      Json B → HaModule → Text → Text → ℕ → Phase → S → S × Outcome (MemStore × Phase)
  net_turn json ha peer addr random phase s =
      let (s', t) = turn_over ha peer addr random phase s in
      (s', worker_turn json peer ha.storage phase t)
