-- ===== src/Ha/Endpoint.antt =====
-- `HttpEndpoint` of endpoint.http.go: services that clients publish and query. Times are in
-- milliseconds.
use nekoq_bootstrap.Base.{
  Bool, List, Outcome, Text, [], err, if◌then◌else◌, ltb, nat_key, none, not, ok, panic, some,
  text_key, ℕ, ◌&&◌, ◌*◌, ◌+◌, ◌==◌, ◌∷◌,
}
use nekoq_bootstrap.Base.Maps.{Map, delete, insert, lookup}
use nekoq_bootstrap.MemStore.Model.{MemStore, ServiceInfo, ServiceItem}
use nekoq_bootstrap.MemStore.Services.{delete_service, get_service_list, publish_service}

pub record PublicClient : Type 0 where
  pub last_update : ℕ
  pub publishment : Map Text ServiceInfo

pub record HttpEndpoint : Type 0 where
  pub storage : MemStore
  pub enable_auth : Bool
  pub access_password : Text
  pub public_clients : Map Text PublicClient

unfoldable pub new_http_endpoint : MemStore → Bool → Text → HttpEndpoint
new_http_endpoint storage enable_auth access_password = record {
  storage = storage;
  enable_auth = enable_auth;
  access_password = access_password;
  public_clients = [];
}

abbrev pub is_refused : HttpEndpoint → Text → Bool
is_refused e password = e.enable_auth && not (password == e.access_password)

-- The status, or the items that the body is the JSON of.
pub data ServiceReply : Type 0 where
  reply_status : ℕ → ServiceReply
  reply_items : List ServiceItem → ServiceReply

abbrev listed : Outcome (List ServiceItem) → ServiceReply
listed (ok items) = reply_items items
listed (err e) = reply_status 500
listed panic = reply_status 500

unfoldable pub query_service : HttpEndpoint → Text → Text → ServiceReply
query_service e name password =
    if is_refused e password then reply_status 401 else listed (get_service_list e.storage name)

-- The publish list of the client, which a first publication makes.
abbrev pub client_of : Text → Map Text PublicClient → PublicClient
client_of node clients = elim (lookup node clients) [
  | none ↦ record { last_update = 0; publishment = [] }
  | some p ↦ p
]

unfoldable pub note_publishment : HttpEndpoint → Text → Text → Text → ℕ → Map Text PublicClient
note_publishment e name node address now =
    insert node
      (record {
        last_update = now;
        publishment =
            insert name (record { addr = address }) (client_of node e.public_clients).publishment;
      })
      e.public_clients

unfoldable pub publish : HttpEndpoint → Text → Text → Text → Text → ℕ → HttpEndpoint × ServiceReply
publish e name node address password now =
    if is_refused e password then (e, reply_status 401) else (
      record e {
        storage = publish_service e.storage name (record { addr = address; node_id = node });
        public_clients = note_publishment e name node address now;
      },
      reply_status 200,
    )

abbrev pub publish_interval : ℕ
publish_interval = 10 * 1000

abbrev pub has_expired : ℕ → PublicClient → Bool
has_expired now p = ltb (p.last_update + publish_interval) now

unfoldable pub expired_clients : ℕ → Map Text PublicClient → List Text
expired_clients now [] = []
expired_clients now ((k, p) ∷ rest) =
    let later = expired_clients now rest in if has_expired now p then k ∷ later else later

unfoldable pub delete_services : Text → Map Text ServiceInfo → MemStore → MemStore
delete_services node [] m = m
delete_services node ((name, v) ∷ rest) m =
    delete_services node rest (delete_service m name (record { addr = v.addr; node_id = node }))

unfoldable pub drop_clients : List Text → HttpEndpoint → HttpEndpoint
drop_clients [] e = e
drop_clients (node ∷ nodes) e = drop_clients nodes (record e {
  storage = delete_services node (client_of node e.public_clients).publishment e.storage;
  public_clients = delete node e.public_clients;
})

-- One round of CheckPublishClients.
unfoldable pub check_publish_clients : HttpEndpoint → ℕ → HttpEndpoint
check_publish_clients e now = drop_clients (expired_clients now e.public_clients) e
