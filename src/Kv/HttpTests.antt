-- ===== src/Kv/HttpTests.antt =====
-- An example of the store behind the HTTP server.
use nekoq_bootstrap.Base.{
  [], codes, if◌then◌else◌, nat_key, none, ok, refl, some, text_key, text_same, ◌==◌, ◌≡◌,
}
use nekoq_bootstrap.Base.Maps.{insert, lookup}
use nekoq_bootstrap.Kv.Http.{client_path, kv_get, kv_put, trim_space}
use nekoq_bootstrap.Kv.HttpRoundTrip.{get_from, kv_put-kv_get, put_to}
use nekoq_bootstrap.Kv.HttpServer.{
  HttpServiceContainer, add, get_handler, new_handle, put_handler, setup_kv_storage,
}
use nekoq_bootstrap.Kv.PlainRouter.{Routes, plain_router, plain_router-Routing}
use nekoq_bootstrap.Kv.Resp.{KvStorage}
use nekoq_bootstrap.Kv.Shelf.{Shelf}

abbrev map_kv : KvStorage Shelf
map_kv = record { put = λ k v s. (insert k v s, ok tt); get = λ s k. ok (lookup k s) }

abbrev empty_container : HttpServiceContainer Shelf (Routes Shelf)
empty_container = record {
  http = record { router = λ method. none; listen_addr = codes ":80"; server = none };
  kvstor = none;
}

abbrev with_store : HttpServiceContainer Shelf (Routes Shelf)
with_store = record {
  http = record {
    router = λ method.
        if codes "PUT" == method
        then some (codes "/services/kvstore/:key", new_handle (put_handler plain_router map_kv))
        else if codes "GET" == method
        then some (codes "/services/kvstore/:key", new_handle (get_handler plain_router map_kv))
        else none;
    listen_addr = codes ":80";
    server = none;
  };
  kvstor = some map_kv;
}

is_set : setup_kv_storage plain_router map_kv empty_container ≡ ok with_store
unfolding setup_kv_storage add
is_set = refl

trimmed : trim_space (codes "k") ≡ codes "k"
unfolding trim_space
trimmed = refl

is_there : map_kv.get (insert (codes "k") (codes "v") []) (codes "k") ≡ ok (some (codes "v"))
unfolding lookup insert text_same
is_there = refl

abbrev stored : Shelf
stored = insert (codes "k") (codes "v") []

kv_put-kv_get_example :
    (kv_put
        (put_to plain_router
          (λ key. Unit {0})
          plain_router-Routing
          map_kv
          with_store.http.router
          [])
        (codes "k")
        (codes "v")
      ≡ ok tt)
    × ((plain_router.serve_http with_store.http.router
          (codes "PUT")
          (client_path (codes "k"))
          (ok (codes "v"))
          []).0
        ≡ stored)
    × (kv_get
          (get_from plain_router
            (λ key. Unit {0})
            plain_router-Routing
            map_kv
            with_store.http.router
            stored)
          (codes "k")
        ≡ ok (some (codes "v")))
kv_put-kv_get_example =
    kv_put-kv_get plain_router (λ key. Unit {0}) plain_router-Routing map_kv empty_container
      with_store (codes "k") (codes "v") [] stored is_set refl trimmed tt refl is_there
