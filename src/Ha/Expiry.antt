-- ===== src/Ha/Expiry.antt =====
-- A round of CheckPublishClients in endpoint.http.go.
use nekoq_bootstrap.Base.{
  ==_refl, Bool, Bool-cases, List, Text, [], arith, false, inl, inr, nat_key, none, refl, same-eq,
  some, text_key, true, ℕ, ◌==◌, ◌||◌, ◌∙◌, ◌∷◌, ◌≡◌,
}
use nekoq_bootstrap.Base.Maps.{Map, delete, lookup, lookup-delete}
use nekoq_bootstrap.Ha.Endpoint.{
  HttpEndpoint, PublicClient, check_publish_clients, client_of, delete_services, drop_clients,
  expired_clients, has_expired,
}
use nekoq_bootstrap.MemStore.Addresses.{addr_of-remove_item}
use nekoq_bootstrap.MemStore.Model.{MemStore, ServiceInfo, ServiceItem}
use nekoq_bootstrap.MemStore.Services.{addr_of, delete_service}

-- Deleting services of a node brings none back.
delete_services-none :
    (node name other : Text) (publishment : Map Text ServiceInfo) (m : MemStore)
    → addr_of m.current_services name other ≡ none
    → addr_of (delete_services node publishment m).current_services name other ≡ none
unfolding delete_services delete_service
delete_services-none node name other [] m h = h
delete_services-none node name other ((service, v) ∷ rest) m h =
    let item : ServiceItem = record { addr = v.addr; node_id = node } in
    delete_services-none node name other rest (delete_service m service item)
      (ground (arith, addr_of-remove_item m.current_services service item name other, h))

-- Every service that the node published goes.
delete_services-published :
    (node name : Text) (publishment : Map Text ServiceInfo) (m : MemStore) (v : ServiceInfo)
    → lookup name publishment ≡ some v
    → addr_of (delete_services node publishment m).current_services name node ≡ none
unfolding delete_services delete_service lookup
delete_services-published node name [] m v h = cc
delete_services-published node name ((service, u) ∷ rest) m v h =
    let item : ServiceItem = record { addr = u.addr; node_id = node } in
    elim (Bool-cases (service == name)) [
      | inl e ↦ delete_services-none node name node rest (delete_service m service item) (
          addr_of-remove_item m.current_services service item name node ∙ rw (e, ==_refl node) refl)
      | inr e ↦
          delete_services-published node name rest (delete_service m service item) v
            (ground (arith, h, e))
    ]

drop_clients-none :
    (nodes : List Text) (e : HttpEndpoint) (name node : Text)
    → addr_of e.storage.current_services name node ≡ none
    → addr_of (drop_clients nodes e).storage.current_services name node ≡ none
unfolding drop_clients
drop_clients-none [] e name node h = h
drop_clients-none (k ∷ nodes) e name node h =
    let p = (client_of k e.public_clients).publishment in
    drop_clients-none nodes
      (record e {
        storage = delete_services k p e.storage;
        public_clients = delete k e.public_clients;
      })
      name node (delete_services-none k name node p e.storage h)

unfoldable has_name : Text → List Text → Bool
has_name node [] = false
has_name node (k ∷ nodes) = k == node || has_name node nodes

drop_clients-published :
    (nodes : List Text) (e : HttpEndpoint) (name node : Text) (p : PublicClient) (v : ServiceInfo)
    → has_name node nodes ≡ true
    → lookup node e.public_clients ≡ some p
    → lookup name p.publishment ≡ some v
    → addr_of (drop_clients nodes e).storage.current_services name node ≡ none
unfolding drop_clients has_name
drop_clients-published [] e name node p v m h l = cc
drop_clients-published (k ∷ nodes) e name node p v m h l =
    let ps = (client_of k e.public_clients).publishment in
    let e' : HttpEndpoint = record e {
      storage = delete_services k ps e.storage;
      public_clients = delete k e.public_clients;
    } in
    elim (Bool-cases (k == node)) [
      | inl x ↦
          let same : k ≡ node = same-eq k node x in
          drop_clients-none nodes e' name node (
            rw same (
              delete_services-published node name (client_of node e.public_clients).publishment
                e.storage v (rw (client_of, h) l)))
      | inr x ↦
          drop_clients-published nodes e' name node p v (ground (arith, m, x))
            (lookup-delete k node e.public_clients ∙ rw x h) l
    ]

expired_clients-has :
    (now : ℕ) (node : Text) (clients : Map Text PublicClient) (p : PublicClient)
    → lookup node clients ≡ some p
    → has_expired now p ≡ true
    → has_name node (expired_clients now clients) ≡ true
unfolding expired_clients has_name lookup
expired_clients-has now node [] p h x = cc
expired_clients-has now node ((k, q) ∷ clients) p h x = elim (Bool-cases (k == node)) [
  | inl e ↦
      let q_p : q ≡ p = ground (arith, h, e) in
      let late : has_expired now q ≡ true = rw q_p x in rw late (rw e refl)
  | inr e ↦
      let ih = expired_clients-has now node clients p (ground (arith, h, e)) x in
      elim (Bool-cases (has_expired now q)) [ inl y ↦ rw y (rw e ih) | inr y ↦ rw y ih ]
]

-- A round of the check takes from the node's own services every service that a client has
-- published, if the last publication of the client is older than the interval.
pub check_publish_clients-expired :
    (e : HttpEndpoint) (now : ℕ) (node name : Text) (p : PublicClient) (v : ServiceInfo)
    → lookup node e.public_clients ≡ some p
    → has_expired now p ≡ true
    → lookup name p.publishment ≡ some v
    → addr_of (check_publish_clients e now).storage.current_services name node ≡ none
unfolding check_publish_clients
check_publish_clients-expired e now node name p v h x l =
    drop_clients-published (expired_clients now e.public_clients) e name node p v
      (expired_clients-has now node e.public_clients p h x) h l
