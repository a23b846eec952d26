-- ===== src/Dns/DynamicStore.antt =====
-- internal/dnsdyn/dynamic.configure.go: the store of dynamic records with its client. `ConfigClient` is
-- github.com/meidoworks/nekoq-component, with a client that has the state `C`.
use nekoq_bootstrap.Base.{
  Error, List, Option, Outcome, Text, [], and_then, codes, err, none, ok, panic, some,
}
use nekoq_bootstrap.Base.Io.{Io, continue, each}
use nekoq_bootstrap.Dns.Dynamic.{ConfigureContainer, ParsedIp, dyn_resolve_domain, process}
use nekoq_bootstrap.MemStore.Model.{Resolver}

-- The waiting for the first load also says which configurations the client delivers meanwhile. Stopping
-- takes a pointer that may be nil.
pub record ConfigClient (C : Type 0) : Type 0 where
  pub fill : Text → Outcome (Unit {0})
  pub new_client : List Text → C
  pub register : Io C (Unit {0})
  pub start_client : Io C (Unit {0})
  pub wait_loaded : C → List ConfigureContainer × (C × Outcome (Unit {0}))
  pub stop_client : Io (Option C) (Unit {0})

pub record DnsDynConfStore (C : Type 0) : Type 0 where
  pub server_lists : List Text
  pub client : Option C
  pub container : ConfigureContainer

unfoldable pub new_resolve_container : ConfigureContainer
new_resolve_container = record { a = []; txt = []; srv = []; ptr = []; aaaa = [] }

-- After an error the deferred call stops the client; an error of that is logged.
abbrev pub after_stop : Error → Outcome (Unit {0}) → Outcome (Unit {0})
after_stop e (ok _) = err e
after_stop e (err _) = err e
after_stop e panic = panic

module _ (fqdn : Text → Text) (parse_ip : Text → Option ParsedIp) {C : Type 0}
    (api : ConfigClient C) where
  unfoldable pub new_dns_dyn_conf_store : List Text → DnsDynConfStore C
  new_dns_dyn_conf_store servers = record {
    server_lists = servers;
    client = none;
    container = new_resolve_container;
  }

  unfoldable pub on_change : ConfigureContainer → Io (DnsDynConfStore C) (Unit {0})
  on_change c d = elim (process fqdn parse_ip c) [
    | ok rc ↦ (record d { container = rc }, ok tt)
    | err e ↦ (d, ok tt)
    | panic ↦ (d, panic)
  ]

  unfoldable pub stop : Io (DnsDynConfStore C) (Unit {0})
  stop d = let (client', o) = api.stop_client d.client in (record d { client = client' }, o)

  -- The waiting, in which the configurations that are delivered are taken.
  unfoldable pub wait_startup : C → Io (DnsDynConfStore C) (Unit {0})
  wait_startup c d =
      let (delivered, (c', o)) = api.wait_loaded c in
      let (d', taken) = each on_change delivered (record d { client = some c' }) in
      (d', and_then taken (λ _. o))

  unfoldable pub start_registered : C → Io (DnsDynConfStore C) (Unit {0})
  start_registered c d =
      let (c', o) = api.start_client c in
      elim o [
        | ok _ ↦ wait_startup c' d
        | err e ↦
            let (client', o') = api.stop_client (some c') in
            (record d { client = client' }, after_stop e o')
        | panic ↦ (record d { client = some c' }, panic)
      ]

  unfoldable pub startup : Io (DnsDynConfStore C) (Unit {0})
  startup d =
      continue (api.fill (codes "app=nekoq-bootstrap,dc=default,env=PROD"))
        (λ _ d'.
          let (c, o) = api.register (api.new_client d'.server_lists) in
          elim o [
            | ok _ ↦ start_registered c (record d' { client = some c })
            | err e ↦ (d', after_stop e (api.stop_client (some c)).1)
            | panic ↦ (d', panic)
          ])
        d

  -- NewDnsDynConfStore and Startup, as the program starts with them
  unfoldable pub started_store : List Text → Outcome Resolver
  started_store servers =
      let (d, o) = startup (new_dns_dyn_conf_store servers) in
      and_then o (λ _. ok (dyn_resolve_domain d.container))
