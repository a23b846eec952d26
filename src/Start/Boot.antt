-- ===== src/Start/Boot.antt =====
-- cmd/nekoq-bootstrap/main.go: the configuration and the parts that are made of it, which share one
-- store. `parse_address` is net/url at the addresses, `api` the client that loads dynamic records.
use nekoq_bootstrap.Base.{
  Bool, List, Option, Outcome, Text, [], codes, err, if◌then◌else◌, nat_key, none, ok, panic, some,
  text_key, ◌==◌, ◌>>=◌, ◌∷◌,
}
use nekoq_bootstrap.Base.Maps.{Map}
use nekoq_bootstrap.Dns.Dynamic.{ParsedIp, add_ip_reverse_dns_to_storage}
use nekoq_bootstrap.Dns.DynamicStore.{ConfigClient, started_store}
use nekoq_bootstrap.Dns.Message.{DnsLib}
use nekoq_bootstrap.Dns.Server.{DnsEndpoint, new_dns_endpoint}
use nekoq_bootstrap.Dns.Upstream.{EnclosureDomain}
use nekoq_bootstrap.Ha.Endpoint.{HttpEndpoint, new_http_endpoint}
use nekoq_bootstrap.Ha.Module.{HaModule, new_ha_module}
use nekoq_bootstrap.MemStore.Domains.{domain_type_key, new_mem_store, put_domain, resolve_domain}
use nekoq_bootstrap.MemStore.Model.{
  DomainType, MemStore, Resolver, domain_type_a, domain_type_srv, domain_type_txt,
}

pub record Config : Type 0 where
  pub storage_provider : Text
  pub cluster_name : Text
  pub cluster_secret : Text
  pub node_name : Text
  pub nodes : Map Text Text
  pub dns_enable : Bool
  pub dns_address : Text
  pub dns_http_address : Text
  pub upstream_dns_servers : List Text
  pub rules_a : Map Text Text
  pub rules_txt : Map Text Text
  pub rules_srv : Map Text Text
  pub rules_ptr : Map Text Text
  -- The servers of dynamic records, where there are any.
  pub dyn_servers : Option (List Text)
  pub http_listener : Text
  pub enable_auth : Bool
  pub access_password : Text
  pub enclosure_domains : List EnclosureDomain

pub record Program (Ip : Type 0) : Type 0 where
  pub storage : MemStore
  pub ha : HaModule
  pub dns : Option (DnsEndpoint Ip)
  pub http : HttpEndpoint

-- convertEnclosureDomainSuffix: the loop that copies the rules of the upstream.
unfoldable pub convert_enclosure_domain_suffix : List EnclosureDomain → List EnclosureDomain
convert_enclosure_domain_suffix [] = []
convert_enclosure_domain_suffix (v ∷ input) =
    record { kind = v.kind; suffix = v.suffix } ∷ convert_enclosure_domain_suffix input

-- An error of a step of the start panics.
abbrev pub must {ℓ} : {A : Type ℓ} → Outcome A → Outcome A
must (ok a) = ok a
must (err e) = panic
must panic = panic

module _ {Ip : Type 0} (lib : DnsLib Ip) (parse_ip : Text → Option ParsedIp)
    (parse_address : Text → Outcome Text) {C : Type 0} (api : ConfigClient C) where
  -- for k, v := range rules { storage.PutDomain(k, v, kind) }
  unfoldable pub put_rules : DomainType → Map Text Text → MemStore → MemStore
  put_rules kind [] m = m
  put_rules kind ((k, v) ∷ rules) m = put_rules kind rules (put_domain lib.fqdn m k v kind)

  unfoldable pub put_ptr_rules : Map Text Text → MemStore → Outcome MemStore
  put_ptr_rules [] m = ok m
  put_ptr_rules ((ip, domain) ∷ rules) m =
      must (add_ip_reverse_dns_to_storage lib.fqdn parse_ip m ip domain) >>= λ m'.
      put_ptr_rules rules m'

  unfoldable pub dns_stores_of : Option (List Text) → Outcome (List Resolver)
  dns_stores_of none = ok []
  dns_stores_of (some servers) =
      must (started_store lib.fqdn parse_ip api servers) >>= λ store. ok (store ∷ [])

  unfoldable pub storage_of : Text → List Resolver → Outcome MemStore
  storage_of provider stores = if provider == codes "mem" then ok (new_mem_store stores) else panic

  unfoldable pub static_rules : Config → MemStore → Outcome MemStore
  static_rules c m = put_ptr_rules c.rules_ptr (
      put_rules domain_type_srv c.rules_srv
        (put_rules domain_type_txt c.rules_txt (put_rules domain_type_a c.rules_a m)))

  unfoldable pub start_dns : Config → MemStore → Outcome (MemStore × Option (DnsEndpoint Ip))
  start_dns c m =
      if c.dns_enable
      then (static_rules c m >>= λ m'. must (parse_address c.dns_address) >>= λ host.
          must (parse_address c.dns_http_address) >>= λ http_host. ok (
            m',
            some (
                new_dns_endpoint lib (resolve_domain m') c.upstream_dns_servers
                  (convert_enclosure_domain_suffix c.enclosure_domains)),
          ))
      else ok (m, none)

  -- main, up to the goroutines that serve.
  unfoldable pub boot : Config → Outcome (Program Ip)
  boot c = dns_stores_of c.dyn_servers >>= λ stores. storage_of c.storage_provider stores >>= λ m.
      start_dns c m >>= λ started. must (parse_address c.http_listener) >>= λ host. ok (record {
        storage = started.0;
        ha = new_ha_module c.node_name c.cluster_name c.cluster_secret c.nodes started.0;
        dns = started.1;
        http = new_http_endpoint started.0 c.enable_auth c.access_password;
      })
