-- ===== src/Start/Tests.antt =====
-- A start of the program with one rule of type A and a dynamic record.
use nekoq_bootstrap.Base.{
  Option, Outcome, Text, [], codes, false, nat_key, ok, refl, some, text_key, text_same, true, ℕ,
  ◌+◌, ◌∷◌, ◌≡◌,
}
use nekoq_bootstrap.Base.Io.{each}
use nekoq_bootstrap.Base.Maps.{insert}
use nekoq_bootstrap.Dns.Dynamic.{
  ConfigureContainer, ParsedIp, add_ip_reverse_dns_to_storage, dyn_resolve_domain,
  from_ip_address_to_ptr_fqdn, ipv4, lowered, process, ptr_name, reversed,
}
use nekoq_bootstrap.Dns.DynamicRecords.{qualified, rule_by}
use nekoq_bootstrap.Dns.DynamicStore.{
  ConfigClient, new_dns_dyn_conf_store, on_change, start_registered, started_store, startup,
  wait_startup,
}
use nekoq_bootstrap.Dns.Handlers.{answer_header, with_answer}
use nekoq_bootstrap.Dns.Message.{Msg, Question, rr_a, type_a}
use nekoq_bootstrap.Dns.Server.{DnsEndpoint, new_dns_endpoint, serve_dns}
use nekoq_bootstrap.Dns.TextLib.{text_lib}
use nekoq_bootstrap.Dns.Upstream.{has_suffix}
use nekoq_bootstrap.Ha.Endpoint.{new_http_endpoint}
use nekoq_bootstrap.Ha.Module.{new_ha_module}
use nekoq_bootstrap.MemStore.Domains.{
  new_mem_store, put_domain, resolve_domain, resolve_nested, to_lower,
}
use nekoq_bootstrap.MemStore.Model.{MemStore, Resolver, domain_type_a, domain_type_ptr}
use nekoq_bootstrap.Start.Boot.{
  Config, Program, boot, convert_enclosure_domain_suffix, dns_stores_of, put_ptr_rules, put_rules,
  start_dns, static_rules, storage_of,
}
use nekoq_bootstrap.Start.Serving.{boot-serves}

abbrev some_ip : Text → Option ParsedIp
some_ip s = some (ipv4 10 0 0 1)

abbrev any_address : Text → Outcome Text
any_address s = ok s

abbrev loaded : ConfigureContainer
loaded = record {
  a = (codes "C.d", codes "10.0.0.2") ∷ [];
  txt = [];
  srv = [];
  ptr = [];
  aaaa = [];
}

-- A client whose state is the number of its starts, and that delivers one configuration.
abbrev one_load : ConfigClient ℕ
one_load = record {
  fill = λ s. ok tt;
  new_client = λ servers. 0;
  register = λ c. (c, ok tt);
  start_client = λ c. (c + 1, ok tt);
  wait_loaded = λ c. (loaded ∷ [], (c, ok tt));
  stop_client = λ c. (c, ok tt);
}

abbrev config : Config
config = record {
  storage_provider = codes "mem";
  cluster_name = codes "c";
  cluster_secret = codes "s";
  node_name = codes "n1";
  nodes = [];
  dns_enable = true;
  dns_address = codes "udp://:53";
  dns_http_address = codes "http://:80";
  upstream_dns_servers = [];
  rules_a = (codes "A.b", codes "10.0.0.1") ∷ [];
  rules_txt = [];
  rules_srv = [];
  rules_ptr = (codes "10.0.0.1", codes "a.b") ∷ [];
  dyn_servers = some (codes "http://c" ∷ []);
  http_listener = codes "http://:81";
  enable_auth = false;
  access_password = [];
  enclosure_domains = [];
}

abbrev dynamic : Resolver
dynamic =
    dyn_resolve_domain (record {
      a = (codes "c.d.", codes "10.0.0.2") ∷ [];
      txt = [];
      srv = [];
      ptr = [];
      aaaa = [];
    })

abbrev filled : MemStore
filled =
    put_domain text_lib.fqdn
      (put_domain text_lib.fqdn (new_mem_store (dynamic ∷ [])) (codes "A.b") (codes "10.0.0.1")
        domain_type_a)
      (text_lib.fqdn (ptr_name (ipv4 10 0 0 1))) (text_lib.fqdn (to_lower (codes "a.b")))
      domain_type_ptr

abbrev server : DnsEndpoint Text
server = new_dns_endpoint text_lib (resolve_domain filled) [] []

abbrev running : Program Text
running = record {
  storage = filled;
  ha = new_ha_module (codes "n1") (codes "c") (codes "s") [] filled;
  dns = some server;
  http = new_http_endpoint filled false [];
}

abbrev asked : Question
asked = record { name = codes "a.b."; qtype = 1 }

abbrev request : Msg Text
request = record {
  id = 7;
  opcode = 0;
  rcode = 0;
  question = asked ∷ [];
  answer = [];
  ns = [];
  extra = [];
}

loads : dns_stores_of text_lib some_ip any_address one_load config.dyn_servers ≡ ok (dynamic ∷ [])
unfolding dns_stores_of started_store startup start_registered wait_startup new_dns_dyn_conf_store
    each on_change process lowered reversed insert to_lower has_suffix text_same
loads = refl

runs : boot text_lib some_ip any_address one_load config ≡ ok running
unfolding boot convert_enclosure_domain_suffix dns_stores_of started_store startup start_registered
    wait_startup new_dns_dyn_conf_store each on_change process lowered reversed insert to_lower
    has_suffix storage_of start_dns static_rules put_rules put_ptr_rules
    add_ip_reverse_dns_to_storage from_ip_address_to_ptr_fqdn text_same
runs = refl

configured :
    rule_by
      (qualified text_lib.fqdn some_ip)
      (λ w. w)
      config.rules_a
      (to_lower asked.name)
      (resolve_nested (dynamic ∷ []) (to_lower asked.name) domain_type_a)
    ≡ ok (codes "10.0.0.1")
unfolding to_lower has_suffix text_same resolve_nested
configured = refl

boot-serves_example :
    (serve_dns text_lib server request 100).1
    ≡ some (
        with_answer text_lib request
          (rr_a (answer_header text_lib asked type_a) (codes "10.0.0.1")))
boot-serves_example =
    boot-serves text_lib some_ip any_address one_load config (dynamic ∷ []) running server asked
      request 100 (codes "10.0.0.1") loads runs refl refl refl configured
