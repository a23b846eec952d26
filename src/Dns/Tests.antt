-- ===== src/Dns/Tests.antt =====
-- Examples of the name server with addresses that are texts.
use nekoq_bootstrap.Base.{
  List, Option, Text, [], arith, codes, err, false, if◌then◌else◌, nat_key, none, ok, refl, some,
  storage_not_found, text_key, text_same, ℕ, ◌==◌, ◌||◌, ◌∷◌, ◌≡◌,
}
use nekoq_bootstrap.Base.Io.{Io, each}
use nekoq_bootstrap.Base.Maps.{insert, lookup}
use nekoq_bootstrap.Dns.Base64RoundTrip.{encode64}
use nekoq_bootstrap.Dns.Cache.{
  cache_get, cache_key, cache_put, check_has_valid_ttl, decimal, min_ttl,
}
use nekoq_bootstrap.Dns.Caching.{AllLast, CacheCall, WasPut, cache_get_sound, puts, run_cache}
use nekoq_bootstrap.Dns.Deliveries.{on_changes-resolve}
use nekoq_bootstrap.Dns.Dynamic.{
  ConfigureContainer, ParsedIp, dyn_resolve_domain, ipv4, ipv6, records_of,
}
use nekoq_bootstrap.Dns.DynamicRecords.{arpa_name, record_name, record_value, rule_by}
use nekoq_bootstrap.Dns.DynamicStore.{ConfigClient, DnsDynConfStore, on_change}
use nekoq_bootstrap.Dns.Enclosing.{is_at, is_below, is_enclosed-new_upstream_dns, some_rule}
use nekoq_bootstrap.Dns.Handlers.{answer_header, with_answer}
use nekoq_bootstrap.Dns.Http.{HttpRequest, Packing, dns_message, dns_query}
use nekoq_bootstrap.Dns.HttpServing.{by_get, code_of, dns_query-serve_dns, packed}
use nekoq_bootstrap.Dns.Message.{Msg, Question, rr_a, type_a}
use nekoq_bootstrap.Dns.Server.{DnsEndpoint, process_dns_msg, serve_dns}
use nekoq_bootstrap.Dns.Serving.{serve_dns-put_domain}
use nekoq_bootstrap.Dns.TextLib.{text_lib}
use nekoq_bootstrap.Dns.Upstream.{
  EnclosureDomain, enclosure_key, has_suffix, is_enclosed, new_upstream_dns,
}
use nekoq_bootstrap.MemStore.Domains.{
  domain_type_key, new_mem_store, put_domain, resolve_domain, to_lower,
}
use nekoq_bootstrap.MemStore.Model.{DomainType, MemStore, domain_type_a}
use nekoq_bootstrap.Wal.Names.{hex_digit}

abbrev asked : Question
asked = record { name = codes "a.b."; qtype = 1 }

abbrev request : Msg Text
request = record {
  id = 7;
  opcode = 0;
  rcode = 0;
  question = asked ∷ [];
  answer = [];
  ns = [];
  extra = [];
}

abbrev reply_a : Msg Text
reply_a = record request {
  answer = rr_a (record { name = codes "a.b."; rrtype = 1; ttl = 60 }) (codes "10.0.0.1") ∷ [];
}

abbrev served : List (CacheCall Text)
served = puts asked reply_a 100 ∷ []

hit : cache_get text_lib (run_cache text_lib served) request asked 110 ≡ some reply_a
unfolding cache_get run_cache cache_put check_has_valid_ttl min_ttl cache_key decimal lookup insert
    text_same to_lower has_suffix
hit = refl

cache_get_sound_example :
    (res : Msg Text) × (time : ℕ) × (reply_a ≡ text_lib.copy_set_reply res request)
    × WasPut text_lib served asked res time
    × AllLast res.answer time 110
cache_get_sound_example =
    cache_get_sound text_lib served request reply_a asked 110 ((omega arith), tt) (omega arith) hit

abbrev rules : List EnclosureDomain
rules = record { kind = codes "A"; suffix = codes "b" } ∷ []

is_enclosed-new_upstream_dns_example :
    is_enclosed (new_upstream_dns text_lib rules) (codes "a.b.") 1 ≡ elim (enclosure_key 1) [
      | none ↦ false
      | some key ↦
          some_rule text_lib (is_below text_lib (codes "a.b.")) key rules
          || some_rule text_lib (is_at text_lib (codes "a.b.")) key rules
    ]
is_enclosed-new_upstream_dns_example = is_enclosed-new_upstream_dns text_lib rules (codes "a.b.") 1

abbrev named : MemStore
named = new_mem_store []

abbrev server : DnsEndpoint Text
server = record {
  storage =
      resolve_domain
        (put_domain text_lib.fqdn named (codes "A.b") (codes "10.0.0.1") domain_type_a);
  parent = none;
  cache = [];
}

same_name : to_lower asked.name ≡ text_lib.fqdn (to_lower (codes "A.b"))
unfolding to_lower has_suffix text_same
same_name = refl

no_entry : cache_get text_lib server.cache request asked 100 ≡ none
unfolding cache_get lookup
no_entry = refl

serve_dns-put_domain_example :
    (serve_dns text_lib server request 100).1
    ≡ some (
        with_answer text_lib request
          (rr_a (answer_header text_lib asked type_a) (codes "10.0.0.1")))
serve_dns-put_domain_example =
    serve_dns-put_domain text_lib named (codes "A.b") (codes "10.0.0.1") asked request server 100
      refl refl same_name refl no_entry

abbrev packing_example : Packing Text
packing_example = record { unpack = λ s. ok request; pack = λ m. ok (decimal m.id) }

abbrev query : HttpRequest
query = record {
  method = codes "GET";
  content_type = dns_message;
  accept = codes "text/html,application/dns-message;q=1";
  form_dns = encode64 (codes "abcd");
  body = ok [];
}

dns_query-serve_dns_example :
    ((dns_query text_lib packing_example server query 100 (codes "now")).0
      ≡ (serve_dns text_lib server request 100).0)
    × ((dns_query text_lib packing_example server query 100 (codes "now")).1.content
        ≡ packed text_lib packing_example (serve_dns text_lib server request 100).1)
    × ((dns_query text_lib packing_example server query 100 (codes "now")).1.code
        ≡ code_of text_lib packing_example (process_dns_msg text_lib server request 100).1)
dns_query-serve_dns_example =
    dns_query-serve_dns text_lib packing_example server query (codes "abcd") request 100
      (codes "now") (by_get refl refl (omega arith)) refl refl refl

abbrev one_ip : Text → Option ParsedIp
one_ip s = if s == codes "10.0.0.1" then some (ipv4 10 0 0 1) else none

abbrev quiet_client : ConfigClient ℕ
quiet_client = record {
  fill = λ s. ok tt;
  new_client = λ servers. 0;
  register = λ c. (c, ok tt);
  start_client = λ c. (c, ok tt);
  wait_loaded = λ c. ([], (c, ok tt));
  stop_client = λ c. (c, ok tt);
}

abbrev first_load : ConfigureContainer
first_load = record {
  a = (codes "A.b", codes "10.0.0.1") ∷ [];
  txt = [];
  srv = [];
  ptr = (codes "10.0.0.1", codes "A.b") ∷ [];
  aaaa = [];
}

abbrev next_load : ConfigureContainer
next_load = record first_load { a = (codes "A.b", codes "10.0.0.9") ∷ [] }

abbrev dyn_store : DnsDynConfStore ℕ
dyn_store = record { server_lists = []; client = none; container = first_load }

-- The names of RFC 1035 and RFC 3596.
reversed_octets : arpa_name (ipv4 10 2 0 52) ≡ codes "52.0.2.10.in-addr.arpa"
unfolding decimal
reversed_octets = refl

reversed_nibbles : arpa_name (ipv6 (32 ∷ 1 ∷ 13 ∷ 184 ∷ [])) ≡ codes "8.b.d.0.1.0.0.2.ip6.arpa"
unfolding hex_digit
reversed_nibbles = refl

parses : (parsed : ParsedIp) × (one_ip (codes "10.0.0.1") ≡ some parsed)
unfolding text_same
parses = (ipv4 10 0 0 1, refl)

abbrev taking : Io (DnsDynConfStore ℕ) (Unit {0})
taking = each (on_change text_lib.fqdn one_ip quiet_client) (first_load ∷ next_load ∷ [])

on_changes-resolve_example :
    ((taking dyn_store).1 ≡ ok tt)
    × ((name : Text) (kind : DomainType)
        → dyn_resolve_domain (taking dyn_store).0.container name kind
          ≡ rule_by
              (record_name text_lib.fqdn one_ip kind)
              (record_value text_lib.fqdn one_ip kind)
              (records_of next_load kind)
              (to_lower name)
              (err storage_not_found))
on_changes-resolve_example =
    on_changes-resolve text_lib.fqdn one_ip quiet_client (first_load ∷ []) next_load dyn_store
      ((parses, tt), tt) (parses, tt)
