-- ===== src/Dns/Dynamic.antt =====
-- internal/dnsdyn/dynamic.configure.go and internal/dnscore/handlers.ptr.utils.go: records from a
-- configuration service, and the names of reverse lookups. `parse_ip` is net.ParseIP, as the octets of
-- an IPv4 address or the sixteen bytes of another.
use mathlib.Core.List.{reverse}
use nekoq_bootstrap.Base.{
  List, Option, Outcome, Text, [], codes, err, external, nat_key, none, ok, panic, some,
  storage_not_found, text_key, ℕ, ◌%◌, ◌++◌, ◌/◌, ◌>>=◌, ◌∷◌,
}
use nekoq_bootstrap.Base.Maps.{Map, insert, lookup}
use nekoq_bootstrap.Dns.Cache.{decimal}
use nekoq_bootstrap.MemStore.Domains.{domain_type_key, put_domain, to_lower}
use nekoq_bootstrap.MemStore.Model.{
  DomainType, MemStore, Resolver, domain_type_a, domain_type_aaaa, domain_type_ptr, domain_type_srv,
  domain_type_txt,
}
use nekoq_bootstrap.Wal.Names.{hex_digit}

pub data ParsedIp : Type 0 where
  ipv4 : ℕ → ℕ → ℕ → ℕ → ParsedIp
  ipv6 : List ℕ → ParsedIp

-- hex.EncodeToString
unfoldable pub encode_to_string : List ℕ → Text
encode_to_string [] = []
encode_to_string (b ∷ bytes) = hex_digit (b / 16) ∷ hex_digit (b % 16) ∷ encode_to_string bytes

unfoldable pub dotted : Text → Text
dotted [] = []
dotted (c ∷ s) = c ∷ b'.' ∷ dotted s

unfoldable pub ptr_name : ParsedIp → Text
unfolding encode_to_string dotted
ptr_name (ipv4 a b c d) =
    decimal d ++ b'.' ∷ decimal c ++ b'.' ∷ decimal b ++ b'.' ∷ decimal a ++ codes ".in-addr.arpa"
ptr_name (ipv6 bytes) = dotted (reverse (encode_to_string bytes)) ++ codes "ip6.arpa"

pub record ConfigureContainer : Type 0 where
  pub a : Map Text Text
  pub txt : Map Text Text
  pub srv : Map Text Text
  pub ptr : Map Text Text
  pub aaaa : Map Text Text

module _ (fqdn : Text → Text) (parse_ip : Text → Option ParsedIp) where
  unfoldable pub from_ip_address_to_ptr_fqdn : Text → Outcome Text
  from_ip_address_to_ptr_fqdn ip = elim (parse_ip ip) [
    | none ↦ panic
    | some parsed ↦ ok (fqdn (ptr_name parsed))
  ]

  -- AddIpReverseDnsToStorage
  unfoldable pub add_ip_reverse_dns_to_storage : MemStore → Text → Text → Outcome MemStore
  add_ip_reverse_dns_to_storage m ip domain = elim (parse_ip ip) [
    | none ↦ err (external (codes "invalid IP address"))
    | some parsed ↦
        (from_ip_address_to_ptr_fqdn ip >>= λ r_domain.
        ok (put_domain fqdn m r_domain (fqdn (to_lower domain)) domain_type_ptr))
  ]

  -- The loops of `process`: rc[dns.Fqdn(strings.ToLower(key))] = val
  unfoldable pub lowered : Map Text Text → Map Text Text → Map Text Text
  lowered [] rc = rc
  lowered ((key, val) ∷ container) rc = lowered container (insert (fqdn (to_lower key)) val rc)

  -- Its loop over PTR; an address that does not parse panics.
  unfoldable pub reversed : Map Text Text → Map Text Text → Outcome (Map Text Text)
  reversed [] rc = ok rc
  reversed ((key, val) ∷ container) rc = from_ip_address_to_ptr_fqdn key >>= λ domain.
      reversed container (insert domain (fqdn (to_lower val)) rc)

  -- The container that is stored; the old one stays after a panic.
  unfoldable pub process : ConfigureContainer → Outcome ConfigureContainer
  process c = reversed c.ptr [] >>= λ ptr. ok (record {
    a = lowered c.a [];
    txt = lowered c.txt [];
    srv = lowered c.srv [];
    ptr = ptr;
    aaaa = lowered c.aaaa [];
  })

abbrev pub records_of : ConfigureContainer → DomainType → Map Text Text
records_of c domain_type_a = c.a
records_of c domain_type_txt = c.txt
records_of c domain_type_srv = c.srv
records_of c domain_type_ptr = c.ptr
records_of c domain_type_aaaa = c.aaaa

-- DnsDynConfStore.ResolveDomain
unfoldable pub dyn_resolve_domain : ConfigureContainer → Resolver
dyn_resolve_domain c domain kind = elim (lookup (to_lower domain) (records_of c kind)) [
  | none ↦ err storage_not_found
  | some val ↦ ok val
]
