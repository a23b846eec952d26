-- ===== src/Dns/Upstream.antt =====
-- internal/dnscore/upstream.go. Trace entries of a request are not modelled.
use nekoq_bootstrap.Base.{
  Bool, List, Option, Outcome, Text, [], codes, drop, false, if◌then◌else◌, leb, length, nat_key,
  nat_same, none, not, ok, some, text_key, ℕ, ◌&&◌, ◌++◌, ◌-◌, ◌==◌, ◌||◌, ◌∷◌,
}
use nekoq_bootstrap.Base.Maps.{Map, insert, lookup}
use nekoq_bootstrap.Dns.Message.{
  DnsLib, Msg, Question, rcode_name_error, rcode_success, type_a, type_aaaa, type_ptr, type_srv,
  type_txt,
}
use nekoq_bootstrap.MemStore.Domains.{to_lower}

-- strings.HasPrefix(s, ".") and strings.HasSuffix(s, suffix)
unfoldable pub starts_with_dot : Text → Bool
starts_with_dot [] = false
starts_with_dot (c ∷ s) = nat_same c b'.'

unfoldable pub has_suffix : Text → Text → Bool
has_suffix s suffix = leb (length suffix) (length s) && drop (length s - length suffix) s == suffix

pub record EnclosureDomain : Type 0 where
  pub kind : Text
  pub suffix : Text

abbrev pub Enclosures : Type 0
Enclosures = Map Text (List Text)

pub record UpstreamDns : Type 0 where
  pub enclosure_suffix_map : Enclosures
  pub enclosure_domain_map : Enclosures

-- m[k] = append(m[k], v)
unfoldable pub append_to : Text → Text → Enclosures → Enclosures
append_to k v m = insert k ((elim (lookup k m) [ none ↦ [] | some vs ↦ vs ]) ++ v ∷ []) m

module _ {Ip : Type 0} (lib : DnsLib Ip) where
  unfoldable pub suffix_map : List EnclosureDomain → Enclosures → Enclosures
  suffix_map [] m = m
  suffix_map (v ∷ vs) m =
      let suffix = if starts_with_dot v.suffix then v.suffix else codes "." ++ v.suffix in
      suffix_map vs (append_to v.kind (lib.fqdn suffix) m)

  unfoldable pub domain_map : List EnclosureDomain → Enclosures → Enclosures
  domain_map [] m = m
  domain_map (v ∷ vs) m =
      domain_map vs
        (if has_suffix v.suffix (codes ".") then m else append_to v.kind (lib.fqdn v.suffix) m)

  unfoldable pub new_upstream_dns : List EnclosureDomain → UpstreamDns
  new_upstream_dns suffixes = record {
    enclosure_suffix_map = suffix_map suffixes [];
    enclosure_domain_map = domain_map suffixes [];
  }

  -- NotFoundUpstreamDns.HandleQuestion, which answers NXDOMAIN except to an AAAA question.
  unfoldable pub not_found_upstream : Bool → Msg Ip → Question → Msg Ip
  not_found_upstream respond_nxdomain_for_aaaa m q = lib.set_rcode m (
      if nat_same q.qtype type_aaaa && not respond_nxdomain_for_aaaa
      then rcode_success
      else rcode_name_error)

-- The key of the enclosure maps for a type of question.
unfoldable pub enclosure_key : ℕ → Option Text
enclosure_key qtype =
    if nat_same qtype type_a
    then some (codes "A")
    else if nat_same qtype type_aaaa
    then some (codes "AAAA")
    else if nat_same qtype type_srv
    then some (codes "SRV")
    else if nat_same qtype type_txt
    then some (codes "TXT")
    else if nat_same qtype type_ptr
    then some (codes "PTR")
    else none

unfoldable pub any_suffix : Text → List Text → Bool
any_suffix domain [] = false
any_suffix domain (s ∷ suffixes) = has_suffix domain s || any_suffix domain suffixes

abbrev pub encloses : Text → Option (List Text) → Bool
encloses domain none = false
encloses domain (some suffixes) = any_suffix domain suffixes

-- handleEnclosureDomains: does it answer?
unfoldable pub is_enclosed : UpstreamDns → Text → ℕ → Bool
is_enclosed u domain qtype = elim (enclosure_key qtype) [
  | none ↦ false
  | some key ↦
      encloses domain (lookup key u.enclosure_suffix_map)
      || encloses domain (lookup key u.enclosure_domain_map)
]

module _ {Ip : Type 0} (lib : DnsLib Ip) where
  unfoldable pub handle_upstream : UpstreamDns → Msg Ip → Question → Outcome (Msg Ip)
  handle_upstream u m q =
      if is_enclosed u (to_lower q.name) q.qtype
      then ok (not_found_upstream lib false m q)
      else lib.exchange m
