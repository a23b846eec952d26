-- ===== src/Dns/DynamicRecords.antt =====
-- What is answer_of of records once they are taken (internal/dnsdyn/dynamic.configure.go).
use mathlib.Core.List.{reverse, reverse_aux}
use nekoq_bootstrap.Base.{
  List, Option, Outcome, Text, [], ap, append_assoc, arith, codes, err, if◌then◌else◌, map, nat_key,
  none, ok, refl, some, storage_not_found, sym, text_key, ℕ, ◌%◌, ◌++◌, ◌/◌, ◌==◌, ◌∙◌, ◌∷◌, ◌≡◌,
}
use nekoq_bootstrap.Base.Maps.{Map, insert, lookup, lookup-insert}
use nekoq_bootstrap.Dns.Cache.{decimal}
use nekoq_bootstrap.Dns.Dynamic.{
  ConfigureContainer, ParsedIp, dotted, dyn_resolve_domain, encode_to_string,
  from_ip_address_to_ptr_fqdn, ipv4, ipv6, lowered, process, ptr_name, records_of, reversed,
}
use nekoq_bootstrap.MemStore.Domains.{domain_type_key, to_lower}
use nekoq_bootstrap.MemStore.Model.{
  DomainType, domain_type_a, domain_type_aaaa, domain_type_ptr, domain_type_srv, domain_type_txt,
}
use nekoq_bootstrap.Wal.Names.{hex_digit}

-- The last of some rules for a name, where a rule is for the name that `key` makes of its own, and
-- gives what `val` makes of its value.
abbrev pub rule_by :
    (Text → Text) → (Text → Text) → Map Text Text → Text → Outcome Text → Outcome Text
rule_by key val [] name otherwise = otherwise
rule_by key val ((k, v) ∷ rules) name otherwise =
    rule_by key val rules name (if key k == name then ok (val v) else otherwise)

-- What a lookup in a map answers.
abbrev answer_of : Option Text → Outcome Text
answer_of none = err storage_not_found
answer_of (some v) = ok v

-- A domain name of labels, before a suffix.
abbrev pub from_labels : List Text → Text → Text
from_labels [] suffix = suffix
from_labels (label ∷ labels) suffix = label ++ b'.' ∷ from_labels labels suffix

abbrev pub nibbles : List ℕ → List ℕ
nibbles [] = []
nibbles (b ∷ bytes) = b / 16 ∷ b % 16 ∷ nibbles bytes

-- The name of an address for reverse lookups (RFC 1035 3.5 and RFC 3596 2.5): the labels are the parts
-- of the address from the last one, octets in decimal or half bytes in hexadecimal.
abbrev pub arpa_name : ParsedIp → Text
arpa_name (ipv4 a b c d) =
    from_labels (reverse (map decimal (a ∷ b ∷ c ∷ d ∷ []))) (codes "in-addr.arpa")
arpa_name (ipv6 bytes) =
    from_labels (map (λ n. hex_digit n ∷ []) (reverse (nibbles bytes))) (codes "ip6.arpa")

encode_to_string-nibbles : (bytes : List ℕ) → encode_to_string bytes ≡ map hex_digit (nibbles bytes)
unfolding encode_to_string
encode_to_string-nibbles [] = refl
encode_to_string-nibbles (b ∷ bytes) =
    ap (λ s. hex_digit (b / 16) ∷ hex_digit (b % 16) ∷ s) (encode_to_string-nibbles bytes)

dotted-from_labels :
    (digits : List ℕ) (suffix : Text)
    → dotted (map hex_digit digits) ++ suffix
      ≡ from_labels (map (λ n. hex_digit n ∷ []) digits) suffix
unfolding dotted
dotted-from_labels [] suffix = refl
dotted-from_labels (n ∷ digits) suffix =
    ap (λ s. hex_digit n ∷ b'.' ∷ s) (dotted-from_labels digits suffix)

map-reverse_aux :
    (f : ℕ → ℕ) (s acc : List ℕ) → map f (reverse_aux s acc) ≡ reverse_aux (map f s) (map f acc)
map-reverse_aux f [] acc = refl
map-reverse_aux f (n ∷ s) acc = map-reverse_aux f s (n ∷ acc)

ptr_name-arpa_name : (parsed : ParsedIp) → ptr_name parsed ≡ arpa_name parsed
unfolding ptr_name
ptr_name-arpa_name (ipv4 a b c d) =
    let part : ℕ → Text = λ n. b'.' ∷ decimal n in
    let suffix = codes ".in-addr.arpa" in
    append_assoc (decimal d ++ part c ++ part b) (part a) suffix
    ∙ append_assoc (decimal d ++ part c) (part b) (part a ++ suffix)
    ∙ append_assoc (decimal d) (part c) (part b ++ (part a ++ suffix))
ptr_name-arpa_name (ipv6 bytes) =
    ap (λ s. dotted s ++ codes "ip6.arpa")
      (ap reverse (encode_to_string-nibbles bytes)
        ∙ sym (map-reverse_aux hex_digit (nibbles bytes) []))
    ∙ dotted-from_labels (reverse (nibbles bytes)) (codes "ip6.arpa")

module _ (fqdn : Text → Text) (parse_ip : Text → Option ParsedIp) where
  abbrev pub qualified : Text → Text
  qualified name = fqdn (to_lower name)

  abbrev pub reverse_name : Option ParsedIp → Text
  reverse_name none = []
  reverse_name (some parsed) = fqdn (arpa_name parsed)

  -- The name that a record of a kind is for, and what it says of it.
  abbrev pub record_name : DomainType → Text → Text
  record_name domain_type_ptr ip = reverse_name (parse_ip ip)
  record_name domain_type_a name = qualified name
  record_name domain_type_txt name = qualified name
  record_name domain_type_srv name = qualified name
  record_name domain_type_aaaa name = qualified name

  abbrev pub record_value : DomainType → Text → Text
  record_value domain_type_ptr domain = qualified domain
  record_value domain_type_a v = v
  record_value domain_type_txt v = v
  record_value domain_type_srv v = v
  record_value domain_type_aaaa v = v

  -- Every address of a reverse record parses.
  abbrev pub AllParse : Map Text Text → Type 0
  AllParse [] = Unit {0}
  AllParse ((ip, domain) ∷ container) =
      ((parsed : ParsedIp) × (parse_ip ip ≡ some parsed)) × AllParse container

  pub from_ip_address_to_ptr_fqdn-some :
      (ip : Text) (parsed : ParsedIp)
      → parse_ip ip ≡ some parsed
      → from_ip_address_to_ptr_fqdn fqdn parse_ip ip ≡ ok (fqdn (ptr_name parsed))
  unfolding from_ip_address_to_ptr_fqdn
  from_ip_address_to_ptr_fqdn-some ip parsed x = rw (from_ip_address_to_ptr_fqdn, x) refl

  answer_of-insert :
      (k v name : Text) (rc : Map Text Text)
      → answer_of (lookup name (insert k v rc))
        ≡ (if k == name then ok v else answer_of (lookup name rc))
  answer_of-insert k v name rc = rw (lookup-insert k name v rc) (ground arith)

  lowered-answer_of :
      (container rc : Map Text Text) (name : Text)
      → answer_of (lookup name (lowered fqdn parse_ip container rc))
        ≡ rule_by qualified (λ v. v) container name (answer_of (lookup name rc))
  unfolding lowered
  lowered-answer_of [] rc name = refl
  lowered-answer_of ((k, v) ∷ container) rc name =
      lowered-answer_of container (insert (qualified k) v rc) name
      ∙ ap (rule_by qualified (λ v. v) container name) (answer_of-insert (qualified k) v name rc)

  reversed-answer_of :
      (container rc : Map Text Text)
      → AllParse container
      → (rc' : Map Text Text) × (reversed fqdn parse_ip container rc ≡ ok rc')
        × ((name : Text)
            → answer_of (lookup name rc')
              ≡ rule_by
                  (λ ip. reverse_name (parse_ip ip))
                  qualified
                  container
                  name
                  (answer_of (lookup name rc)))
  unfolding reversed
  reversed-answer_of [] rc h = (rc, refl, λ name. refl)
  reversed-answer_of ((ip, domain) ∷ container) rc ((parsed, e), h) =
      let (rc', done, each_name) =
        reversed-answer_of container (insert (fqdn (ptr_name parsed)) (qualified domain) rc) h in
      (
        rc',
        rw (from_ip_address_to_ptr_fqdn-some ip parsed e) done,
        λ name.
            each_name name
            ∙ ap (rule_by (λ i. reverse_name (parse_ip i)) qualified container name) (
                answer_of-insert (fqdn (ptr_name parsed)) (qualified domain) name rc
                ∙ ap (λ k. if k == name then ok (qualified domain) else answer_of (lookup name rc))
                    (ap fqdn (ptr_name-arpa_name parsed) ∙ sym (ap reverse_name e))),
      )

  -- The container that `process` makes, but for the reverse records.
  abbrev taken : ConfigureContainer → Map Text Text → ConfigureContainer
  taken c ptr = record {
    a = lowered fqdn parse_ip c.a [];
    txt = lowered fqdn parse_ip c.txt [];
    srv = lowered fqdn parse_ip c.srv [];
    ptr = ptr;
    aaaa = lowered fqdn parse_ip c.aaaa [];
  }

  dyn_resolve_domain-answer_of :
      (rc : ConfigureContainer) (name : Text) (kind : DomainType)
      → dyn_resolve_domain rc name kind ≡ answer_of (lookup (to_lower name) (records_of rc kind))
  unfolding dyn_resolve_domain
  dyn_resolve_domain-answer_of rc name kind = refl

  taken-answer_of :
      (c : ConfigureContainer) (ptr : Map Text Text) (name : Text)
      → answer_of (lookup name ptr)
        ≡ rule_by (λ ip. reverse_name (parse_ip ip)) qualified c.ptr name (err storage_not_found)
      → (kind : DomainType)
      → answer_of (lookup name (records_of (taken c ptr) kind))
        ≡ rule_by
            (record_name kind)
            (record_value kind)
            (records_of c kind)
            name
            (err storage_not_found)
  unfolding lookup
  taken-answer_of c ptr name h domain_type_a = lowered-answer_of c.a [] name
  taken-answer_of c ptr name h domain_type_txt = lowered-answer_of c.txt [] name
  taken-answer_of c ptr name h domain_type_srv = lowered-answer_of c.srv [] name
  taken-answer_of c ptr name h domain_type_ptr = h
  taken-answer_of c ptr name h domain_type_aaaa = lowered-answer_of c.aaaa [] name

  -- Where every address of the reverse records parses, the records are taken, and a lookup then gives
  -- for every kind what the last record of the name says, in any case of letters, and an error where
  -- there is none.
  pub process-dyn_resolve_domain :
      (c : ConfigureContainer)
      → AllParse c.ptr
      → (rc : ConfigureContainer) × (process fqdn parse_ip c ≡ ok rc)
        × ((name : Text) (kind : DomainType)
            → dyn_resolve_domain rc name kind
              ≡ rule_by
                  (record_name kind)
                  (record_value kind)
                  (records_of c kind)
                  (to_lower name)
                  (err storage_not_found))
  unfolding process lookup
  process-dyn_resolve_domain c h =
      let (ptr, done, each_name) = reversed-answer_of c.ptr [] h in
      (
        taken c ptr,
        rw (process, done) refl,
        λ name kind.
            dyn_resolve_domain-answer_of (taken c ptr) name kind
            ∙ taken-answer_of c ptr (to_lower name) (each_name (to_lower name)) kind,
      )
