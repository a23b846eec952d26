-- ===== src/Dns/Deliveries.antt =====
-- Records as they are delivered (internal/dnsdyn/dynamic.configure.go).
use nekoq_bootstrap.Base.{List, Option, Text, [], err, ok, refl, storage_not_found, ◌++◌, ◌∷◌, ◌≡◌}
use nekoq_bootstrap.Base.Io.{each}
use nekoq_bootstrap.Dns.Dynamic.{ConfigureContainer, ParsedIp, dyn_resolve_domain, records_of}
use nekoq_bootstrap.Dns.DynamicRecords.{
  AllParse, process-dyn_resolve_domain, record_name, record_value, rule_by,
}
use nekoq_bootstrap.Dns.DynamicStore.{ConfigClient, DnsDynConfStore, on_change}
use nekoq_bootstrap.Ha.Net.{answers}
use nekoq_bootstrap.MemStore.Domains.{to_lower}
use nekoq_bootstrap.MemStore.Model.{DomainType}

-- The reverse records of each of the configurations parse.
abbrev AllTake : (Text → Text) → (Text → Option ParsedIp) → List ConfigureContainer → Type 0
AllTake fqdn parse_ip [] = Unit {0}
AllTake fqdn parse_ip (c ∷ cs) = AllParse fqdn parse_ip c.ptr × AllTake fqdn parse_ip cs

module _ (fqdn : Text → Text) (parse_ip : Text → Option ParsedIp) {C : Type 0}
    (api : ConfigClient C) where
  on_change-resolves :
      (c : ConfigureContainer) (d : DnsDynConfStore C)
      → AllParse fqdn parse_ip c.ptr
      → ((on_change fqdn parse_ip api c d).1 ≡ ok tt)
        × ((name : Text) (kind : DomainType)
            → dyn_resolve_domain (on_change fqdn parse_ip api c d).0.container name kind
              ≡ rule_by
                  (record_name fqdn parse_ip kind)
                  (record_value fqdn parse_ip kind)
                  (records_of c kind)
                  (to_lower name)
                  (err storage_not_found))
  unfolding on_change
  on_change-resolves c d h =
      let (rc, done, answers) = process-dyn_resolve_domain fqdn parse_ip c h in
      (rw (on_change, done) refl, λ name kind. rw (on_change, done) (answers name kind))

  -- Where the reverse records of every delivered configuration parse, all of them are taken, and
  -- from then on a lookup gives for every kind what the last record of the name in the latest
  -- configuration says, in any case of letters, and an error where there is none.
  pub on_changes-resolve :
      (cs : List ConfigureContainer) (c : ConfigureContainer) (d : DnsDynConfStore C)
      → AllTake fqdn parse_ip cs
      → AllParse fqdn parse_ip c.ptr
      → ((each (on_change fqdn parse_ip api) (cs ++ c ∷ []) d).1 ≡ ok tt)
        × ((name : Text) (kind : DomainType)
            → dyn_resolve_domain
                (each (on_change fqdn parse_ip api) (cs ++ c ∷ []) d).0.container
                name
                kind
              ≡ rule_by
                  (record_name fqdn parse_ip kind)
                  (record_value fqdn parse_ip kind)
                  (records_of c kind)
                  (to_lower name)
                  (err storage_not_found))
  unfolding each
  on_changes-resolve [] c d h last =
      let (done, answers) = on_change-resolves c d last in
      (rw done refl, λ name kind. rw done (answers name kind))
  on_changes-resolve (c0 ∷ cs) c d (h, hs) last =
      let (done, answers) = on_change-resolves c0 d h in
      let (done', answers') =
        on_changes-resolve cs c (on_change fqdn parse_ip api c0 d).0 hs last in
      (rw done done', λ name kind. rw done (answers' name kind))
