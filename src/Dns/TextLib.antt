-- ===== src/Dns/TextLib.antt =====
-- A library of messages whose addresses are texts, for examples.
use nekoq_bootstrap.Base.{Text, [], codes, err, if◌then◌else◌, ok, storage_not_found, ◌++◌}
use nekoq_bootstrap.Dns.Message.{DnsLib, Msg}
use nekoq_bootstrap.Dns.Upstream.{has_suffix}

abbrev blank : Msg Text → Msg Text
blank m = record m { answer = [] }

abbrev pub text_lib : DnsLib Text
text_lib = record {
  fqdn = λ s. if has_suffix s (codes ".") then s else s ++ codes ".";
  set_reply = blank;
  copy_set_reply = λ res req. record res { id = req.id };
  set_rcode = λ m rcode. record m { rcode = rcode };
  set_rcode_format_error = λ m. record m { rcode = 1 };
  exchange = λ m. ok m;
  parse_ip = λ s. s;
  unmarshal_srv = λ s. err storage_not_found;
}
