-- ===== src/Dns/Message.antt =====
-- The messages of github.com/miekg/dns at the fields that internal/dnscore reads and writes, with the
-- other sections that its cache keeps and serves, and the
-- library's functions, over an arbitrary type `Ip` of parsed addresses.
use nekoq_bootstrap.Base.{List, Outcome, Text, ℕ}

pub record Question : Type 0 where
  pub name : Text
  pub qtype : ℕ

-- dns.RR_Header; the class is always that of the internet.
pub record RrHeader : Type 0 where
  pub name : Text
  pub rrtype : ℕ
  pub ttl : ℕ

-- The records that the code makes, and any other with its header.
pub data Rr (Ip : Type 0) : Type 0 where
  rr_a rr_aaaa : RrHeader → Ip → Rr Ip
  rr_srv : RrHeader → ℕ → ℕ → ℕ → Text → Rr Ip
  rr_ptr : RrHeader → Text → Rr Ip
  rr_txt : RrHeader → List Text → Rr Ip
  rr_other : RrHeader → Rr Ip

pub record Msg (Ip : Type 0) : Type 0 where
  pub id : ℕ
  pub opcode : ℕ
  pub rcode : ℕ
  pub question : List Question
  pub answer : List (Rr Ip)
  -- Ns and Extra, the sections of authority and of additional records
  pub ns : List (Rr Ip)
  pub extra : List (Rr Ip)

abbrev pub header : {Ip : Type 0} → Rr Ip → RrHeader
header (rr_a h ip) = h
header (rr_aaaa h ip) = h
header (rr_srv h priority weight port target) = h
header (rr_ptr h ptr) = h
header (rr_txt h txt) = h
header (rr_other h) = h

abbrev pub type_a : ℕ
type_a = 1

abbrev pub type_ptr : ℕ
type_ptr = 12

abbrev pub type_txt : ℕ
type_txt = 16

abbrev pub type_aaaa : ℕ
type_aaaa = 28

abbrev pub type_srv : ℕ
type_srv = 33

abbrev pub rcode_success : ℕ
rcode_success = 0

abbrev pub rcode_name_error : ℕ
rcode_name_error = 3

abbrev pub opcode_query : ℕ
opcode_query = 0

-- dnscore.DefaultResponseTTL
abbrev pub default_response_ttl : ℕ
default_response_ttl = 3600

-- The JSON of an SRV record.
pub record SrvData : Type 0 where
  pub priority : ℕ
  pub weight : ℕ
  pub port : ℕ
  pub target : Text

pub record DnsLib (Ip : Type 0) : Type 0 where
  pub fqdn : Text → Text
  -- new(dns.Msg).SetReply(m), res.Copy().SetReply(m), SetRcode(m, rcode), SetRcodeFormatError(m)
  pub set_reply : Msg Ip → Msg Ip
  pub copy_set_reply : Msg Ip → Msg Ip → Msg Ip
  pub set_rcode : Msg Ip → ℕ → Msg Ip
  pub set_rcode_format_error : Msg Ip → Msg Ip
  -- dns.Exchange with the first server
  pub exchange : Msg Ip → Outcome (Msg Ip)
  -- net.ParseIP, nil for no address, and json.Unmarshal
  pub parse_ip : Text → Ip
  pub unmarshal_srv : Text → Outcome SrvData
