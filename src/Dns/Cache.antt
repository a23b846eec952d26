-- ===== src/Dns/Cache.antt =====
-- internal/dnscore/cache.go. Times are in seconds.
use nekoq_bootstrap.Base.{
  Bool, List, Option, Text, [], codes, if◌then◌else◌, ltb, nat_key, nat_same, none, some, suc,
  text_key, zero, ℕ, ◌%◌, ◌++◌, ◌+◌, ◌-◌, ◌/◌, ◌^◌, ◌∷◌,
}
use nekoq_bootstrap.Base.Maps.{Map, insert, lookup}
use nekoq_bootstrap.Dns.Message.{DnsLib, Msg, Question, Rr, header}
use nekoq_bootstrap.MemStore.Domains.{to_lower}

pub record CacheEntry (Ip : Type 0) : Type 0 where
  pub res : Msg Ip
  pub time_in_sec : ℕ
  pub ttl : ℕ

abbrev pub Cache : Type 0 → Type 0
Cache Ip = Map Text (CacheEntry Ip)

abbrev pub max_uint32 : ℕ
max_uint32 = 2 ^ 32 - 1

-- The loop of checkHasValidTTL.
unfoldable pub min_ttl : {Ip : Type 0} → List (Rr Ip) → ℕ → ℕ
min_ttl [] ttl = ttl
min_ttl (an ∷ rest) ttl = min_ttl rest (if ltb (header an).ttl ttl then (header an).ttl else ttl)

unfoldable pub check_has_valid_ttl : {Ip : Type 0} → Msg Ip → Bool × ℕ
check_has_valid_ttl m =
    let least = min_ttl m.answer max_uint32 in
    let ttl = if nat_same least max_uint32 then 0 else least in (ltb 0 ttl, ttl)

-- fmt.Sprint of a uint16: its digits, the first of which is not zero
unfoldable pub decimal_digits : ℕ → ℕ → Text → Text
decimal_digits zero n acc = acc
decimal_digits (suc fuel) n acc =
    let acc' : Text = (b'0' + n % 10) ∷ acc in
    let more = decimal_digits fuel (n / 10) acc' in if ltb n 10 then acc' else more

unfoldable pub decimal : ℕ → Text
unfolding decimal_digits
decimal n = decimal_digits 5 n []

module _ {Ip : Type 0} (lib : DnsLib Ip) where
  -- cacheKey, at a question
  unfoldable pub cache_key : Question → Text
  cache_key q = to_lower (lib.fqdn q.name) ++ codes "::" ++ decimal q.qtype

  unfoldable pub cache_put : Cache Ip → Question → Msg Ip → ℕ → Cache Ip
  cache_put cache q res now =
      let (has_ttl, ttl) = check_has_valid_ttl res in
      if has_ttl
      then insert (cache_key q) (record { res = res; time_in_sec = now; ttl = ttl }) cache
      else cache

  -- time.Now().Unix()-r.timeInSec > int64(r.ttl)
  abbrev pub is_stale : ℕ → CacheEntry Ip → Bool
  is_stale now r = ltb (r.time_in_sec + r.ttl) now

  unfoldable pub cache_get : Cache Ip → Msg Ip → Question → ℕ → Option (Msg Ip)
  cache_get cache req q now = elim (lookup (cache_key q) cache) [
    | none ↦ none
    | some r ↦ (if is_stale now r then none else some (lib.copy_set_reply r.res req))
  ]

  -- One tick of cleanupJob: the loop deletes the keys of the entries that it finds stale.
  unfoldable pub cleanup : Cache Ip → ℕ → Cache Ip
  cleanup [] now = []
  cleanup ((k, v) ∷ cache) now =
      let rest = cleanup cache now in if is_stale now v then rest else (k, v) ∷ rest
