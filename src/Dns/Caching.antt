-- ===== src/Dns/Caching.antt =====
-- What the cache of answers (internal/dnscore/cache.go) serves, after any history of its operations.
use nekoq_bootstrap.Base.{
  Bool-cases, List, Option-cases, Text, [], arith, if◌then◌else◌, inl, inr, ltb, nat_key, nat_same,
  refl, same-eq, some, text_key, ℕ, ◌+◌, ◌<◌, ◌==◌, ◌^◌, ◌∷◌, ◌≡◌, ◌≤◌, ◌⊎◌,
}
use nekoq_bootstrap.Base.Maps.{insert, lookup}
use nekoq_bootstrap.Dns.Cache.{
  Cache, CacheEntry, cache_get, cache_key, cache_put, check_has_valid_ttl, cleanup, is_stale,
  max_uint32, min_ttl,
}
use nekoq_bootstrap.Dns.CacheKey.{cache_key-injective}
use nekoq_bootstrap.Dns.Message.{DnsLib, Msg, Question, Rr, header}
use nekoq_bootstrap.MemStore.Domains.{to_lower}
use nekoq_bootstrap.MemStore.PeerData.{names}

pub data CacheCall (Ip : Type 0) : Type 0 where
  puts : Question → Msg Ip → ℕ → CacheCall Ip
  cleans : ℕ → CacheCall Ip

-- Every record could still be kept at the time `later`, counted from the time `time`.
abbrev pub AllLast : {Ip : Type 0} → List (Rr Ip) → ℕ → ℕ → Type 0
AllLast [] time later = Unit {0}
AllLast (an ∷ answer) time later = (later ≤ time + (header an).ttl) × AllLast answer time later

min_ttl-le : {Ip : Type 0} (answer : List (Rr Ip)) (ttl : ℕ) → min_ttl answer ttl ≤ ttl
unfolding min_ttl
min_ttl-le [] ttl = omega arith
min_ttl-le (an ∷ answer) ttl =
    let ih = min_ttl-le answer (if ltb (header an).ttl ttl then (header an).ttl else ttl) in
    ground arith

-- Nothing is kept longer than the least time of its records.
AllLast-min_ttl :
    {Ip : Type 0} (answer : List (Rr Ip)) (ttl time later : ℕ)
    → later ≤ time + min_ttl answer ttl
    → AllLast answer time later
unfolding min_ttl
AllLast-min_ttl [] ttl time later h = tt
AllLast-min_ttl (an ∷ answer) ttl time later h =
    let next = if ltb (header an).ttl ttl then (header an).ttl else ttl in
    let bound = min_ttl-le answer next in (ground arith, AllLast-min_ttl answer next time later h)

-- The entry lives as long as the record of its answer that is given least time.
abbrev IsLeast : {Ip : Type 0} → CacheEntry Ip → Type 0
IsLeast r = r.ttl ≡ min_ttl r.res.answer max_uint32

abbrev Every : {Ip : Type 0} → (Text → CacheEntry Ip → Type 0) → Cache Ip → Type 0
Every P [] = Unit {0}
Every P ((k, r) ∷ cache) = P k r × Every P cache

module _ {Ip : Type 0} (P : Text → CacheEntry Ip → Type 0) where
  Every-lookup :
      (cache : Cache Ip) (key : Text) (r : CacheEntry Ip)
      → Every P cache
      → lookup key cache ≡ some r
      → P key r
  unfolding lookup
  Every-lookup [] key r all h = cc
  Every-lookup ((k, v) ∷ cache) key r (this, all) h = elim (Bool-cases (k == key)) [
    | inl e ↦
        let same : k ≡ key = same-eq k key e in
        let v_r : v ≡ r = ground (arith, h, e) in rw (← same) (rw (← v_r) this)
    | inr e ↦ Every-lookup cache key r all (ground (arith, h, e))
  ]

  Every-insert :
      (cache : Cache Ip) (key : Text) (r : CacheEntry Ip)
      → P key r
      → Every P cache
      → Every P (insert key r cache)
  unfolding insert
  Every-insert [] key r this all = (this, tt)
  Every-insert ((k, v) ∷ cache) key r this (that, all) = elim (Bool-cases (k == key)) [
    | inl e ↦ rw e (this, all)
    | inr e ↦ rw e (that, Every-insert cache key r this all)
  ]

  Every-cleanup :
      (lib : DnsLib Ip) (cache : Cache Ip) (now : ℕ)
      → Every P cache
      → Every P (cleanup lib cache now)
  unfolding cleanup
  Every-cleanup lib [] now all = tt
  Every-cleanup lib ((k, v) ∷ cache) now (this, all) = elim (Bool-cases (is_stale lib now v)) [
    | inl e ↦ rw e (Every-cleanup lib cache now all)
    | inr e ↦ rw e (this, Every-cleanup lib cache now all)
  ]

Every-weaken :
    {Ip : Type 0} {P Q : Text → CacheEntry Ip → Type 0} (cache : Cache Ip)
    → ((key : Text) (r : CacheEntry Ip) → P key r → Q key r)
    → Every P cache
    → Every Q cache
Every-weaken [] f all = tt
Every-weaken ((k, v) ∷ cache) f (this, all) = (f k v this, Every-weaken cache f all)

module _ {Ip : Type 0} (lib : DnsLib Ip) where
  -- The cache after a history, the newest call of which comes first.
  unfoldable pub run_cache : List (CacheCall Ip) → Cache Ip
  run_cache [] = []
  run_cache (puts q res now ∷ calls) = cache_put lib (run_cache calls) q res now
  run_cache (cleans now ∷ calls) = cleanup lib (run_cache calls) now

  -- The history stored this answer, at this time, to a question with this key.
  abbrev WasKept : List (CacheCall Ip) → Text → Msg Ip → ℕ → Type 0
  WasKept [] key res time = ⊥
  WasKept (puts q res' now ∷ calls) key res time =
      ((cache_key lib q ≡ key) × (res' ≡ res) × (now ≡ time)) ⊎ WasKept calls key res time
  WasKept (cleans now ∷ calls) key res time = WasKept calls key res time

  -- The history stored this answer, at this time, to a question for the same name, up to the case of
  -- letters and a final dot, and the same type.
  abbrev pub WasPut : List (CacheCall Ip) → Question → Msg Ip → ℕ → Type 0
  WasPut [] q res time = ⊥
  WasPut (puts q' res' now ∷ calls) q res time =
      ((to_lower (lib.fqdn q'.name) ≡ to_lower (lib.fqdn q.name))
        × (q'.qtype ≡ q.qtype)
        × (res' ≡ res)
        × (now ≡ time))
      ⊎ WasPut calls q res time
  WasPut (cleans now ∷ calls) q res time = WasPut calls q res time

  -- The types of the questions are those of the wire, of 16 bits.
  abbrev pub AllTyped : List (CacheCall Ip) → Type 0
  AllTyped [] = Unit {0}
  AllTyped (puts q res now ∷ calls) = (q.qtype < 2 ^ 16) × AllTyped calls
  AllTyped (cleans now ∷ calls) = AllTyped calls

  WasKept-WasPut :
      (calls : List (CacheCall Ip)) (q : Question) (res : Msg Ip) (time : ℕ)
      → AllTyped calls
      → q.qtype < 2 ^ 16
      → WasKept calls (cache_key lib q) res time
      → WasPut calls q res time
  WasKept-WasPut [] q res time typed small kept = kept
  WasKept-WasPut (cleans now ∷ calls) q res time typed small kept =
      WasKept-WasPut calls q res time typed small kept
  WasKept-WasPut (puts q' res' now ∷ calls) q res time (small', typed) small (inl (e, same, at)) =
      let (names, types) = cache_key-injective lib q' q small' small e in
      inl (names, types, same, at)
  WasKept-WasPut (puts q' res' now ∷ calls) q res time (small', typed) small (inr kept) =
      inr (WasKept-WasPut calls q res time typed small kept)

  abbrev Explained : List (CacheCall Ip) → Text → CacheEntry Ip → Type 0
  Explained calls key r = IsLeast r × WasKept calls key r.res r.time_in_sec

  run_cache-Explained : (calls : List (CacheCall Ip)) → Every (Explained calls) (run_cache calls)
  unfolding run_cache cache_put check_has_valid_ttl
  run_cache-Explained [] = tt
  run_cache-Explained (cleans now ∷ calls) =
      Every-cleanup (Explained (cleans now ∷ calls)) lib (run_cache calls) now
        (run_cache-Explained calls)
  run_cache-Explained (puts q res now ∷ calls) =
      let least = min_ttl res.answer max_uint32 in
      let old =
        Every-weaken (run_cache calls) (λ key r (l, p). (l, inr p)) (run_cache-Explained calls) in
      elim (Bool-cases (nat_same least max_uint32)) [
        | inl e ↦ rw e old
        | inr e ↦ rw e (elim (Bool-cases (ltb 0 least)) [
          | inl t ↦ rw t (
              Every-insert (Explained (puts q res now ∷ calls)) (run_cache calls) (cache_key lib q)
                (record { res = res; time_in_sec = now; ttl = least })
                (refl, inl (refl, refl, refl)) old)
          | inr t ↦ rw t old
        ])
      ]

  -- After any history of a new cache with questions of 16 bit types, what it serves is a copy of a
  -- message that was stored for a question with the same name, up to the case of letters and a final
  -- dot, and the same type, and none of the records of that message's answer section has outlived its
  -- time to live since it was stored.
  pub cache_get_sound :
      (calls : List (CacheCall Ip)) (req reply : Msg Ip) (q : Question) (later : ℕ)
      → AllTyped calls
      → q.qtype < 2 ^ 16
      → cache_get lib (run_cache calls) req q later ≡ some reply
      → (res : Msg Ip) × (time : ℕ) × (reply ≡ lib.copy_set_reply res req)
        × WasPut calls q res time
        × AllLast res.answer time later
  unfolding cache_get
  cache_get_sound calls req reply q later typed small h =
      elim (Option-cases (lookup (cache_key lib q) (run_cache calls))) [
        | inl e ↦ cc
        | inr (r, e) ↦
            let (least, put) =
              Every-lookup (Explained calls) (run_cache calls) (cache_key lib q) r
                (run_cache-Explained calls) e in
            elim (Bool-cases (is_stale lib later r)) [
              | inl t ↦ absurd (ground (arith, h, e, t))
              | inr t ↦ (
                r.res,
                r.time_in_sec,
                (ground (arith, h, e, t)),
                WasKept-WasPut calls q r.res r.time_in_sec typed small put,
                AllLast-min_ttl r.res.answer max_uint32 r.time_in_sec later (ground (arith, t)),
              )
            ]
      ]
