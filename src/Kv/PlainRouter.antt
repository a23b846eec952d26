-- ===== src/Kv/PlainRouter.antt =====
-- A router with one route for a method, for examples.
use nekoq_bootstrap.Base.{
  ==_refl, Option, Outcome, Text, [], ap, arith, codes, drop, drop-append, err, if◌then◌else◌,
  length, length-append, nat_key, none, ok, panic, refl, some, sym, text_key, ◌++◌, ◌-◌, ◌==◌, ◌∙◌,
  ◌∷◌, ◌≡◌,
}
use nekoq_bootstrap.Base.Io.{Io}
use nekoq_bootstrap.Base.Maps.{Map}
use nekoq_bootstrap.Kv.Http.{HttpResponse}
use nekoq_bootstrap.Kv.HttpRoundTrip.{Routing}
use nekoq_bootstrap.Kv.HttpServer.{RouteHandle, Router}

abbrev pub Routes : Type 0 → Type 0
Routes S = Text → Option (Text × RouteHandle S)

abbrev served_by {ℓ} :
    {S : Type ℓ}
    → Text
    → Option (Text × (Map Text Text → Outcome Text → Io S HttpResponse))
    → Outcome Text
    → Io S HttpResponse
served_by path none body s = (s, ok (record { status = 404; body = [] }))
served_by path (some (pattern, h)) body s =
    h ((codes "key", drop (length pattern - 4) path) ∷ []) body s

abbrev pub plain_router : {S : Type 0} → Router S (Routes S)
plain_router = record {
  new_router = λ method. none;
  handle_route =
      λ method path h r. ok (λ method'. if method == method' then some (path, h) else r method');
  serve_http = λ r method path body s. served_by path (r method) body s;
}

abbrev or_else {ℓ} : {A : Type ℓ} → A → Outcome A → A
or_else a (ok b) = b
or_else a (err e) = a
or_else a panic = a

pub plain_router-Routing : {S : Type 0} → Routing (plain_router {S = S}) (λ key. Unit {0})
plain_router-Routing = record {
  reaches = λ method prefix key h r r' body s e param.
      let set = ap (or_else r') e in
      let front : drop (length (prefix ++ codes ":key") - 4) (prefix ++ key) ≡ key =
        drop-append (length (prefix ++ codes ":key") - 4) prefix key
          (omega (arith, length-append prefix (codes ":key"))) in
      ap (λ f. served_by (prefix ++ key) (f method) body s) (sym set)
      ∙ rw (==_refl method) (ap (λ k. h ((codes "key", k) ∷ []) body s) front);
  others = λ method method' path path' h r r' body s e other.
      ap (λ f. served_by path' (f method') body s) (sym (ap (or_else r') e)) ∙ rw other refl;
}
