-- ===== src/MemStore/Tests.antt =====
-- Examples of the store of services and domains at concrete nodes.
use nekoq_bootstrap.Base.{
  List, Text, [], codes, err, nat_key, ok, refl, storage_not_found, text_key, text_same, ◌++◌, ◌∷◌,
  ◌≡◌, ◌≢◌,
}
use nekoq_bootstrap.Base.Maps.{lookup}
use nekoq_bootstrap.MemStore.Convergence.{IsSettled}
use nekoq_bootstrap.MemStore.Copying.{FullRound, IncrementalRound}
use nekoq_bootstrap.MemStore.Domains.{
  new_mem_store, put_domain, resolve_domain, resolve_nested, resolve_static, to_lower,
}
use nekoq_bootstrap.MemStore.History.{
  Call, IsSettled-new, deletes, hands_full, publishes, run, run-IsSettled,
}
use nekoq_bootstrap.MemStore.Model.{MemStore, ServiceItem, domain_type_a}
use nekoq_bootstrap.MemStore.PlainJson.{Bytes, plain_json, trips_list, trips_node}
use nekoq_bootstrap.MemStore.Resolve.{NoneAnswers, resolve_domain-err, resolve_domain-put_domain}
use nekoq_bootstrap.MemStore.Resync.{resync}
use nekoq_bootstrap.MemStore.Rounds.{full_converges, incremental_converges, snapshot}

-- An encoding that keeps what it is given.
abbrev item : Text → Text → ServiceItem
item address node = record { addr = address; node_id = node }

abbrev web : Text
web = codes "web"

abbrev history : List (Call Bytes)
history = publishes web (item (codes "10.0.0.1") (codes "n1")) ∷ hands_full (codes "peer") ∷ []

abbrev later_calls : List (Call Bytes)
later_calls =
    deletes web (item (codes "10.0.0.1") (codes "n1"))
    ∷ publishes web (item (codes "10.0.0.2") (codes "n2"))
    ∷ []

abbrev fresh : MemStore
fresh = new_mem_store []

abbrev node_store : MemStore
node_store = run plain_json fresh history

resync_example :
    (full : FullRound plain_json (codes "peer") (codes "node") node_store fresh) × IncrementalRound
      plain_json
      (codes "peer")
      (codes "node")
      (run plain_json full.node_after later_calls)
      full.peer_after
resync_example =
    resync plain_json (codes "peer") (codes "node") [] history later_calls fresh (tt, (tt, tt))
      trips_node trips_list

run-IsSettled_example : IsSettled node_store (codes "peer")
run-IsSettled_example =
    run-IsSettled plain_json fresh history (codes "peer") (IsSettled-new [] (codes "peer"))

IsSettled-store : IsSettled node_store (codes "peer")
IsSettled-store =
    run-IsSettled plain_json fresh history (codes "peer") (IsSettled-new [] (codes "peer"))

abbrev first_round : FullRound plain_json (codes "peer") (codes "node") node_store fresh
first_round =
    full_converges plain_json (codes "peer") (codes "node") node_store fresh IsSettled-store
      (trips_node (snapshot node_store))

full_converges_example : FullRound plain_json (codes "peer") (codes "node") node_store fresh
full_converges_example =
    full_converges plain_json (codes "peer") (codes "node") node_store fresh IsSettled-store
      (trips_node (snapshot node_store))

incremental_converges_example :
    IncrementalRound plain_json
      (codes "peer")
      (codes "node")
      first_round.node_after
      first_round.peer_after
incremental_converges_example =
    incremental_converges plain_json (codes "peer") (codes "node") first_round.node_after
      first_round.peer_after first_round.in_sync (trips_list first_round.in_sync.pending.add)
      (trips_list first_round.in_sync.pending.del)

abbrev add_dot : Text → Text
add_dot s = s ++ codes "."

resolve_domain-put_domain_example :
    resolve_domain
      (put_domain add_dot fresh (codes "Example.com") (codes "10.0.0.1") domain_type_a)
      (codes "EXAMPLE.com.")
      domain_type_a
    ≡ ok (codes "10.0.0.1")
unfolding to_lower text_same
resolve_domain-put_domain_example =
    resolve_domain-put_domain add_dot fresh (codes "Example.com") (codes "10.0.0.1") domain_type_a
      (codes "EXAMPLE.com.") domain_type_a

nowhere : resolve_domain fresh (codes "a.") domain_type_a ≡ err storage_not_found
unfolding resolve_domain resolve_static lookup new_mem_store resolve_nested
nowhere = refl

resolve_domain-err_example :
    (storage_not_found ≡ storage_not_found)
    × ((val : Text) → resolve_static fresh (to_lower (codes "a.")) domain_type_a ≢ ok val)
    × NoneAnswers fresh.dns_stores (to_lower (codes "a.")) domain_type_a
resolve_domain-err_example =
    resolve_domain-err fresh (codes "a.") domain_type_a storage_not_found nowhere
