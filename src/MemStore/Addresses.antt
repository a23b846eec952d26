-- ===== src/MemStore/Addresses.antt =====
-- What the map operations of storage.mem.go do to the address of a node of a service.
use nekoq_bootstrap.Base.{
  ◌≡◌, true, false, ◌&&◌, Text, none, some, arith, ◌==◌, text_key, ==_refl, same-eq, Bool-cases,
  Option-cases, inl, inr, if◌then◌else◌,
}
use nekoq_bootstrap.Base.Maps.{
  Map, lookup, insert, delete, is_empty, lookup-insert, lookup-delete, lookup-is_empty,
}
use nekoq_bootstrap.MemStore.Model.{ServiceItem, ServiceInfo, ServiceMapping}
use nekoq_bootstrap.MemStore.Services.{sub_map, put_item, remove_item, found, addr_of}

lookup-sub_map :
    (m : ServiceMapping) (service n : Text) → lookup n (sub_map service m) ≡ addr_of m service n
unfolding addr_of lookup
lookup-sub_map m service n = ground arith

pub addr_of-put_item :
    (m : ServiceMapping) (service : Text) (item : ServiceItem) (s n : Text)
    → addr_of (put_item service item m) s n ≡ (
        if service == s && item.node_id == n
        then some (record { addr = item.addr })
        else addr_of m s n)
unfolding addr_of put_item
addr_of-put_item m service item s n = elim (Bool-cases (service == s)) [
  | inl h ↦
      rw (lookup-insert, h) (rw (lookup-insert, lookup-sub_map m service n, same-eq service s h))
  | inr h ↦ rw (lookup-insert, h)
]

-- The step of `remove_item`, at what it finds under the service name.
found-remove :
    (m : ServiceMapping) (p : Map Text ServiceInfo) (service node n : Text)
    → (let p' = delete node p in
        found n (lookup service (if is_empty p' then delete service m else insert service p' m)))
      ≡ (if node == n then none else lookup n p)
found-remove m p service node n = elim (Bool-cases (is_empty (delete node p))) [
  | inl e ↦ ground (
    arith,
    lookup-is_empty n (delete node p),
    lookup-delete node n p,
    lookup-delete service service m,
    ==_refl service,
  )
  | inr e ↦ ground (
    arith,
    lookup-delete node n p,
    lookup-insert service service (delete node p) m,
    ==_refl service,
  )
]

found-remove_ne :
    (m : ServiceMapping) (p : Map Text ServiceInfo) (service s n : Text)
    → (service == s) ≡ false
    → found n (lookup s (if is_empty p then delete service m else insert service p m))
      ≡ found n (lookup s m)
found-remove_ne m p service s n h =
    ground (arith, lookup-delete service s m, lookup-insert service s p m)

pub addr_of-remove_item :
    (m : ServiceMapping) (service : Text) (item : ServiceItem) (s n : Text)
    → addr_of (remove_item service item m) s n
      ≡ (if service == s && item.node_id == n then none else addr_of m s n)
unfolding addr_of remove_item
addr_of-remove_item m service item s n = elim (Bool-cases (service == s)) [
  | inl h ↦ at (same-eq service s h) h
  | inr h ↦ rw h (elim (Option-cases (lookup service m)) [
    | inl e ↦ rw (e, remove_item)
    | inr (p, e) ↦ rw (e, remove_item) (found-remove_ne m _ service s n h)
  ])
]
  where
    at :
        service ≡ s
        → (service == s) ≡ true
        → addr_of (remove_item service item m) s n
          ≡ (if service == s && item.node_id == n then none else addr_of m s n)
    at q h =
        rw (h, ← q)
          (elim (Option-cases (lookup service m)) [
            | inl e ↦ rw (e, remove_item) (ground arith)
            | inr (p, e) ↦ rw (e, remove_item) (found-remove m p service item.node_id n)
          ])
