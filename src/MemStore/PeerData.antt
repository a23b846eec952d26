-- ===== src/MemStore/PeerData.antt =====
-- What SyncFrom of storage.mem.go makes of the mapping that it holds for a peer.
use nekoq_bootstrap.Base.{
  ◌≡◌, ◌≢◌, refl, Bool, false, ◌||◌, Text, List, [], ◌∷◌, Option, none, some, ok, arith, ◌==◌,
  text_key, ==_refl, same-eq, Bool-cases, inl, inr, if◌then◌else◌,
}
use nekoq_bootstrap.Base.Maps.{
  Map, lookup, insert, delete, is_empty, lookup-insert, lookup-delete, lookup-is_empty,
}
use nekoq_bootstrap.MemStore.Model.{ServiceInfo, NilableMapping, DataTransferNodeData}
use nekoq_bootstrap.MemStore.Services.{is_for}
use nekoq_bootstrap.MemStore.Peers.{entries, delete_transfer, add_transfer, sync_delete, sync_add}

abbrev Inner : Type 0
Inner = Map Text (Option (Map Text ServiceInfo))

abbrev pub found_inner : Text → Option (Option (Map Text ServiceInfo)) → Option ServiceInfo
found_inner n none = none
found_inner n (some none) = none
found_inner n (some (some p)) = lookup n p

-- The address that a peer's mapping has for a node of a service.
unfoldable pub peer_addr : NilableMapping → Text → Text → Option ServiceInfo
peer_addr mapping s n = found_inner n (lookup s (entries mapping))

-- No inner map is nil.
abbrev pub IsMade : Inner → Type 0
IsMade m = (s : Text) → lookup s m ≢ some none

-- Does a list of changes name the node of the service?
unfoldable pub names : Text → Text → List DataTransferNodeData → Bool
names s n [] = false
names s n (v ∷ l) = is_for s n v || names s n l

-- The address that the last change of the list for the node carries.
unfoldable pub last_info : Text → Text → List DataTransferNodeData → Option ServiceInfo
last_info s n [] = none
last_info s n (v ∷ l) = elim (last_info s n l) [
  | some i ↦ some i
  | none ↦ if is_for s n v then some v.info else none
]

-- One turn of the delete loop, under the service name of the change and under another.
delete-same :
    (v : DataTransferNodeData) (o : Option (Option (Map Text ServiceInfo))) (m : Inner) (n : Text)
    → lookup v.service_name m ≡ o
    → found_inner n (lookup v.service_name (delete_transfer v o m))
      ≡ (if v.node_name == n then none else found_inner n o)
unfolding delete_transfer
delete-same v none m n h = rw h (ground arith)
delete-same v (some none) m n h =
    ground (arith, lookup-delete v.service_name v.service_name m, ==_refl v.service_name)
delete-same v (some (some p)) m n h = elim (Bool-cases (is_empty (delete v.node_name p))) [
  | inl e ↦ ground (
    arith,
    lookup-is_empty n (delete v.node_name p),
    lookup-delete v.node_name n p,
    lookup-delete v.service_name v.service_name m,
    ==_refl v.service_name,
  )
  | inr e ↦ ground (
    arith,
    lookup-delete v.node_name n p,
    lookup-insert v.service_name v.service_name (some (delete v.node_name p)) m,
    ==_refl v.service_name,
  )
]

delete-other :
    (v : DataTransferNodeData) (o : Option (Option (Map Text ServiceInfo))) (m : Inner) (s : Text)
    → (v.service_name == s) ≡ false
    → lookup s (delete_transfer v o m) ≡ lookup s m
unfolding delete_transfer
delete-other v none m s h = refl
delete-other v (some none) m s h = ground (arith, lookup-delete v.service_name s m)
delete-other v (some (some p)) m s h = ground (
  arith,
  lookup-delete v.service_name s m,
  lookup-insert v.service_name s (some (delete v.node_name p)) m,
)

delete_transfer-IsMade :
    (v : DataTransferNodeData) (o : Option (Option (Map Text ServiceInfo))) (m : Inner)
    → IsMade m
    → IsMade (delete_transfer v o m)
unfolding delete_transfer
delete_transfer-IsMade v none m h s = h s
delete_transfer-IsMade v (some none) m h s = ground (arith, h s, lookup-delete v.service_name s m)
delete_transfer-IsMade v (some (some p)) m h s = ground (
  arith,
  h s,
  lookup-delete v.service_name s m,
  lookup-insert v.service_name s (some (delete v.node_name p)) m,
)

peer_addr-delete_transfer :
    (v : DataTransferNodeData) (m : Inner) (s n : Text)
    → peer_addr (some (delete_transfer v (lookup v.service_name m) m)) s n
      ≡ (if is_for s n v then none else peer_addr (some m) s n)
unfolding peer_addr
peer_addr-delete_transfer v m s n = elim (Bool-cases (v.service_name == s)) [
  | inl h ↦
      let e = same-eq v.service_name s h in
      rw (h, ← e) (delete-same v (lookup v.service_name m) m n refl)
  | inr h ↦ rw (h, delete-other v (lookup v.service_name m) m s h)
]

pub sync_delete-some :
    (l : List DataTransferNodeData) (m : Inner)
    → IsMade m
    → (m' : Inner) × (sync_delete l (some m) ≡ some m')
      × IsMade m'
      × ((s n : Text)
          → peer_addr (some m') s n ≡ (if names s n l then none else peer_addr (some m) s n))
unfolding sync_delete names
sync_delete-some [] m made = (m, refl, made, λ s n. refl)
sync_delete-some (v ∷ l) m made =
    let next = delete_transfer v (lookup v.service_name m) m in
    let (m', e, made', at) =
      sync_delete-some l next (delete_transfer-IsMade v (lookup v.service_name m) m made) in
    (m', e, made', λ s n. ground (arith, at s n, peer_addr-delete_transfer v m s n))

insert-IsMade :
    (k : Text) (q : Map Text ServiceInfo) (m : Inner) → IsMade m → IsMade (insert k (some q) m)
insert-IsMade k q m made s = ground (arith, made s, lookup-insert k s (some q) m)

-- A write through the inner map `p` of the service.
peer_addr-insert :
    (v : DataTransferNodeData) (p : Map Text ServiceInfo) (m : Inner) (s n : Text)
    → lookup n p ≡ found_inner n (lookup v.service_name m)
    → peer_addr (some (insert v.service_name (some (insert v.node_name v.info p)) m)) s n
      ≡ (if is_for s n v then some v.info else peer_addr (some m) s n)
unfolding peer_addr
peer_addr-insert v p m s n h = elim (Bool-cases (v.service_name == s)) [
  | inl same ↦
      let e = same-eq v.service_name s same in rw (lookup-insert, same) (rw (lookup-insert, h, e))
  | inr other ↦ rw (lookup-insert, other)
]

-- One turn of the add loop.
add_transfer-IsMade :
    (v : DataTransferNodeData) (o : Option (Option (Map Text ServiceInfo))) (m : Inner)
    → IsMade m
    → lookup v.service_name m ≡ o
    → (m' : Inner) × (add_transfer v o m ≡ ok m')
      × IsMade m'
      × ((s n : Text)
          → peer_addr (some m') s n
            ≡ (if is_for s n v then some v.info else peer_addr (some m) s n))
unfolding add_transfer lookup
add_transfer-IsMade v none m made h = (
  _,
  refl,
  insert-IsMade v.service_name (insert v.node_name v.info []) m made,
  λ s n. peer_addr-insert v [] m s n (rw h),
)
add_transfer-IsMade v (some none) m made h = absurd (made v.service_name h)
add_transfer-IsMade v (some (some p)) m made h = (
  _,
  refl,
  insert-IsMade v.service_name (insert v.node_name v.info p) m made,
  λ s n. peer_addr-insert v p m s n (rw h),
)

abbrev pub pick : Option ServiceInfo → Option ServiceInfo → Option ServiceInfo
pick none old = old
pick (some i) old = some i

pub sync_add-some :
    (l : List DataTransferNodeData) (m : Inner)
    → IsMade m
    → (m' : Inner) × (sync_add l (some m) ≡ ok (some m'))
      × IsMade m'
      × ((s n : Text) → peer_addr (some m') s n ≡ pick (last_info s n l) (peer_addr (some m) s n))
unfolding sync_add last_info
sync_add-some [] m made = (m, refl, made, λ s n. refl)
sync_add-some (v ∷ l) m made =
    let (next, e, made', at) = add_transfer-IsMade v (lookup v.service_name m) m made refl in
    let (m', e', made'', at') = sync_add-some l next made' in
    (m', rw (e, sync_add) e', made'', λ s n. ground (arith, at s n, at' s n))
