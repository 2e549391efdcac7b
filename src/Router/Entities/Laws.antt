-- ===== src/Router/Entities/Laws.antt =====
-- The route table against a plain map from ids to workers.
use gb_server.Base.{
  ltb, leb, ◌==◌, if◌then◌else◌, leb→le, Bool-cases, All, ℕ, ◌+◌, ◌-◌, ◌^◌, ◌<◌, ◌≡◌, refl, ap, ◌∙◌,
  inl, inr, ◌&&◌, some, List, [], ◌∷◌, arith,
}
use gb_server.Router.Entities.{
  invalid_worker, Table, bind, unbind, sort, search_table, LockFreeRouteTable, empty_table, freeze,
  lookup, Call, binds, binds_single, unbinds, freezes, with_pending, step, run,
}
use gb_server.Router.Entities.Binding.{bind-Bound, bind_empty, bind_single-bind}
use gb_server.Router.Entities.Owner.{owner, IsDisjoint}
use gb_server.Router.Entities.Snapshot.{
  sort-IsChain, owner-sort, merge-IsChain, search_table-owner, sort-IsDisjoint,
}
use gb_server.Router.Entities.Unbinding.{owner-unbind, unbind-IsDisjoint}

-- What the writer has bound, and what the readers see.
pub record Routes : Type 0 where
  pub bound : ℕ → ℕ
  pub published : ℕ → ℕ

abbrev pub no_routes : Routes
no_routes = record { bound = λ _. invalid_worker; published = λ _. invalid_worker }

abbrev pub assign : Routes → Call → Routes
assign s (binds first last worker) = record s {
  bound = λ id. if leb first id && ltb id last then worker else s.bound id;
}
assign s (binds_single entity worker) = record s {
  bound = λ id. if id == entity then worker else s.bound id;
}
assign s (unbinds entity) = record s {
  bound = λ id. if id == entity then invalid_worker else s.bound id;
}
assign s freezes = record s { published = s.bound }

abbrev pub assign_all : Routes → List Call → Routes
assign_all s [] = s
assign_all s (c ∷ cs) = assign_all (assign s c) cs

-- The arguments are ids; the last id cannot be bound on its own.
abbrev pub InDomain : Call → Type 0
InDomain (binds first last worker) = last < 2 ^ 64
InDomain (binds_single entity worker) = entity < 2 ^ 64 - 1
InDomain _ = Unit {0}

pub record Refines (r : LockFreeRouteTable) (s : Routes) : Type 0 where
  pub disjoint : IsDisjoint r.pending
  pub owners : (id : ℕ) → owner id r.pending ≡ s.bound id
  pub lookups : (id : ℕ) → lookup id r ≡ s.published id

-- A freeze publishes exactly the owners of the pending table.
pub lookup-freeze :
    (id : ℕ) (r : LockFreeRouteTable)
    → IsDisjoint r.pending
    → lookup id (freeze r) ≡ owner id r.pending
unfolding lookup freeze
lookup-freeze id r d =
    ap (search_table id) (merge-IsChain (sort r.pending) (sort-IsChain r.pending d))
    ∙ search_table-owner id (sort r.pending) (sort-IsChain r.pending d)
    ∙ owner-sort id r.pending d

abbrev Stepped : LockFreeRouteTable → Call → Routes → Type 0
Stepped r c s = (r' : LockFreeRouteTable) × (step r c ≡ some r') × Refines r' s

-- A change of the pending table alone is not seen by the readers.
pending-Refines :
    (r : LockFreeRouteTable) (s : Routes) (vec : Table) (bound : ℕ → ℕ)
    → Refines r s
    → IsDisjoint vec
    → ((id : ℕ) → owner id vec ≡ bound id)
    → Refines (record r { pending = vec }) (record s { bound = bound })
unfolding lookup
pending-Refines r s vec bound v d o = record { disjoint = d; owners = o; lookups = v.lookups }

binds-Refines :
    (r : LockFreeRouteTable) (s : Routes) (first last worker : ℕ)
    → last < 2 ^ 64
    → Refines r s
    → (vec : Table) × (bind first last worker r.pending ≡ some vec)
      × Refines (record r { pending = vec }) (assign s (binds first last worker))
binds-Refines r s first last worker h v = elim (Bool-cases (leb last first)) [
  | inl empty ↦ (
    r.pending,
    bind_empty first last worker r.pending (leb→le _ _ empty),
    pending-Refines r s r.pending _ v v.disjoint (λ id. v.owners id ∙ ground arith),
  )
  | inr proper ↦
      let (vec, e, b) = bind-Bound first last worker r.pending (ground arith) h in
      (
        vec,
        e,
        pending-Refines r s vec _ v (b.disjoint v.disjoint) (λ id. b.owners id ∙ rw (v.owners id)),
      )
]

step-Refines :
    (r : LockFreeRouteTable) (s : Routes) (c : Call)
    → InDomain c
    → Refines r s
    → Stepped r c (assign s c)
unfolding step
step-Refines r s (binds first last worker) h v =
    let (vec, e, w) = binds-Refines r s first last worker h v in
    (record r { pending = vec }, ap (with_pending r) e, w)
step-Refines r s (binds_single entity worker) h v =
    let (vec, e, w) = binds-Refines r s entity (entity + 1) worker (omega arith) v in
    (
      record r { pending = vec },
      ap (with_pending r) (bind_single-bind entity worker r.pending h ∙ e),
      record {
        disjoint = w.disjoint;
        owners = λ id. w.owners id ∙ ground arith;
        lookups = w.lookups;
      },
    )
step-Refines r s (unbinds entity) h v = (
  record r { pending = unbind entity r.pending },
  refl,
  pending-Refines r s _ _ v (unbind-IsDisjoint entity r.pending v.disjoint)
      (λ id. owner-unbind entity id r.pending v.disjoint ∙ rw (v.owners id)),
)
step-Refines r s freezes h v = (
  freeze r,
  refl,
  record {
    disjoint = sort-IsDisjoint r.pending v.disjoint;
    owners = λ id. owner-sort id r.pending v.disjoint ∙ v.owners id;
    lookups = λ id. lookup-freeze id r v.disjoint ∙ v.owners id;
  },
)

run-Refines :
    (r : LockFreeRouteTable) (s : Routes) (cs : List Call)
    → All InDomain cs
    → Refines r s
    → (r' : LockFreeRouteTable) × (run r cs ≡ some r') × Refines r' (assign_all s cs)
unfolding run
run-Refines r s [] h v = (r, refl, v)
run-Refines r s (c ∷ cs) h v =
    let (r1, e, v1) = step-Refines r s c h.0 v in
    let (r', e', v') = run-Refines r1 (assign s c) cs h.1 v1 in (r', rw (e, run) e', v')

-- After any calls of the main thread on a new table, whose arguments are ids (and the last id is
-- not bound on its own), all loops have ended, and a reader finds for each id the worker that a
-- plain map finds which was copied at the last freeze.
pub run-lookup :
    (cs : List Call)
    → All InDomain cs
    → (r : LockFreeRouteTable) × (run empty_table cs ≡ some r)
      × ((id : ℕ) → lookup id r ≡ (assign_all no_routes cs).published id)
run-lookup cs h =
    let (r, e, v) =
      run-Refines empty_table no_routes cs h
        (record { disjoint = tt; owners = λ id. refl; lookups = λ id. unfold lookup in refl }) in
    (r, e, v.lookups)
