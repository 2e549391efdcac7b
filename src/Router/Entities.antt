-- ===== src/Router/Entities.antt =====
-- src/network/router/lock_free_route_table.h: intervals of entity ids and the worker of each. The
-- writer edits the pending table, `freeze` publishes a sorted copy and readers search that copy.
-- Ids are below 2 ^ 64. The laws are in the modules below.
pub mod Owner
pub mod Binding
pub mod Snapshot
pub mod Unbinding
pub mod Laws
mod Tests
use mathlib.Core.Option
use gb_server.Base.{
  ltb, leb, ◌==◌, if◌then◌else◌, length, get_elem?, ℕ, zero, suc, ◌+◌, ◌-◌, ◌%◌, ◌^◌, Bool, true,
  false, ◌&&◌, ◌||◌, Option, none, some, List, [], ◌∷◌, ◌++◌, map,
}

abbrev pub invalid_worker : ℕ
invalid_worker = 4294967295

pub record Entry : Type 0 where
  pub begin : ℕ
  pub end : ℕ
  pub worker_index : ℕ

abbrev pub Table : Type 0
Table = List Entry

-- One pass of the inner loop of `Bind`. The flag says that it stopped at a split, `restart`.
unfoldable pub bind_pass : ℕ → ℕ → Table → Table × Bool
bind_pass first last [] = ([], false)
bind_pass first last (it ∷ vec) =
    let (rest, restart) = bind_pass first last vec in
    if leb it.end first || leb last it.begin
    then (it ∷ rest, restart)
    else if ltb it.begin first && ltb last it.end
    then (record it { end = first } ∷ record it { begin = last } ∷ vec, true)
    else if ltb it.begin first
    then (record it { end = first } ∷ rest, restart)
    else if ltb last it.end
    then (record it { begin = last } ∷ rest, restart)
    else (rest, restart)

-- `while (restart)`; `none` means that the fuel ran out.
unfoldable pub bind_loop : ℕ → ℕ → ℕ → Table → Option Table
bind_loop zero first last vec = none
bind_loop (suc fuel) first last vec =
    let (vec', restart) = bind_pass first last vec in
    let again = bind_loop fuel first last vec' in if restart then again else some vec'

-- Each restart splits an entry, and an entry is split once: the fuel is enough.
unfoldable pub bind : ℕ → ℕ → ℕ → Table → Option Table
bind first last worker pending =
    if leb last first
    then some pending
    else Option.map (λ vec. vec ++ record { begin = first; end = last; worker_index = worker } ∷ [])
        (bind_loop (suc (length pending)) first last pending)

unfoldable pub bind_single : ℕ → ℕ → Table → Option Table
bind_single entity worker pending = bind entity ((entity + 1) % 2 ^ 64) worker pending

unbind_entry : ℕ → Entry → Table → Table
unbind_entry entity it vec =
    let next = (entity + 1) % 2 ^ 64 in
    if (it.begin == entity) && (it.end == next)
    then vec
    else if it.begin == entity
    then record it { begin = next } ∷ vec
    else if it.end == next
    then record it { end = entity } ∷ vec
    else record it { end = entity } ∷ record it { begin = next } ∷ vec

unfoldable pub unbind : ℕ → Table → Table
unfolding unbind_entry
unbind entity [] = []
unbind entity (it ∷ vec) =
    if leb it.begin entity && ltb entity it.end
    then unbind_entry entity it vec
    else it ∷ unbind entity vec

insert_sorted : Entry → Table → Table
insert_sorted e [] = e ∷ []
insert_sorted e (f ∷ fs) = if ltb f.begin e.begin then f ∷ insert_sorted e fs else e ∷ f ∷ fs

-- `std::sort` by `begin`.
pub sort : Table → Table
unfolding insert_sorted
sort [] = []
sort (e ∷ es) = insert_sorted e (sort es)

-- The loop that builds the snapshot; `back` is its last entry so far.
pub merge_from : Entry → Table → Table
merge_from back [] = back ∷ []
merge_from back (e ∷ es) =
    let merged =
      merge_from
        (record back {
          end = if ltb back.end e.end then e.end else back.end;
          worker_index = e.worker_index;
        })
        es in
    let apart = back ∷ merge_from e es in if ltb e.begin back.end then merged else apart

pub merge : Table → Table
unfolding merge_from
merge [] = []
merge (e ∷ es) = merge_from e es

-- `std::upper_bound`: the number of entries before the first that begins behind the id.
pub upper_bound : ℕ → Table → ℕ
upper_bound entity [] = 0
upper_bound entity (e ∷ es) = if ltb entity e.begin then 0 else suc (upper_bound entity es)

-- The worker of the entry, if the id lies in it.
pub check_entry : ℕ → Option Entry → ℕ
check_entry entity none = invalid_worker
check_entry entity (some it) =
    if leb it.begin entity && ltb entity it.end then it.worker_index else invalid_worker

unfoldable pub search_table : ℕ → Table → ℕ
unfolding upper_bound check_entry
search_table entity table =
    let it = upper_bound entity table in
    if it == 0 then invalid_worker else check_entry entity (get_elem? table (it - 1))

pub record LockFreeRouteTable : Type 0 where
  pub pending : Table
  pub current : Option Table
  pub retired : Option Table

abbrev pub empty_table : LockFreeRouteTable
empty_table = record { pending = []; current = none; retired = none }

-- The sort is done in place; the old snapshot waits until the next freeze.
unfoldable pub freeze : LockFreeRouteTable → LockFreeRouteTable
unfolding sort merge
freeze r = record {
  pending = sort r.pending;
  current = some (merge (sort r.pending));
  retired = r.current;
}

unfoldable pub lookup : ℕ → LockFreeRouteTable → ℕ
unfolding search_table
lookup entity r = elim r.current [ none ↦ invalid_worker | some table ↦ search_table entity table ]

-- The calls of the main thread.
pub data Call : Type 0 where
  binds : ℕ → ℕ → ℕ → Call
  binds_single : ℕ → ℕ → Call
  unbinds : ℕ → Call
  freezes : Call

abbrev pub with_pending : LockFreeRouteTable → Option Table → Option LockFreeRouteTable
with_pending r none = none
with_pending r (some vec) = some (record r { pending = vec })

unfoldable pub step : LockFreeRouteTable → Call → Option LockFreeRouteTable
unfolding bind bind_single unbind freeze
step r (binds first last worker) = with_pending r (bind first last worker r.pending)
step r (binds_single entity worker) = with_pending r (bind_single entity worker r.pending)
step r (unbinds entity) = some (record r { pending = unbind entity r.pending })
step r freezes = some (freeze r)

unfoldable pub run : LockFreeRouteTable → List Call → Option LockFreeRouteTable
unfolding step
run r [] = some r
run r (c ∷ cs) =
    let rest = λ (r' : LockFreeRouteTable). run r' cs in
    elim (step r c) [ none ↦ none | some r' ↦ rest r' ]
