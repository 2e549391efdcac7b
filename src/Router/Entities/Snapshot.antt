-- ===== src/Router/Entities/Snapshot.antt =====
-- `freeze` and `lookup`: the search of the published table finds the owner in the pending table.
use gb_server.Base.{get_elem?, ℕ, ◌^◌, ◌≤◌, ◌<◌, ◌≡◌, refl, ◌∙◌, ◌⊎◌, [], ◌∷◌, arith}
use gb_server.Router.Entities.{
  invalid_worker, Entry, Table, sort, merge_from, merge, upper_bound, check_entry, search_table,
  insert_sorted,
}
use gb_server.Router.Entities.Owner.{owner, Clear, IsDisjoint}

-- Entries in ascending order, each behind the end of the one before.
abbrev pub IsChain : ℕ → Table → Type 0
IsChain lo [] = Unit {0}
IsChain lo (it ∷ vec) = (lo ≤ it.begin) × (it.begin < it.end) × IsChain it.end vec

owner-insert_sorted :
    (entity : ℕ) (e : Entry) (vec : Table)
    → Clear e.begin e.end vec
    → owner entity (insert_sorted e vec) ≡ owner entity (e ∷ vec)
unfolding insert_sorted
owner-insert_sorted entity e [] c = refl
owner-insert_sorted entity e (f ∷ vec) c = ground (arith, owner-insert_sorted entity e vec c.1)

Clear-insert_sorted :
    (lo hi : ℕ) (e : Entry) (vec : Table)
    → (e.end ≤ lo) ⊎ (hi ≤ e.begin)
    → Clear lo hi vec
    → Clear lo hi (insert_sorted e vec)
unfolding insert_sorted
Clear-insert_sorted lo hi e [] h c = (h, tt)
Clear-insert_sorted lo hi e (f ∷ vec) h c = ground (arith, Clear-insert_sorted lo hi e vec h c.1)

IsChain-insert_sorted :
    (lo : ℕ) (e : Entry) (vec : Table)
    → lo ≤ e.begin
    → e.begin < e.end
    → Clear e.begin e.end vec
    → IsChain lo vec
    → IsChain lo (insert_sorted e vec)
unfolding insert_sorted
IsChain-insert_sorted lo e [] h k c d = (h, k, tt)
IsChain-insert_sorted lo e (f ∷ vec) h k c d = ground (arith, IsChain-insert_sorted f.end e vec)

Clear-sort : (lo hi : ℕ) (vec : Table) → Clear lo hi vec → Clear lo hi (sort vec)
unfolding sort
Clear-sort lo hi [] c = tt
Clear-sort lo hi (e ∷ vec) c = Clear-insert_sorted lo hi e (sort vec) c.0 (Clear-sort lo hi vec c.1)

pub sort-IsChain : (vec : Table) → IsDisjoint vec → IsChain 0 (sort vec)
unfolding sort
sort-IsChain [] d = tt
sort-IsChain (e ∷ vec) d =
    IsChain-insert_sorted 0 e (sort vec) (omega arith) d.0 (Clear-sort e.begin e.end vec d.2)
      (sort-IsChain vec d.3)

pub owner-sort :
    (entity : ℕ) (vec : Table) → IsDisjoint vec → owner entity (sort vec) ≡ owner entity vec
unfolding sort
owner-sort entity [] d = refl
owner-sort entity (e ∷ vec) d =
    owner-insert_sorted entity e (sort vec) (Clear-sort e.begin e.end vec d.2)
    ∙ ground (arith, owner-sort entity vec d.3)

-- No entries are merged where none overlap.
merge_from-IsChain :
    (lo : ℕ) (back : Entry) (vec : Table)
    → IsChain lo (back ∷ vec)
    → merge_from back vec ≡ back ∷ vec
unfolding merge_from
merge_from-IsChain lo back [] c = refl
merge_from-IsChain lo back (e ∷ vec) c = ground (arith, merge_from-IsChain back.end e vec c.2)

pub merge-IsChain : (vec : Table) → IsChain 0 vec → merge vec ≡ vec
unfolding merge
merge-IsChain [] c = refl
merge-IsChain (e ∷ vec) c = merge_from-IsChain 0 e vec c

owner_below :
    (lo entity : ℕ) (vec : Table) → entity < lo → IsChain lo vec → owner entity vec ≡ invalid_worker
owner_below lo entity [] h c = refl
owner_below lo entity (e ∷ vec) h c = ground (arith, owner_below e.end entity vec)

-- The entry before the upper bound is the only one that can hold the id.
check_entry-upper_bound :
    (entity lo : ℕ) (e : Entry) (vec : Table)
    → e.begin ≤ entity
    → IsChain lo (e ∷ vec)
    → check_entry entity (get_elem? (e ∷ vec) (upper_bound entity vec)) ≡ owner entity (e ∷ vec)
unfolding upper_bound check_entry
check_entry-upper_bound entity lo e [] h c = refl
check_entry-upper_bound entity lo e (f ∷ vec) h c =
    ground (arith, check_entry-upper_bound entity e.end f vec, owner_below f.end entity vec)

-- The binary search of an ordered table without overlaps finds what a search of all entries finds.
pub search_table-owner :
    (entity : ℕ) (vec : Table) → IsChain 0 vec → search_table entity vec ≡ owner entity vec
unfolding search_table
search_table-owner entity [] c = refl
search_table-owner entity (e ∷ vec) c =
    ground (arith, check_entry-upper_bound entity 0 e vec, owner_below e.end entity vec)

IsDisjoint-insert_sorted :
    (e : Entry) (vec : Table)
    → e.begin < e.end
    → e.end < 2 ^ 64
    → Clear e.begin e.end vec
    → IsDisjoint vec
    → IsDisjoint (insert_sorted e vec)
unfolding insert_sorted
IsDisjoint-insert_sorted e [] h k c d = (h, k, tt, tt)
IsDisjoint-insert_sorted e (f ∷ vec) h k c d =
    ground
      (arith, IsDisjoint-insert_sorted e vec h k c.1 d.3, Clear-insert_sorted f.begin f.end e vec)

pub sort-IsDisjoint : (vec : Table) → IsDisjoint vec → IsDisjoint (sort vec)
unfolding sort
sort-IsDisjoint [] d = tt
sort-IsDisjoint (e ∷ vec) d =
    IsDisjoint-insert_sorted e (sort vec) d.0 d.1 (Clear-sort e.begin e.end vec d.2)
      (sort-IsDisjoint vec d.3)
