-- ===== src/Router/Entities/Owner.antt =====
-- The worker that a table gives to an id, by a plain search of all entries, and the tables whose
-- entries do not overlap.
use gb_server.Base.{
  ltb, leb, if◌then◌else◌, ℕ, ◌^◌, ◌≤◌, ◌<◌, ◌≡◌, refl, ◌⊎◌, Bool, ◌&&◌, [], ◌∷◌, arith,
}
use gb_server.Router.Entities.{invalid_worker, Entry, Table}

abbrev pub covers : Entry → ℕ → Bool
covers it entity = leb it.begin entity && ltb entity it.end

-- The first entry that holds the id.
abbrev pub owner : ℕ → Table → ℕ
owner entity [] = invalid_worker
owner entity (it ∷ vec) = if covers it entity then it.worker_index else owner entity vec

-- No entry meets the interval.
abbrev pub Clear : ℕ → ℕ → Table → Type 0
Clear lo hi [] = Unit {0}
Clear lo hi (it ∷ vec) = ((it.end ≤ lo) ⊎ (hi ≤ it.begin)) × Clear lo hi vec

-- No entry is empty or passes the end of the ids, and no two entries overlap.
abbrev pub IsDisjoint : Table → Type 0
IsDisjoint [] = Unit {0}
IsDisjoint (it ∷ vec) =
    (it.begin < it.end) × (it.end < 2 ^ 64) × Clear it.begin it.end vec × IsDisjoint vec

pub Clear-mono :
    (lo hi lo' hi' : ℕ) (vec : Table) → lo ≤ lo' → hi' ≤ hi → Clear lo hi vec → Clear lo' hi' vec
Clear-mono lo hi lo' hi' [] h k c = tt
Clear-mono lo hi lo' hi' (it ∷ vec) h k c = (ground arith, Clear-mono lo hi lo' hi' vec h k c.1)

pub owner-Clear :
    (lo hi entity : ℕ) (vec : Table)
    → lo ≤ entity
    → entity < hi
    → Clear lo hi vec
    → owner entity vec ≡ invalid_worker
owner-Clear lo hi entity [] h k c = refl
owner-Clear lo hi entity (it ∷ vec) h k c = ground (arith, owner-Clear lo hi entity vec h k c.1)
