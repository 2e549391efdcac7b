-- ===== src/Router/Entities/Unbinding.antt =====
-- `unbind`: one id loses its worker and no other does.
use gb_server.Base.{
  ltb, leb, ◌==◌, if◌then◌else◌, Bool-cases, ℕ, ◌+◌, ◌^◌, ◌≤◌, ◌<◌, ◌≡◌, inl, inr, ◌&&◌, [], ◌∷◌,
  arith,
}
use gb_server.Router.Entities.{invalid_worker, Entry, Table, unbind, unbind_entry}
use gb_server.Router.Entities.Owner.{owner, Clear, IsDisjoint, Clear-mono, owner-Clear}

unbind_entry-owner :
    (x entity : ℕ) (it : Entry) (vec : Table)
    → it.begin ≤ x
    → x < it.end
    → it.end < 2 ^ 64
    → Clear it.begin it.end vec
    → owner entity (unbind_entry x it vec)
      ≡ (if entity == x then invalid_worker else owner entity (it ∷ vec))
unfolding unbind_entry
unbind_entry-owner x entity it vec h k l c = ground (arith, owner-Clear it.begin it.end x vec)

pub owner-unbind :
    (x entity : ℕ) (vec : Table)
    → IsDisjoint vec
    → owner entity (unbind x vec) ≡ (if entity == x then invalid_worker else owner entity vec)
unfolding unbind
owner-unbind x entity [] d = ground arith
owner-unbind x entity (it ∷ vec) d =
    ground (arith, owner-unbind x entity vec d.3, unbind_entry-owner x entity it vec)

Clear-unbind :
    (lo hi x : ℕ) (vec : Table) → IsDisjoint vec → Clear lo hi vec → Clear lo hi (unbind x vec)
unfolding unbind unbind_entry
Clear-unbind lo hi x [] d c = tt
Clear-unbind lo hi x (it ∷ vec) d c = ground (arith, Clear-unbind lo hi x vec d.3 c.1)

unbind_entry-IsDisjoint :
    (x : ℕ) (it : Entry) (vec : Table)
    → it.begin ≤ x
    → x < it.end
    → IsDisjoint (it ∷ vec)
    → IsDisjoint (unbind_entry x it vec)
unfolding unbind_entry
unbind_entry-IsDisjoint x it vec h k d = ground (
  arith,
  Clear-mono it.begin it.end (x + 1) it.end vec,
  Clear-mono it.begin it.end it.begin x vec,
)

pub unbind-IsDisjoint : (x : ℕ) (vec : Table) → IsDisjoint vec → IsDisjoint (unbind x vec)
unfolding unbind
unbind-IsDisjoint x [] d = tt
unbind-IsDisjoint x (it ∷ vec) d = elim (Bool-cases (leb it.begin x && ltb x it.end)) [
  | inl hit ↦ rw hit (unbind_entry-IsDisjoint x it vec (ground arith) (ground arith) d)
  | inr miss ↦
      rw miss (d.0, d.1, Clear-unbind it.begin it.end x vec d.3 d.2, unbind-IsDisjoint x vec d.3)
]
