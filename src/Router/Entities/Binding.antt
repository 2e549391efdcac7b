-- ===== src/Router/Entities/Binding.antt =====
-- `bind`: the loop ends, and the new interval overrides what it meets.
use gb_server.Base.{
  ltb, leb, if◌then◌else◌, le→leb, lt→leb_false, Bool-cases, length, ℕ, zero, suc, ◌+◌, ◌-◌, ◌^◌,
  ◌≤◌, ◌<◌, ◌≡◌, refl, ap, ◌∙◌, ◌⊎◌, inl, inr, true, false, ◌&&◌, some, [], ◌∷◌, ◌++◌, arith,
}
use gb_server.Router.Entities.{Entry, Table, bind_pass, bind_loop, bind, bind_single}
use gb_server.Router.Entities.Owner.{covers, owner, Clear, IsDisjoint, Clear-mono}

-- The entries that reach past both ends of the interval; each is split once.
abbrev enclosing : ℕ → ℕ → Table → ℕ
enclosing first last [] = 0
enclosing first last (it ∷ vec) =
    (if ltb it.begin first && ltb last it.end then 1 else 0) + enclosing first last vec

enclosing-le-length : (first last : ℕ) (vec : Table) → enclosing first last vec ≤ length vec
enclosing-le-length first last [] = omega arith
enclosing-le-length first last (it ∷ vec) = ground (arith, enclosing-le-length first last vec)

module _ (first last : ℕ) (proper : first < last) where
  restart_enclosing :
      (vec : Table)
      → (bind_pass first last vec).1 ≡ true
      → enclosing first last (bind_pass first last vec).0 < enclosing first last vec
  unfolding bind_pass
  restart_enclosing [] h = cc
  restart_enclosing (it ∷ vec) h = ground (arith, restart_enclosing vec)

  owner-bind_pass_outside :
      (entity : ℕ) (vec : Table)
      → (entity < first) ⊎ (last ≤ entity)
      → owner entity (bind_pass first last vec).0 ≡ owner entity vec
  unfolding bind_pass
  owner-bind_pass_outside entity [] h = refl
  owner-bind_pass_outside entity (it ∷ vec) h = ground (arith, owner-bind_pass_outside entity vec h)

  bind_pass-Clear :
      (vec : Table)
      → (bind_pass first last vec).1 ≡ false
      → Clear first last (bind_pass first last vec).0
  unfolding bind_pass
  bind_pass-Clear [] h = tt
  bind_pass-Clear (it ∷ vec) h = ground (arith, bind_pass-Clear vec)

  Clear-bind_pass :
      (lo hi : ℕ) (vec : Table)
      → lo < hi
      → Clear lo hi vec
      → Clear lo hi (bind_pass first last vec).0
  unfolding bind_pass
  Clear-bind_pass lo hi [] h c = tt
  Clear-bind_pass lo hi (it ∷ vec) h c = ground (arith, Clear-bind_pass lo hi vec h c.1)

  bind_pass-IsDisjoint :
      (vec : Table) → last < 2 ^ 64 → IsDisjoint vec → IsDisjoint (bind_pass first last vec).0
  unfolding bind_pass
  bind_pass-IsDisjoint [] h d = tt
  bind_pass-IsDisjoint (it ∷ vec) h d = ground (
    arith,
    bind_pass-IsDisjoint vec h d.3,
    Clear-bind_pass it.begin it.end vec d.0 d.2,
    Clear-bind_pass it.begin first vec,
    Clear-bind_pass last it.end vec,
    Clear-mono it.begin it.end it.begin first vec,
    Clear-mono it.begin it.end last it.end vec,
  )

  -- What the loop leaves: no entry meets the interval, and outside of it nothing has changed.
  abbrev pub Cut : Table → Table → Type 0
  Cut vec vec' =
      Clear first last vec'
      × ((entity : ℕ) → (entity < first) ⊎ (last ≤ entity) → owner entity vec' ≡ owner entity vec)
      × (last < 2 ^ 64 → IsDisjoint vec → IsDisjoint vec')

  bind_loop-Cut :
      (fuel : ℕ) (vec : Table)
      → enclosing first last vec < fuel
      → (vec' : Table) × (bind_loop fuel first last vec ≡ some vec') × Cut vec vec'
  unfolding bind_loop
  bind_loop-Cut zero vec h = elim h [ ]
  bind_loop-Cut (suc fuel) vec h = elim (Bool-cases (bind_pass first last vec).1) [
    | inl again ↦
        let pass : Table = (bind_pass first last vec).0 in
        let (vec', e, cut) = bind_loop-Cut fuel pass (omega (arith, restart_enclosing vec again)) in
        (
          vec',
          rw again e,
          (
            cut.0,
            (λ entity o. cut.1 entity o ∙ owner-bind_pass_outside entity vec o),
            (λ l d. cut.2 l (bind_pass-IsDisjoint vec l d)),
          ),
        )
    | inr done ↦ (
      (bind_pass first last vec).0,
      rw done,
      (
        bind_pass-Clear vec done,
        (λ entity o. owner-bind_pass_outside entity vec o),
        (λ l d. bind_pass-IsDisjoint vec l d),
      ),
    )
  ]

owner-append_inside :
    (entity : ℕ) (vec : Table) (it : Entry)
    → it.begin ≤ entity
    → entity < it.end
    → Clear it.begin it.end vec
    → owner entity (vec ++ it ∷ []) ≡ it.worker_index
owner-append_inside entity [] it h k c = ground arith
owner-append_inside entity (e ∷ vec) it h k c =
    ground (arith, owner-append_inside entity vec it h k c.1)

owner-append_outside :
    (entity : ℕ) (vec : Table) (it : Entry)
    → covers it entity ≡ false
    → owner entity (vec ++ it ∷ []) ≡ owner entity vec
owner-append_outside entity [] it h = rw h
owner-append_outside entity (e ∷ vec) it h = ground (arith, owner-append_outside entity vec it h)

Clear-append :
    (lo hi : ℕ) (vec : Table) (it : Entry)
    → Clear lo hi vec
    → (it.end ≤ lo) ⊎ (hi ≤ it.begin)
    → Clear lo hi (vec ++ it ∷ [])
Clear-append lo hi [] it c h = (h, tt)
Clear-append lo hi (e ∷ vec) it c h = (c.0, Clear-append lo hi vec it c.1 h)

IsDisjoint-append :
    (vec : Table) (it : Entry)
    → it.begin < it.end
    → it.end < 2 ^ 64
    → Clear it.begin it.end vec
    → IsDisjoint vec
    → IsDisjoint (vec ++ it ∷ [])
IsDisjoint-append [] it h k c d = (h, k, tt, tt)
IsDisjoint-append (e ∷ vec) it h k c d = (
  d.0,
  d.1,
  Clear-append e.begin e.end vec it d.2 (ground arith),
  IsDisjoint-append vec it h k c.1 d.3,
)

-- What `bind` promises of the new pending table.
pub record Bound (first last worker : ℕ) (vec : Table) (vec' : Table) : Type 0 where
  pub owners :
      (entity : ℕ)
      → owner entity vec'
        ≡ (if leb first entity && ltb entity last then worker else owner entity vec)
  pub disjoint : IsDisjoint vec → IsDisjoint vec'

-- `bind` of a proper interval always ends. In the table that it leaves the ids of the interval
-- belong to the new worker and all other ids to the worker that they had; no entries overlap if
-- none did before.
pub bind-Bound :
    (first last worker : ℕ) (vec : Table)
    → first < last
    → last < 2 ^ 64
    → (vec' : Table) × (bind first last worker vec ≡ some vec') × Bound first last worker vec vec'
unfolding bind
bind-Bound first last worker vec h k =
    let (cut, e, c) =
      bind_loop-Cut first last h (suc (length vec)) vec
        (omega (arith, enclosing-le-length first last vec)) in
    (
      cut ++ it ∷ [],
      rw (lt→leb_false _ _ h, e),
      record {
        owners = λ entity. elim (Bool-cases (covers it entity)) [
          | inl hit ↦ rw hit (owner-append_inside entity cut it (ground arith) (ground arith) c.0)
          | inr miss ↦ rw miss (owner-append_outside entity cut it miss ∙ c.1 entity (ground arith))
        ];
        disjoint = λ d. IsDisjoint-append cut it h k c.0 (c.2 k d);
      },
    )
  where
    it : Entry
    it = record { begin = first; end = last; worker_index = worker }

-- An empty interval binds nothing.
pub bind_empty :
    (first last worker : ℕ) (vec : Table) → last ≤ first → bind first last worker vec ≡ some vec
unfolding bind
bind_empty first last worker vec h = rw (le→leb _ _ h)

pub bind_single-bind :
    (entity worker : ℕ) (vec : Table)
    → entity < 2 ^ 64 - 1
    → bind_single entity worker vec ≡ bind entity (entity + 1) worker vec
unfolding bind_single
bind_single-bind entity worker vec h = ap (λ next. bind entity next worker vec) (omega arith)

-- The end of the last id's interval wraps to 0, so that id cannot be bound on its own: the table
-- stays as it was.
pub bind_single_last : (worker : ℕ) (vec : Table) → bind_single (2 ^ 64 - 1) worker vec ≡ some vec
unfolding bind_single
bind_single_last worker vec = bind_empty (2 ^ 64 - 1) 0 worker vec (omega arith)
