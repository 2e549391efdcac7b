-- ===== src/DbPool/Runs.antt =====
-- src/db/postgres/db_pool.cpp: the calls of a pool and of its timer one after the other, with the
-- connections that the callers have.
use mathlib.Core.Option
use gb_server.Base.{length, get_elem?, drop, ℕ, zero, suc, Bool, Option, some, List, [], ◌∷◌, ◌++◌}
use gb_server.DbPool.{
  Answer, idle_one, new_one, given_back, closed, DbPool, stop_pool, do_acquire, do_release,
  on_heartbeat,
}

pub record Lending : Type 0 where
  pub pool : DbPool
  pub out : List ℕ

-- A caller gives back one of the connections that are out, which the index names; with no
-- such connection it is nullptr. `Release` does not check this, and would take a connection twice. `Release` does not check this; to give a connection back twice is left
-- out here.
pub data DbEvent : Type 0 where
  acquires : (ℕ → Bool) → Option ℕ → ℕ → DbEvent
  gives_back : (ℕ → Bool) → ℕ → DbEvent
  beats : Bool → (ℕ → Bool) → (ℕ → Option ℕ) → DbEvent
  stops : DbEvent

abbrev pub conns : List Answer → List ℕ
conns [] = []
conns (idle_one promise conn ∷ rest) = conn ∷ conns rest
conns (new_one promise conn ∷ rest) = conn ∷ conns rest
conns (given_back promise conn ∷ rest) = conn ∷ conns rest
conns (closed promise ∷ rest) = conns rest

abbrev pub without_nth : ℕ → List ℕ → List ℕ
without_nth i [] = []
without_nth zero (h ∷ hs) = hs
without_nth (suc i) (h ∷ hs) = h ∷ without_nth i hs

-- The connections of the answers that `q` has and `p` has not go out.
abbrev pub settle : DbPool → List ℕ → DbPool → Lending
settle p out q = record { pool = q; out = conns (drop (length p.answers) q.answers) ++ out }

unfoldable pub db_step : DbEvent → Lending → Option Lending
db_step (acquires connected created promise) s =
    some (settle s.pool s.out (do_acquire connected created promise s.pool))
db_step (gives_back connected i) s =
    some (settle s.pool (without_nth i s.out) (do_release connected (get_elem? s.out i) s.pool))
db_step (beats failed connected connect) s =
    Option.map (settle s.pool s.out) (on_heartbeat failed connected connect s.pool)
db_step stops s = some (settle s.pool s.out (stop_pool s.pool))

abbrev pub db_run : List DbEvent → Lending → Option Lending
db_run [] s = some s
db_run (e ∷ es) s = Option.bind (db_step e s) (db_run es)

-- How many answers hand a connection over that a caller has given back.
abbrev pub hand_overs : List Answer → ℕ
hand_overs [] = 0
hand_overs (given_back promise conn ∷ rest) = suc (hand_overs rest)
hand_overs (_ ∷ rest) = hand_overs rest
