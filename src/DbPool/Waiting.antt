-- ===== src/DbPool/Waiting.antt =====
-- src/db/postgres/db_pool.cpp: the callers that wait for a connection.
use gb_server.Base.{
  ltb, ◌==◌, if◌then◌else◌, Bool-cases, ℕ, ◌+◌, ◌≡◌, refl, sym, ap, ◌∙◌, inl, inr, Bool, false,
  Option, none, some, List, [], ◌∷◌, ◌++◌, map, append_assoc, append-nil, arith,
}
use gb_server.DbPool.{
  Answer, idle_one, new_one, given_back, closed, DbPool, size_dec, put_idle, close_idle,
  close_waiters, stop_pool, acquire_made, acquire_new, acquire_idle, release_to, do_release,
}
use gb_server.DbPool.Accounts.{close_idle-answers, close_waiters-answers}
use gb_server.DbPool.Runs.{acquires, DbEvent}

abbrev pub promise_of : Answer → ℕ
promise_of (idle_one promise conn) = promise
promise_of (new_one promise conn) = promise
promise_of (given_back promise conn) = promise
promise_of (closed promise) = promise

abbrev pub times : ℕ → List ℕ → ℕ
times x [] = 0
times x (y ∷ ys) = (if x == y then 1 else 0) + times x ys

-- The promises that have waited, in the order in which they were set.
abbrev pub served : List Answer → List ℕ
served [] = []
served (idle_one promise conn ∷ rest) = served rest
served (new_one promise conn ∷ rest) = served rest
served (given_back promise conn ∷ rest) = promise ∷ served rest
served (closed promise ∷ rest) = promise ∷ served rest

abbrev pub asked : List DbEvent → List ℕ
asked [] = []
asked (acquires connected created promise ∷ es) = promise ∷ asked es
asked (_ ∷ es) = asked es

times-append : (x : ℕ) (xs ys : List ℕ) → times x (xs ++ ys) ≡ times x xs + times x ys
times-append x [] ys = omega arith
times-append x (y ∷ xs) ys = omega (arith, times-append x xs ys)

map-append :
    (xs ys : List Answer) → map promise_of (xs ++ ys) ≡ map promise_of xs ++ map promise_of ys
map-append [] ys = refl
map-append (x ∷ xs) ys = ap (λ l. promise_of x ∷ l) (map-append xs ys)

pub served-append : (xs ys : List Answer) → served (xs ++ ys) ≡ served xs ++ served ys
served-append [] ys = refl
served-append (idle_one p c ∷ xs) ys = served-append xs ys
served-append (new_one p c ∷ xs) ys = served-append xs ys
served-append (given_back p c ∷ xs) ys = ap (λ l. p ∷ l) (served-append xs ys)
served-append (closed p ∷ xs) ys = ap (λ l. p ∷ l) (served-append xs ys)

-- From `p` to `q` the callers of `new` have asked; those of `late` have had to wait.
pub record InTurn (new : List ℕ) (p q : DbPool) : Type 0 where
  pub late : List ℕ
  pub in_turn : served q.answers ++ q.waiters ≡ served p.answers ++ (p.waiters ++ late)
  pub once :
      (x : ℕ)
      → times x (map promise_of q.answers) + times x q.waiters
        ≡ times x (map promise_of p.answers) + times x p.waiters + times x new

pub kept-InTurn : {p q : DbPool} → q.answers ≡ p.answers → q.waiters ≡ p.waiters → InTurn [] p q
kept-InTurn {p} {q} a w = record {
  late = [];
  in_turn = rw (a, w, append-nil p.waiters);
  once = λ x. rw (a, w) (omega arith);
}

-- One answer to a caller that asks now.
direct-InTurn :
    (a : Answer) {p q : DbPool}
    → q.answers ≡ p.answers ++ a ∷ []
    → q.waiters ≡ p.waiters
    → served (a ∷ []) ≡ []
    → InTurn (promise_of a ∷ []) p q
direct-InTurn a {p} {q} e w s = record {
  late = [];
  in_turn = rw (e, w, served-append, s, append-nil p.waiters, append-nil);
  once = λ x. rw (e, w, map-append, times-append) (omega arith);
}

wait-InTurn :
    (promise : ℕ) {p q : DbPool}
    → q.answers ≡ p.answers
    → q.waiters ≡ p.waiters ++ promise ∷ []
    → InTurn (promise ∷ []) p q
wait-InTurn promise {p} {q} e w = record {
  late = promise ∷ [];
  in_turn = rw (e, w);
  once = λ x. rw (e, w, times-append) (omega arith);
}

-- Answers to the first of those that wait.
serve-InTurn :
    (xs : List Answer) (rest : List ℕ) {p q : DbPool}
    → q.answers ≡ p.answers ++ xs
    → served xs ≡ map promise_of xs
    → p.waiters ≡ map promise_of xs ++ rest
    → q.waiters ≡ rest
    → InTurn [] p q
serve-InTurn xs rest {p} {q} e s w r = record {
  late = [];
  in_turn =
      rw (e, served-append, s, r, w, append-nil)
        (append_assoc (served p.answers) (map promise_of xs) rest);
  once = λ x.
      rw
        (
          e,
          w,
          r,
          map-append p.answers xs,
          times-append x (map promise_of p.answers) (map promise_of xs),
          times-append x (map promise_of xs) rest,
        )
        (omega arith);
}

pub InTurn-trans :
    {a b : List ℕ} {p q r : DbPool} → InTurn a p q → InTurn b q r → InTurn (a ++ b) p r
InTurn-trans {a} {b} {p} {q} {r} h k = record {
  late = h.late ++ k.late;
  in_turn =
      k.in_turn
      ∙ (sym (append_assoc (served q.answers) q.waiters k.late)
          ∙ (ap (λ l. l ++ k.late) h.in_turn
              ∙ (append_assoc (served p.answers) (p.waiters ++ h.late) k.late
                  ∙ ap (λ l. served p.answers ++ l) (append_assoc p.waiters h.late k.late))));
  once = λ x. omega (arith, h.once x, k.once x, times-append x a b);
}

acquire_made-InTurn :
    (created : Option ℕ) (promise : ℕ) (p : DbPool)
    → InTurn (promise ∷ []) p (acquire_made created promise p)
unfolding acquire_made
acquire_made-InTurn none promise p = wait-InTurn promise refl refl
acquire_made-InTurn (some conn) promise p = direct-InTurn (new_one promise conn) refl refl refl

pub acquire_idle-InTurn :
    (l : List ℕ) (connected : ℕ → Bool) (created : Option ℕ) (promise : ℕ) (p : DbPool)
    → InTurn (promise ∷ []) p (acquire_idle l connected created promise p)
unfolding acquire_idle acquire_new
acquire_idle-InTurn [] connected created promise p = acquire_made-InTurn _ promise p
acquire_idle-InTurn (conn ∷ rest) connected created promise p = elim (Bool-cases (connected conn)) [
  | inl live ↦ rw live (direct-InTurn (idle_one promise conn) refl refl refl)
  | inr dead ↦
      let q = record p {
        idle = rest;
        idle_count = size_dec p.idle_count;
        total_connections = size_dec p.total_connections;
      } in
      rw dead (
        InTurn-trans (kept-InTurn {p = p} {q = q} refl refl) (
          acquire_made-InTurn (if ltb q.total_connections q.max_pool_size then created else none)
            promise q))
]

release_to-InTurn :
    (l : List ℕ) (conn : ℕ) (p : DbPool) → p.waiters ≡ l → InTurn [] p (release_to l conn p)
unfolding release_to put_idle
release_to-InTurn [] conn p e = kept-InTurn refl refl
release_to-InTurn (promise ∷ rest) conn p e =
    serve-InTurn (given_back promise conn ∷ []) rest refl refl e refl

pub do_release-InTurn :
    (connected : ℕ → Bool) (conn : Option ℕ) (p : DbPool)
    → InTurn [] p (do_release connected conn p)
unfolding do_release
do_release-InTurn connected none p = kept-InTurn refl refl
do_release-InTurn connected (some conn) p = elim (Bool-cases (connected conn)) [
  | inl live ↦ rw live (release_to-InTurn p.waiters conn p refl)
  | inr dead ↦ rw dead (kept-InTurn refl refl)
]

close_idle-waiters : (l : List ℕ) (p : DbPool) → (close_idle l p).waiters ≡ p.waiters
unfolding close_idle
close_idle-waiters [] p = refl
close_idle-waiters (conn ∷ rest) p = close_idle-waiters rest _

close_waiters-waiters : (l : List ℕ) (p : DbPool) → p.waiters ≡ l → (close_waiters l p).waiters ≡ []
unfolding close_waiters
close_waiters-waiters [] p e = e
close_waiters-waiters (promise ∷ rest) p e = close_waiters-waiters rest _ refl

closed-promises : (l : List ℕ) → map promise_of (map closed l) ≡ l
closed-promises [] = refl
closed-promises (promise ∷ rest) = ap (λ l. promise ∷ l) (closed-promises rest)

served-closed : (l : List ℕ) → served (map closed l) ≡ l
served-closed [] = refl
served-closed (promise ∷ rest) = ap (λ l. promise ∷ l) (served-closed rest)

pub stop_pool-InTurn : (p : DbPool) → InTurn [] p (stop_pool p)
unfolding stop_pool
stop_pool-InTurn p =
    let q = close_idle p.idle (record p { running = false; heartbeat_armed = false }) in
    serve-InTurn (map closed q.waiters) []
      (close_waiters-answers q.waiters q
        ∙ ap (λ l. l ++ map closed q.waiters) (close_idle-answers p.idle _))
      (served-closed q.waiters ∙ sym (closed-promises q.waiters))
      (sym (close_idle-waiters p.idle _) ∙ (sym (closed-promises q.waiters) ∙ sym (append-nil _)))
      (close_waiters-waiters q.waiters q refl)
