-- ===== src/Nats/Names.antt =====
-- src/network/nats/nats_manager.cpp: the names of inboxes: how they are read, and that they differ.
use gb_server.Base.{
  ltb, ◌==◌, ltb→lt, lt→ltb, Bool-cases, some_injective, length, drop, All, take-length-append,
  drop-length-append, ℕ, zero, suc, ◌+◌, ◌-◌, ◌*◌, ◌/◌, ◌%◌, ◌^◌, ◌≤◌, ◌<◌, ◌≡◌, refl, sym, ap, ◌∙◌,
  ◌≢◌, inl, inr, true, false, some, List, [], ◌∷◌, ◌++◌, arith,
}
use native.Mathlib.Nat.{mod-eq_of_lt}
use gb_server.Nats.Inboxes.{
  digits, to_string, is_digit, read_digits, stoul, find_pair, index_before, index_behind,
  parse_inbox_worker_index, inbox_name, on_nats_inbox_msg,
}
use gb_server.Workers.{Worker}
use gb_server.Workers.Manager.{WorkerManager, get_worker, put_worker, post_to_worker, post-accepts}

abbrev IsDigit : ℕ → Type 0
IsDigit c = (48 ≤ c) × (c ≤ 57)

snoc-All : (xs : List ℕ) (c : ℕ) → All IsDigit xs → IsDigit c → All IsDigit (xs ++ c ∷ [])
snoc-All [] c a d = (d, tt)
snoc-All (x ∷ xs) c a d = (a.0, snoc-All xs c a.1 d)

digits-All : (rounds n : ℕ) → All IsDigit (digits rounds n)
unfolding digits
digits-All zero n = tt
digits-All (suc rounds) n = elim (Bool-cases (ltb n 10)) [
  | inl small ↦ rw small ((omega (arith, ltb→lt n 10 small), omega (arith, ltb→lt n 10 small)), tt)
  | inr large ↦ rw large (snoc-All _ _ (digits-All rounds (n / 10)) (omega arith, omega arith))
]

is_digit-true : (c : ℕ) → IsDigit c → is_digit c ≡ true
is_digit-true c d = ground arith

read_digits-snoc :
    (n : ℕ) (xs : List ℕ) (c : ℕ)
    → All IsDigit xs
    → IsDigit c
    → read_digits n (xs ++ c ∷ []) ≡ read_digits n xs * 10 + (c - 48)
unfolding read_digits
read_digits-snoc n [] c a d = ground arith
read_digits-snoc n (x ∷ xs) c a d =
    rw (is_digit-true x a.0) (read_digits-snoc (n * 10 + (x - 48)) xs c a.1 d)

read_digits-one : (n : ℕ) → n < 10 → read_digits 0 ((48 + n) ∷ []) ≡ n
unfolding read_digits
read_digits-one n h = ground arith

quotient-lt : (rounds n : ℕ) → n < 10 ^ suc rounds → n / 10 < 10 ^ rounds
quotient-lt rounds n h = omega arith

read_digits-digits : (rounds n : ℕ) → n < 10 ^ rounds → read_digits 0 (digits rounds n) ≡ n
unfolding read_digits digits
read_digits-digits zero n h = omega arith
read_digits-digits (suc rounds) n h = elim (Bool-cases (ltb n 10)) [
  | inl small ↦ rw small (read_digits-one n (ltb→lt n 10 small))
  | inr large ↦ rw large (
      rw
        (read_digits-snoc 0 (digits rounds (n / 10)) (48 + n % 10) (digits-All rounds (n / 10))
          (omega arith, omega arith))
        (rw (read_digits-digits rounds (n / 10) (quotient-lt rounds n h)) (omega arith)))
]

snoc-≢nil : (xs : List ℕ) (c : ℕ) → xs ++ c ∷ [] ≢ []
snoc-≢nil [] c e = cc
snoc-≢nil (x ∷ xs) c e = cc

digits-≢nil : (rounds n : ℕ) → digits (suc rounds) n ≢ []
unfolding digits
digits-≢nil rounds n = elim (Bool-cases (ltb n 10)) [
  | inl small ↦ rw small (λ e. cc)
  | inr large ↦ rw large (snoc-≢nil (digits rounds (n / 10)) (48 + n % 10))
]

stoul-All :
    (ds : List ℕ) (n : ℕ)
    → All IsDigit ds
    → ds ≢ []
    → read_digits 0 ds ≡ n
    → n < 2 ^ 64
    → stoul ds ≡ some n
unfolding stoul
stoul-All [] n a e r h = absurd (e refl)
stoul-All (d ∷ ds) n a e r h = rw (is_digit-true d a.0) (rw r (rw (lt→ltb n (2 ^ 64) h)))

not_dot : (c : ℕ) → IsDigit c → (c == 46) ≡ false
not_dot c d = ground arith

find_pair-digits :
    (ds s : List ℕ) → All IsDigit ds → find_pair 46 78 (ds ++ 46 ∷ 78 ∷ s) ≡ some (length ds)
unfolding find_pair
find_pair-digits [] s a = refl
find_pair-digits (d ∷ []) s a = rw (not_dot d a.0)
find_pair-digits (d ∷ e ∷ ds) s a = rw (find_pair-digits (e ∷ ds) s a.1) (rw (not_dot d a.0))

index_before-digits :
    (ds s : List ℕ) (n : ℕ)
    → stoul ds ≡ some n
    → n < 2 ^ 32
    → index_before (some (length ds)) (ds ++ s) ≡ some n
unfolding index_before
index_before-digits ds s n l h = rw (take-length-append ds s) (rw l (ap some (mod-eq_of_lt h)))

parse_inbox_worker_index-inbox_name :
    (worker seq : ℕ)
    → worker < 2 ^ 32
    → parse_inbox_worker_index (inbox_name worker seq) ≡ some worker
unfolding parse_inbox_worker_index index_behind inbox_name find_pair
parse_inbox_worker_index-inbox_name worker seq h =
    let a : All IsDigit (to_string worker) = digits-All 20 worker in
    let l : stoul (to_string worker) ≡ some worker =
      stoul-All (to_string worker) worker a (digits-≢nil 19 worker)
        (read_digits-digits 20 worker (omega arith)) (omega arith) in
    rw (find_pair-digits (to_string worker) (to_string seq) a)
      (index_before-digits (to_string worker) (46 ∷ 78 ∷ to_string seq) worker l h)

-- The number of the inbox that a name of a worker holds.
abbrev seq_of : ℕ → List ℕ → ℕ
seq_of worker name = read_digits 0 (drop 2 (drop (length (to_string worker)) (drop 8 name)))

seq_of-inbox_name : (worker seq : ℕ) → seq < 2 ^ 64 → seq_of worker (inbox_name worker seq) ≡ seq
unfolding inbox_name
seq_of-inbox_name worker seq k =
    rw (drop-length-append (to_string worker) (46 ∷ 78 ∷ to_string seq))
      (read_digits-digits 20 seq (omega arith))

-- Different inboxes have different names.
inbox_name-injective :
    (worker seq other_worker other_seq : ℕ)
    → worker < 2 ^ 32
    → seq < 2 ^ 64
    → other_worker < 2 ^ 32
    → other_seq < 2 ^ 64
    → inbox_name worker seq ≡ inbox_name other_worker other_seq
    → (worker ≡ other_worker) × (seq ≡ other_seq)
inbox_name-injective worker seq other_worker other_seq h k h' k' e = (same_worker, same_seq)
  where
    same_worker : worker ≡ other_worker
    same_worker = some_injective (
        sym (parse_inbox_worker_index-inbox_name worker seq h)
        ∙ ap parse_inbox_worker_index e
        ∙ parse_inbox_worker_index-inbox_name other_worker other_seq h')

    same_seq : seq ≡ other_seq
    same_seq =
        sym (seq_of-inbox_name worker seq k)
        ∙ ap (λ s. seq_of worker s) e
        ∙ ap (λ w. seq_of w (inbox_name other_worker other_seq)) same_worker
        ∙ seq_of-inbox_name other_worker other_seq k'

-- The response to an inbox that a worker has made the name of is put behind the tasks in the queue of
-- that worker, which is there, runs and is not shutting down, whatever the number of the inbox is; all
-- other workers stay as they are.
pub on_nats_inbox_msg-inbox_name :
    (Task Call : Type 0) (worker seq : ℕ) (task : Task) (m : WorkerManager Task Call)
    (r : Worker Task Call)
    → worker < 2 ^ 32
    → get_worker worker m ≡ some r
    → r.runing ≡ true
    → r.shutting_down ≡ false
    → on_nats_inbox_msg (some (inbox_name worker seq)) task m
      ≡ some (put_worker worker (record r { events = r.events ++ task ∷ [] }) m)
unfolding on_nats_inbox_msg post_to_worker
on_nats_inbox_msg-inbox_name Task Call worker seq task m r h g runs up =
    rw (parse_inbox_worker_index-inbox_name worker seq h) (
      rw (g, post_to_worker) (ap (λ x. some (put_worker worker x m)) (post-accepts task r runs up)))
