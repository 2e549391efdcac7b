-- ===== src/Nats/Inboxes.antt =====
-- src/network/nats/nats_manager.cpp: the names of inboxes, which hold the index of a worker.
use mathlib.Core.Option
use gb_server.Base.{
  ltb, leb, ◌==◌, if◌then◌else◌, take, drop, ℕ, zero, suc, ◌+◌, ◌-◌, ◌*◌, ◌/◌, ◌%◌, ◌^◌, Bool, ◌&&◌,
  Option, none, some, List, [], ◌∷◌, ◌++◌,
}
use gb_server.Workers.Manager.{WorkerManager, post_to_worker}

-- The decimal digits of a number below 10 to the number of rounds.
unfoldable pub digits : ℕ → ℕ → List ℕ
digits zero n = []
digits (suc rounds) n =
    let rest = digits rounds (n / 10) in
    if ltb n 10 then (48 + n) ∷ [] else rest ++ (48 + n % 10) ∷ []

-- `std::to_string` of 64 bits.
abbrev pub to_string : ℕ → List ℕ
to_string n = digits 20 n

abbrev pub is_digit : ℕ → Bool
is_digit c = leb 48 c && leb c 57

unfoldable pub read_digits : ℕ → List ℕ → ℕ
read_digits n [] = n
read_digits n (c ∷ s) =
    let rest = read_digits (n * 10 + (c - 48)) s in if is_digit c then rest else n

-- `std::stoul`, which throws where no number stands or it is too large; white space and signs in
-- front of the digits are left out.
unfoldable pub stoul : List ℕ → Option ℕ
stoul [] = none
stoul (c ∷ s) =
    let n = read_digits 0 (c ∷ s) in if is_digit c && ltb n (2 ^ 64) then some n else none

-- `std::string::find` of two characters.
unfoldable pub find_pair : ℕ → ℕ → List ℕ → Option ℕ
find_pair a b [] = none
find_pair a b (c ∷ []) = none
find_pair a b (c ∷ d ∷ s) =
    let rest = Option.map suc (find_pair a b (d ∷ s)) in
    if (c == a) && (d == b) then some 0 else rest

-- The index that stands before ".N".
unfoldable pub index_before : Option ℕ → List ℕ → Option ℕ
unfolding stoul
index_before none s = some 0
index_before (some n) s = Option.map (λ v. v % 2 ^ 32) (stoul (take n s))

unfoldable pub index_behind : Option ℕ → List ℕ → Option ℕ
unfolding find_pair index_before
index_behind none s = some 0
index_behind (some w) s = let t = drop (w + 2) s in index_before (find_pair 46 78 t) t

-- `ParseInboxWorkerIndex`; none is an exception.
unfoldable pub parse_inbox_worker_index : List ℕ → Option ℕ
unfolding find_pair index_behind
parse_inbox_worker_index inbox = index_behind (find_pair 46 87 inbox) inbox

-- `GenInbox` for the index of a worker and the number of the inbox: "_INBOX.W<worker>.N<seq>".
unfoldable pub inbox_name : ℕ → ℕ → List ℕ
unfolding digits
inbox_name worker seq =
    95 ∷ 73 ∷ 78 ∷ 66 ∷ 79 ∷ 88 ∷ 46 ∷ 87 ∷ (to_string worker ++ 46 ∷ 78 ∷ to_string seq)

-- `OnNatsInboxMsg` for the subject of the message, which may be missing, and the task that it makes
-- of the message; none is an exception.
unfoldable pub on_nats_inbox_msg :
    {Task Call : Type 0}
    → Option (List ℕ)
    → Task
    → WorkerManager Task Call
    → Option (WorkerManager Task Call)
unfolding parse_inbox_worker_index
on_nats_inbox_msg none task m = some m
on_nats_inbox_msg (some inbox) task m =
    Option.map (λ index. (post_to_worker index (some task) m).1) (parse_inbox_worker_index inbox)
