-- ===== src/Nats/Wildcards.antt =====
-- src/network/nats/nats_manager.cpp: `NatsWildcardMatch` and `MatchSub`. A pointer into a text is the
-- rest of the text, which ends where the terminating zero stands.
use gb_server.Base.{◌==◌, if◌then◌else◌, ℕ, Bool, true, false, ◌&&◌, ◌||◌, List, [], ◌∷◌}

abbrev pub star : ℕ
star = 42

abbrev pub dot : ℕ
dot = 46

abbrev pub greater : ℕ
greater = 62

abbrev pub is_last_greater : List ℕ → Bool
is_last_greater (c ∷ []) = c == greater
is_last_greater _ = false

-- `while (*s && *s != '.') ++s`
unfoldable pub skip_token : List ℕ → List ℕ
skip_token [] = []
skip_token (c ∷ s) = let rest = skip_token s in if c == dot then c ∷ s else rest

abbrev is_end : List ℕ → Bool
is_end [] = true
is_end (c ∷ s) = false

-- What is tested behind the loop.
unfoldable pub match_end : List ℕ → List ℕ → Bool
match_end p s = (is_end p && is_end s) || is_last_greater p

-- The loop, which moves on in the pattern in each round.
unfoldable pub match_loop : List ℕ → List ℕ → Bool
unfolding match_end skip_token
match_loop [] s = match_end [] s
match_loop (c ∷ p) [] = match_end (c ∷ p) []
match_loop (c ∷ p) (d ∷ s) =
    let starred = match_loop p (skip_token (d ∷ s)) in
    let same = match_loop p s in
    if c == star then starred else if c == greater then true else if c == d then same else false

unfoldable pub nats_wildcard_match : List ℕ → List ℕ → Bool
unfolding match_loop
nats_wildcard_match pattern subject =
    if is_last_greater pattern then true else match_loop pattern subject

abbrev pub text_eq : List ℕ → List ℕ → Bool
text_eq [] [] = true
text_eq (c ∷ s) (d ∷ t) = c == d && text_eq s t
text_eq _ _ = false

unfoldable pub match_sub : List ℕ → List ℕ → Bool
unfolding nats_wildcard_match
match_sub pattern subject =
    if text_eq pattern subject then true else nats_wildcard_match pattern subject
