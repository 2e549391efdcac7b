-- ===== src/Nats/Tokens.antt =====
-- src/network/nats/nats_manager.cpp: the matching of subjects against an independent description, that of
-- NATS by tokens.
use gb_server.Base.{
  ◌==◌, Bool-cases, All, ℕ, ◌≡◌, refl, sym, ap, ◌∙◌, ◌≢◌, inl, inr, Bool, true, false, ◌&&◌, List,
  [], ◌∷◌, ◌++◌, map, arith,
}
use gb_server.Nats.Wildcards.{
  star, dot, greater, is_last_greater, skip_token, match_end, match_loop, nats_wildcard_match,
  text_eq,
}

-- A token of a pattern: `*` for any one token, `>` for one or more, or a text.
pub data Token : Type 0 where
  any_one rest_of : Token
  exactly : List ℕ → Token

abbrev pub token_text : Token → List ℕ
token_text any_one = star ∷ []
token_text rest_of = greater ∷ []
token_text (exactly t) = t

-- Texts with dots between them, and before them.
abbrev pub dotted : List (List ℕ) → List ℕ
dotted [] = []
dotted (t ∷ ts) = dot ∷ (t ++ dotted ts)

abbrev pub joined : List (List ℕ) → List ℕ
joined [] = []
joined (t ∷ ts) = t ++ dotted ts

-- The tokens of a pattern match those of a subject.
abbrev pub tokens_match : List Token → List (List ℕ) → Bool
tokens_match [] [] = true
tokens_match [] (t ∷ ts) = false
tokens_match (p ∷ ps) [] = false
tokens_match (any_one ∷ ps) (t ∷ ts) = tokens_match ps ts
tokens_match (rest_of ∷ []) (t ∷ ts) = true
tokens_match (rest_of ∷ p ∷ ps) (t ∷ ts) = false
tokens_match (exactly q ∷ ps) (t ∷ ts) = text_eq q t && tokens_match ps ts

-- A token of a subject: not empty, and no character of it is special.
abbrev pub IsPlain : List ℕ → Type 0
IsPlain t = (t ≢ []) × All (λ c. (c ≢ dot) × (c ≢ star) × (c ≢ greater)) t

abbrev pub IsToken : Token → Type 0
IsToken (exactly q) = IsPlain q
IsToken _ = Unit

-- `>` is the last token of the pattern.
abbrev pub GreaterLast : List Token → Type 0
GreaterLast [] = Unit
GreaterLast (any_one ∷ ps) = GreaterLast ps
GreaterLast (rest_of ∷ ps) = ps ≡ []
GreaterLast (exactly q ∷ ps) = GreaterLast ps

abbrev PlainChar : ℕ → Type 0
PlainChar c = (c ≢ dot) × (c ≢ star) × (c ≢ greater)

==_false : (a b : ℕ) → a ≢ b → (a == b) ≡ false
==_false a b h = ground arith

==_true : (a : ℕ) → (a == a) ≡ true
==_true a = ground arith

-- Where a token ends: at the end of the text or at a dot.
abbrev IsBoundary : List ℕ → Type 0
IsBoundary [] = Unit
IsBoundary (c ∷ s) = c ≡ dot

dotted-IsBoundary : (ts : List (List ℕ)) → IsBoundary (dotted ts)
dotted-IsBoundary [] = tt
dotted-IsBoundary (t ∷ ts) = refl

skip_token-plain : (t s : List ℕ) → All PlainChar t → IsBoundary s → skip_token (t ++ s) ≡ s
unfolding skip_token
skip_token-plain [] [] a b = refl
skip_token-plain [] (c ∷ s) a b = rw b
skip_token-plain (c ∷ t) s a b = rw (==_false c dot a.0.0) (skip_token-plain t s a.1 b)

not_greater : (c : ℕ) (p : List ℕ) → c ≢ greater → is_last_greater (c ∷ p) ≡ false
not_greater c [] h = ==_false c greater h
not_greater c (d ∷ p) h = refl

-- A subject that goes on where the token of the pattern has ended, and the other way round.
longer_subject : (p s : List ℕ) (d : ℕ) → IsBoundary p → d ≢ dot → match_loop p (d ∷ s) ≡ false
unfolding match_loop match_end
longer_subject [] s d b h = refl
longer_subject (c ∷ p) s d b h = rw b (rw (==_false dot d (λ e. h (sym e))))

longer_pattern : (p s : List ℕ) (c : ℕ) → IsBoundary s → PlainChar c → match_loop (c ∷ p) s ≡ false
unfolding match_loop match_end
longer_pattern p [] c b h = not_greater c p h.2
longer_pattern p (d ∷ s) c b h =
    rw b (rw (==_false c star h.1, ==_false c greater h.2, ==_false c dot h.0))

-- A plain text of the pattern against one of the subject, each with what follows it.
plain_step :
    (q t p s : List ℕ)
    → All PlainChar q
    → All PlainChar t
    → IsBoundary p
    → IsBoundary s
    → match_loop (q ++ p) (t ++ s) ≡ text_eq q t && match_loop p s
unfolding match_loop
plain_step [] [] p s a b h k = refl
plain_step [] (d ∷ t) p s a b h k = longer_subject p (t ++ s) d h b.0.0
plain_step (c ∷ q) [] p s a b h k = longer_pattern (q ++ p) s c k a.0
plain_step (c ∷ q) (d ∷ t) p s a b h k =
    let ih = plain_step q t p s a.1 b.1 h k in
    rw (==_false c star a.0.1, ==_false c greater a.0.2) (ground (arith, ih))

token_step :
    (k : Token) (t p s : List ℕ)
    → IsToken k
    → IsPlain t
    → IsBoundary p
    → IsBoundary s
    → match_loop (token_text k ++ p) (t ++ s) ≡ elim k [
      | any_one ↦ match_loop p s
      | rest_of ↦ true
      | exactly q ↦ text_eq q t && match_loop p s
    ]
unfolding match_loop
token_step k [] p s w (n, b) h l = absurd (n refl)
token_step any_one (c ∷ t) p s w (n, b) h l = ap (match_loop p) (skip_token-plain (c ∷ t) s b l)
token_step rest_of (c ∷ t) p s w (n, b) h l = refl
token_step (exactly q) (c ∷ t) p s w (n, b) h l = plain_step q (c ∷ t) p s w.1 b h l

tails_match :
    (ps : List Token) (ts : List (List ℕ))
    → All IsToken ps
    → All IsPlain ts
    → GreaterLast ps
    → match_loop (dotted (map token_text ps)) (dotted ts) ≡ tokens_match ps ts
unfolding match_loop match_end
tails_match [] [] a b g = refl
tails_match [] (t ∷ ts) a b g = refl
tails_match (p ∷ ps) [] a b g =
    not_greater dot (token_text p ++ dotted (map token_text ps)) (λ e. omega arith)
tails_match (any_one ∷ ps) (t ∷ ts) a b g =
    token_step any_one t _ _ tt b.0 (dotted-IsBoundary (map token_text ps)) (dotted-IsBoundary ts)
    ∙ tails_match ps ts a.1 b.1 g
tails_match (rest_of ∷ []) (t ∷ ts) a b g =
    token_step rest_of t [] (dotted ts) tt b.0 (dotted-IsBoundary []) (dotted-IsBoundary ts)
tails_match (rest_of ∷ p ∷ ps) (t ∷ ts) a b g = cc
tails_match (exactly q ∷ ps) (t ∷ ts) a b g =
    token_step (exactly q) t _ _ a.0 b.0 (dotted-IsBoundary (map token_text ps))
      (dotted-IsBoundary ts)
    ∙ ap (λ r. text_eq q t && r) (tails_match ps ts a.1 b.1 g)

-- The test for a lone `>` before the loop.
starts_greater :
    (p : Token) (ps : List Token) (t : List ℕ) (ts : List (List ℕ))
    → IsToken p
    → GreaterLast (p ∷ ps)
    → is_last_greater (token_text p ++ dotted (map token_text ps)) ≡ true
    → tokens_match (p ∷ ps) (t ∷ ts) ≡ true
starts_greater any_one [] t ts a g h = cc
starts_greater any_one (q ∷ ps) t ts a g h = cc
starts_greater rest_of [] t ts a g h = refl
starts_greater rest_of (q ∷ ps) t ts a g h = cc
starts_greater (exactly []) ps t ts a g h = absurd (a.0 refl)
starts_greater (exactly (c ∷ q)) ps t ts a g h =
    cc (not_greater c (q ++ dotted (map token_text ps)) a.1.0.2)

-- A pattern and a subject of one token or more are matched as NATS describes it by tokens: `*` stands
-- for any one token, `>` for one or more, any other token for itself. The tokens of the subject, and the
-- others of the pattern, are not empty and hold no dot and no wildcard, and `>` is the last token of
-- the pattern if it is one, as NATS asks.
pub nats_wildcard_match-tokens :
    (p : Token) (ps : List Token) (t : List ℕ) (ts : List (List ℕ))
    → All IsToken (p ∷ ps)
    → All IsPlain (t ∷ ts)
    → GreaterLast (p ∷ ps)
    → nats_wildcard_match (joined (map token_text (p ∷ ps))) (joined (t ∷ ts))
      ≡ tokens_match (p ∷ ps) (t ∷ ts)
unfolding nats_wildcard_match match_loop
nats_wildcard_match-tokens p ps t ts a b g =
    let pattern = token_text p ++ dotted (map token_text ps) in
    elim (Bool-cases (is_last_greater pattern)) [
      | inl h ↦ rw h (sym (starts_greater p ps t ts a.0 g h))
      | inr h ↦ rw h (tails_match (p ∷ ps) (t ∷ ts) a b g)
    ]
