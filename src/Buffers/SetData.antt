-- ===== src/Buffers/SetData.antt =====
-- `SetData` and the bytes of a write buffer.
use gb_server.Base.{
  ltb, ltb→lt, ltb_false→le, Bool-cases, length, take, drop, All, length-append, length-drop, ℕ,
  zero, suc, ◌+◌, ◌-◌, ◌≤◌, ◌≡◌, refl, sym, ap, ◌∙◌, inl, inr, Option, some, List, [], ◌∷◌, ◌++◌,
  arith,
}
use gb_server.Buffers.Splice.{length-splice, splice_behind, splice_inside, splice_across}
use gb_server.Buffers.Write.{Block, bytes_of, splice, set_from, set_data}

abbrev pub Fits : Block → Type 0
Fits b = length b.content ≤ b.capacity

-- The blocks with the bytes `d` from the position `i` on.
pub record Written (i : ℕ) (d : List ℕ) (bs : List Block) (o : Option (List Block)) : Type 0 where
  pub blocks : List Block
  pub result : o ≡ some blocks
  pub spliced : bytes_of blocks ≡ splice i d (bytes_of bs)
  pub fitting : All Fits bs → All Fits blocks

abbrev first_size : List Block → ℕ
first_size [] = 0
first_size (b ∷ bs) = length b.content

splice_nothing : (i : ℕ) (l : List ℕ) → splice i [] l ≡ l
splice_nothing i [] = refl
splice_nothing (suc i) (y ∷ l) = ap (λ t. y ∷ t) (splice_nothing i l)
splice_nothing zero (y ∷ l) = refl

overwrite : ℕ → List ℕ → Block → Block
overwrite i d b = record b { content = splice i d b.content }

overwrite-Fits : (i : ℕ) (d : List ℕ) (b : Block) → Fits b → Fits (overwrite i d b)
unfolding overwrite
overwrite-Fits i d b h = omega (arith, length-splice i d b.content)

set_from-Written :
    (i : ℕ) (d : List ℕ) (bs : List Block)
    → i ≤ first_size bs
    → i + length d ≤ length (bytes_of bs)
    → Written i d bs (set_from i d bs)
unfolding set_from overwrite
set_from-Written i [] bs h k = record {
  blocks = bs;
  result = refl;
  spliced = sym (splice_nothing i (bytes_of bs));
  fitting = λ f. f;
}
set_from-Written i (x ∷ d) [] h k = absurd (omega (arith, k))
set_from-Written i (x ∷ d) (b ∷ bs) h k =
    elim (Bool-cases (ltb (length (x ∷ d)) (length b.content - i))) [
      | inl inside ↦
          let lt = ltb→lt (length (x ∷ d)) (length b.content - i) inside in
          record {
            blocks = overwrite i (x ∷ d) b ∷ bs;
            result = rw inside refl;
            spliced = sym (splice_inside i (x ∷ d) b.content (bytes_of bs) (omega arith));
            fitting = λ f. (overwrite-Fits i (x ∷ d) b f.0, f.1);
          }
      | inr across ↦
          let cur = length b.content - i in
          let rest = drop cur (x ∷ d) in
          let size : length rest ≡ length (x ∷ d) - cur = length-drop cur (x ∷ d) in
          let total = length-append b.content (bytes_of bs) in
          let enough : cur ≤ length (x ∷ d) = ltb_false→le (length (x ∷ d)) cur across in
          let r : Written 0 rest bs (set_from 0 rest bs) =
            set_from-Written 0 rest bs (omega arith) (omega arith) in
          record {
            blocks = overwrite i (take cur (x ∷ d)) b ∷ r.blocks;
            result = rw (across, r.result) refl;
            spliced =
                ap (λ l. splice i (take cur (x ∷ d)) b.content ++ l) r.spliced
                ∙ sym (splice_across i (x ∷ d) b.content (bytes_of bs) h enough);
            fitting = λ f. (overwrite-Fits i (take cur (x ∷ d)) b f.0, r.fitting f.1);
          }
    ]

-- Bytes that lie within the bytes written are replaced by others, whichever blocks they lie in; no
-- other byte changes and no check fails.
pub set_data-Written :
    (i : ℕ) (d : List ℕ) (bs : List Block)
    → i + length d ≤ length (bytes_of bs)
    → Written i d bs (set_data i d bs)
unfolding set_data
set_data-Written zero d bs h = set_from-Written 0 d bs (omega arith) h
set_data-Written (suc i) d [] h = absurd (omega (arith, h))
set_data-Written (suc i) d (b ∷ bs) h = elim (Bool-cases (ltb (suc i) (length b.content))) [
  | inl inside ↦
      let lt = ltb→lt (suc i) (length b.content) inside in
      rw inside (set_from-Written (suc i) d (b ∷ bs) (omega arith) h)
  | inr behind ↦
      let j = suc i - length b.content in
      let le : length b.content ≤ suc i = ltb_false→le (suc i) (length b.content) behind in
      let total = length-append b.content (bytes_of bs) in
      let r : Written j d bs (set_data j d bs) = set_data-Written j d bs (omega arith) in
      let split : length b.content + j ≡ suc i = omega arith in
      record {
        blocks = b ∷ r.blocks;
        result = rw (behind, r.result) refl;
        spliced =
            ap (λ l. b.content ++ l) r.spliced
            ∙ sym (splice_behind b.content j d (bytes_of bs))
            ∙ ap (λ n. splice n d (b.content ++ bytes_of bs)) split;
        fitting = λ f. (f.0, r.fitting f.1);
      }
]
