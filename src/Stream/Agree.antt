-- ===== src/Stream/Agree.antt =====
-- What it means that the receiving side of message_stream.cpp agrees with the byte machine.
use gb_server.Base.{
  if◌then◌else◌, length, drop, pos, ℕ, zero, suc, ◌≤◌, ◌<◌, ◌≡◌, refl, sym, ap, true, false, List,
  [], ◌∷◌, ◌++◌, map, append_assoc, append-nil, arith,
}
use gb_server.Stream.Header.{header_of}
use gb_server.Stream.Machine.{
  Message, Phase, in_header, in_message, Fed, more, broken, negative, feed,
}
use gb_server.Stream.Split.{ReceivedItem, Receiver, fresh, SplitResult, finished, forward, Again}

abbrev pub concat : List (List ℕ) → List ℕ
concat [] = []
concat (xs ∷ xss) = xs ++ concat xss

pub concat-append_one :
    (xss : List (List ℕ)) (xs : List ℕ) → concat (xss ++ xs ∷ []) ≡ concat xss ++ xs
concat-append_one [] xs = rw append-nil
concat-append_one (ys ∷ xss) xs =
    rw (concat-append_one xss xs) (sym (append_assoc ys (concat xss) xs))

-- The state without its buffers.
abbrev pub phase : Receiver → Phase
phase s = if s.identified then in_message s.header (concat s.message) else in_header s.header

abbrev pub message_in : ReceivedItem → Message
message_in item = record {
  meta_size = item.meta_size;
  data_size = item.data_size;
  payload = concat item.message;
}

abbrev pub messages : List ReceivedItem → List Message
messages = map message_in

-- A header is never kept whole, and a message is never kept whole.
pub record IsWaiting (s : Receiver) : Type 0 where
  pub counted : s.received_size ≡ length (concat s.message)
  pub header_part : s.identified ≡ false → (length s.header < 24) × (s.message ≡ [])
  pub message_part :
      s.identified ≡ true
      → (total : ℕ) × ((header_of s.header).message_size ≡ pos total) × (s.received_size < total)

-- The result of the loop and that of the machine.
abbrev pub AgreesMore : Phase → List Message → SplitResult → Type 0
AgreesMore p out (finished true s items) = IsWaiting s × (phase s ≡ p) × (messages items ≡ out)
AgreesMore p out _ = ⊥

abbrev pub AgreesBroken : List Message → SplitResult → Type 0
AgreesBroken out (finished false s items) = messages items ≡ out
AgreesBroken out _ = ⊥

abbrev pub Agrees : SplitResult → Fed → Type 0
Agrees r (more p out) = AgreesMore p out r
Agrees r (broken out) = AgreesBroken out r
Agrees r negative = Unit {0}

pub fresh-IsWaiting : IsWaiting fresh
fresh-IsWaiting = record {
  counted = refl;
  header_part = λ e. (omega arith, refl);
  message_part = λ e. cc;
}

pub forward-rest :
    (n : ℕ) (before rest : List ℕ) → n ≤ length rest → (forward n before rest).1 ≡ drop n rest
unfolding forward
forward-rest zero before rest h = refl
forward-rest (suc n) before [] h = elim h [ ]
forward-rest (suc n) before (b ∷ rest) h = forward-rest n (b ∷ before) rest (omega arith)

-- What the rest of the loop does with shorter input.
abbrev pub Handles : Again → ℕ → Type 0
Handles again n =
    (before rest : List ℕ) (s : Receiver) (items : List ReceivedItem)
    → length rest < n
    → IsWaiting s
    → Agrees (again before rest s items) (feed rest (phase s) (messages items))

pub map-append_one :
    (items : List ReceivedItem) (item : ReceivedItem)
    → messages (items ++ item ∷ []) ≡ messages items ++ message_in item ∷ []
map-append_one [] item = refl
map-append_one (x ∷ items) item = ap (λ l. message_in x ∷ l) (map-append_one items item)
