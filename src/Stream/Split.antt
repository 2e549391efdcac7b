-- ===== src/Stream/Split.antt =====
-- src/message_stream/message_stream.cpp: `split_and_process_message` and what it calls. The
-- transport buffer is a cursor: the bytes before the pointer `data`, the nearest first, and the
-- `size` bytes from it on. A pointer that leaves the buffer at the front is a fault.
use gb_server.Base.{
  ltb, leb, ◌==◌, if◌then◌else◌, length, take, ℤ, pos, negsuc, leb_ℤ, pos_part, ℕ, zero, suc, ◌+◌,
  ◌-◌, min, Bool, true, false, ◌&&◌, Option, none, some, List, [], ◌∷◌, ◌++◌,
}
use gb_server.Stream.Header.{header_size, header_of, check_magic_string}

pub record ReceivedItem : Type 0 where
  pub message : List (List ℕ)
  pub meta_size : ℤ
  pub data_size : ℤ

-- The fields of the receiving side. `header` holds the `_received_header_size` bytes that have been
-- copied; the message is the list of the blocks appended to `_receiving_message`.
pub record Receiver : Type 0 where
  pub header : List ℕ
  pub identified : Bool
  pub received_size : ℕ
  pub message : List (List ℕ)

-- `reset_receiving_env`
abbrev pub fresh : Receiver
fresh = record { header = []; identified = false; received_size = 0; message = [] }

pub data SplitResult : Type 0 where
  finished : Bool → Receiver → List ReceivedItem → SplitResult
  fault out_of_fuel : SplitResult

-- Moving the pointer.
unfoldable pub forward : ℕ → List ℕ → List ℕ → List ℕ × List ℕ
forward zero before rest = (before, rest)
forward (suc n) before [] = (before, [])
forward (suc n) before (b ∷ rest) = forward n (b ∷ before) rest

unfoldable pub backward : ℕ → List ℕ → List ℕ → Option (List ℕ × List ℕ)
backward zero before rest = some (before, rest)
backward (suc n) [] rest = none
backward (suc n) (b ∷ before) rest = backward n before (b ∷ rest)

pub data Identified : Type 0 where
  header_ok header_incomplete header_bad : Identified

-- The results 1, 0 and -1, with the bytes consumed. Sizes that do not add up are only logged.
unfoldable pub identify_message_header : List ℕ → Receiver → Identified × ℕ × Receiver
identify_message_header rest s =
    let copy_size = min (length rest) (header_size - length s.header) in
    let s' = record s { header = s.header ++ take copy_size rest } in
    if ltb (length s'.header) header_size
    then (header_incomplete, copy_size, s')
    else if check_magic_string (header_of s'.header)
    then (header_ok, copy_size, s')
    else (header_bad, copy_size, s')

-- message_size - _received_message_size
abbrev pub remaining : ℤ → ℕ → ℤ
remaining (pos m) n = if leb n m then pos (m - n) else negsuc (n - m - 1)
remaining (negsuc m) n = negsuc (m + n)

abbrev pub Again : Type 0
Again = List ℕ → List ℕ → Receiver → List ReceivedItem → SplitResult

-- `data += consume_size; size -= consume_size;`
unfoldable pub move : Again → ℤ → List ℕ → List ℕ → Receiver → List ReceivedItem → SplitResult
move again (pos n) before rest s items =
    let (before', rest') = forward n before rest in again before' rest' s items
move again (negsuc n) before rest s items = elim (backward (suc n) before rest) [
  | none ↦ fault
  | some (before', rest') ↦ again before' rest' s items
]

-- The part of the loop's body behind the header; `a < b` is `a + 1 ≤ b`.
unfoldable pub take_message : Again → List ℕ → List ℕ → Receiver → List ReceivedItem → SplitResult
unfolding move
take_message again before rest s items =
    let h = header_of s.header in
    let left = remaining h.message_size s.received_size in
    if leb_ℤ (pos (s.received_size + length rest + 1)) h.message_size
    then finished true
        (record s {
          received_size = s.received_size + length rest;
          message = s.message ++ rest ∷ [];
        })
        items
    else let message =
        if leb_ℤ (pos 1) left then s.message ++ take (pos_part left) rest ∷ [] else s.message in
      let item : ReceivedItem = record {
        message = message;
        meta_size = h.meta_size;
        data_size = h.data_size;
      } in
      move again left before rest fresh (items ++ item ∷ [])

-- What the loop does by the result of `identify_message_header`.
unfoldable pub after_identify :
    Again → List ℕ → List ℕ → List ReceivedItem → Identified → ℕ → Receiver → SplitResult
after_identify again before rest items header_incomplete consumed s = finished true s items
after_identify again before rest items header_bad consumed s = finished false s items
after_identify again before rest items header_ok consumed s =
    let s' = record s { identified = true } in
    let (before', rest') = forward consumed before rest in
    if (consumed == length rest) && leb_ℤ (pos 1) (header_of s.header).message_size
    then finished true s' items
    else take_message again before' rest' s' items

-- The branch for a header that is not identified.
unfoldable pub take_header : Again → List ℕ → List ℕ → Receiver → List ReceivedItem → SplitResult
take_header again before rest s items =
    let (result, consumed, s') = identify_message_header rest s in
    after_identify again before rest items result consumed s'

-- `while (size > 0)`
unfoldable pub split_and_process_message : ℕ → Again
unfolding take_header
split_and_process_message zero before rest s items = out_of_fuel
split_and_process_message (suc fuel) before rest s items =
    let again = λ (b : List ℕ) (r : List ℕ) (t : Receiver) (l : List ReceivedItem).
      split_and_process_message fuel b r t l in
    if leb (length rest) 0
    then finished true s items
    else if s.identified
    then take_message again before rest s items
    else take_header again before rest s items
