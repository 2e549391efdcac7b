-- ===== src/Stream/Hostile.antt =====
-- What a peer can do with the sizes in a header, which `identify_message_header` does not reject.
use gb_server.Base.{
  length, take_all, negsuc, ℕ, zero, suc, ◌-◌, ◌≤◌, min, ◌≡◌, refl, true, some, List, [], ◌∷◌, ◌++◌,
  arith,
}
use gb_server.Stream.Header.{header_of, check_magic_string}
use gb_server.Stream.Split.{
  ReceivedItem, Receiver, fresh, out_of_fuel, forward, backward, header_ok, identify_message_header,
  Again, move, take_message, after_identify, take_header, split_and_process_message,
}

backward_last :
    (n : ℕ) (B R : List ℕ) {b : ℕ} {before rest : List ℕ}
    → backward n B R ≡ some (b ∷ before, rest)
    → backward (suc n) B R ≡ some (before, b ∷ rest)
unfolding backward
backward_last zero [] R e = cc
backward_last zero (c ∷ B) R e = cc
backward_last (suc n) [] R e = cc
backward_last (suc n) (c ∷ B) R e = backward_last n B (c ∷ R) e

-- Moving the pointer back undoes moving it forward.
backward-forward :
    (n : ℕ) (before rest : List ℕ)
    → n ≤ length rest
    → backward n (forward n before rest).0 (forward n before rest).1 ≡ some (before, rest)
unfolding forward
backward-forward zero before rest h = unfold backward in refl
backward-forward (suc n) before [] h = elim h [ ]
backward-forward (suc n) before (b ∷ rest) h =
    backward_last n (forward n (b ∷ before) rest).0 (forward n (b ∷ before) rest).1
      (backward-forward n (b ∷ before) rest (omega arith))

module _ (h : List ℕ) (full : length h ≡ 24) (magic : check_magic_string (header_of h) ≡ true) where
  identify_alone : identify_message_header h fresh ≡ (header_ok, 24, record fresh { header = h })
  unfolding identify_message_header
  identify_alone =
      let copy : min (length h) (24 - 0) ≡ length h = omega arith in
      rw (copy, take_all h, full, magic)

  module _ (size : (header_of h).message_size ≡ negsuc 23) where
    moved_back :
        (again : Again) (before : List ℕ) (s : Receiver) (items : List ReceivedItem)
        → move again (negsuc 23) (forward 24 before h).0 (forward 24 before h).1 s items
          ≡ again before h s items
    unfolding move
    moved_back again before s items =
        let enough : 24 ≤ length h = omega (arith, full) in
        rw (move, backward-forward 24 before h enough) refl

    abbrev empty_item : ReceivedItem
    empty_item = record {
      message = [];
      meta_size = (header_of h).meta_size;
      data_size = (header_of h).data_size;
    }

    -- The loop is back where it was, with one more message.
    round :
        (again : Again) (before : List ℕ) (items : List ReceivedItem)
        → take_header again before h fresh items ≡ again before h fresh (items ++ empty_item ∷ [])
    unfolding take_header after_identify take_message
    round again before items =
        rw (identify_alone, size, full) (moved_back again before fresh (items ++ empty_item ∷ []))

    -- A complete header with the magic value and a message size of -24, alone in the buffer, never
    -- leaves the loop: no fuel is enough.
    pub split_loops :
        (fuel : ℕ) (before : List ℕ) (items : List ReceivedItem)
        → split_and_process_message fuel before h fresh items ≡ out_of_fuel
    unfolding split_and_process_message
    split_loops zero before items = refl
    split_loops (suc fuel) before items =
        rw (full, round _ before items) (split_loops fuel before (items ++ empty_item ∷ []))
