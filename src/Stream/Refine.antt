-- ===== src/Stream/Refine.antt =====
-- `split_and_process_message` does what the byte machine does with the bytes of the buffer.
use gb_server.Base.{
  if◌then◌else◌, lt→leb_false, Bool-cases, length, ℕ, zero, suc, ◌<◌, ◌≡◌, refl, ap, ◌∙◌, inl, inr,
  true, false, List, [], ◌∷◌, arith,
}
use gb_server.Stream.Agree.{concat, phase, messages, IsWaiting, Agrees}
use gb_server.Stream.Bodies.{take_message_any}
use gb_server.Stream.Heads.{take_header_any}
use gb_server.Stream.Machine.{in_header, in_message, feed}
use gb_server.Stream.Split.{
  ReceivedItem, Receiver, take_message, take_header, split_and_process_message,
}

loop_step :
    (fuel : ℕ) (before : List ℕ) (b : ℕ) (rest : List ℕ) (s : Receiver) (items : List ReceivedItem)
    → split_and_process_message (suc fuel) before (b ∷ rest) s items ≡ (
        if s.identified
        then take_message (split_and_process_message fuel) before (b ∷ rest) s items
        else take_header (split_and_process_message fuel) before (b ∷ rest) s items)
unfolding split_and_process_message
loop_step fuel before b rest s items = rw (lt→leb_false (suc (length rest)) 0 (omega arith))

loop_known :
    (fuel : ℕ) (before : List ℕ) (b : ℕ) (rest : List ℕ) (s : Receiver) (items : List ReceivedItem)
    → s.identified ≡ true
    → split_and_process_message (suc fuel) before (b ∷ rest) s items
      ≡ take_message (split_and_process_message fuel) before (b ∷ rest) s items
loop_known fuel before b rest s items e =
    loop_step fuel before b rest s items
    ∙ ap
        (λ known.
          if known
          then take_message (split_and_process_message fuel) before (b ∷ rest) s items
          else take_header (split_and_process_message fuel) before (b ∷ rest) s items)
        e

loop_new :
    (fuel : ℕ) (before : List ℕ) (b : ℕ) (rest : List ℕ) (s : Receiver) (items : List ReceivedItem)
    → s.identified ≡ false
    → split_and_process_message (suc fuel) before (b ∷ rest) s items
      ≡ take_header (split_and_process_message fuel) before (b ∷ rest) s items
loop_new fuel before b rest s items e =
    loop_step fuel before b rest s items
    ∙ ap
        (λ known.
          if known
          then take_message (split_and_process_message fuel) before (b ∷ rest) s items
          else take_header (split_and_process_message fuel) before (b ∷ rest) s items)
        e

phase_known :
    (s : Receiver) → s.identified ≡ true → phase s ≡ in_message s.header (concat s.message)
phase_known s e =
    ap (λ known. if known then in_message s.header (concat s.message) else in_header s.header) e

phase_new : (s : Receiver) → s.identified ≡ false → phase s ≡ in_header s.header
phase_new s e =
    ap (λ known. if known then in_message s.header (concat s.message) else in_header s.header) e

-- The loop, with fuel for each byte of the buffer, ends, and it does what the machine does with
-- these bytes, unless the machine meets a negative message size.
pub split-Agrees :
    (fuel : ℕ) (before rest : List ℕ) (s : Receiver) (items : List ReceivedItem)
    → length rest < fuel
    → IsWaiting s
    → Agrees
        (split_and_process_message fuel before rest s items)
        (feed rest (phase s) (messages items))
split-Agrees zero before rest s items h w = elim h [ ]
split-Agrees (suc fuel) before [] s items h w =
    unfold feed split_and_process_message in (w, refl, refl)
split-Agrees (suc fuel) before (b ∷ rest) s items h w = elim (Bool-cases s.identified) [
  | inl known ↦
      let (total, size, lt) = w.message_part known in
      rw (loop_known fuel before b rest s items known, phase_known s known)
        (take_message_any s total items size known w.counted (split_and_process_message fuel) before
          (b ∷ rest) lt
          (λ before' r s' items' k w'. split-Agrees fuel before' r s' items' (omega arith) w'))
  | inr new ↦
      rw (loop_new fuel before b rest s items new, phase_new s new)
        (take_header_any s (split_and_process_message fuel) before b rest items w new
          (λ before' r s' items' k w'. split-Agrees fuel before' r s' items' (omega arith) w'))
]
