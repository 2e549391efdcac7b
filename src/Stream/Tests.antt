-- ===== src/Stream/Tests.antt =====
-- The message stream at concrete inputs.
use gb_server.Base.{
  take, drop, All, pos, negsuc, ℕ, ◌+◌, ◌^◌, ◌<◌, ◌≡◌, refl, true, false, some, List, [], ◌∷◌, map,
  arith,
}
use gb_server.Stream.Agree.{phase, messages, Agrees, fresh-IsWaiting}
use gb_server.Stream.Chunks.{Read, read_all, stream_of}
use gb_server.Stream.Flow.{FlowController, recharge_write_quota}
use gb_server.Stream.Flow.Rates.{granted, after_requests, AtLeast, recharge-granted}
use gb_server.Stream.Frames.{
  Outgoing, send_header, send, send_all, FitsHeader, arriving, read_all-send_all,
}
use gb_server.Stream.Header.{header_of, header_bytes, check_magic_string}
use gb_server.Stream.Hostile.{split_loops}
use gb_server.Stream.Machine.{in_header, feed}
use gb_server.Stream.Refine.{split-Agrees}
use gb_server.Stream.Split.{ReceivedItem, Receiver, fresh, out_of_fuel, split_and_process_message}

abbrev hello : Outgoing
hello = record { meta = 1 ∷ 2 ∷ []; body = 3 ∷ 4 ∷ 5 ∷ [] }

abbrev empty_message : Outgoing
empty_message = record { meta = []; body = [] }

-- The 53 bytes of two messages in three reads, the first of which ends in the first header.
abbrev three_reads : List Read
three_reads =
    record { before = []; bytes = take 10 (send_all (hello ∷ empty_message ∷ [])) }
    ∷ record { before = []; bytes = take 18 (drop 10 (send_all (hello ∷ empty_message ∷ []))) }
    ∷ record { before = []; bytes = drop 28 (send_all (hello ∷ empty_message ∷ [])) }
    ∷ []

three_reads-stream_of : stream_of three_reads ≡ send_all (hello ∷ empty_message ∷ [])
unfolding send header_bytes send_header
three_reads-stream_of = refl

hello-FitsHeader : All FitsHeader (hello ∷ empty_message ∷ [])
hello-FitsHeader = omega arith

read_all-send_all_example :
    (s : Receiver) × (items : List ReceivedItem) × (read_all three_reads fresh ≡ some (s, items))
    × (messages items ≡ map arriving (hello ∷ empty_message ∷ []))
    × (phase s ≡ in_header [])
read_all-send_all_example =
    read_all-send_all (hello ∷ empty_message ∷ []) three_reads hello-FitsHeader
      three_reads-stream_of

split-Agrees_example :
    Agrees
      (split_and_process_message 54 [] (send_all (hello ∷ empty_message ∷ [])) fresh [])
      (feed (send_all (hello ∷ empty_message ∷ [])) (in_header []) [])
split-Agrees_example =
    split-Agrees 54 [] (send_all (hello ∷ empty_message ∷ [])) fresh []
      (unfold send header_bytes send_header in omega arith) fresh-IsWaiting

-- A header with the magic value whose sizes are 0, 0 and -24.
abbrev backward_header : List ℕ
backward_header =
    74 ∷ 234 ∷ 4 ∷ 0 ∷ 0 ∷ 0 ∷ 0 ∷ 0 ∷ 0 ∷ 0 ∷ 0 ∷ 0 ∷ 0 ∷ 0 ∷ 0 ∷ 0 ∷ 232 ∷ 255 ∷ 255 ∷ 255 ∷ 255
    ∷ 255 ∷ 255 ∷ 255 ∷ []

backward_magic : check_magic_string (header_of backward_header) ≡ true
unfolding check_magic_string header_of
backward_magic = refl

backward_size : (header_of backward_header).message_size ≡ negsuc 23
unfolding header_of
backward_size = refl

split_loops_example : split_and_process_message 1000 [] backward_header fresh [] ≡ out_of_fuel
split_loops_example = split_loops backward_header refl backward_magic backward_size 1000 [] []

abbrev small_quota : FlowController
small_quota = record {
  read = record { no_limit = true; quota = pos 0 };
  write = record { no_limit = false; quota = negsuc 1 };
}

recharge-granted_example :
    (granted (3 ∷ 3 ∷ 2 ∷ []) (recharge_write_quota 6 small_quota) < 6 + 3)
    × AtLeast
        (2 ^ 31)
        (after_requests (3 ∷ 3 ∷ 2 ∷ []) (recharge_write_quota 6 small_quota)).write.quota
recharge-granted_example =
    recharge-granted 6 3 9 (3 ∷ 3 ∷ 2 ∷ []) small_quota refl (omega arith) (omega arith)
      (omega arith) (omega arith) (omega arith)
