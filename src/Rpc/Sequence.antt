-- ===== src/Rpc/Sequence.antt =====
-- The union `SequenceId` of src/network/rpc/rpc_call.h. The first of its two fields of 32 bits lies
-- in the low half of the value, as the platform's compilers lay bit fields out.
use gb_server.Base.{ℕ, ◌+◌, ◌*◌, ◌/◌, ◌%◌, ◌^◌, ◌<◌, ◌≡◌, arith}

unfoldable pub sequence_value : ℕ → ℕ → ℕ
sequence_value index seq = index % 2 ^ 32 + seq % 2 ^ 32 * 2 ^ 32

unfoldable pub sequence_index : ℕ → ℕ
sequence_index value = value % 2 ^ 32

unfoldable pub sequence_seq : ℕ → ℕ
sequence_seq value = value / 2 ^ 32 % 2 ^ 32

-- The index of a worker and a number of 32 bits each are read back from the sequence that a request
-- carries, and the sequence fits into 64 bits.
pub sequence_value-fields :
    (index seq : ℕ)
    → index < 2 ^ 32
    → seq < 2 ^ 32
    → (sequence_index (sequence_value index seq) ≡ index)
      × (sequence_seq (sequence_value index seq) ≡ seq)
      × (sequence_value index seq < 2 ^ 64)
unfolding sequence_value sequence_index sequence_seq
sequence_value-fields index seq h k = (omega arith, omega arith, omega arith)
