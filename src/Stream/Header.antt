-- ===== src/Stream/Header.antt =====
-- src/message_stream/message_header.h: the 24 bytes before each message, as a little-endian machine
-- holds them: the magic value, `meta_size`, `data_size` and `message_size`.
use gb_server.Base.{
  ◌==◌, pow_byte, length, take, drop, ℤ, to_word, of_word, to_word-lt, ℕ, zero, suc, ◌+◌, ◌*◌, ◌/◌,
  ◌%◌, ◌^◌, ◌<◌, ◌≡◌, refl, ap, ◌∙◌, Bool, List, [], ◌∷◌, ◌++◌, arith,
}

abbrev pub header_size : ℕ
header_size = 24

abbrev pub header_magic : ℕ
header_magic = 322122

-- The number that the bytes stand for, the lowest byte first.
abbrev pub of_le : List ℕ → ℕ
of_le [] = 0
of_le (b ∷ bs) = b + 256 * of_le bs

abbrev pub to_le : ℕ → ℕ → List ℕ
to_le zero n = []
to_le (suc k) n = (n % 256) ∷ to_le k (n / 256)

pub record MessageHeader : Type 0 where
  pub magic_str_value : ℕ
  pub meta_size : ℤ
  pub data_size : ℤ
  pub message_size : ℤ

-- The fields of a header whose bytes have been copied in.
unfoldable pub header_of : List ℕ → MessageHeader
header_of bytes = record {
  magic_str_value = of_le (take 4 bytes);
  meta_size = of_word (2 ^ 32) (of_le (take 4 (drop 4 bytes)));
  data_size = of_word (2 ^ 64) (of_le (take 8 (drop 8 bytes)));
  message_size = of_word (2 ^ 64) (of_le (take 8 (drop 16 bytes)));
}

-- The bytes of a header in memory.
unfoldable pub header_bytes : MessageHeader → List ℕ
header_bytes h =
    to_le 4 h.magic_str_value
    ++ (to_le 4 (to_word (2 ^ 32) h.meta_size)
        ++ (to_le 8 (to_word (2 ^ 64) h.data_size) ++ to_le 8 (to_word (2 ^ 64) h.message_size)))

unfoldable pub check_magic_string : MessageHeader → Bool
check_magic_string h = h.magic_str_value == header_magic

below : (n p : ℕ) → n < 256 * p → n / 256 < p
below n p h = omega arith

of_le-to_le : (k n : ℕ) → n < 2 ^ (8 * k) → of_le (to_le k n) ≡ n
of_le-to_le zero n h = omega arith
of_le-to_le (suc k) n h =
    omega (arith, of_le-to_le k (n / 256) (below n (2 ^ (8 * k)) (rw pow_byte at h)))

length-to_le : (k n : ℕ) → length (to_le k n) ≡ k
length-to_le zero n = refl
length-to_le (suc k) n = ap suc (length-to_le k (n / 256))

-- The sizes fit their fields.
pub record IsHeader (h : MessageHeader) : Type 0 where
  pub magic : h.magic_str_value ≡ header_magic
  pub meta_word : of_word (2 ^ 32) (to_word (2 ^ 32) h.meta_size) ≡ h.meta_size
  pub data_word : of_word (2 ^ 64) (to_word (2 ^ 64) h.data_size) ≡ h.data_size
  pub message_word : of_word (2 ^ 64) (to_word (2 ^ 64) h.message_size) ≡ h.message_size

pub length-header_bytes : (h : MessageHeader) → length (header_bytes h) ≡ 24
unfolding header_bytes
length-header_bytes h = refl

-- The fields are read back from the bytes.
pub header_of-header_bytes : (h : MessageHeader) → IsHeader h → header_of (header_bytes h) ≡ h
unfolding header_of header_bytes
header_of-header_bytes h v = λ i. record {
  magic_str_value = magic i;
  meta_size = meta i;
  data_size = data_part i;
  message_size = total i;
}
  where
    magic : of_le (to_le 4 h.magic_str_value) ≡ h.magic_str_value
    magic = of_le-to_le 4 h.magic_str_value (omega (arith, v.magic))

    meta : of_word (2 ^ 32) (of_le (to_le 4 (to_word (2 ^ 32) h.meta_size))) ≡ h.meta_size
    meta =
        ap (of_word (2 ^ 32)) (of_le-to_le 4 _ (to_word-lt (2 ^ 32) h.meta_size (omega arith)))
        ∙ v.meta_word

    data_part : of_word (2 ^ 64) (of_le (to_le 8 (to_word (2 ^ 64) h.data_size))) ≡ h.data_size
    data_part =
        ap (of_word (2 ^ 64)) (of_le-to_le 8 _ (to_word-lt (2 ^ 64) h.data_size (omega arith)))
        ∙ v.data_word

    total : of_word (2 ^ 64) (of_le (to_le 8 (to_word (2 ^ 64) h.message_size))) ≡ h.message_size
    total =
        ap (of_word (2 ^ 64)) (of_le-to_le 8 _ (to_word-lt (2 ^ 64) h.message_size (omega arith)))
        ∙ v.message_word
