-- ===== src/Text/Buffer.antt =====
-- stream.h: `FixedBuffer`, an array of SIZE characters and the place behind the last one written.
use tit_co.Base.{ℕ, ◌+◌, ◌-◌, ◌^◌, [], ◌∷◌, ◌++◌, length, if◌then◌else◌, ltb, leb, replicate}
use tit_co.Base.Bytes.{read_block, write_block}
use tit_co.Base.Int.{ℤ, pos, negsuc}
use tit_co.Text.Digits.{Bytes}

-- `bytes` is `data_`, whose length is SIZE; `cur` is `cur_ - data_`.
pub record FixedBuffer : Type 0 where
  pub bytes : Bytes
  pub cur : ℕ

-- The constructor: the array holds what the memory held.
unfoldable pub new_buffer : Bytes → FixedBuffer
new_buffer memory = record { bytes = memory; cur = 0 }

-- `end() - cur_`
unfoldable pub avail : FixedBuffer → ℤ
avail b =
    if leb b.cur (length b.bytes)
    then pos (length b.bytes - b.cur)
    else negsuc (b.cur - length b.bytes - 1)

-- `implicit_cast<size_t>`
unfoldable pub to_size : ℤ → ℕ
to_size (pos n) = n
to_size (negsuc n) = 2 ^ 64 - 1 - n

unfoldable pub buffer_append : FixedBuffer → Bytes → FixedBuffer
unfolding avail to_size
buffer_append b s =
    if ltb (length s) (to_size (avail b))
    then record { bytes = write_block b.bytes b.cur s; cur = b.cur + length s }
    else b

unfoldable pub add : FixedBuffer → ℕ → FixedBuffer
add b n = record { bytes = b.bytes; cur = b.cur + n }

-- A write of `convert`, `convertHex` or `snprintf` through `current()`: a text and its terminator.
unfoldable pub write_current : FixedBuffer → Bytes → FixedBuffer
write_current b s = record { bytes = write_block b.bytes b.cur (s ++ (0 ∷ [])); cur = b.cur }

unfoldable pub buffer_reset : FixedBuffer → FixedBuffer
buffer_reset b = record { bytes = b.bytes; cur = 0 }

unfoldable pub buffer_bzero : FixedBuffer → FixedBuffer
buffer_bzero b = record { bytes = replicate (length b.bytes) 0; cur = b.cur }

unfoldable pub buffer_size : FixedBuffer → ℕ
buffer_size b = length b.bytes

-- `toString`
unfoldable pub to_string : FixedBuffer → Bytes
to_string b = read_block b.bytes 0 b.cur

-- `*cur_ = '\0'`
unfoldable pub debug_string : FixedBuffer → FixedBuffer
debug_string b = record { bytes = write_block b.bytes b.cur (0 ∷ []); cur = b.cur }
