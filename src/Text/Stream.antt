-- ===== src/Text/Stream.antt =====
-- stream.h and stream.cc: `Stream` and its `operator<<` for each type.
use tit_co.Base.{
  ℕ, ◌+◌, ◌-◌, [], ◌∷◌, ◌++◌, length, take, Bool, if◌then◌else◌, ltb, leb, ◌==◌, Option, none, some,
  false,
}
use tit_co.Base.Int.{ℤ, pos, negsuc}
use tit_co.Text.Digits.{Bytes, codes, convert, convert_hex}
use tit_co.Text.Buffer.{FixedBuffer, avail, to_size, buffer_append, add, write_current, to_string}

pub record Stream : Type 0 where
  pub buffer : FixedBuffer

abbrev pub max_numeric_size : ℕ
max_numeric_size = 48

-- `buffer_.avail() >= kMaxNumericSize`
unfoldable pub has_numeric_room : FixedBuffer → Bool
has_numeric_room b = elim (avail b) [ pos n ↦ leb max_numeric_size n | negsuc n ↦ false ]

-- `formatInteger`; the template is one function on the values of all integer types.
unfoldable pub format_integer : Stream → ℤ → Stream
unfolding has_numeric_room write_current add
format_integer s v =
    if has_numeric_room s.buffer
    then record { buffer = add (write_current s.buffer (convert v)) (length (convert v)) }
    else s

pub data IntType : Type 0 where
  short unsigned_short int unsigned_int long unsigned_long long_long unsigned_long_long : IntType

-- The casts of `short` and `unsigned short` to `int` and `unsigned int` keep the value.
unfoldable pub put_integer : Stream → IntType → ℤ → Stream
unfolding format_integer
put_integer s short v = format_integer s v
put_integer s unsigned_short v = format_integer s v
put_integer s int v = format_integer s v
put_integer s unsigned_int v = format_integer s v
put_integer s long v = format_integer s v
put_integer s unsigned_long v = format_integer s v
put_integer s long_long v = format_integer s v
put_integer s unsigned_long_long v = format_integer s v

unfoldable pub put_pointer : Stream → ℕ → Stream
unfolding has_numeric_room write_current add
put_pointer s p =
    if has_numeric_room s.buffer
    then record {
      buffer =
          add (write_current s.buffer (codes "0x" ++ convert_hex p)) (length (convert_hex p) + 2);
    }
    else s

-- `snprintf` writes at most 47 characters and a terminator, and returns the length of `text`,
-- which is what "%.12g" prints.
unfoldable pub put_double : Stream → Bytes → Stream
unfolding has_numeric_room write_current add
put_double s text =
    if has_numeric_room s.buffer
    then record {
      buffer = add (write_current s.buffer (take (max_numeric_size - 1) text)) (length text);
    }
    else s

unfoldable pub put_bool : Stream → Bool → Stream
put_bool s v = record { buffer = buffer_append s.buffer (if v then codes "1" else codes "0") }

unfoldable pub put_char : Stream → ℕ → Stream
put_char s c = record { buffer = buffer_append s.buffer (c ∷ []) }

-- `strlen`: the characters before the first NUL.
unfoldable pub c_text : Bytes → Bytes
c_text [] = []
c_text (c ∷ s) = let rest = c_text s in if c == 0 then [] else c ∷ rest

-- `const char*`, and `const unsigned char*`, which is cast to it: the memory it points to, or NULL.
unfoldable pub put_c_string : Stream → Option Bytes → Stream
unfolding c_text
put_c_string s none = record { buffer = buffer_append s.buffer (codes "(null)") }
put_c_string s (some memory) = record { buffer = buffer_append s.buffer (c_text memory) }

-- `const std::string&`
unfoldable pub put_string : Stream → Bytes → Stream
put_string s v = record { buffer = buffer_append s.buffer v }

-- `const Buffer&`
unfoldable pub put_buffer : Stream → FixedBuffer → Stream
unfolding put_string
put_buffer s v = put_string s (to_string v)

-- `append(data, len)`, where `data` points to the bytes `memory`: a negative `len` is a huge size.
unfoldable pub stream_append : Stream → Bytes → ℤ → Stream
unfolding to_size avail
stream_append s memory len =
    if ltb (to_size len) (to_size (avail s.buffer))
    then record { buffer = buffer_append s.buffer (take (to_size len) memory) }
    else s
