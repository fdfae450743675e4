-- ===== src/Text/Items.antt =====
-- stream.h: what `operator<<` takes, and what it is meant to show of it.
use tit_co.Base.{
  ℕ, ◌+◌, ◌^◌, ◌≤◌, ◌<◌, ◌≡◌, [], ◌∷◌, ◌++◌, length, take, Bool, if◌then◌else◌, ltb, leb, Option,
  none, some, true, false,
}
use tit_co.Base.Int.{ℤ, pos, negsuc, mag}
use tit_co.Text.Digits.{Bytes, codes, convert, convert_hex, is_negative}
use tit_co.Text.Buffer.{FixedBuffer, to_string}
use tit_co.Text.Stream.{
  Stream, IntType, put_integer, put_pointer, put_double, put_bool, put_char, put_c_string, c_text,
  put_string, put_buffer, stream_append,
}

pub data Item : Type 0 where
  integer : IntType → ℤ → Item
  pointer : ℕ → Item
  double : Bytes → Item
  boolean : Bool → Item
  char : ℕ → Item
  c_string : Option Bytes → Item
  string : Bytes → Item
  buffer : FixedBuffer → Item
  block : Bytes → ℤ → Item

unfoldable pub put : Stream → Item → Stream
put s (integer t v) = put_integer s t v
put s (pointer p) = put_pointer s p
put s (double text) = put_double s text
put s (boolean v) = put_bool s v
put s (char c) = put_char s c
put s (c_string v) = put_c_string s v
put s (string v) = put_string s v
put s (buffer v) = put_buffer s v
put s (block memory len) = stream_append s memory len

-- The specification: the text of an item, whether it is a number, and the room it asks for.
unfoldable pub shown : Item → Bytes
shown (integer t v) = convert v
shown (pointer p) = codes "0x" ++ convert_hex p
shown (double text) = text
shown (boolean v) = if v then codes "1" else codes "0"
shown (char c) = c ∷ []
shown (c_string none) = codes "(null)"
shown (c_string (some memory)) = c_text memory
shown (string v) = v
shown (buffer v) = to_string v
shown (block memory (pos n)) = take n memory
shown (block memory (negsuc n)) = []

abbrev pub is_number : Item → Bool
is_number (integer t v) = true
is_number (pointer p) = true
is_number (double text) = true
is_number other = false

unfoldable pub put_text : ℕ → Bytes → Item → Bytes
put_text size out x =
    if (if is_number x
      then leb (length out + 48) size
      else ltb (length out + length (shown x)) size)
    then out ++ shown x
    else out

-- The values that the types of the code allow.
abbrev pub IsValue : Item → Type 0
IsValue (integer t v) = (mag v < 2 ^ 64) × (is_negative v ≡ true → mag v ≤ 2 ^ 63)
IsValue (pointer p) = p < 2 ^ 64
IsValue (double text) = length text < 48
IsValue (block memory (pos n)) = n ≤ length memory
IsValue (block memory (negsuc n)) = n < 2 ^ 31
IsValue other = Unit

-- The place behind the last character is inside the array, which an `int` measures.
pub record IsOpen (b : FixedBuffer) : Type 0 where
  pub inside : b.cur < length b.bytes
  pub small : length b.bytes < 2 ^ 31
