-- ===== src/Text/Output.antt =====
-- What a stream holds after any sequence of `operator<<`, against texts that are appended whole
-- or not at all.
use tit_co.Base.{
  ℕ, ◌+◌, ◌^◌, ◌≤◌, ◌<◌, ◌≡◌, refl, sym, subst, ap₂, ◌∙◌, List, [], ◌∷◌, ◌++◌, length, take, Bool,
  if◌then◌else◌, ltb, leb, none, some, true, false, arith, append-nil, append_assoc, length-append,
  length-take, take_all, All,
}
use tit_co.Base.Bytes.{length-write_block, length-read_block, read-write_behind}
use tit_co.Base.Int.{ℤ, pos, negsuc}
use tit_co.Text.Digits.{Bytes, codes, convert, convert_hex}
use tit_co.Text.Reading.{length-convert}
use tit_co.Text.Hex.{length-convert_hex}
use tit_co.Text.Buffer.{FixedBuffer, avail, to_size, buffer_append, add, write_current, to_string}
use tit_co.Text.Stream.{
  Stream, has_numeric_room, IntType, short, unsigned_short, int, unsigned_int, long, unsigned_long,
  long_long, unsigned_long_long, format_integer, put_integer, put_pointer, put_double, put_bool,
  put_char, put_c_string, c_text, put_string, put_buffer, stream_append,
}
use tit_co.Text.Items.{
  Item, integer, pointer, double, boolean, char, c_string, string, buffer, block, put, shown,
  put_text, IsValue, IsOpen,
}

-- `next` is `b` with other characters, `out`.
pub record HasText (b next : FixedBuffer) (out : Bytes) : Type 0 where
  pub still_open : IsOpen next
  pub same_size : length next.bytes ≡ length b.bytes
  pub text : to_string next ≡ out

length-to_string : (b : FixedBuffer) → length (to_string b) ≡ b.cur
unfolding to_string
length-to_string b = length-read_block b.bytes 0 b.cur

buffer_append_lem :
    (b : FixedBuffer) (s : Bytes)
    → IsOpen b
    → HasText b (buffer_append b s) (
        if ltb (length (to_string b) + length s) (length b.bytes)
        then to_string b ++ s
        else to_string b)
unfolding buffer_append avail to_size to_string
buffer_append_lem b s h = ground (
  arith,
  length-read_block b.bytes 0 b.cur,
  length-write_block b.bytes b.cur s,
  read-write_behind b.bytes b.cur s [],
  append-nil s,
)

number_lem :
    (b : FixedBuffer) (text : Bytes)
    → IsOpen b
    → length text < 48
    → HasText b (if has_numeric_room b then add (write_current b text) (length text) else b) (
        if leb (length (to_string b) + 48) (length b.bytes)
        then to_string b ++ text
        else to_string b)
unfolding add write_current to_string has_numeric_room avail
number_lem b text h k = ground (
  arith,
  length-read_block b.bytes 0 b.cur,
  length-write_block b.bytes b.cur (text ++ (0 ∷ [])),
  read-write_behind b.bytes b.cur text (0 ∷ []),
)

abbrev Printed : Stream → Stream → Item → Type 0
Printed s next x =
    HasText s.buffer next.buffer (put_text (length s.buffer.bytes) (to_string s.buffer) x)

inside_if :
    (c : Bool) (s : Stream) (b : FixedBuffer) (out : Bytes)
    → HasText s.buffer (if c then b else s.buffer) out
    → HasText s.buffer (if c then record { buffer = b } else s).buffer out
inside_if true s b out h = h
inside_if false s b out h = h

format_integer_lem :
    (s : Stream) (t : IntType) (v : ℤ)
    → IsOpen s.buffer
    → IsValue (integer t v)
    → Printed s (format_integer s v) (integer t v)
unfolding put_text shown format_integer
format_integer_lem s t v h (big, least) =
    inside_if (has_numeric_room s.buffer) s _ _
      (number_lem s.buffer (convert v) h (omega (arith, length-convert v big least)))

put_integer_lem :
    (s : Stream) (t : IntType) (v : ℤ)
    → IsOpen s.buffer
    → IsValue (integer t v)
    → Printed s (put_integer s t v) (integer t v)
unfolding put_integer
put_integer_lem s short v = format_integer_lem s short v
put_integer_lem s unsigned_short v = format_integer_lem s unsigned_short v
put_integer_lem s int v = format_integer_lem s int v
put_integer_lem s unsigned_int v = format_integer_lem s unsigned_int v
put_integer_lem s long v = format_integer_lem s long v
put_integer_lem s unsigned_long v = format_integer_lem s unsigned_long v
put_integer_lem s long_long v = format_integer_lem s long_long v
put_integer_lem s unsigned_long_long v = format_integer_lem s unsigned_long_long v

put_pointer_lem :
    (s : Stream) (p : ℕ)
    → IsOpen s.buffer
    → IsValue (pointer p)
    → Printed s (put_pointer s p) (pointer p)
unfolding put_text shown put_pointer
put_pointer_lem s p h small =
    let e : length (convert_hex p) + 2 ≡ length (codes "0x" ++ convert_hex p) = omega arith in
    rw e (
      inside_if (has_numeric_room s.buffer) s _ _ (
        number_lem s.buffer (codes "0x" ++ convert_hex p) h
          (omega (arith, length-convert_hex p small))))

put_double_lem :
    (s : Stream) (text : Bytes)
    → IsOpen s.buffer
    → IsValue (double text)
    → Printed s (put_double s text) (double text)
unfolding put_text shown put_double
put_double_lem s text h k =
    rw (take_all 47 text (omega arith))
      (inside_if (has_numeric_room s.buffer) s _ _ (number_lem s.buffer text h k))

same_test :
    (b : FixedBuffer) (s : Bytes) (n : ℕ)
    → length s ≡ n
    → (if ltb n (to_size (avail b)) then buffer_append b s else b) ≡ buffer_append b s
unfolding buffer_append
same_test b s n h = ground arith

huge_size :
    (b : FixedBuffer) (n : ℕ)
    → IsOpen b
    → n < 2 ^ 31
    → ltb (to_size (negsuc n)) (to_size (avail b)) ≡ false
unfolding to_size avail
huge_size b n h k = ground arith

unchanged :
    (s : Stream)
    → IsOpen s.buffer
    → HasText s.buffer s.buffer (
        if ltb (length (to_string s.buffer) + 0) (length s.buffer.bytes)
        then to_string s.buffer
        else to_string s.buffer)
unchanged s h = ground arith

stream_append_lem :
    (s : Stream) (memory : Bytes) (len : ℤ)
    → IsOpen s.buffer
    → IsValue (block memory len)
    → Printed s (stream_append s memory len) (block memory len)
unfolding put_text shown stream_append to_size
stream_append_lem s memory (pos n) h k =
    let b = s.buffer in
    let text = take n memory in
    inside_if (ltb n (to_size (avail b))) s _ _ (
      subst
        (λ (next : FixedBuffer). HasText b next (
          if ltb (length (to_string b) + length text) (length b.bytes)
          then to_string b ++ text
          else to_string b))
        (sym (same_test b text n (length-take n memory k))) (buffer_append_lem b text h))
stream_append_lem s memory (negsuc n) h k =
    rw (huge_size s.buffer n h k, append-nil (to_string s.buffer)) (unchanged s h)

-- Every operator and `append` do what the specification says.
put_lem : (s : Stream) (x : Item) → IsOpen s.buffer → IsValue x → Printed s (put s x) x
unfolding put put_text shown put_bool put_char put_c_string put_string put_buffer
put_lem s (integer t v) h k = put_integer_lem s t v h k
put_lem s (pointer p) h k = put_pointer_lem s p h k
put_lem s (double text) h k = put_double_lem s text h k
put_lem s (boolean v) h k = buffer_append_lem s.buffer (if v then codes "1" else codes "0") h
put_lem s (char c) h k = buffer_append_lem s.buffer (c ∷ []) h
put_lem s (c_string none) h k = buffer_append_lem s.buffer (codes "(null)") h
put_lem s (c_string (some memory)) h k = buffer_append_lem s.buffer (c_text memory) h
put_lem s (string v) h k = buffer_append_lem s.buffer v h
put_lem s (buffer v) h k = buffer_append_lem s.buffer (to_string v) h
put_lem s (block memory len) h k = stream_append_lem s memory len h k

unfoldable pub put_all : Stream → List Item → Stream
unfolding put
put_all s [] = s
put_all s (x ∷ xs) = put_all (put s x) xs

unfoldable pub put_texts : ℕ → Bytes → List Item → Bytes
put_texts size out [] = out
put_texts size out (x ∷ xs) = put_texts size (put_text size out x) xs

-- After any sequence of operators the characters of the stream are those of the specification,
-- which appends the text of an item whole or drops it: a number when 48 characters are free, any
-- other text when it leaves one free. The array keeps its size, and the place behind the last
-- character stays inside it.
pub put_all-HasText :
    (s : Stream) (xs : List Item)
    → IsOpen s.buffer
    → All IsValue xs
    → HasText s.buffer
        (put_all s xs).buffer
        (put_texts (length s.buffer.bytes) (to_string s.buffer) xs)
unfolding put_all put_texts
put_all-HasText s [] h k = record { still_open = h; same_size = refl; text = refl }
put_all-HasText s (x ∷ xs) h (kx, ks) =
    let one = put_lem s x h kx in
    let more = put_all-HasText (put s x) xs one.still_open ks in
    record {
      still_open = more.still_open;
      same_size = more.same_size ∙ one.same_size;
      text = more.text ∙ ap₂ (λ n out. put_texts n out xs) one.same_size one.text;
    }

unfoldable pub shown_all : List Item → Bytes
shown_all [] = []
shown_all (x ∷ xs) = shown x ++ shown_all xs

texts_fit :
    (size : ℕ) (out : Bytes) (xs : List Item)
    → length out + length (shown_all xs) + 48 ≤ size
    → put_texts size out xs ≡ out ++ shown_all xs
unfolding put_texts shown_all put_text
texts_fit size out [] h = sym (append-nil out)
texts_fit size out (x ∷ xs) h = ground (
  arith,
  length-append out (shown x),
  length-append (shown x) (shown_all xs),
  texts_fit size (out ++ shown x) xs,
  append_assoc out (shown x) (shown_all xs),
)

-- Items whose texts together leave 48 characters free are all shown, one behind the other.
pub put_all_complete :
    (s : Stream) (xs : List Item)
    → IsOpen s.buffer
    → All IsValue xs
    → s.buffer.cur + length (shown_all xs) + 48 ≤ length s.buffer.bytes
    → to_string (put_all s xs).buffer ≡ to_string s.buffer ++ shown_all xs
put_all_complete s xs h k room =
    (put_all-HasText s xs h k).text
    ∙ texts_fit (length s.buffer.bytes) (to_string s.buffer) xs
        (omega (arith, length-to_string s.buffer))
