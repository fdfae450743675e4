-- ===== src/Text/Tests.antt =====
-- The theorems on texts at concrete inputs.
use tit_co.Base.{
  ℕ, ◌+◌, ◌*◌, ◌/◌, ◌≤◌, ◌<◌, ◌-◌, ◌^◌, ◌≡◌, refl, true, none, List, [], ◌∷◌, replicate, length,
  length-replicate, All, arith, dec_lt,
}
use tit_co.Base.Int.{pos, negsuc, ≺_wf}
use tit_co.Base.Bytes.{read_block, write_block}
use tit_co.Text.Digits.{codes, convert, convert_hex, emit, emit_hex, lt_wf}
use tit_co.Text.Decimal.{add_one, counted, decimal, convert-eq-decimal}
use tit_co.Text.Reading.{read, read-convert}
use tit_co.Text.Buffer.{to_string, avail, to_size, add, write_current, buffer_append}
use tit_co.Text.Stream.{
  Stream, int, unsigned_long, put_integer, put_pointer, put_bool, put_c_string, put_string,
  stream_append, format_integer, has_numeric_room, c_text,
}
use tit_co.Text.Items.{
  Item, integer, pointer, boolean, c_string, string, block, IsValue, IsOpen, put,
}
use tit_co.Text.Units.{Scale, unit, choose, scale_of, fixed, format_si}
use tit_co.Text.Binary.{nearest, spacing, pick, branches, printed, to_double, format_iec}
use tit_co.Text.Binary.Doubles.{IsHalf}
use tit_co.Text.Binary.Digits.{IsShort, iec_exponent, format_iec_lem}
use tit_co.Text.Units.Spelled.{IsSpelled}
use tit_co.Text.Output.{HasText, put_all, put_texts, put_all-HasText}

convert-eq-decimal_example : convert (negsuc (2 ^ 31 - 1)) ≡ decimal (negsuc (2 ^ 31 - 1))
convert-eq-decimal_example = convert-eq-decimal (negsuc (2 ^ 31 - 1))

read-convert_example : read (convert (negsuc 41)) ≡ negsuc 41
read-convert_example = read-convert (negsuc 41)

-- A stream of 60 characters, of which the last number does not find 48 free.
abbrev sixty : Stream
sixty = record { buffer = record { bytes = replicate 60 0; cur = 0 } }

abbrev items : List Item
items =
    c_string none
    ∷ integer int (negsuc 6)
    ∷ boolean true
    ∷ pointer 48879
    ∷ integer unsigned_long (pos 7)
    ∷ block (codes "abc") (negsuc 0)
    ∷ string (codes "end")
    ∷ []

sixty-IsOpen : IsOpen sixty.buffer
sixty-IsOpen = record {
  inside = omega (arith, length-replicate {A = ℕ} 60 0);
  small = omega (arith, length-replicate {A = ℕ} 60 0);
}

items-IsValue : All IsValue items
items-IsValue = ground arith

put_all-HasText_example :
    HasText sixty.buffer
      (put_all sixty items).buffer
      (put_texts (length sixty.buffer.bytes) (to_string sixty.buffer) items)
put_all-HasText_example = put_all-HasText sixty items sixty-IsOpen items-IsValue

-- The last number is left out, and so is the block of negative length.
shows : to_string (put_all sixty items).buffer ≡ codes "(null)-710xBEEFend"
unfolding to_string put_all put put_integer put_pointer put_bool put_c_string put_string
    stream_append format_integer has_numeric_room avail to_size add write_current buffer_append
    read_block write_block c_text convert convert_hex emit emit_hex ≺_wf lt_wf dec_lt
shows = refl

-- A rounding of exact quotients.
abbrev exact : Scale → ℕ → ℕ
exact scale n = (2 * n + unit scale) / (2 * unit scale)

-- 1999999 is printed as 2.00M.
abbrev two_million : ℕ
two_million = 1999999

two_million-text : format_si exact (pos two_million) ≡ codes "2.00M"
unfolding format_si scale_of choose fixed decimal counted add_one
two_million-text = refl

format_iec_lem_example :
    let d = to_double (2 ^ 60 - 1) in
    let b = pick d branches in
    (length (format_iec (pos (2 ^ 60 - 1))) ≤ 6)
    × IsSpelled b.places (printed b d) (b.suffix ∷ b'i' ∷ []) (format_iec (pos (2 ^ 60 - 1)))
    × IsShort (printed b d) b
    × (b.exponent ≡ iec_exponent b.suffix)
    × IsHalf (d * 10 ^ b.places) (2 ^ b.exponent) (printed b d)
    × (2 ^ 60 - 1 < 2 ^ 53 → d ≡ 2 ^ 60 - 1)
    × (2 * d ≤ 2 * (2 ^ 60 - 1) + 1024)
    × (2 * (2 ^ 60 - 1) ≤ 2 * d + 1024)
format_iec_lem_example = format_iec_lem (2 ^ 60 - 1) (omega arith) (omega arith)

-- A number just below 2 ^ 60 is rounded up to it, and shown as such.
iec_shows : format_iec (pos (2 ^ 60 - 1)) ≡ codes "1.00Ei"
unfolding format_iec to_double nearest spacing pick printed fixed decimal counted add_one dec_lt
iec_shows = refl

iec_tie : format_iec (pos 1028608) ≡ codes "1004Ki"
unfolding format_iec to_double nearest spacing pick printed fixed decimal counted add_one dec_lt
iec_tie = refl
