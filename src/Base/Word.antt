-- ===== src/Base/Word.antt =====
-- Machine words as native numbers: the moduli of the widths and the value of `-1`.
use Prim.Native.Nat.{ℕ, ◌-◌, ◌^◌}

abbrev pub u32 : ℕ
u32 = 2 ^ 32

-- `(uint32)-1`, the code's "no coroutine", "no scheduler" and "no timeout".
abbrev pub minus_one : ℕ
minus_one = 2 ^ 32 - 1
