-- ===== src/Evm/Words.antt =====
-- Signed words of the EVM, and the unchecked operations of its assembly.
use usdx_v.Base.{ℕ, suc, ◌+◌, ◌-◌, ◌*◌, ◌%◌, ◌^◌, ltb, ◌==◌, ◌&&◌, Bool, if◌then◌else◌}
use usdx_v.Base.Int.{ℤ, pos, negsuc, pos_part, neg_part, ◌-ℤ◌, ◌*ℤ◌, quot_ℤ, sub_ℕ}
use usdx_v.Evm.{Result, ok, revert, panic_overflow, panic_div_by_zero, uint_mod}

-- 2 ^ 255, kept shut.
unfoldable pub int_max : ℕ
int_max = 2 ^ 255

-- The checked result of an int256 operation: from -2^255 to 2^255 - 1.
abbrev pub checked_int : ℤ → Result ℤ
checked_int (pos n) = if ltb n int_max then ok (pos n) else revert panic_overflow
checked_int (negsuc n) = if ltb n int_max then ok (negsuc n) else revert panic_overflow

abbrev pub sub_int : ℤ → ℤ → Result ℤ
sub_int a b = checked_int (a -ℤ b)

abbrev pub mul_int : ℤ → ℤ → Result ℤ
mul_int a b = checked_int (a *ℤ b)

abbrev pub is_zero_int : ℤ → Bool
is_zero_int a = pos_part a == 0 && neg_part a == 0

abbrev pub div_int : ℤ → ℤ → Result ℤ
div_int a b = if is_zero_int b then revert panic_div_by_zero else checked_int (quot_ℤ a b)

-- `uint256(x)`: the bits of `x` read as an unsigned number.
abbrev pub to_uint : ℤ → ℕ
to_uint (pos n) = n
to_uint (negsuc n) = uint_mod - suc n

-- `int256(x)`: the bits of `x` read as a signed number.
abbrev pub to_int : ℕ → ℤ
to_int n = if ltb n int_max then pos n else sub_ℕ n uint_mod

-- `mul`, `gt` and `iszero` of the assembly.
abbrev pub mul_word : ℕ → ℕ → ℕ
mul_word a b = (a * b) % uint_mod

abbrev pub add_word : ℕ → ℕ → ℕ
add_word a b = (a + b) % uint_mod

abbrev pub gt_word : ℕ → ℕ → ℕ
gt_word a b = if ltb b a then 1 else 0

abbrev pub is_zero_word : ℕ → ℕ
is_zero_word a = if a == 0 then 1 else 0
