-- ===== src/Common/Int/Words.antt =====
-- Values below 2 ^ 63 survive the casts between `u64` and `i64`.
use sdle_shopping_list.Common.{ℕ, ◌+◌, ◌-◌, ◌<◌, ◌≤◌, ◌≡◌, arith}
use sdle_shopping_list.Common.Int.{pos, negsuc, sub_ℕ, as_i64, as_u64, sub_i64, i64_half, u64_mod}

pub as_i64_small : (a : ℕ) → a < i64_half → as_i64 a ≡ pos a
unfolding as_i64
as_i64_small a h = ground arith

as_i64_large : (a : ℕ) → i64_half ≤ a → a < u64_mod → as_i64 a ≡ negsuc (u64_mod - a - 1)
unfolding as_i64
as_i64_large a h k = ground arith

pub as_u64-pos : (a : ℕ) → a < u64_mod → as_u64 (pos a) ≡ a
unfolding as_u64
as_u64-pos a h = omega arith

pub as_u64-negsuc : (a : ℕ) → a < u64_mod → as_u64 (negsuc a) ≡ u64_mod - a - 1
unfolding as_u64
as_u64-negsuc a h = omega arith

-- A difference of two values below 2 ^ 63 does not wrap.
pub sub_i64-pos : (a b : ℕ) → a < i64_half → b < i64_half → sub_i64 (pos a) (pos b) ≡ sub_ℕ a b
unfolding sub_i64 as_i64 as_u64
sub_i64-pos a b h k = ground arith

pub sub_i64_lem :
    (a p n : ℕ) → a + n < i64_half → p < i64_half → sub_i64 (pos a) (sub_ℕ p n) ≡ sub_ℕ (a + n) p
unfolding sub_i64 as_i64 as_u64
sub_i64_lem a p n h k = ground arith
