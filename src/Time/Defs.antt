-- ===== src/Time/Defs.antt =====
-- rtmp/src/time.rs: the type and its operations. A u32 is a native number below 2 ^ 32.
use Prim.Native.Nat.{compare, Ordering}
use rust_media_libs.Prelude.{ℕ, ◌+◌, ◌-◌, ◌%◌, ◌^◌, min, max, leb, if◌then◌else◌}

pub record RtmpTimestamp : Type 0 where
  pub value : ℕ

abbrev pub timestamp : ℕ → RtmpTimestamp
timestamp initial_value = record { value = initial_value }

-- `Wrapping` addition and subtraction.
unfoldable pub add_values : ℕ → ℕ → ℕ
add_values value1 value2 = (value1 + value2) % 2 ^ 32

unfoldable pub sub_values : ℕ → ℕ → ℕ
sub_values value1 value2 = (value1 + 2 ^ 32 - value2) % 2 ^ 32

abbrev pub max_adjacent_value : ℕ
max_adjacent_value = 2147483647

unfoldable pub compare_values : ℕ → ℕ → Ordering
compare_values value1 value2 =
    let difference = max value1 value2 - min value1 value2 in
    if leb difference max_adjacent_value then compare value1 value2 else compare value2 value1

-- `impl Add for RtmpTimestamp`, and `Add<u32>`.
unfoldable pub add : RtmpTimestamp → RtmpTimestamp → RtmpTimestamp
unfolding add_values
add t other = timestamp (add_values t.value other.value)

unfoldable pub add_u32 : RtmpTimestamp → ℕ → RtmpTimestamp
unfolding add_values
add_u32 t other = timestamp (add_values t.value other)

-- `impl Sub for RtmpTimestamp`, and `Sub<u32>`.
unfoldable pub sub : RtmpTimestamp → RtmpTimestamp → RtmpTimestamp
unfolding sub_values
sub t other = timestamp (sub_values t.value other.value)

unfoldable pub sub_u32 : RtmpTimestamp → ℕ → RtmpTimestamp
unfolding sub_values
sub_u32 t other = timestamp (sub_values t.value other)

-- `impl Ord for RtmpTimestamp`; the comparisons with a bare u32 call the same function.
unfoldable pub cmp : RtmpTimestamp → RtmpTimestamp → Ordering
unfolding compare_values
cmp t other = compare_values t.value other.value

-- `RtmpTimestamp::set`.
unfoldable pub set : RtmpTimestamp → ℕ → RtmpTimestamp
set t new_value = record t { value = new_value }
