-- ===== src/Time/Laws.antt =====
-- What the arithmetic and the order of timestamps promise.
use Prim.Native.Nat.{Ordering}
use rust_media_libs.Prelude.{ℕ, ◌^◌, ◌<◌, ◌≡◌, ◌≢◌, ◌↔◌, arith}
use rust_media_libs.Bytes.{IsU32}
use rust_media_libs.Time.Defs.{RtmpTimestamp, add_u32, sub, cmp}

-- A timestamp moved on by the difference to another one, modulo 2 ^ 32, is that other one: so a
-- receiver that adds the deltas a sender computed follows the sender's clock through a wrap.
pub add_u32-sub :
    (a b : RtmpTimestamp) → IsU32 a.value → IsU32 b.value → add_u32 a (sub b a).value ≡ b
unfolding add_u32 sub
add_u32-sub a b ha hb = ground arith

-- Of two 32-bit timestamps that are not 2 ^ 31 apart, the first is earlier exactly when the
-- second is reached from it by moving forward, modulo 2 ^ 32, by 1 to 2 ^ 31 - 1 milliseconds.
pub cmp-lt_iff :
    (a b : RtmpTimestamp)
    → IsU32 a.value
    → IsU32 b.value
    → (sub b a).value ≢ 2 ^ 31
    → (cmp a b ≡ Ordering.lt) ↔ ((0 < (sub b a).value) × ((sub b a).value < 2 ^ 31))
unfolding cmp sub
cmp-lt_iff a b ha hb far = ground arith

-- Moving a timestamp forward by 1 to 2 ^ 31 - 1 milliseconds gives a later one, through a wrap too.
pub cmp-add_u32 :
    (a : RtmpTimestamp) (d : ℕ)
    → IsU32 a.value
    → 0 < d
    → d < 2 ^ 31
    → cmp a (add_u32 a d) ≡ Ordering.lt
unfolding cmp add_u32
cmp-add_u32 a d ha hd hlt = ground arith

abbrev pub flip : Ordering → Ordering
flip Ordering.lt = Ordering.gt
flip Ordering.eq = Ordering.eq
flip Ordering.gt = Ordering.lt

-- Swapping the operands swaps the answer, for all pairs of timestamps.
pub cmp-flip : (a b : RtmpTimestamp) → cmp b a ≡ flip (cmp a b)
unfolding cmp
cmp-flip a b = ground arith
