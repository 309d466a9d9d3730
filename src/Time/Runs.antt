-- ===== src/Time/Runs.antt =====
-- Timestamps at concrete values, a wrap among them.
use Prim.Native.Nat.{Ordering}
use rust_media_libs.Prelude.{◌^◌, ◌<◌, ◌≡◌, ◌↔◌, refl, arith}
use rust_media_libs.Time.Defs.{timestamp, add_u32, sub, cmp}
use rust_media_libs.Time.Laws.{add_u32-sub, cmp-lt_iff, cmp-add_u32, flip, cmp-flip}

later_after_wrap : cmp (timestamp 10000) (timestamp 4_000_000_000) ≡ Ordering.gt
unfolding cmp
later_after_wrap = refl

add_u32-sub_example :
    add_u32 (timestamp 4_294_967_290) (sub (timestamp 5) (timestamp 4_294_967_290)).value
    ≡ timestamp 5
add_u32-sub_example =
    add_u32-sub (timestamp 4_294_967_290) (timestamp 5) (omega arith) (omega arith)

cmp-lt_iff_example : (cmp (timestamp 4_294_967_290) (timestamp 5) ≡ Ordering.lt) ↔ (
    (0 < (sub (timestamp 5) (timestamp 4_294_967_290)).value)
    × ((sub (timestamp 5) (timestamp 4_294_967_290)).value < 2 ^ 31))
cmp-lt_iff_example =
    cmp-lt_iff (timestamp 4_294_967_290) (timestamp 5) (omega arith) (omega arith)
      (unfold sub in omega arith)

cmp-add_u32_example :
    cmp (timestamp 4_294_967_290) (add_u32 (timestamp 4_294_967_290) 11) ≡ Ordering.lt
cmp-add_u32_example =
    cmp-add_u32 (timestamp 4_294_967_290) 11 (omega arith) (omega arith) (omega arith)

cmp-flip_example :
    cmp (timestamp 5) (timestamp 4_294_967_290) ≡ flip (cmp (timestamp 4_294_967_290) (timestamp 5))
cmp-flip_example = cmp-flip (timestamp 4_294_967_290) (timestamp 5)
