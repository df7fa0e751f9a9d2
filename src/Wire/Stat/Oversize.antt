-- ===== src/Wire/Stat/Oversize.antt =====
-- stat.go: a Stat that is longer than its two-byte size prefix can say.
use p.Common.{ℕ, ◌+◌, ◌≤◌, ◌^◌, ◌%◌, ◌≡◌, ◌≢◌, ap, ◌∙◌, Bool, arith}
use p.Common.Lists.{length, length-append}
use p.Common.Bytes.{IsBytes, le_bytes, length-le_bytes}
use p.Wire.Types.{Stat, ok}
use p.Wire.Stat.{marshal_stat_body, put_stat, unmarshal_stat_version, marshal_stat_version}
use p.Wire.Stat.Canonical.{unmarshal_stat-canonical}

length-put_stat : (u : Bool) (s : Stat) → length (put_stat u s) ≡ 2 + length (marshal_stat_body u s)
unfolding put_stat
length-put_stat u s =
    length-append (le_bytes 2 (length (marshal_stat_body u s) % 2 ^ 16)) (marshal_stat_body u s)
    ∙ ap (λ (n : ℕ). n + length (marshal_stat_body u s))
        (length-le_bytes 2 (length (marshal_stat_body u s) % 2 ^ 16))

-- UnmarshalStatVersion gives no Stat for the bytes that MarshalVersion writes for a Stat whose body
-- takes 2 ^ 16 bytes or more.
pub unmarshal_stat-oversize :
    (u : Bool) (s t : Stat)
    → IsBytes (marshal_stat_version u s)
    → 2 ^ 16 ≤ length (marshal_stat_body u s)
    → unmarshal_stat_version (marshal_stat_version u s) u ≢ ok t
unmarshal_stat-oversize u s t hb h e =
    let (same, fits) = unmarshal_stat-canonical u _ t hb e in
    omega (arith, ap length same, length-put_stat u s, length-put_stat u t, fits.size)
