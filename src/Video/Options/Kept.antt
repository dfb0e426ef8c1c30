-- ===== src/Video/Options/Kept.antt =====
-- The ranges that the options keep from argument to argument.
use Prim.Native.String.{String}
use text.Mathlib.TextEquality.{eq_iff}
use teraguchi.Common.{
  ℕ, ◌*◌, ◌%◌, ◌^◌, ◌≤◌, ◌≡◌, refl, sym, subst, Bool, true, false, not, ◌&&◌, ◌||◌, Option, none,
  some, ltb, ◌==◌, if◌then◌else◌, arith,
}
use teraguchi.Video.Options.{
  is, is_numeric, Number, negative, number, Options, take_flag, take_rate, take_intra_refresh_count,
  take_intra_refresh_period, take_number, take_name, take_value,
}

-- What a period and a count are that were given, or are not given yet.
abbrev pub IsPeriod : Number → Type 0
IsPeriod negative = Unit {0}
IsPeriod (number n) = (1 ≤ n) × (n ≤ 36000)

abbrev pub IsCount : Number → Type 0
IsCount negative = Unit {0}
IsCount (number n) = n ≤ 36000

-- The ranges that each option keeps.
abbrev pub InRange : Options → Type 0
InRange o =
    (1 ≤ o.frame_count)
    × (o.frame_count ≤ 36000)
    × (1 ≤ o.frame_rate)
    × (o.queue_depth ≤ 1)
    × (1000000 ≤ o.bitrate)
    × (o.bitrate ≤ 4000000000)
    × (1000 ≤ o.vbv_bits)
    × (o.vbv_bits ≤ 1000000000)
    × (1 ≤ o.invalidate_delay_frames)
    × (o.invalidate_delay_frames ≤ 36000)
    × IsPeriod o.intra_refresh_period
    × IsCount o.intra_refresh_count

pub data Kept : Option Options → Type 0 where
  refused : Kept none
  kept : (o : Options) → InRange o → Kept (some o)

if-Kept :
    (c : Bool) (a b : Option Options)
    → (c ≡ true → Kept a)
    → (c ≡ false → Kept b)
    → Kept (if c then a else b)
if-Kept true a b p q = p refl
if-Kept false a b p q = q refl

pub take_flag-Kept : (o : Options) (argument : String) → InRange o → Kept (take_flag o argument)
unfolding take_flag
take_flag-Kept o argument w =
    if-Kept (is argument "--require-changing") _ _ (λ _. kept _ w)
      (λ _.
        if-Kept (is argument "--require-robustness") _ _ (λ _. kept _ w)
          (λ _.
            if-Kept (is argument "--unpaced") _ _ (λ _. kept _ w)
              (λ _.
                if-Kept (is argument "--no-reference-invalidation") _ _ (λ _. kept _ w)
                  (λ _. refused))))

take_rate-Kept :
    (o : Options) (argument : String) (value : Option ℕ)
    → InRange o
    → Kept (take_rate o argument value)
unfolding take_rate
take_rate-Kept o argument none w = refused
take_rate-Kept o argument (some value) w = go (is argument "--bitrate-mbps")
  where
    go :
        (rate : Bool)
        → Kept (
            if value == 0 || ltb (if rate then 4000 else 1000000) value
            then none
            else if rate
            then some (record o { bitrate = value * 1000000 % 2 ^ 32 })
            else some (record o { vbv_bits = value * 1000 % 2 ^ 32 }))
    go true =
        if-Kept (value == 0 || ltb 4000 value) _ _ (λ _. refused)
          (λ e. kept _ (
            w.0,
            w.1,
            w.2,
            w.3,
            ground (arith, e),
            ground (arith, e),
            w.6,
            w.7,
            w.8,
            w.9,
            w.10,
            w.11,
          ))
    go false =
        if-Kept (value == 0 || ltb 1000000 value) _ _ (λ _. refused)
          (λ e. kept _ (
            w.0,
            w.1,
            w.2,
            w.3,
            w.4,
            w.5,
            ground (arith, e),
            ground (arith, e),
            w.8,
            w.9,
            w.10,
            w.11,
          ))

take_intra_refresh_count-Kept :
    (o : Options) (value : Option Number) → InRange o → Kept (take_intra_refresh_count o value)
unfolding take_intra_refresh_count
take_intra_refresh_count-Kept o none w = refused
take_intra_refresh_count-Kept o (some negative) w = refused
take_intra_refresh_count-Kept o (some (number value)) w =
    if-Kept (ltb 36000 value) _ _ (λ _. refused)
      (λ e. kept _ (w.0, w.1, w.2, w.3, w.4, w.5, w.6, w.7, w.8, w.9, w.10, ground (arith, e)))

take_intra_refresh_period-Kept :
    (o : Options) (value : Option Number) → InRange o → Kept (take_intra_refresh_period o value)
unfolding take_intra_refresh_period
take_intra_refresh_period-Kept o none w = refused
take_intra_refresh_period-Kept o (some negative) w = refused
take_intra_refresh_period-Kept o (some (number value)) w =
    if-Kept (value == 0 || ltb 36000 value) _ _ (λ _. refused)
      (λ e. kept _ (
        w.0,
        w.1,
        w.2,
        w.3,
        w.4,
        w.5,
        w.6,
        w.7,
        w.8,
        w.9,
        (ground (arith, e), ground (arith, e)),
        w.11,
      ))

pub is_same : (s t : String) → is s t ≡ true → s ≡ t
is_same s t e = (eq_iff s t).0 e

-- Only the reference frames may be none.
number_bounds :
    (zero_allowed : Bool) (value : ℕ)
    → (not zero_allowed && value == 0 || ltb 36000 value) ≡ false
    → zero_allowed ≡ false
    → (1 ≤ value) × (value ≤ 36000)
number_bounds zero_allowed value e z = (ground (arith, e, z), ground (arith, e))

other :
    (argument name : String)
    → is name "--reference-frames" ≡ false
    → is argument name ≡ true
    → is argument "--reference-frames" ≡ false
other argument name ne e =
    subst (λ (s : String). is s "--reference-frames" ≡ false) (sym (is_same argument name e)) ne

take_number-Kept :
    (o : Options) (argument : String) (value : Option ℕ)
    → InRange o
    → Kept (take_number o argument value)
unfolding take_number
take_number-Kept o argument none w = refused
take_number-Kept o argument (some value) w =
    if-Kept (not (is argument "--reference-frames") && value == 0 || ltb 36000 value) _ _
      (λ _. refused)
      (λ e.
        if-Kept (is argument "--frames") _ _
          (λ f.
            let b =
              number_bounds (is argument "--reference-frames") value e
                (other argument "--frames" refl f) in
            kept _ (b.0, b.1, w.2, w.3, w.4, w.5, w.6, w.7, w.8, w.9, w.10, w.11))
          (λ _.
            if-Kept (is argument "--fps") _ _
              (λ f.
                let b =
                  number_bounds (is argument "--reference-frames") value e
                    (other argument "--fps" refl f) in
                kept _ (w.0, w.1, b.0, w.3, w.4, w.5, w.6, w.7, w.8, w.9, w.10, w.11))
              (λ _.
                if-Kept (is argument "--simulate-loss-frame") _ _ (λ _. kept _ w)
                  (λ _.
                    if-Kept (is argument "--invalidate-delay-frames") _ _
                      (λ f.
                        let b =
                          number_bounds (is argument "--reference-frames") value e
                            (other argument "--invalidate-delay-frames" refl f) in
                        kept _ (w.0, w.1, w.2, w.3, w.4, w.5, w.6, w.7, b.0, b.1, w.10, w.11))
                      (λ _.
                        if-Kept (is argument "--force-idr-frame") _ _ (λ _. kept _ w)
                          (λ _. kept _ w))))))

take_name-Kept :
    (o : Options) (argument value : String) → InRange o → Kept (take_name o argument value)
unfolding take_name
take_name-Kept o argument value w =
    if-Kept (is argument "--codec") _ _
      (λ _.
        if-Kept (is value "hevc-10bit-444") _ _ (λ _. kept _ w)
          (λ _. if-Kept (is value "h264-8bit-444") _ _ (λ _. kept _ w) (λ _. refused)))
      (λ _.
        if-Kept (is argument "--queue-depth") _ _
          (λ _.
            if-Kept (is value "0") _ _
              (λ _. kept _ (w.0, w.1, w.2, omega arith, w.4, w.5, w.6, w.7, w.8, w.9, w.10, w.11))
              (λ _.
                if-Kept (is value "1") _ _
                  (λ _.
                    kept _ (w.0, w.1, w.2, omega arith, w.4, w.5, w.6, w.7, w.8, w.9, w.10, w.11))
                  (λ _. refused)))
          (λ _.
            if-Kept (is argument "--single-slice-intra-refresh") _ _
              (λ _. if-Kept (is value "0" || is value "1") _ _ (λ _. kept _ w) (λ _. refused))
              (λ _.
                if-Kept (is argument "--output") _ _ (λ _. kept _ w)
                  (λ _.
                    if-Kept (is argument "--bitstream") _ _ (λ _. kept _ w)
                      (λ _.
                        if-Kept (is argument "--reference-bitstream") _ _ (λ _. kept _ w)
                          (λ _.
                            if-Kept (is argument "--split") _ _
                              (λ _.
                                if-Kept
                                  (is value "auto" || (is value "forced" || is value "disabled")) _
                                  _ (λ _. kept _ w) (λ _. refused))
                              (λ _.
                                if-Kept (is argument "--tuning") _ _
                                  (λ _.
                                    if-Kept (is value "low-latency" || is value "ultra-low-latency")
                                      _ _ (λ _. kept _ w) (λ _. refused))
                                  (λ _. refused))))))))

pub take_value-Kept :
    (stoul : String → Option ℕ) (stoi : String → Option Number) (o : Options)
    (argument value : String)
    → InRange o
    → Kept (take_value stoul stoi o argument value)
unfolding take_value
take_value-Kept stoul stoi o argument value w =
    if-Kept (is argument "--bitrate-mbps" || is argument "--vbv-kbits") _ _
      (λ _. take_rate-Kept o argument (stoul value) w)
      (λ _.
        if-Kept (is argument "--intra-refresh-count") _ _
          (λ _. take_intra_refresh_count-Kept o (stoi value) w)
          (λ _.
            if-Kept (is argument "--intra-refresh-period") _ _
              (λ _. take_intra_refresh_period-Kept o (stoi value) w)
              (λ _.
                if-Kept (is_numeric argument) _ _ (λ _. take_number-Kept o argument (stoul value) w)
                  (λ _. take_name-Kept o argument value w))))
