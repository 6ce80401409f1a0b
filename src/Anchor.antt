-- ===== src/Anchor.antt =====
-- anchor.rs: the strike of a market, the median of the microprices right after its start. Numbers of
-- type f64 are those of an interface.
pub mod Held
pub mod Middle
pub mod Timely
mod Tests
use polyrust.Prelude.{
  ℕ, Bool, true, false, not, ◌&&◌, ◌||◌, ◌==◌, ◌/◌, ◌%◌, ◌-◌, Option, none, some, List, [], ◌∷◌,
  ◌++◌, map, filter, get_elem?, length, ltb, if◌then◌else◌,
}
use polyrust.Prelude.Int.{ℤ, pos, leb_ℤ, ltb_ℤ}
use polyrust.Prelude.Words.{saturating_add, saturating_sub, saturating_mul}
use polyrust.Prelude.Float.{F64, zero_f}
use polyrust.Prelude.Result.{Run, done, panic, map_run}

abbrev pub anchor_window_end_us : ℤ
anchor_window_end_us = pos 300_000

abbrev pub anchor_buffer_horizon_us : ℤ
anchor_buffer_horizon_us = pos 10_000_000

abbrev pub min_anchor_samples : ℕ
min_anchor_samples = 3

abbrev pub late_discovery_threshold_us : ℤ
late_discovery_threshold_us = pos 1_000_000

abbrev pub max_late_window_us : ℤ
max_late_window_us = pos 30_000_000

pub data AnchorResult (Num : Type 0) : Type 0 where
  pending : AnchorResult Num
  failed : AnchorResult Num
  resolved : Num → AnchorResult Num

pub record AnchorBuffer (Num : Type 0) : Type 0 where
  pub samples : List (ℤ × Num)
  pub pending_slug_ts : ℤ
  pub max_ts_seen : ℤ

-- The pops of `trim` at the front.
unfoldable pub drop_older : {Num : Type 0} → ℤ → List (ℤ × Num) → List (ℤ × Num)
drop_older cutoff [] = []
drop_older cutoff (s ∷ samples) =
    let rest = drop_older cutoff samples in if ltb_ℤ s.0 cutoff then rest else s ∷ samples

abbrev pub window_start_us : {Num : Type 0} → AnchorBuffer Num → ℤ
window_start_us b = saturating_mul b.pending_slug_ts (pos 1_000_000)

abbrev pub window_end_us : {Num : Type 0} → AnchorBuffer Num → ℤ
window_end_us b = saturating_add (window_start_us b) anchor_window_end_us

abbrev pub late_discovery : {Num : Type 0} → AnchorBuffer Num → ℤ → Bool
late_discovery b now_us =
    ltb_ℤ (saturating_add (window_end_us b) late_discovery_threshold_us) now_us

abbrev pub too_late : {Num : Type 0} → AnchorBuffer Num → ℤ → Bool
too_late b now_us =
    late_discovery b now_us && ltb_ℤ (saturating_add (window_end_us b) max_late_window_us) now_us

abbrev pub in_reach : {Num : Type 0} → AnchorBuffer Num → Bool → ℤ × Num → Bool
in_reach b late s = leb_ℤ (window_start_us b) s.0 && (late || leb_ℤ s.0 (window_end_us b))

-- The microprices that a resolution takes.
unfoldable pub chosen_samples : {Num : Type 0} → AnchorBuffer Num → ℤ → List Num
chosen_samples b now_us =
    if too_late b now_us
    then []
    else map (λ s. s.1) (filter (in_reach b (late_discovery b now_us)) b.samples)

module _ (f : F64) where
  unfoldable pub new : AnchorBuffer f.Num
  new = record { samples = []; pending_slug_ts = pos 0; max_ts_seen = pos 0 }

  unfoldable pub trim : AnchorBuffer f.Num → AnchorBuffer f.Num
  trim b = record b {
    samples = drop_older (saturating_sub b.max_ts_seen anchor_buffer_horizon_us) b.samples;
  }

  unfoldable pub push : AnchorBuffer f.Num → ℤ → f.Num → f.Num → f.Num → f.Num → AnchorBuffer f.Num
  push b ts_us bid ask bid_qty ask_qty =
      let denom = f.add bid_qty ask_qty in
      let microprice = f.div (f.add (f.mul bid ask_qty) (f.mul ask bid_qty)) denom in
      if f.le denom (zero_f f) || not (f.is_finite denom)
      then b
      else if not (f.is_finite microprice) || f.le microprice (zero_f f)
      then b
      else if leb_ℤ ts_us b.max_ts_seen
      then b
      else trim (record b { max_ts_seen = ts_us; samples = b.samples ++ (ts_us, microprice) ∷ [] })

  unfoldable pub set_pending : AnchorBuffer f.Num → ℤ → AnchorBuffer f.Num
  set_pending b slug_ts = record b { pending_slug_ts = slug_ts }

  -- `sort_by` of numbers that compare: a stable sort. No microprice of a buffer is a NaN.
  unfoldable pub insert_sorted : f.Num → List f.Num → List f.Num
  insert_sorted a [] = a ∷ []
  insert_sorted a (b ∷ rest) =
      let later = insert_sorted a rest in if f.lt b a then b ∷ later else a ∷ b ∷ rest

  unfoldable pub sort : List f.Num → List f.Num
  sort [] = []
  sort (a ∷ rest) = insert_sorted a (sort rest)

  abbrev pub at_index : List f.Num → ℕ → Run f.Num
  at_index vals i = elim (get_elem? vals i) [ none ↦ panic | some a ↦ done a ]

  abbrev pub mean : f.Num → f.Num → f.Num
  mean a b = f.div (f.add a b) (f.literal (pos 2) 0)

  -- Of no values it panics at the first index.
  unfoldable pub median : List f.Num → Run f.Num
  median vals =
      let sorted = sort vals in
      let n = length sorted in
      if n % 2 == 1 then at_index sorted (n / 2) else elim (at_index sorted (n / 2 - 1)) [
        | panic ↦ panic
        | done a ↦ map_run (mean a) (at_index sorted (n / 2))
      ]

  unfoldable pub try_resolve :
      AnchorBuffer f.Num → ℤ → Run (AnchorBuffer f.Num × AnchorResult f.Num)
  try_resolve b now_us =
      let samples = chosen_samples b now_us in
      let closed = record b { pending_slug_ts = pos 0 } in
      if leb_ℤ b.pending_slug_ts (pos 0)
      then done (b, AnchorResult.pending)
      else if ltb (length samples) min_anchor_samples
      then if late_discovery b now_us || ltb_ℤ (window_end_us b) now_us
        then done (closed, AnchorResult.failed)
        else done (b, AnchorResult.pending)
      else map_run (λ strike. (closed, AnchorResult.resolved strike)) (median samples)
