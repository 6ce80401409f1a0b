-- ===== src/Signal/Normal.antt =====
-- The normal distribution of signal.rs: `phi` and its inverse `phi_inv`, by their approximations.
use polyrust.Prelude.{not, ◌&&◌, List, [], ◌∷◌, if◌then◌else◌}
use polyrust.Prelude.Int.{pos, negsuc}
use polyrust.Prelude.Float.{F64, zero_f, one_f}

module _ (f : F64) where
  -- ((((c0 x + c1) x + c2) x + …) x + cn.
  horner_from : f.Num → List f.Num → f.Num → f.Num
  horner_from acc [] x = acc
  horner_from acc (c ∷ cs) x = horner_from (f.add (f.mul acc x) c) cs x

  unfoldable pub phi_tail : f.Num → f.Num
  unfolding horner_from
  phi_tail z =
      let t = f.div (one_f f) (f.add (one_f f) (f.mul (f.literal (pos 2_316_419) 7) z)) in
      let poly =
        f.mul
          (horner_from (f.literal (pos 1_330_274_429) 9)
            (f.literal (negsuc 1_821_255_977) 9
              ∷ f.literal (pos 1_781_477_937) 9
              ∷ f.literal (negsuc 356_563_781) 9
              ∷ f.literal (pos 319_381_530) 9
              ∷ [])
            t)
          t in
      let pdf =
        f.mul (f.exp (f.mul (f.mul (f.literal (negsuc 4) 1) z) z))
          (f.literal (pos 3_989_422_804_014_327) 16) in
      f.mul pdf poly

  unfoldable pub phi : f.Num → f.Num
  unfolding phi_tail
  phi z = if f.le (zero_f f) z then f.sub (one_f f) (phi_tail z) else phi_tail (f.neg z)

  numerator_a : f.Num → f.Num
  unfolding horner_from
  numerator_a = horner_from (f.literal (negsuc 3_969_683_028_665_375) 14) (
      f.literal (pos 2_209_460_984_245_205) 13
      ∷ f.literal (negsuc 2_759_285_104_469_686) 13
      ∷ f.literal (pos 138_357_751_867_269) 12
      ∷ f.literal (negsuc 3_066_479_806_614_715) 14
      ∷ f.literal (pos 2_506_628_277_459_239) 15
      ∷ [])

  denominator_b : f.Num → f.Num
  unfolding horner_from
  denominator_b = horner_from (f.literal (negsuc 5_447_609_879_822_405) 14) (
      f.literal (pos 1_615_858_368_580_409) 13
      ∷ f.literal (negsuc 1_556_989_798_598_865) 13
      ∷ f.literal (pos 6_680_131_188_771_972) 14
      ∷ f.literal (negsuc 1_328_068_155_288_571) 14
      ∷ one_f f
      ∷ [])

  numerator_c : f.Num → f.Num
  unfolding horner_from
  numerator_c = horner_from (f.literal (negsuc 7_784_894_002_430_292) 18) (
      f.literal (negsuc 3_223_964_580_411_364) 16
      ∷ f.literal (negsuc 2_400_758_277_161_837) 15
      ∷ f.literal (negsuc 2_549_732_539_343_733) 15
      ∷ f.literal (pos 4_374_664_141_464_968) 15
      ∷ f.literal (pos 2_938_163_982_698_783) 15
      ∷ [])

  denominator_d : f.Num → f.Num
  unfolding horner_from
  denominator_d = horner_from (f.literal (pos 7_784_695_709_041_462) 18) (
      f.literal (pos 3_224_671_290_700_398) 16
      ∷ f.literal (pos 2_445_134_137_142_996) 15
      ∷ f.literal (pos 3_754_408_661_907_416) 15
      ∷ one_f f
      ∷ [])

  tail_root : f.Num → f.Num
  tail_root p = f.sqrt (f.mul (f.literal (negsuc 1) 0) (f.ln p))

  unfoldable pub phi_inv : f.Num → f.Num
  unfolding numerator_a denominator_b numerator_c denominator_d tail_root
  phi_inv p =
      let p_low = f.literal (pos 2_425) 5 in
      let p_high = f.sub (one_f f) p_low in
      let q_low = tail_root p in
      let q_mid = f.sub p (f.literal (pos 5) 1) in
      let r = f.mul q_mid q_mid in
      let q_high = tail_root (f.sub (one_f f) p) in
      if not (f.lt (zero_f f) p && f.lt p (one_f f))
      then f.nan
      else if f.lt p p_low
      then f.div (numerator_c q_low) (denominator_d q_low)
      else if f.le p p_high
      then f.div (f.mul (numerator_a r) q_mid) (denominator_b r)
      else f.div (f.neg (numerator_c q_high)) (denominator_d q_high)
