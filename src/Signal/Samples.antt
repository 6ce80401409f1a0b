-- ===== src/Signal/Samples.antt =====
-- The samples that the engine of signal.rs holds.
use polyrust.Prelude.{
  ℕ, ◌+◌, ◌-◌, ◌≤◌, ◌⊎◌, ◌≡◌, refl, Bool, true, false, Bool-cases, inl, inr, some, List, [], ◌∷◌,
  ◌++◌, get_last?, length, length-append, leb, All, append-All, arith,
}
use polyrust.Prelude.Int.{◌<ℤ◌}
use polyrust.Prelude.Float.{F64, zero_f}
use polyrust.Types.{TsUs}
use polyrust.State.{pop_to_cap}
use polyrust.State.Rings.{drop, pop_to_cap-newest}
use polyrust.Signal.{
  SignalPoint, SignalEngine, SignalConfig, BinanceSample, new, set_strike, push_received,
  keep_sample, point_of, refuses_sample, malformed_sample, late_sample, reset_window_of,
}

abbrev pub Increasing : {N : Type 0} → List (SignalPoint N) → Type 0
Increasing [] = Unit
Increasing (x ∷ []) = Unit
Increasing (x ∷ y ∷ r) = (x.ts_us <ℤ y.ts_us) × Increasing (y ∷ r)

module _ {N : Type 0} where
  pub Increasing-rest :
      (x : SignalPoint N) (r : List (SignalPoint N)) → Increasing (x ∷ r) → Increasing r
  Increasing-rest x [] h = tt
  Increasing-rest x (y ∷ r) h = h.1

  pop_to_cap-Increasing :
      (cap : ℕ) (r : List (SignalPoint N)) → Increasing r → Increasing (pop_to_cap cap r)
  unfolding pop_to_cap
  pop_to_cap-Increasing cap [] h = tt
  pop_to_cap-Increasing cap (x ∷ r) h = elim (Bool-cases (leb cap (length (x ∷ r)))) [
    | inl full ↦ rw full (pop_to_cap-Increasing cap r (Increasing-rest x r h))
    | inr free ↦ rw free h
  ]

  append-Increasing :
      (r : List (SignalPoint N)) (p : SignalPoint N)
      → ((l : SignalPoint N) → get_last? r ≡ some l → l.ts_us <ℤ p.ts_us)
      → Increasing r
      → Increasing (r ++ p ∷ [])
  append-Increasing [] p last h = tt
  append-Increasing (x ∷ []) p last h = (last x refl, tt)
  append-Increasing (x ∷ y ∷ r) p last h = (h.0, append-Increasing (y ∷ r) p last h.1)

module _ {ℓ} {A : Type ℓ} where
  get_last?-rest : (x : A) (r : List A) (l : A) → get_last? r ≡ some l → get_last? (x ∷ r) ≡ some l
  get_last?-rest x [] l e = cc
  get_last?-rest x (y ∷ r) l e = e

  pop_to_cap-last :
      (cap : ℕ) (r : List A) (l : A) → get_last? (pop_to_cap cap r) ≡ some l → get_last? r ≡ some l
  unfolding pop_to_cap
  pop_to_cap-last cap [] l e = e
  pop_to_cap-last cap (x ∷ r) l e = elim (Bool-cases (leb cap (length (x ∷ r)))) [
    | inl full ↦ get_last?-rest x r l (pop_to_cap-last cap r l (rw full at e))
    | inr free ↦ rw free at e
  ]

  pop_to_cap-short : (cap : ℕ) (r : List A) → 1 ≤ cap → length (pop_to_cap cap r) + 1 ≤ cap
  unfolding pop_to_cap
  pop_to_cap-short cap [] h = h
  pop_to_cap-short cap (x ∷ r) h = elim (Bool-cases (leb cap (length (x ∷ r)))) [
    | inl full ↦ rw full (pop_to_cap-short cap r h)
    | inr free ↦ rw free (ground arith)
  ]

  pop_to_cap-All : (P : A → Type 0) (cap : ℕ) (r : List A) → All P r → All P (pop_to_cap cap r)
  unfolding pop_to_cap
  pop_to_cap-All P cap [] h = tt
  pop_to_cap-All P cap (x ∷ r) h = elim (Bool-cases (leb cap (length (x ∷ r)))) [
    | inl full ↦ rw full (pop_to_cap-All P cap r h.1)
    | inr free ↦ rw free h
  ]

module _ (f : F64) where
  -- A microprice that the model can use.
  abbrev pub IsPriced : SignalPoint f.Num → Type 0
  IsPriced p = (f.is_finite p.microprice ≡ true) × (f.le p.microprice (zero_f f) ≡ false)

  -- The samples fit the buffer, grow in time and have usable prices.
  abbrev pub IsBuffer : SignalEngine f.Num → Type 0
  IsBuffer e =
      (8 ≤ e.cfg.max_samples)
      × (length e.samples ≤ e.cfg.max_samples)
      × Increasing e.samples
      × All IsPriced e.samples

  pub data Step : SignalEngine f.Num → SignalEngine f.Num → Type 0 where
    strikes :
        (e : SignalEngine f.Num) (strike : f.Num) (reset : Bool)
        → Step e (set_strike f e strike reset)
    pushes :
        (e : SignalEngine f.Num) (s : BinanceSample f.Num) (recv : TsUs)
        → Step e (push_received f e s recv).0

  pub data Reach : SignalEngine f.Num → SignalEngine f.Num → Type 0 where
    stop : (e : SignalEngine f.Num) → Reach e e
    next : (a b c : SignalEngine f.Num) → Step a b → Reach b c → Reach a c

  new-IsBuffer : (cfg : SignalConfig f.Num) → IsBuffer (new f cfg)
  unfolding new
  new-IsBuffer cfg = (ground arith, omega arith, tt, tt)

  set_strike-IsBuffer :
      (e : SignalEngine f.Num) (strike : f.Num) (reset : Bool)
      → IsBuffer e
      → IsBuffer (set_strike f e strike reset)
  unfolding set_strike reset_window_of
  set_strike-IsBuffer e strike true h = (h.0, omega arith, tt, tt)
  set_strike-IsBuffer e strike false h = h

  -- What a sample that is taken in has passed.
  accepted_sample :
      (e : SignalEngine f.Num) (s : BinanceSample f.Num)
      → refuses_sample f e s ≡ false
      → (f.is_finite s.microprice ≡ true)
        × (f.le s.microprice (zero_f f) ≡ false)
        × (e.last_update_id <ℤ s.update_id)
        × ((l : SignalPoint f.Num) → get_last? e.samples ≡ some l → l.ts_us <ℤ s.ts_us)
  unfolding refuses_sample malformed_sample late_sample
  accepted_sample e s h = (ground arith, ground arith, ground arith, λ l k. ground arith)

  keep_sample-IsBuffer :
      (e : SignalEngine f.Num) (s : BinanceSample f.Num) (recv : TsUs)
      → refuses_sample f e s ≡ false
      → IsBuffer e
      → IsBuffer (keep_sample f e s recv)
  unfolding keep_sample point_of
  keep_sample-IsBuffer e s recv ok (cap, fits, order, priced) =
      let (finite, positive, _, later) = accepted_sample e s ok in
      let kept = pop_to_cap e.cfg.max_samples e.samples in
      (
        cap,
        omega (
          arith,
          length-append kept (point_of f e s recv ∷ []),
          pop_to_cap-short e.cfg.max_samples e.samples (omega arith),
        ),
        append-Increasing kept (point_of f e s recv)
            (λ l k. later l (pop_to_cap-last e.cfg.max_samples e.samples l k))
            (pop_to_cap-Increasing e.cfg.max_samples e.samples order),
        append-All IsPriced kept (point_of f e s recv)
            (pop_to_cap-All IsPriced e.cfg.max_samples e.samples priced) (finite, positive),
      )

  pub push_received-IsBuffer :
      (e : SignalEngine f.Num) (s : BinanceSample f.Num) (recv : TsUs)
      → IsBuffer e
      → IsBuffer (push_received f e s recv).0
  unfolding push_received
  push_received-IsBuffer e s recv h = elim (Bool-cases (refuses_sample f e s)) [
    | inl refused ↦ rw refused h
    | inr taken ↦ rw taken (keep_sample-IsBuffer e s recv taken h)
  ]

  Step-IsBuffer : (a b : SignalEngine f.Num) → Step a b → IsBuffer a → IsBuffer b
  Step-IsBuffer a b (strikes _ strike reset) h = set_strike-IsBuffer a strike reset h
  Step-IsBuffer a b (pushes _ s recv) h = push_received-IsBuffer a s recv h

  Reach-IsBuffer : (a b : SignalEngine f.Num) → Reach a b → IsBuffer a → IsBuffer b
  Reach-IsBuffer a b (stop _) h = h
  Reach-IsBuffer a c (next _ b _ k r) h = Reach-IsBuffer b c r (Step-IsBuffer a b k h)

  -- In every engine that strikes and samples lead to from a new one, the samples fit the buffer,
  -- grow strictly in time, and have finite prices that are not at most zero.
  pub reached_samples-IsBuffer :
      (cfg : SignalConfig f.Num) (e : SignalEngine f.Num) → Reach (new f cfg) e → IsBuffer e
  reached_samples-IsBuffer cfg e r = Reach-IsBuffer (new f cfg) e r (new-IsBuffer cfg)

  -- A sample is refused, and then changes nothing, or has a later update id than the last and
  -- leaves the newest samples of the buffer with its own point at the end, where the buffer has
  -- room for one.
  pub push_received_effect :
      (e : SignalEngine f.Num) (s : BinanceSample f.Num) (recv : TsUs)
      → 1 ≤ e.cfg.max_samples
      → ((push_received f e s recv ≡ (e, false)) × (refuses_sample f e s ≡ true))
        ⊎ (((push_received f e s recv).1 ≡ true)
            × (e.last_update_id <ℤ s.update_id)
            × ((push_received f e s recv).0.last_update_id ≡ s.update_id)
            × ((push_received f e s recv).0.samples
                ≡ drop
                    (length (e.samples ++ point_of f e s recv ∷ []) - e.cfg.max_samples)
                    (e.samples ++ point_of f e s recv ∷ [])))
  unfolding push_received keep_sample
  push_received_effect e s recv cap = elim (Bool-cases (refuses_sample f e s)) [
    | inl refused ↦ inl (rw refused refl, refused)
    | inr taken ↦ rw taken (
        inr (
          refl,
          (accepted_sample e s taken).2,
          refl,
          pop_to_cap-newest e.cfg.max_samples e.samples (point_of f e s recv) cap,
        ))
  ]
