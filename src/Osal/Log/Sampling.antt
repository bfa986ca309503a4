-- ===== src/Osal/Log/Sampling.antt =====
-- Which messages the sampling lets through: _should_log_message of user/osal/src/util/osal_log.c.
use lpf.Common.{
  ℕ, ◌+◌, ◌%◌, ◌^◌, ◌<◌, ◌≡◌, refl, sym, subst, ap, ap₂, ◌∙◌, ◌==◌, ◌&&◌, ltb, if_elim, if_false,
  Bool, true, false, not, List, [], ◌∷◌, length, Option, none, some, arith,
}
use lpf.Common.Text.{Text}
use lpf.Osal.Log.{LogOs, Log, should_log, passes_filter}

-- The messages whose number, from `c + 1` on, is a multiple of the rate.
unfoldable pub multiples : ℕ → ℕ → List Text → List Bool
multiples rate c [] = []
multiples rate c (m ∷ ms) = ((c + 1) % rate == 0) ∷ multiples rate (c + 1) ms

module _ (os : LogOs) where
  -- What is said of a row of messages, and the log after them.
  unfoldable pub judge : List Text → Log os → List Bool × Log os
  judge [] g = ([], g)
  judge (m ∷ ms) g = let r = should_log os m g in let rest = judge ms r.1 in (r.0 ∷ rest.0, rest.1)

  -- What is found after one message.
  abbrev Judged : Log os → Bool × Log os → Type 0
  Judged g r =
      (r.0 ≡ ((g.counter + 1) % g.sampling_rate == 0))
      × (r.1.counter ≡ g.counter + 1)
      × (r.1.filter ≡ g.filter)
      × (r.1.sampling_rate ≡ g.sampling_rate)

  passes-none : (f : Option os.Regex) (m : Text) → f ≡ none → not (passes_filter os f m) ≡ false
  unfolding passes_filter
  passes-none none m e = refl
  passes-none (some r) m e = cc e

  -- One message without a filter.
  one_message :
      (m : Text) (g : Log os)
      → g.filter ≡ none
      → 0 < g.sampling_rate
      → g.counter + 1 < 2 ^ 64
      → Judged g (should_log os m g)
  unfolding should_log
  one_message m g free some_ room =
      if_elim (Judged g)
        (ltb 1 g.sampling_rate && not ((g.counter + 1) % 2 ^ 64 % g.sampling_rate == 0)) _ _
        (λ t. (sym (hit ∙ dropped (ltb 1 g.sampling_rate) _ t), exact, refl, refl))
        (λ f.
          subst (Judged g)
            (sym (if_false (not (passes_filter os g.filter m)) _ _ (passes-none g.filter m free)))
            (sym (hit ∙ kept (ltb 1 g.sampling_rate) refl _ refl f), exact, refl, refl))
    where
      exact : (g.counter + 1) % 2 ^ 64 ≡ g.counter + 1
      exact = omega (arith, room)

      hit :
          ((g.counter + 1) % g.sampling_rate == 0)
          ≡ ((g.counter + 1) % 2 ^ 64 % g.sampling_rate == 0)
      hit = ap (λ (c : ℕ). c % g.sampling_rate == 0) (sym exact)

      dropped : (a b : Bool) → (a && not b) ≡ true → b ≡ false
      dropped true true e = cc e
      dropped true false e = refl
      dropped false b e = cc e

      by_one : (c n : ℕ) → n ≡ 1 → (c % n == 0) ≡ true
      by_one c n e = subst (λ (k : ℕ). (c % k == 0) ≡ true) (sym e) (ground arith)

      kept :
          (a : Bool)
          → ltb 1 g.sampling_rate ≡ a
          → (b : Bool) → ((g.counter + 1) % 2 ^ 64 % g.sampling_rate == 0) ≡ b
          → (a && not b) ≡ false
          → ((g.counter + 1) % 2 ^ 64 % g.sampling_rate == 0) ≡ true
      kept true e true q f = q
      kept true e false q f = cc f
      kept false e b q f =
          by_one ((g.counter + 1) % 2 ^ 64) g.sampling_rate (ground (arith, e, some_))

  -- Without a filter, and before the counter of 64 bits wraps, a row of messages is let through by
  -- their numbers: those that are multiples of the sampling rate, and all of them at rate 1.
  pub judge-multiples :
      (ms : List Text) (g : Log os)
      → g.filter ≡ none
      → 0 < g.sampling_rate
      → g.counter + length ms < 2 ^ 64
      → (judge ms g).0 ≡ multiples g.sampling_rate g.counter ms
  unfolding judge multiples
  judge-multiples [] g free some_ room = refl
  judge-multiples (m ∷ ms) g free some_ room =
      let one = one_message m g free some_ (omega (arith, room)) in
      let next = (should_log os m g).1 in
      ap₂ (◌∷◌) one.0 (
        judge-multiples ms next (one.2 ∙ free) (subst (λ (n : ℕ). 0 < n) (sym one.3) some_)
          (let c = one.1 in omega (arith, room, c))
        ∙ ap₂ (λ (r c : ℕ). multiples r c ms) one.3 one.1)
