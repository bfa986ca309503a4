-- ===== src/Pdm/Led/Config.antt =====
-- What the LED driver reads of the device tree: `pdm_led_read_dt_config`.
use lpf.Common.{
  ℕ, ◌≤◌, ◌≡◌, refl, ◌==◌, ltb, if◌then◌else◌, if_elim, true, not, Option, none, some, ℤ, is_zero,
  arith,
}
use lpf.Common.Text.{Text, text, same_string}
use lpf.Pdm.Led.{
  LedInstance, LedNode, default_max_brightness, read_max, read_brightness, read_state, and_then,
  read_node, read_dt_config,
}

-- A configuration that the driver can start from.
pub record Configured (inst : LedInstance) : Type 0 where
  pub some_max : 1 ≤ inst.max_brightness
  pub in_range : inst.brightness ≤ inst.max_brightness
  pub switch : inst.enabled ≤ 1
  pub visible : inst.enabled ≡ 1 → 1 ≤ inst.brightness

-- The fields that the configuration does not touch.
abbrev pub Untouched : LedInstance → LedInstance → Type 0
Untouched old new =
    (new.online ≡ old.online) × (new.lock ≡ old.lock) × (new.can_apply ≡ old.can_apply)

abbrev IfOk : (LedInstance → Type 0) → ℤ × LedInstance → Type 0
IfOk P (ret, inst) = is_zero ret ≡ true → P inst

and_then-IfOk :
    (P Q : LedInstance → Type 0) (r : ℤ × LedInstance) (next : LedInstance → ℤ × LedInstance)
    → IfOk P r
    → ((i : LedInstance) → P i → IfOk Q (next i))
    → IfOk Q (and_then r next)
unfolding and_then
and_then-IfOk P Q (ret, inst) next before after =
    if_elim (IfOk Q) (is_zero ret) _ _ (λ z. after inst (before z)) (λ n z. cc (z, n))

module _ (old : LedInstance) where
  -- After each of the three parts.
  record Limited (inst : LedInstance) : Type 0 where
    some_max : 1 ≤ inst.max_brightness
    dark : inst.brightness ≡ 0
    off : inst.enabled ≡ 0
    rest : Untouched old inst

  record Leveled (inst : LedInstance) : Type 0 where
    some_max : 1 ≤ inst.max_brightness
    in_range : inst.brightness ≤ inst.max_brightness
    off : inst.enabled ≡ 0
    rest : Untouched old inst

  abbrev Done : LedInstance → Type 0
  Done inst = Configured inst × Untouched old inst

  read_max-Limited : (m : Option ℕ) (i : LedInstance) → Limited i → IfOk Limited (read_max m i)
  unfolding read_max
  read_max-Limited none i ok = λ _. ok
  read_max-Limited (some value) i ok =
      if_elim (IfOk Limited) (value == 0) _ _ (λ _ z. cc)
        (λ n _. record {
          some_max = ground (arith, n);
          dark = ok.dark;
          off = ok.off;
          rest = ok.rest;
        })

  read_brightness-Leveled :
      (b : Option ℕ) (i : LedInstance) → Limited i → IfOk Leveled (read_brightness b i)
  unfolding read_brightness
  read_brightness-Leveled none i ok = λ _. record {
    some_max = ok.some_max;
    in_range = (let d = ok.dark in omega (arith, d));
    off = ok.off;
    rest = ok.rest;
  }
  read_brightness-Leveled (some value) i ok =
      if_elim (IfOk Leveled) (ltb i.max_brightness value) _ _ (λ _ z. cc)
        (λ n _. record {
          some_max = ok.some_max;
          in_range = ground (arith, n);
          off = ok.off;
          rest = ok.rest;
        })

  done :
      (i : LedInstance) (b e : ℕ)
      → Leveled i
      → b ≤ i.max_brightness
      → e ≤ 1
      → (e ≡ 1 → 1 ≤ b)
      → Done (record i { brightness = b; enabled = e })
  done i b e ok low switch visible = (
    record { some_max = ok.some_max; in_range = low; switch = switch; visible = visible },
    ok.rest,
  )

  on_level : (b m : ℕ) → 1 ≤ m → b ≤ m → let l : ℕ = if b == 0 then m else b in (l ≤ m) × (1 ≤ l)
  on_level b m some_max in_range = ground arith

  keep_level : (b : ℕ) → let e : ℕ = if b == 0 then 0 else 1 in (e ≤ 1) × (e ≡ 1 → 1 ≤ b)
  keep_level b = ground arith

  read_state-Done : (s : Option Text) (i : LedInstance) → Leveled i → IfOk Done (read_state s i)
  unfolding read_state
  read_state-Done none i ok = λ _.
      if_elim Done (not (i.brightness == 0)) _ _
        (λ lit. done i i.brightness 1 ok ok.in_range (omega arith) (λ _. ground (arith, lit)))
        (λ _.
          let off = ok.off in
          done i i.brightness i.enabled ok ok.in_range (omega (arith, off))
            (λ e. absurd (omega (arith, off, e))))
  read_state-Done (some s) i ok =
      let on = on_level i.brightness i.max_brightness ok.some_max ok.in_range in
      let kept = keep_level i.brightness in
      if_elim (IfOk Done) (same_string s (text "on")) _ _
        (λ _ _. done i _ 1 ok on.0 (omega arith) (λ _. on.1))
        (λ _.
          if_elim (IfOk Done) (same_string s (text "off")) _ _
            (λ _ _.
              done i i.brightness 0 ok ok.in_range (omega arith) (λ e. absurd (omega (arith, e))))
            (λ _.
              if_elim (IfOk Done) (same_string s (text "keep")) _ _
                (λ _ _. done i i.brightness _ ok ok.in_range kept.0 kept.1) (λ _ z. cc)))

-- If the configuration of an LED is read without an error, whatever the device tree holds, then
-- the maximum is at least 1, the brightness is at most the maximum, the switch is 0 or 1, and an
-- LED that starts switched on has a brightness of at least 1; the rest of the instance, its lock
-- included, is as before.
pub read_dt_config-Configured :
    (np : Option LedNode) (old : LedInstance)
    → is_zero (read_dt_config np old).0 ≡ true
    → let inst = (read_dt_config np old).1 in Configured inst × Untouched old inst
unfolding read_dt_config read_node
read_dt_config-Configured none old = λ _. (
  record {
    some_max = omega arith;
    in_range = omega arith;
    switch = omega arith;
    visible = λ e. absurd (omega (arith, e));
  },
  (refl, refl, refl),
)
read_dt_config-Configured (some np) old =
    and_then-IfOk (Leveled old) (Done old) _ (read_state np.default_state)
      (and_then-IfOk (Limited old) (Leveled old) _ (read_brightness np.default_brightness)
        (read_max-Limited old np.max_brightness _ start)
        (read_brightness-Leveled old np.default_brightness))
      (read_state-Done old np.default_state)
  where
    start :
        Limited old
          (record old { max_brightness = default_max_brightness; brightness = 0; enabled = 0 })
    start = record { some_max = omega arith; dark = refl; off = refl; rest = (refl, refl, refl) }
