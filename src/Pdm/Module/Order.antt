-- ===== src/Pdm/Module/Order.antt =====
-- The order in which the parts of the PDM module start and stop: kernel/pdm/pdm.c.
use lpf.Common.{
  ℕ, take, Option, Bool, ◌≡◌, refl, ap, ◌==◌, if◌then◌else◌, if_elim, true, false, not, List, [],
  ◌∷◌, ◌++◌, none, some, ℤ, is_zero,
}
use lpf.Pdm.Registry.{Event}
use lpf.Pdm.Registry.Balance.{run}
use lpf.Pdm.Module.{
  Codes, start_part, err_id, err_bus, err_cdev, err_backends, err_drivers, module_init, module_exit,
}

abbrev pub all_parts : List ℕ
all_parts = 5 ∷ 4 ∷ 3 ∷ 2 ∷ 1 ∷ 0 ∷ []

-- The parts that run after stops in any order; to stop a part that does not run is an error.
unfoldable pub remove_part : ℕ → List ℕ → Option (List ℕ)
remove_part i [] = none
remove_part i (j ∷ parts) = if i == j then some parts else then_keep j (remove_part i parts)
  where
    then_keep : ℕ → Option (List ℕ) → Option (List ℕ)
    then_keep j none = none
    then_keep j (some parts) = some (j ∷ parts)

unfoldable pub left : Option (List ℕ) → List Event → Option (List ℕ)
left none events = none
left (some parts) [] = some parts
left (some parts) (Event.started i ∷ events) = left (some (i ∷ parts)) events
left (some parts) (Event.failed i ret ∷ events) = left (some parts) events
left (some parts) (Event.stopped i ∷ events) = left (remove_part i parts) events

-- From these running parts: all run after a success, and none after a failure.
abbrev Good : List ℕ → ℤ × List Event → Type 0
Good parts (ret, events) =
    (is_zero ret ≡ true → run parts events ≡ some all_parts)
    × (is_zero ret ≡ false → run parts events ≡ some [])

start_part-Good :
    (parts : List ℕ) (i : ℕ) (ret : ℤ) (label : List Event) (next : ℤ × List Event)
    → run parts label ≡ some []
    → Good (i ∷ parts) next
    → Good parts (start_part i ret label next)
unfolding start_part run
start_part-Good parts i ret label (r, events) undone good =
    if_elim (Good parts) (not (is_zero ret)) _ _ (λ bad. ((λ z. cc (ap not z, bad)), λ _. undone))
      (λ _. good)

module_init-Good : (c : Codes) → Good [] (module_init c)
unfolding module_init run
module_init-Good c = start_part-Good [] 0 c.ids [] _ refl (
    start_part-Good (0 ∷ []) 1 c.bus err_id _ refl (
      start_part-Good (1 ∷ 0 ∷ []) 2 c.cdev err_bus _ refl (
        start_part-Good (2 ∷ 1 ∷ 0 ∷ []) 3 c.backends err_cdev _ refl (
          start_part-Good (3 ∷ 2 ∷ 1 ∷ 0 ∷ []) 4 c.drivers err_backends _ refl (
            start_part-Good (4 ∷ 3 ∷ 2 ∷ 1 ∷ 0 ∷ []) 5 c.mocks err_drivers _ refl
              ((λ _. refl), (λ n. cc)))))))

-- The events that a stop adds to those of a start that has left these parts running.
left-append :
    (s t : List ℕ) (xs ys : List Event)
    → run s xs ≡ some t
    → left (some s) (xs ++ ys) ≡ left (some t) ys
unfolding run left remove_part
left-append s t [] ys h = ap (λ (o : Option (List ℕ)). left o ys) h
left-append s t (Event.started i ∷ xs) ys h = left-append (i ∷ s) t xs ys h
left-append s t (Event.failed i ret ∷ xs) ys h = left-append s t xs ys h
left-append [] t (Event.stopped i ∷ xs) ys h = cc h
left-append (j ∷ s) t (Event.stopped i ∷ xs) ys h = stops (i == j) _ h (left-append s t xs ys)
  where
    stops :
        (b : Bool) (o : Option (List ℕ))
        → (if b then run s xs else none) ≡ some t
        → (run s xs ≡ some t → left (some s) (xs ++ ys) ≡ left (some t) ys)
        → left (if b then some s else o) (xs ++ ys) ≡ left (some t) ys
    stops true o e below = below e
    stops false o e below = cc e

-- A start of the module that fails has stopped every part that it had started, the last first, and
-- nothing else. After one that succeeds all six parts run; the stop of the module then stops each of
-- them exactly once, so that none is left and none is stopped that does not run; but not the last
-- first: after its first two stops the drivers still run, and the backends, which started before them,
-- do not.
pub module_init-module_exit :
    (c : Codes)
    → let (ret, events) = module_init c in
      (is_zero ret ≡ false → run [] events ≡ some [])
      × (is_zero ret ≡ true
          → (run [] events ≡ some all_parts)
            × (left (some []) (events ++ module_exit) ≡ some [])
            × (left (some []) (events ++ take 2 module_exit) ≡ some (4 ∷ 2 ∷ 1 ∷ 0 ∷ [])))
unfolding module_exit left remove_part
module_init-module_exit c =
    let good = module_init-Good c in
    (
      good.1,
      λ z. (
        good.0 z,
        left-append [] all_parts (module_init c).1 module_exit (good.0 z),
        left-append [] all_parts (module_init c).1 (take 2 module_exit) (good.0 z),
      ),
    )
