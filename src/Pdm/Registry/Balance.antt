-- ===== src/Pdm/Registry/Balance.antt =====
-- The entry loops of kernel/pdm/registry as traces of starts and stops.
use lpf.Common.{
  einval, ℕ, zero, suc, ◌+◌, ◌≡◌, refl, ap, subst, ◌∙◌, ◌==◌, ◌&&◌, ==_refl, if◌then◌else◌, if_elim,
  if_true, Bool, true, false, not, List, [], ◌∷◌, ◌++◌, length, get_elem?, Option, none, some,
  is_some, ℤ, is_zero, arith,
}
use lpf.Common.Text.{Text}
use lpf.Pdm.Registry.{
  Event, DriverEntry, exit_count, init_one, init_loop, finish_init, valid_driver, driver_has_exit,
  driver_entries_init, driver_entries_exit,
}

-- The entries that run after the events, the last started first; to stop any but that one is
-- an error.
unfoldable pub run : List ℕ → List Event → Option (List ℕ)
run s [] = some s
run s (Event.started i ∷ events) = run (i ∷ s) events
run s (Event.failed i ret ∷ events) = run s events
run [] (Event.stopped i ∷ events) = none
run (j ∷ s) (Event.stopped i ∷ events) = if i == j then run s events else none

-- The entries below `n` that are to be stopped, the last first.
unfoldable pub running : (ℕ → Bool) → ℕ → List ℕ
running has_exit zero = []
running has_exit (suc n) = if has_exit n then n ∷ running has_exit n else running has_exit n

pub run-append :
    (s t : List ℕ) (xs ys : List Event) → run s xs ≡ some t → run s (xs ++ ys) ≡ run t ys
unfolding run
run-append s t [] ys h = cc
run-append s t (Event.started i ∷ xs) ys h = run-append (i ∷ s) t xs ys h
run-append s t (Event.failed i ret ∷ xs) ys h = run-append s t xs ys h
run-append [] t (Event.stopped i ∷ xs) ys h = cc
run-append (j ∷ s) t (Event.stopped i ∷ xs) ys h = stops (i == j) h (run-append s t xs ys)
  where
    stops :
        (b : Bool)
        → (if b then run s xs else none) ≡ some t
        → (run s xs ≡ some t → run s (xs ++ ys) ≡ run t ys)
        → (if b then run s (xs ++ ys) else none) ≡ run t ys
    stops true e below = below e
    stops false e below = cc

run-exit_count :
    (has_exit : ℕ → Bool) (n : ℕ) → run (running has_exit n) (exit_count has_exit n) ≡ some []
unfolding run running exit_count
run-exit_count has_exit zero = refl
run-exit_count has_exit (suc n) = one (has_exit n) (run-exit_count has_exit n)
  where
    one :
        (b : Bool)
        → run (running has_exit n) (exit_count has_exit n) ≡ some []
        → run
            (if b then n ∷ running has_exit n else running has_exit n)
            (if b then Event.stopped n ∷ exit_count has_exit n else exit_count has_exit n)
          ≡ some []
    one true below = if_true (n == n) _ _ (==_refl n) ∙ below
    one false below = below

running_next :
    (has_exit : ℕ → Bool) (n : ℕ) (b : Bool)
    → has_exit n ≡ b
    → running has_exit (n + 1) ≡ (if b then n ∷ running has_exit n else running has_exit n)
unfolding running
running_next has_exit n b h =
    ap (running has_exit) next
    ∙ ap (λ (c : Bool). if c then n ∷ running has_exit n else running has_exit n) h
  where
    next : n + 1 ≡ suc n
    next = omega arith

module _ {E : Type 0} (valid : E → Bool) (init : E → Option ℤ) (has_exit : ℕ → Bool) where
  -- Where the check passes, the entries from `count` on have an `exit` just if they have an `init`.
  abbrev pub Paired : List E → ℕ → Type 0
  Paired es count =
      (i : ℕ) (e : E)
      → get_elem? es i ≡ some e
      → valid e ≡ true
      → has_exit (count + i) ≡ is_some (init e)

  -- The loop from `count` on leaves the entries below its result running, and ends with 0 only
  -- after the last.
  abbrev Runs : ℕ → ℕ → ℤ × ℕ × List Event → Type 0
  Runs count end (ret, n, events) =
      (run (running has_exit count) events ≡ some (running has_exit n))
      × (is_zero ret ≡ true → n ≡ end)

  init_loop-Runs :
      (es : List E) (count : ℕ)
      → Paired es count
      → Runs count (count + length es) (init_loop valid init es count)
  unfolding init_loop init_one run running
  init_loop-Runs [] count paired = (refl, λ _. omega arith)
  init_loop-Runs (e ∷ es) count paired =
      if_elim (Runs count (count + suc (length es))) (not (valid e)) _ _ (λ _. (refl, λ h. cc))
        (λ checked.
          called (init e)
            (subst (λ (k : ℕ). has_exit k ≡ is_some (init e)) (omega arith)
              (paired 0 e refl (ground arith)))
            (init_loop valid init es (count + 1))
            (init_loop-Runs es (count + 1) (λ i x at ok.
              subst (λ (k : ℕ). has_exit k ≡ is_some (init x)) (omega arith)
                (paired (suc i) x at ok))))
    where
      called :
          (o : Option ℤ)
          → has_exit count ≡ is_some o
          → (rest : ℤ × ℕ × List Event) → Runs (count + 1) (count + 1 + length es) rest
          → Runs count (count + suc (length es)) (init_one o count rest)
      called none pair (r, n, events) (runs, ends) = (
        subst (λ (s : List ℕ). run s events ≡ some (running has_exit n))
            (running_next has_exit count false pair) runs,
        λ z. (let end = ends z in omega (arith, end)),
      )
      called (some ret) pair (r, n, events) (runs, ends) =
          if_elim (Runs count (count + suc (length es))) (is_zero ret) _ _
            (λ _. (
              subst (λ (s : List ℕ). run s events ≡ some (running has_exit n))
                  (running_next has_exit count true pair) runs,
              λ z. (let end = ends z in omega (arith, end)),
            ))
            (λ nonzero. (refl, λ z. cc (z, nonzero)))

  -- All that runs is stopped again: after a failure at once, after a success by the exit.
  abbrev pub Balanced : ℕ → ℤ × ℕ × List Event → Type 0
  Balanced size (ret, n, events) =
      (is_zero ret ≡ true
        → (n ≡ size)
          × (run [] events ≡ some (running has_exit size))
          × (run [] (events ++ exit_count has_exit n) ≡ some []))
      × (is_zero ret ≡ false → (n ≡ 0) × (run [] events ≡ some []))

  pub finish_init-Balanced :
      (es : List E)
      → Paired es 0
      → Balanced (length es) (finish_init has_exit (init_loop valid init es 0))
  unfolding finish_init running
  finish_init-Balanced es paired = finished (init_loop valid init es 0) (init_loop-Runs es 0 paired)
    where
      finished :
          (out : ℤ × ℕ × List Event)
          → Runs 0 (0 + length es) out
          → Balanced (length es) (finish_init has_exit out)
      finished (ret, n, events) (runs, ends) =
          let all_stopped =
            run-append [] _ events (exit_count has_exit n) runs ∙ run-exit_count has_exit n in
          if_elim (Balanced (length es)) (is_zero ret) _ _
            (λ zero_ret.
              let end : n ≡ length es = (let h = ends zero_ret in omega (arith, h)) in
              (
                λ _. (
                  end,
                  subst (λ (k : ℕ). run [] events ≡ some (running has_exit k)) end runs,
                  all_stopped,
                ),
                λ h. cc,
              ))
            (λ nonzero. ((λ z. cc (z, nonzero)), λ _. (refl, all_stopped)))

has_exit-get_elem? :
    (es : List DriverEntry) (i : ℕ) (e : DriverEntry)
    → get_elem? es i ≡ some e
    → driver_has_exit es i ≡ e.exit
unfolding driver_has_exit
has_exit-get_elem? [] i e h = cc
has_exit-get_elem? (x ∷ es) zero e h = ap exit_of h
  where
    exit_of : Option DriverEntry → Bool
    exit_of none = false
    exit_of (some y) = y.exit
has_exit-get_elem? (x ∷ es) (suc i) e h = has_exit-get_elem? es i e h

last_two : (a b c : Bool) → (a && b && c) ≡ true → c ≡ b
last_two true true true h = refl
last_two true true false h = cc
last_two true false c h = cc
last_two false b c h = cc

-- An entry that loads: it has a name, an `init` that returns 0, and an `exit`.
abbrev returns_ok : Option ℤ → Bool
returns_ok none = false
returns_ok (some ret) = is_zero ret

abbrev pub AllLoad : List DriverEntry → Type 0
AllLoad [] = Unit {0}
AllLoad (e ∷ es) =
    ((is_some e.name ≡ true) × (returns_ok e.init ≡ true) × (e.exit ≡ true)) × AllLoad es

abbrev Decides : Type 0 → ℤ × ℕ × List Event → Type 0
Decides P r = (is_zero r.0 ≡ true → P) × (P → is_zero r.0 ≡ true)

init_loop-AllLoad :
    (es : List DriverEntry) (count : ℕ)
    → Decides (AllLoad es) (init_loop valid_driver (λ (e : DriverEntry). e.init) es count)
unfolding init_loop valid_driver init_one
init_loop-AllLoad [] count = ((λ _. tt), λ _. refl)
init_loop-AllLoad (e ∷ es) count =
    entry e.name e.init e.exit (init_loop valid_driver (λ (x : DriverEntry). x.init) es (count + 1))
      (init_loop-AllLoad es (count + 1))
  where
    entry :
        (name : Option Text) (o : Option ℤ) (exit : Bool) (rest : ℤ × ℕ × List Event)
        → Decides (AllLoad es) rest
        → Decides (((is_some name ≡ true) × (returns_ok o ≡ true) × (exit ≡ true)) × AllLoad es) (
            if not (is_some name && is_some o && exit)
            then (einval, count, [])
            else init_one o count rest)
    entry none o exit (r, n, events) below = ((λ z. cc z), λ p. (let k = p.0.0 in cc k))
    entry (some t) none exit (r, n, events) below = ((λ z. cc z), λ p. (let k = p.0.1 in cc k))
    entry (some t) (some ret) false (r, n, events) below =
        ((λ z. cc z), λ p. (let k = p.0.2 in cc k))
    entry (some t) (some ret) true (r, n, events) below =
        if_elim (Decides (((true ≡ true) × (is_zero ret ≡ true) × (true ≡ true)) × AllLoad es))
          (is_zero ret) _ _ (λ ok. ((λ z. ((refl, ok, refl), below.0 z)), λ p. below.1 p.1))
          (λ bad. ((λ z. cc (z, bad)), λ p. (let k = p.0.1 in cc k)))

driver_entries_init-AllLoad :
    (es : List DriverEntry) → Decides (AllLoad es) (driver_entries_init es)
unfolding driver_entries_init finish_init
driver_entries_init-AllLoad es =
    finished (init_loop valid_driver (λ (e : DriverEntry). e.init) es 0) (init_loop-AllLoad es 0)
  where
    finished :
        (r : ℤ × ℕ × List Event)
        → Decides (AllLoad es) r
        → Decides (AllLoad es) (finish_init (driver_has_exit es) r)
    finished (ret, n, events) d =
        if_elim (Decides (AllLoad es)) (is_zero ret) _ _ (λ z. ((λ _. d.0 z), λ _. refl))
          (λ bad. ((λ z. cc (z, bad)), λ p. (let k = d.1 p in cc k)))

driver_entries_init-Balanced :
    (es : List DriverEntry)
    → let (ret, n, events) = driver_entries_init es in
      (is_zero ret ≡ true
        → (n ≡ length es)
          × (run [] events ≡ some (running (driver_has_exit es) (length es)))
          × (run [] (events ++ (driver_entries_exit es n).1) ≡ some []))
      × (is_zero ret ≡ false → (n ≡ 0) × (run [] events ≡ some []))
unfolding driver_entries_init driver_entries_exit valid_driver
driver_entries_init-Balanced es =
    finish_init-Balanced valid_driver (λ (e : DriverEntry). e.init) (driver_has_exit es) es
      (λ i e at ok.
        let same : 0 + i ≡ i = omega arith in
        ap (driver_has_exit es) same
        ∙ has_exit-get_elem? es i e at
        ∙ last_two (is_some e.name) (is_some e.init) e.exit ok)

-- Loading the PDM drivers returns 0 exactly if every entry has a name, an `exit`, and an `init` that
-- returns 0. Then every entry counts as initialized, all that have an `exit` run, started in the order of
-- the section, and the exit of the drivers stops each once, the last first. If the load fails, those
-- that were started are stopped at once, the last first, the count is 0, and none runs.
pub driver_entries_init-driver_entries_exit :
    (es : List DriverEntry)
    → let (ret, n, events) = driver_entries_init es in
      (is_zero ret ≡ true → AllLoad es)
      × (AllLoad es → is_zero ret ≡ true)
      × (is_zero ret ≡ true
          → (n ≡ length es)
            × (run [] events ≡ some (running (driver_has_exit es) (length es)))
            × (run [] (events ++ (driver_entries_exit es n).1) ≡ some []))
      × (is_zero ret ≡ false → (n ≡ 0) × (run [] events ≡ some []))
driver_entries_init-driver_entries_exit es =
    let b = driver_entries_init-Balanced es in
    let d = driver_entries_init-AllLoad es in (d.0, d.1, b.0, b.1)
