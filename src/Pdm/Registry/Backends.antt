-- ===== src/Pdm/Registry/Backends.antt =====
-- kernel/pdm/registry/pdm_backend_registry.c: the lookup of a backend, and its entry loops.
use lpf.Common.{
  ℕ, zero, suc, ◌+◌, ◌<◌, ◌≡◌, refl, ap, subst, ◌∙◌, ◌==◌, ◌&&◌, ◌||◌, if◌then◌else◌, if_elim, Bool,
  true, false, not, List, [], ◌∷◌, ◌++◌, length, get_elem?, Option, none, some, is_some, is_zero,
  arith,
}
use lpf.Common.Text.{Text}
use lpf.Pdm.Registry.{
  BackendEntry, valid_backend, backend_has_exit, backend_entries_init, backend_entries_exit,
  entry_matches, backend_find,
}
use lpf.Pdm.Registry.Balance.{run, running, finish_init-Balanced}

has_exit-get_elem? :
    (es : List BackendEntry) (i : ℕ) (e : BackendEntry)
    → get_elem? es i ≡ some e
    → backend_has_exit es i ≡ e.exit
unfolding backend_has_exit
has_exit-get_elem? [] i e h = cc
has_exit-get_elem? (x ∷ es) zero e h = ap exit_of h
  where
    exit_of : Option BackendEntry → Bool
    exit_of none = false
    exit_of (some y) = y.exit
has_exit-get_elem? (x ∷ es) (suc i) e h = has_exit-get_elem? es i e h

checked : (a b c i x : Bool) → (a && b && c && (if i then x else not x)) ≡ true → x ≡ i
checked true true true true x h = h
checked true true true false true h = cc
checked true true true false false h = refl
checked true true false i x h = cc
checked true false c i x h = cc
checked false b c i x h = cc

-- Loading the backends calls the `init` of those that have one, in the order of the section. If
-- all entries are valid and return 0, all that were started run, and the exit stops each once, the
-- last first. If an entry is not valid or fails, those started before it are stopped at once, the
-- last first, and none runs.
pub backend_entries_init-backend_entries_exit :
    (es : List BackendEntry)
    → let (ret, n, events) = backend_entries_init es in
      (is_zero ret ≡ true
        → (n ≡ length es)
          × (run [] events ≡ some (running (backend_has_exit es) (length es)))
          × (run [] (events ++ (backend_entries_exit es n).1) ≡ some []))
      × (is_zero ret ≡ false → (n ≡ 0) × (run [] events ≡ some []))
unfolding backend_entries_init backend_entries_exit valid_backend
backend_entries_init-backend_entries_exit es =
    finish_init-Balanced valid_backend (λ (e : BackendEntry). e.init) (backend_has_exit es) es
      (λ i e at ok.
        let same : 0 + i ≡ i = omega arith in
        ap (backend_has_exit es) same
        ∙ has_exit-get_elem? es i e at
        ∙ checked (is_some e.name) (is_some e.matches) (is_some e.ops) (is_some e.init) e.exit ok)

-- The entry is of this type and class, and lists the string.
abbrev pub Serves : ℕ → ℕ → Option Text → BackendEntry → Type 0
Serves t c compatible e =
    (e.device_type ≡ t) × (e.backend_class ≡ c) × (entry_matches e.matches compatible ≡ true)

-- What a lookup says of the entries.
unfoldable pub Found : ℕ → ℕ → Option Text → List BackendEntry → Option BackendEntry → Type 0
Found t c compatible es none =
    (i : ℕ) (e : BackendEntry) → get_elem? es i ≡ some e → Serves t c compatible e → ⊥
Found t c compatible es (some e) =
    Serves t c compatible e
    × (i : ℕ) × (get_elem? es i ≡ some e)
    × ((j : ℕ) (x : BackendEntry) → j < i → get_elem? es j ≡ some x → Serves t c compatible x → ⊥)

same_entry : {x y : BackendEntry} → some x ≡ some y → y ≡ x
same_entry e = cc

skip :
    (t c : ℕ) (compatible : Option Text) (e : BackendEntry) (es : List BackendEntry)
    → (Serves t c compatible e → ⊥)
    → (o : Option BackendEntry) → Found t c compatible es o
    → Found t c compatible (e ∷ es) o
unfolding Found
skip t c compatible e es missing none f = none_here
  where
    none_here :
        (i : ℕ) (x : BackendEntry) → get_elem? (e ∷ es) i ≡ some x → Serves t c compatible x → ⊥
    none_here zero x at s = missing (subst (Serves t c compatible) (same_entry at) s)
    none_here (suc i) x at s = f i x at s
skip t c compatible e es missing (some d) (s, i, at, before) = (s, suc i, at, none_before)
  where
    none_before :
        (j : ℕ) (x : BackendEntry)
        → j < suc i
        → get_elem? (e ∷ es) j ≡ some x
        → Serves t c compatible x
        → ⊥
    none_before zero x lt at' s' = missing (subst (Serves t c compatible) (same_entry at') s')
    none_before (suc j) x lt at' s' = before j x (omega (arith, lt)) at' s'

other_entry : (a b t c : ℕ) → (not (a == t) || not (b == c)) ≡ true → a ≡ t → b ≡ c → ⊥
other_entry a b t c guard same_type same_class = ground arith

this_entry : (a b t c : ℕ) → (not (a == t) || not (b == c)) ≡ false → (a ≡ t) × (b ≡ c)
this_entry a b t c guard = ground arith

-- `pdm_backend_find` returns the first entry of the section that has the device type, the class and
-- the string in its table, and none only if there is none.
pub backend_find-Found :
    (t c : ℕ) (compatible : Option Text) (es : List BackendEntry)
    → Found t c compatible es (backend_find t c compatible es)
unfolding backend_find Found
backend_find-Found t c compatible [] = λ i e h s. cc
backend_find-Found t c compatible (e ∷ es) =
    let below = backend_find-Found t c compatible es in
    if_elim (Found t c compatible (e ∷ es)) (not (e.device_type == t) || not (e.backend_class == c))
      _ _
      (λ other.
        skip t c compatible e es (λ s. other_entry e.device_type e.backend_class t c other s.0 s.1)
          _ below)
      (λ this.
        let same = this_entry e.device_type e.backend_class t c this in
        if_elim (Found t c compatible (e ∷ es)) (entry_matches e.matches compatible) _ _
          (λ hit. ((same.0, same.1, hit), 0, refl, λ j x lt. absurd (omega (arith, lt))))
          (λ miss. skip t c compatible e es (λ s. cc (s.2, miss)) _ below))
