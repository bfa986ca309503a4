-- ===== src/Pdm/Bus/Matching.antt =====
-- Which driver the bus gives a device, in kernel/pdm/bus/pdm_bus.c.
use lpf.Common.{
  ℕ, ◌≡◌, refl, sym, ap, subst, ◌∙◌, ◌↔◌, if_elim, if_true, Bool, true, false, List, [], ◌∷◌,
  Option, none, some, ℤ,
}
use lpf.Common.Text.{Text, same_string, same_string_refl, same_string-eq}
use lpf.Pdm.Device.{PdmDevice}
use lpf.Pdm.Bus.{
  Driver, table_has, compatible_in, match_compatible, device_match, fill_table, register_driver,
  match_with,
}

-- The string stands in the table, before the empty entry that ends it.
pub data Listed (c : Text) : List Text → Type 0 where
  here : {x : ℕ} {xs : Text} {rest : List Text} → (x ∷ xs) ≡ c → Listed c ((x ∷ xs) ∷ rest)
  there : {x : ℕ} {xs : Text} {rest : List Text} → Listed c rest → Listed c ((x ∷ xs) ∷ rest)

table_has_iff : (c : Text) (table : List Text) → (table_has c table ≡ true) ↔ Listed c table
unfolding table_has
table_has_iff c [] = ((λ h. cc), λ h. elim h [ ])
table_has_iff c ([] ∷ table) = ((λ h. cc), λ h. elim h [ ])
table_has_iff c ((x ∷ xs) ∷ table) = (
  if_elim (λ (b : Bool). b ≡ true → Listed c ((x ∷ xs) ∷ table)) (same_string (x ∷ xs) c) _ _
      (λ e _. Listed.here (same_string-eq _ _ e))
      (λ _ h. Listed.there ((table_has_iff c table).0 h)),
  found ((table_has_iff c table).1),
)
  where
    found :
        (Listed c table → table_has c table ≡ true)
        → Listed c ((x ∷ xs) ∷ table)
        → table_has c ((x ∷ xs) ∷ table) ≡ true
    found below (Listed.here e) =
        if_true (same_string (x ∷ xs) c) _ _
          (ap (same_string (x ∷ xs)) (sym e) ∙ same_string_refl (x ∷ xs))
    found below (Listed.there l) =
        if_elim (λ (b : Bool). b ≡ true) (same_string (x ∷ xs) c) _ _ (λ _. refl) (λ _. below l)

-- The string is listed in the table, where both are there.
pub Compatible : Option Text → Option (List Text) → Type 0
Compatible none table = ⊥
Compatible (some c) none = ⊥
Compatible (some c) (some table) = Listed c table

in_table_iff :
    (c : Option Text) (table : Option (List Text))
    → (compatible_in c table ≡ true) ↔ Compatible c table
unfolding compatible_in Compatible
in_table_iff none table = ((λ h. cc), λ h. absurd h)
in_table_iff (some c) none = ((λ h. cc), λ h. absurd h)
in_table_iff (some c) (some table) = table_has_iff c table

-- A driver that registers with a match table and no test of its own, and whose table the device
-- tree code has not been given, is matched with a device without a node of the device tree exactly
-- when the device's compatible string is listed in that table.
pub device_match-Compatible :
    (driver_register : Driver → ℤ) (drv : Driver) (d : PdmDevice)
    → drv.match_test ≡ none
    → drv.driver_of_match_table ≡ none
    → (device_match false d (register_driver driver_register drv).1 ≡ true)
      ↔ Compatible d.compatible drv.of_match_table
unfolding device_match match_with match_compatible register_driver fill_table
device_match-Compatible driver_register drv d no_test no_table =
    subst
      (λ (f : Option (PdmDevice → Bool)).
        (match_with f false d filled ≡ true) ↔ Compatible d.compatible drv.of_match_table)
      (sym no_test)
      (subst
        (λ (t : Option (List Text)).
          (compatible_in d.compatible (fill_table t drv.of_match_table) ≡ true)
          ↔ Compatible d.compatible drv.of_match_table)
        (sym no_table) (in_table_iff d.compatible drv.of_match_table))
  where
    filled : Driver
    filled = (register_driver driver_register drv).1
