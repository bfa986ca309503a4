-- ===== src/Pdm/Manager/Find.antt =====
-- Discovery by index and by capability: kernel/pdm/bus/pdm_cdev.c.
use lpf.Common.{
  ℕ, suc, ◌+◌, ◌-◌, ◌%◌, ◌^◌, ◌≤◌, ◌<◌, ◌≡◌, refl, sym, ap, subst, ◌∙◌, ◌==◌, ==_iff, ◌&&◌,
  if◌then◌else◌, if_elim, if_true, if_false, Bool, true, false, not, List, [], ◌∷◌, length,
  get_elem?, Option, none, some, bit_and, ret_ok, enodev, arith,
}
use lpf.Pdm.User.{UserPtr, Reply, copy_to_user}
use lpf.Pdm.Device.{PdmDevice}
use lpf.Pdm.Manager.Walk.{DeviceList, walk, stop_or}
use lpf.Pdm.Manager.{
  DeviceInfo, DeviceQuery, MatchCtx, ManagerInfo, device_visible, fill_device_info, take_device,
  take_at_index, match_device, match_by_capability, count_visible, zero_ctx, do_get_info,
  answer_device, get_device_for, do_get_device, get_by_capability_for, do_get_device_by_capability,
}

-- The devices that pass the test, in their order.
unfoldable pub select : (PdmDevice → Bool) → List PdmDevice → List PdmDevice
select p [] = []
select p (d ∷ ds) = if p d then d ∷ select p ds else select p ds

-- A callback that takes the device whose number among those that pass the test is the index.
abbrev pick : (PdmDevice → Bool) → PdmDevice → MatchCtx → Bool × MatchCtx
pick p d ctx = if p d then take_at_index d ctx else (false, ctx)

-- What the context says at the end of a walk that should take the device, if there is one.
abbrev pub Taken : MatchCtx → Option PdmDevice → Type 0
Taken ctx none = ctx.found ≡ false
Taken ctx (some d) = (ctx.found ≡ true) × (ctx.info ≡ fill_device_info d)

index_step : (m s : ℕ) → (s == m) ≡ false → s ≤ m → (m - s ≡ suc (m - (s + 1))) × (s + 1 ≤ m)
index_step m s ne le = ground arith

walk-pick :
    (p : PdmDevice → Bool) (ds : List PdmDevice) (ctx : MatchCtx)
    → ctx.found ≡ false
    → ctx.seen ≤ ctx.match_index
    → ctx.match_index < 2 ^ 32
    → Taken (walk ds (pick p) ctx) (get_elem? (select p ds) (ctx.match_index - ctx.seen))
unfolding select take_at_index take_device
walk-pick p [] ctx fresh le bound = fresh
walk-pick p (d ∷ ds) ctx fresh le bound =
    passes (p d) (λ (c : MatchCtx) f l b. walk-pick p ds c f l b)
  where
    passes :
        (b : Bool)
        → ((c : MatchCtx)
            → c.found ≡ false
            → c.seen ≤ c.match_index
            → c.match_index < 2 ^ 32
            → Taken (walk ds (pick p) c) (get_elem? (select p ds) (c.match_index - c.seen)))
        → Taken
            (stop_or (if b then take_at_index d ctx else (false, ctx)) (walk ds (pick p)))
            (get_elem? (if b then d ∷ select p ds else select p ds) (ctx.match_index - ctx.seen))
    passes false below = below ctx fresh le bound
    passes true below =
        if_elim
          (λ (r : Bool × MatchCtx).
            Taken (stop_or r (walk ds (pick p)))
              (get_elem? (d ∷ select p ds) (ctx.match_index - ctx.seen)))
          (ctx.seen == ctx.match_index) _ _
          (λ e.
            let here : 0 ≡ ctx.match_index - ctx.seen =
              (let h = (==_iff _ _).0 e in omega (arith, h)) in
            subst
              (λ (n : ℕ).
                Taken
                  (record ctx {
                    info = fill_device_info d;
                    found = true;
                    seen = (ctx.seen + 1) % 2 ^ 32;
                  })
                  (get_elem? (d ∷ select p ds) n))
              here (refl, refl))
          (λ ne.
            let next = index_step ctx.match_index ctx.seen ne le in
            let counted = record ctx { seen = (ctx.seen + 1) % 2 ^ 32 } in
            let small : (ctx.seen + 1) % 2 ^ 32 ≡ ctx.seen + 1 =
              (let n = next.1 in omega (arith, n, bound)) in
            let low : counted.seen ≤ ctx.match_index =
              (let n = next.1 in omega (arith, n, small)) in
            let same : ctx.match_index - ctx.seen ≡ suc (ctx.match_index - counted.seen) =
              next.0 ∙ ap (λ (k : ℕ). suc (ctx.match_index - k)) (sym small) in
            subst (λ (n : ℕ). Taken (walk ds (pick p) counted) (get_elem? (d ∷ select p ds) n))
              (sym same) (below counted fresh low bound))

walk-pick_first :
    (p : PdmDevice → Bool) (ds : List PdmDevice) (ctx : MatchCtx)
    → ctx.found ≡ false
    → ctx.seen ≡ 0
    → ctx.match_index < 2 ^ 32
    → Taken (walk ds (pick p) ctx) (get_elem? (select p ds) ctx.match_index)
walk-pick_first p ds ctx fresh none_seen bound =
    let none_left : ctx.match_index - ctx.seen ≡ ctx.match_index = omega (arith, none_seen) in
    subst (λ (n : ℕ). Taken (walk ds (pick p) ctx) (get_elem? (select p ds) n)) none_left
      (walk-pick p ds ctx fresh (omega (arith, none_seen)) bound)

-- The answer to a query whose device is `d`, or that has none.
unfoldable pub answer : DeviceQuery → Bool → Option PdmDevice → Reply DeviceQuery
answer q writable none = (enodev, none)
answer q writable (some d) = copy_to_user writable (record q { info = fill_device_info d })

answer_device-Taken :
    (bus : DeviceList) (q : DeviceQuery) (writable : Bool) (ctx : MatchCtx) (o : Option PdmDevice)
    → Taken ctx o
    → answer_device bus q writable ctx ≡ answer q writable o
unfolding answer_device answer
answer_device-Taken bus q writable ctx none h = if_true (not ctx.found) _ _ (ap not h)
answer_device-Taken bus q writable ctx (some d) h =
    if_false (not ctx.found) _ _ (ap not h.0)
    ∙ ap (λ (i : DeviceInfo). copy_to_user writable (record q { info = i })) h.1

-- The devices that offer the capabilities.
abbrev pub offers : ℕ → PdmDevice → Bool
offers caps d = device_visible d && bit_and d.capabilities caps == caps

guard : (v : Bool) (x y : Bool × MatchCtx) → (if not v then x else y) ≡ (if v then y else x)
guard true x y = refl
guard false x y = refl

guards :
    (v c : Bool) (x y : Bool × MatchCtx)
    → (if not v then x else if c then y else x) ≡ (if v && c then y else x)
guards true true x y = refl
guards true false x y = refl
guards false c x y = refl

match_by_capability-pick :
    (caps : ℕ) (d : PdmDevice) (ctx : MatchCtx)
    → ctx.required_capabilities ≡ caps
    → match_by_capability d ctx ≡ pick (offers caps) d ctx
unfolding match_by_capability
match_by_capability-pick caps d ctx same =
    subst (λ (k : ℕ). match_by_capability d ctx ≡ pick (offers k) d ctx) same
      (guards (device_visible d) _ (false, ctx) (take_at_index d ctx))

match_device-pick :
    (d : PdmDevice) (ctx : MatchCtx) → match_device d ctx ≡ pick device_visible d ctx
unfolding match_device
match_device-pick d ctx = guard (device_visible d) (false, ctx) (take_at_index d ctx)

pick-caps :
    (p : PdmDevice → Bool) (d : PdmDevice) (ctx : MatchCtx)
    → (pick p d ctx).1.required_capabilities ≡ ctx.required_capabilities
unfolding take_at_index take_device
pick-caps p d ctx =
    if_elim (λ (r : Bool × MatchCtx). r.1.required_capabilities ≡ ctx.required_capabilities) (p d) _
      _
      (λ _.
        if_elim (λ (r : Bool × MatchCtx). r.1.required_capabilities ≡ ctx.required_capabilities)
          (ctx.seen == ctx.match_index) _ _ (λ _. refl) (λ _. refl))
      (λ _. refl)

-- Two callbacks that agree where an invariant of the second holds.
walk-agree :
    {S : Type 0} (I : S → Type 0) (f g : PdmDevice → S → Bool × S)
    → ((d : PdmDevice) (s : S) → I s → f d s ≡ g d s)
    → ((d : PdmDevice) (s : S) → I s → I (g d s).1)
    → (ds : List PdmDevice) (s : S) → I s
    → walk ds f s ≡ walk ds g s
walk-agree I f g agree keeps [] s i = refl
walk-agree I f g agree keeps (d ∷ ds) s i =
    ap (λ (r : Bool × _). stop_or r (walk ds f)) (agree d s i)
    ∙ next (g d s) (keeps d s i) (λ t j. walk-agree I f g agree keeps ds t j)
  where
    next :
        (r : Bool × _)
        → I r.1
        → ((t : _) → I t → walk ds f t ≡ walk ds g t)
        → stop_or r (walk ds f) ≡ stop_or r (walk ds g)
    next (true, t) j below = refl
    next (false, t) j below = below t j

get_device_for_lem :
    (bus : DeviceList) (q : DeviceQuery) (writable : Bool)
    → q.match_index < 2 ^ 32
    → get_device_for bus (some q) writable
      ≡ answer q writable (get_elem? (select device_visible bus.devices) q.match_index)
unfolding get_device_for
get_device_for_lem bus q writable bound = answer_device-Taken bus q writable _ _ (
    subst (λ (c : MatchCtx). Taken c (get_elem? (select device_visible bus.devices) q.match_index))
      (sym (
        bus.for_each_dev_walk match_device start
        ∙ walk-agree (λ _. Unit) match_device (pick device_visible) (λ d c _. match_device-pick d c)
            (λ _ _ u. u) bus.devices start tt))
      (walk-pick_first device_visible bus.devices start refl refl bound))
  where
    start : MatchCtx
    start = record (zero_ctx q.info) { match_index = q.match_index }

get_by_capability_for_lem :
    (bus : DeviceList) (q : DeviceQuery) (writable : Bool)
    → q.match_index < 2 ^ 32
    → get_by_capability_for bus (some q) writable
      ≡ answer q writable
          (get_elem? (select (offers q.required_capabilities) bus.devices) q.match_index)
unfolding get_by_capability_for
get_by_capability_for_lem bus q writable bound = answer_device-Taken bus q writable _ _ (
    subst (λ (c : MatchCtx). Taken c (get_elem? (select wanted bus.devices) q.match_index))
      (sym (
        bus.for_each_dev_walk match_by_capability start
        ∙ walk-agree (λ (c : MatchCtx). c.required_capabilities ≡ q.required_capabilities)
            match_by_capability (pick wanted) (match_by_capability-pick q.required_capabilities)
            (λ d c e. pick-caps wanted d c ∙ e) bus.devices start refl))
      (walk-pick_first wanted bus.devices start refl refl bound))
  where
    start : MatchCtx
    start = record (zero_ctx q.info) {
      match_index = q.match_index;
      required_capabilities = q.required_capabilities;
    }

    wanted : PdmDevice → Bool
    wanted = offers q.required_capabilities

count-walk :
    (ds : List PdmDevice) (n : ℕ)
    → n < 2 ^ 32
    → walk ds count_visible n ≡ (n + length (select device_visible ds)) % 2 ^ 32
unfolding count_visible select
count-walk [] n small = omega (arith, small)
count-walk (d ∷ ds) n small =
    counted (device_visible d) (count-walk ds n small)
      (count-walk ds ((n + 1) % 2 ^ 32) (omega arith))
  where
    counted :
        (v : Bool)
        → walk ds count_visible n ≡ (n + length (select device_visible ds)) % 2 ^ 32
        → walk ds count_visible ((n + 1) % 2 ^ 32)
          ≡ ((n + 1) % 2 ^ 32 + length (select device_visible ds)) % 2 ^ 32
        → walk ds count_visible (if v then (n + 1) % 2 ^ 32 else n)
          ≡ (n + length (if v then d ∷ select device_visible ds else select device_visible ds))
            % 2 ^ 32
    counted false here below = here
    counted true here below = omega (arith, below)

-- GET_INFO counts the devices that are bound or in error, and for a bus of fewer than 2^32 devices
-- GET_DEVICE with index `i` succeeds exactly when `i` is below that count, and then describes the
-- `i`-th of these devices; GET_DEVICE_BY_CAPABILITY likewise describes the `i`-th of those among
-- them that have all the capabilities that are asked for. A caller without a device gets -ENODEV,
-- and one whose memory cannot be written -EFAULT.
pub get_device_lem :
    (bus : DeviceList) (opens : ℕ) (q : DeviceQuery) (writable : Bool)
    → length (select device_visible bus.devices) < 2 ^ 32
    → q.match_index < 2 ^ 32
    → let p : UserPtr DeviceQuery = record { readable = some q; writable = writable } in
      ((info : ManagerInfo)
        → do_get_info bus opens true ≡ (ret_ok, some info)
        → info.device_count ≡ length (select device_visible bus.devices))
      × (do_get_device bus p
          ≡ answer q writable (get_elem? (select device_visible bus.devices) q.match_index))
      × (do_get_device_by_capability bus p
          ≡ answer q writable
              (get_elem? (select (offers q.required_capabilities) bus.devices) q.match_index))
unfolding do_get_info do_get_device do_get_device_by_capability copy_to_user
get_device_lem bus opens q writable few bound = (
  λ info e.
      ap (λ (r : Reply ManagerInfo). elim r.1 [ none ↦ 0 | some i ↦ i.device_count ]) (sym e)
      ∙ bus.for_each_dev_walk count_visible 0
      ∙ count-walk bus.devices 0 (omega arith)
      ∙ (omega (arith, few)),
  get_device_for_lem bus q writable bound,
  get_by_capability_for_lem bus q writable bound,
)
