-- ===== src/Telemetry/Primary.antt =====
-- What the card that server/app/gpu_telemetry.py shows is.
use android_streamdeck.Base.{
  ℕ, zero, suc, ◌+◌, ◌≤◌, ◌<◌, ◌≡◌, refl, ◌⊎◌, inl, inr, Bool, true, false, not, ◌||◌, Option, none,
  some, List, [], ◌∷◌, ◌++◌, arith, All, All-append, leb, ltb, ◌==◌, if◌then◌else◌, Bool-cases,
}
use android_streamdeck.Telemetry.{
  ℤ, pos, negsuc, same, GpuTelemetry, NvidiaDevice, AmdGpuTelemetryNative, Bridge, safe_memory,
  safe_temperature, cons_nvidia, nvidia_from, or_no_cards, read_nvidia_gpus, amd_temperature,
  amd_telemetry, amd_from, read_amd_gpus, ranking, outranks, best_after, select_primary_gpu,
  all_candidates, read_primary_gpu, default_readings,
}
use android_streamdeck.Telemetry.Order.{tuple_asym, tuple_weak}

-- `g` is the first of the highest: the cards before it are lower, and none after it is higher.
abbrev pub IsPicked : GpuTelemetry → List GpuTelemetry → Type 0
IsPicked g [] = ⊥
IsPicked g (x ∷ xs) =
    ((x ≡ g) × All (λ y. outranks y g ≡ false) xs) ⊎ ((outranks g x ≡ true) × IsPicked g xs)

outranks_weak :
    (a b c : GpuTelemetry) → outranks a b ≡ true → outranks c b ≡ false → outranks a c ≡ true
unfolding outranks
outranks_weak a b c h k = tuple_weak (ranking a) (ranking b) (ranking c) h k

outranks_trans :
    (a b c : GpuTelemetry) → outranks a b ≡ true → outranks b c ≡ true → outranks a c ≡ true
unfolding outranks
outranks_trans a b c h k = outranks_weak a b c h (tuple_asym (ranking b) (ranking c) k)

-- a card that is higher than the first one takes its place
IsPicked-over :
    (g x r : GpuTelemetry) (xs : List GpuTelemetry)
    → outranks x g ≡ true
    → IsPicked r (x ∷ xs)
    → IsPicked r (g ∷ x ∷ xs)
IsPicked-over g x r xs h (inl k) = inr (rw (← k.0) h, inl k)
IsPicked-over g x r xs h (inr k) = inr (outranks_trans r x g k.0 h, inr k)

-- a card that is not higher leaves the first one
IsPicked-before :
    (g x r : GpuTelemetry) (xs : List GpuTelemetry)
    → outranks x g ≡ false
    → IsPicked r (g ∷ xs)
    → IsPicked r (g ∷ x ∷ xs)
IsPicked-before g x r xs h (inl k) = inl (k.0, (rw (← k.0) h, k.1))
IsPicked-before g x r xs h (inr k) = inr (k.0, inr (outranks_weak r g x k.0 h, k.1))

-- what is picked, by an equal name
IsPicked-as : (g h : GpuTelemetry) (xs : List GpuTelemetry) → g ≡ h → IsPicked g xs → IsPicked h xs
IsPicked-as g h xs e p = coe 0 1 (i. IsPicked (e i) xs) p

best-IsPicked : (g : GpuTelemetry) (xs : List GpuTelemetry) → IsPicked (best_after g xs) (g ∷ xs)
best-IsPicked g [] = inl (refl, tt)
best-IsPicked g (x ∷ xs) = elim (Bool-cases (outranks x g)) [
  | inl e ↦
      IsPicked-as (best_after x xs) (best_after g (x ∷ xs)) (g ∷ x ∷ xs) (ground arith)
        (IsPicked-over g x (best_after x xs) xs e (best-IsPicked x xs))
  | inr e ↦
      IsPicked-as (best_after g xs) (best_after g (x ∷ xs)) (g ∷ x ∷ xs) (ground arith)
        (IsPicked-before g x (best_after g xs) xs e (best-IsPicked g xs))
]

select-IsPicked :
    (cards : List GpuTelemetry) (g : GpuTelemetry)
    → select_primary_gpu cards ≡ some g
    → IsPicked g cards
select-IsPicked [] g h = absurd (cc)
select-IsPicked (x ∷ xs) g h =
    IsPicked-as (best_after x xs) g (x ∷ xs) (ground arith) (best-IsPicked x xs)

picked-All :
    (P : GpuTelemetry → Type 0) (g : GpuTelemetry) (cards : List GpuTelemetry)
    → IsPicked g cards
    → All P cards
    → P g
picked-All P g [] k h = absurd k
picked-All P g (x ∷ xs) (inl k) h = rw (← k.0) h.0
picked-All P g (x ∷ xs) (inr k) h = picked-All P g xs k.1 h.1

abbrev pub IsTemperature : Option ℤ → Type 0
IsTemperature none = Unit {0}
IsTemperature (some (pos n)) = n ≤ 150
IsTemperature (some (negsuc n)) = ⊥

abbrev pub IsMemory : Option ℕ → Option ℕ → Type 0
IsMemory (some used) (some total) = (used ≤ total) × (0 < total)
IsMemory none none = Unit {0}
IsMemory _ _ = ⊥

-- A temperature is from 0 to 150 degrees, and the memory is known whole, within a positive total.
pub record IsPlausible (g : GpuTelemetry) : Type 0 where
  pub temperature : IsTemperature g.temperature_celsius
  pub memory : IsMemory g.used_bytes g.total_bytes

safe_temperature-IsTemperature : (t : Option ℤ) → IsTemperature (safe_temperature t)
unfolding safe_temperature
safe_temperature-IsTemperature none = tt
safe_temperature-IsTemperature (some (negsuc n)) = tt
safe_temperature-IsTemperature (some (pos n)) = elim (Bool-cases (leb n 150)) [
  | inl e ↦ rw e (ground (arith, e))
  | inr e ↦ rw e tt
]

amd_temperature-IsTemperature : (t : ℤ) → IsTemperature (amd_temperature t)
amd_temperature-IsTemperature t = elim (Bool-cases (same t (negsuc 2147483647))) [
  | inl e ↦ rw e tt
  | inr e ↦ rw e (safe_temperature-IsTemperature (some t))
]

safe_memory-IsMemory :
    (used total : ℕ) → IsMemory (safe_memory used total).0 (safe_memory used total).1
unfolding safe_memory
safe_memory-IsMemory used total = elim (Bool-cases (total == 0 || not (leb used total))) [
  | inl e ↦ rw e tt
  | inr e ↦ rw e (ground (arith, e))
]

cons_nvidia-IsPlausible :
    (index : ℕ) (d : Option NvidiaDevice) (o : Option (List GpuTelemetry))
    → All IsPlausible (or_no_cards o)
    → All IsPlausible (or_no_cards (cons_nvidia index d o))
cons_nvidia-IsPlausible index (some d) (some rest) h = (
  record {
    temperature = safe_temperature-IsTemperature d.temperature;
    memory = safe_memory-IsMemory d.used d.total;
  },
  h,
)
cons_nvidia-IsPlausible index none o h = tt
cons_nvidia-IsPlausible index (some d) none h = tt

nvidia_from-IsPlausible :
    (index : ℕ) (ds : List (Option NvidiaDevice))
    → All IsPlausible (or_no_cards (nvidia_from index ds))
nvidia_from-IsPlausible index [] = tt
nvidia_from-IsPlausible index (d ∷ ds) =
    cons_nvidia-IsPlausible index d (nvidia_from (1 + index) ds)
      (nvidia_from-IsPlausible (1 + index) ds)

read_nvidia-IsPlausible :
    (devices : Option (List (Option NvidiaDevice))) → All IsPlausible (read_nvidia_gpus devices)
unfolding read_nvidia_gpus
read_nvidia-IsPlausible none = tt
read_nvidia-IsPlausible (some devices) = nvidia_from-IsPlausible 0 devices

amd_from-IsPlausible : (n : ℕ) (rs : List AmdGpuTelemetryNative) → All IsPlausible (amd_from n rs)
amd_from-IsPlausible n [] = tt
amd_from-IsPlausible zero (r ∷ rs) = tt
amd_from-IsPlausible (suc n) (r ∷ rs) =
    let card : IsPlausible (amd_telemetry r) = record {
      temperature = amd_temperature-IsTemperature r.temperature_celsius;
      memory = safe_memory-IsMemory r.used_bytes r.total_bytes;
    } in
    elim (Bool-cases (r.abi_version == 1)) [
      | inl e ↦ rw e (card, amd_from-IsPlausible n rs)
      | inr e ↦ rw e (amd_from-IsPlausible n rs)
    ]

read_amd-IsPlausible :
    (windows : Bool) (b : Option Bridge) → All IsPlausible (read_amd_gpus windows b)
unfolding read_amd_gpus
read_amd-IsPlausible windows none = tt
read_amd-IsPlausible windows (some b) =
    elim (Bool-cases (not windows || not (b.version == 1) || b.required == 0)) [
      | inl e ↦ rw e tt
      | inr e ↦ rw e (
          amd_from-IsPlausible (if ltb b.written b.required then b.written else b.required)
            b.buffer)
    ]

-- The card that is shown of the two providers' is the first of the highest in the code's order, among
-- all that they return, and its values are plausible: a temperature from 0 to 150 degrees or none, and
-- both sizes of the memory, the used one within a positive total, or neither.
pub primary_gpu-IsPlausible :
    (devices : Option (List (Option NvidiaDevice))) (windows : Bool) (bridge : Option Bridge)
    (g : GpuTelemetry)
    → read_primary_gpu (default_readings devices windows bridge) ≡ some g
    → IsPicked g (all_candidates (default_readings devices windows bridge)) × IsPlausible g
unfolding read_primary_gpu
primary_gpu-IsPlausible devices windows bridge g h =
    let nvidia_cards = read_nvidia_gpus devices in
    let amd_cards = read_amd_gpus windows bridge in
    let picked = select-IsPicked (nvidia_cards ++ (amd_cards ++ [])) g h in
    (
      picked,
      picked-All IsPlausible g (nvidia_cards ++ (amd_cards ++ [])) picked (
          All-append IsPlausible nvidia_cards (amd_cards ++ []) (read_nvidia-IsPlausible devices)
            (All-append IsPlausible amd_cards [] (read_amd-IsPlausible windows bridge) tt)),
    )
