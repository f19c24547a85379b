-- ===== src/Telemetry.antt =====
-- server/app/gpu_telemetry.py: the readings of the graphics cards, and the card that is shown. What the
-- NVIDIA library and the AMD bridge answer are parameters, with `none` for an exception. Sizes in bytes
-- are unsigned where they are read; a temperature and a provider's index are signed.
pub mod Order
pub mod Primary
mod Tests
use android_streamdeck.Base.{
  ℕ, zero, suc, ◌+◌, ◌-◌, Bool, true, false, not, ◌||◌, Option, none, some, List, [], ◌∷◌, ◌++◌,
  ltb, leb, ◌==◌, if◌then◌else◌,
}

-- an integer: `pos n` is `n` and `negsuc n` is `-1 - n`
pub data ℤ : Type 0 where
  pos negsuc : ℕ → ℤ

-- `a > b`
abbrev pub above : ℤ → ℤ → Bool
above (pos a) (pos b) = ltb b a
above (pos a) (negsuc b) = true
above (negsuc a) (pos b) = false
above (negsuc a) (negsuc b) = ltb a b

-- `a == b`
abbrev pub same : ℤ → ℤ → Bool
same (pos a) (pos b) = a == b
same (negsuc a) (negsuc b) = a == b
same _ _ = false

-- `-a`
abbrev pub negated : ℤ → ℤ
negated (pos n) = if n == 0 then pos 0 else negsuc (n - 1)
negated (negsuc n) = pos (1 + n)

pub data GpuVendor : Type 0 where
  nvidia amd : GpuVendor

pub record GpuTelemetry : Type 0 where
  pub vendor : GpuVendor
  pub provider_index : ℤ
  pub is_discrete : Option Bool
  pub temperature_celsius : Option ℤ
  pub used_bytes : Option ℕ
  pub total_bytes : Option ℕ

-- `_safe_memory` of two numbers
unfoldable pub safe_memory : ℕ → ℕ → Option ℕ × Option ℕ
safe_memory used total =
    if total == 0 || not (leb used total) then (none, none) else (some used, some total)

-- `_safe_temperature`
unfoldable pub safe_temperature : Option ℤ → Option ℤ
safe_temperature none = none
safe_temperature (some (negsuc n)) = none
safe_temperature (some (pos n)) = if leb n 150 then some (pos n) else none

-- What the library answers for one NVIDIA card.
pub record NvidiaDevice : Type 0 where
  pub used : ℕ
  pub total : ℕ
  pub temperature : Option ℤ

abbrev pub nvidia_telemetry : ℕ → NvidiaDevice → GpuTelemetry
nvidia_telemetry index d =
    let memory = safe_memory d.used d.total in
    record {
      vendor = nvidia;
      provider_index = pos index;
      is_discrete = some true;
      temperature_celsius = safe_temperature d.temperature;
      used_bytes = memory.0;
      total_bytes = memory.1;
    }

abbrev pub cons_nvidia :
    ℕ → Option NvidiaDevice → Option (List GpuTelemetry) → Option (List GpuTelemetry)
cons_nvidia index (some d) (some rest) = some (nvidia_telemetry index d ∷ rest)
cons_nvidia index _ _ = none

-- The loop over the cards, from an index on; a card that raises ends it.
abbrev pub nvidia_from : ℕ → List (Option NvidiaDevice) → Option (List GpuTelemetry)
nvidia_from index [] = some []
nvidia_from index (d ∷ ds) = cons_nvidia index d (nvidia_from (1 + index) ds)

abbrev pub or_no_cards : Option (List GpuTelemetry) → List GpuTelemetry
or_no_cards none = []
or_no_cards (some cards) = cards

-- `read_nvidia_gpus`; `none` is a failed import, initialisation or count
unfoldable pub read_nvidia_gpus : Option (List (Option NvidiaDevice)) → List GpuTelemetry
read_nvidia_gpus none = []
read_nvidia_gpus (some devices) = or_no_cards (nvidia_from 0 devices)

pub record AmdGpuTelemetryNative : Type 0 where
  pub abi_version : ℕ
  pub provider_index : ℤ
  pub is_discrete : ℤ
  pub temperature_celsius : ℤ
  pub used_bytes : ℕ
  pub total_bytes : ℕ

-- The bridge: its version, the numbers of records that its two calls return, and the buffer after the
-- second.
pub record Bridge : Type 0 where
  pub version : ℕ
  pub required : ℕ
  pub written : ℕ
  pub buffer : List AmdGpuTelemetryNative

-- `record.is_discrete`
abbrev pub discrete_of : ℤ → Option Bool
discrete_of d = if same d (pos 1) then some true else if same d (pos 0) then some false else none

-- `NATIVE_NA_TEMPERATURE` is `-(2 ** 31)`.
abbrev pub amd_temperature : ℤ → Option ℤ
amd_temperature t = if same t (negsuc 2147483647) then none else safe_temperature (some t)

abbrev pub amd_telemetry : AmdGpuTelemetryNative → GpuTelemetry
amd_telemetry r =
    let memory = safe_memory r.used_bytes r.total_bytes in
    record {
      vendor = amd;
      provider_index = r.provider_index;
      is_discrete = discrete_of r.is_discrete;
      temperature_celsius = amd_temperature r.temperature_celsius;
      used_bytes = memory.0;
      total_bytes = memory.1;
    }

-- The loop over the first `n` records of the buffer.
abbrev pub amd_from : ℕ → List AmdGpuTelemetryNative → List GpuTelemetry
amd_from n [] = []
amd_from zero (r ∷ rs) = []
amd_from (suc n) (r ∷ rs) =
    let rest = amd_from n rs in if r.abi_version == 1 then amd_telemetry r ∷ rest else rest

-- `read_amd_gpus`, with whether the platform is Windows; `none` is an exception of the bridge
unfoldable pub read_amd_gpus : Bool → Option Bridge → List GpuTelemetry
read_amd_gpus windows none = []
read_amd_gpus windows (some b) =
    if not windows || not (b.version == 1) || b.required == 0
    then []
    else amd_from (if ltb b.written b.required then b.written else b.required) b.buffer

abbrev pub is_discrete_card : Option Bool → Bool
is_discrete_card none = false
is_discrete_card (some b) = b

abbrev pub is_complete : Option ℕ → Option ℕ → Bool
is_complete (some used) (some total) = true
is_complete _ _ = false

abbrev pub from_bool : Bool → ℤ
from_bool true = pos 1
from_bool false = pos 0

abbrev pub or_minus_one : Option ℕ → ℤ
or_minus_one none = negsuc 0
or_minus_one (some n) = pos n

-- "nvidia" is above "amd".
abbrev pub vendor_rank : GpuVendor → ℤ
vendor_rank nvidia = pos 1
vendor_rank amd = pos 0

-- `ranking` of `select_primary_gpu`
abbrev pub ranking : GpuTelemetry → List ℤ
ranking g =
    from_bool (is_complete g.used_bytes g.total_bytes)
    ∷ from_bool (is_discrete_card g.is_discrete)
    ∷ or_minus_one g.total_bytes
    ∷ vendor_rank g.vendor
    ∷ negated g.provider_index
    ∷ []

-- `a > b` of two tuples
abbrev pub tuple_above : List ℤ → List ℤ → Bool
tuple_above [] ys = false
tuple_above (x ∷ xs) [] = true
tuple_above (x ∷ xs) (y ∷ ys) =
    let rest = tuple_above xs ys in if above x y then true else if above y x then false else rest

unfoldable pub outranks : GpuTelemetry → GpuTelemetry → Bool
outranks a b = tuple_above (ranking a) (ranking b)

-- `max`: the first of the highest
abbrev pub best_after : GpuTelemetry → List GpuTelemetry → GpuTelemetry
best_after g [] = g
best_after g (x ∷ xs) =
    let replaced = best_after x xs in
    let kept = best_after g xs in if outranks x g then replaced else kept

-- `select_primary_gpu`
abbrev pub select_primary_gpu : List GpuTelemetry → Option GpuTelemetry
select_primary_gpu [] = none
select_primary_gpu (g ∷ gs) = some (best_after g gs)

-- The loop of `read_primary_gpu` over what the providers return; `none` is an exception.
abbrev pub all_candidates : List (Option (List GpuTelemetry)) → List GpuTelemetry
all_candidates [] = []
all_candidates (none ∷ rest) = all_candidates rest
all_candidates (some cards ∷ rest) = cards ++ all_candidates rest

-- `read_primary_gpu`
unfoldable pub read_primary_gpu : List (Option (List GpuTelemetry)) → Option GpuTelemetry
read_primary_gpu readings = select_primary_gpu (all_candidates readings)

-- What `DEFAULT_PROVIDERS` return.
abbrev pub default_readings :
    Option (List (Option NvidiaDevice)) → Bool → Option Bridge → List (Option (List GpuTelemetry))
default_readings devices windows bridge =
    some (read_nvidia_gpus devices) ∷ some (read_amd_gpus windows bridge) ∷ []
