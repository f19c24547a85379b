-- ===== src/Telemetry/Tests.antt =====
-- An NVIDIA card without memory readings, and two AMD cards, the first of an unknown version.
use android_streamdeck.Base.{◌≡◌, refl, true, Option, none, some, List, [], ◌∷◌}
use android_streamdeck.Telemetry.{
  pos, amd, GpuTelemetry, NvidiaDevice, AmdGpuTelemetryNative, Bridge, safe_memory,
  safe_temperature, read_nvidia_gpus, read_amd_gpus, outranks, all_candidates, read_primary_gpu,
  default_readings,
}
use android_streamdeck.Telemetry.Primary.{IsPicked, IsPlausible, primary_gpu-IsPlausible}

abbrev devices : Option (List (Option NvidiaDevice))
devices = some (some (record { used = 9; total = 4; temperature = some (pos 41) }) ∷ [])

abbrev native : AmdGpuTelemetryNative
native = record {
  abi_version = 1;
  provider_index = pos 0;
  is_discrete = pos 1;
  temperature_celsius = pos 200;
  used_bytes = 3;
  total_bytes = 8;
}

abbrev bridge : Option Bridge
bridge = some (record {
  version = 1;
  required = 2;
  written = 2;
  buffer = record native { abi_version = 2 } ∷ native ∷ [];
})

abbrev shown : GpuTelemetry
shown = record {
  vendor = amd;
  provider_index = pos 0;
  is_discrete = some true;
  temperature_celsius = none;
  used_bytes = some 3;
  total_bytes = some 8;
}

amd_is_shown : read_primary_gpu (default_readings devices true bridge) ≡ some shown
unfolding read_primary_gpu read_nvidia_gpus read_amd_gpus safe_memory safe_temperature outranks
amd_is_shown = refl

primary_gpu-IsPlausible_example :
    IsPicked shown (all_candidates (default_readings devices true bridge)) × IsPlausible shown
primary_gpu-IsPlausible_example = primary_gpu-IsPlausible devices true bridge shown amd_is_shown
