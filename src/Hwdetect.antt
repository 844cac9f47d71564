-- ===== src/Hwdetect.antt =====
-- src/hwdetect.c: what is derived from the machine's description, `HardwareInfo`: the batch size,
-- the numbers of threads and the prefetch settings. The detection itself reads the machine.
-- Core counts are small enough for their products with 27 to fit an `int`.
pub mod Laws
mod Tests
use plumbr_c.Prelude.{
  ℕ, zero, suc, ◌+◌, ◌*◌, ◌/◌, ◌%◌, ◌^◌, Bool, true, false, ◌||◌, ltb, leb, ◌==◌, if◌then◌else◌,
}

-- `CpuVendor`
pub data Vendor : Type 0 where
  unknown : Vendor
  intel : Vendor
  amd : Vendor
  arm : Vendor

-- The fields of `HardwareInfo` that the settings depend on.
pub record Machine : Type 0 where
  pub vendor : Vendor
  pub l2_cache_kb : ℕ
  pub l3_cache_kb : ℕ
  pub physical_cores : ℕ
  pub logical_cores : ℕ
  pub is_zen3 : Bool
  pub is_zen4 : Bool
  pub has_avx2 : Bool
  pub gpu_available : Bool
  pub has_opencl : Bool
  pub measured_bandwidth_mb_sec : ℕ

-- The fields that are set from them.
pub record Settings : Type 0 where
  pub optimal_threads : ℕ
  pub recommended_threads : ℕ
  pub max_useful_threads : ℕ
  pub use_avx2 : Bool
  pub use_gpu : Bool
  pub optimal_batch_size : ℕ
  pub prefetch_distance : ℕ
  pub prefetch_hint : ℕ

-- `(int)x`, where a negative number counts as 0: all that follows is a test that it is small.
abbrev pub to_int : ℕ → ℕ
to_int x = let y = x % 2 ^ 32 in if ltb y (2 ^ 31) then y else 0

-- while (power < optimal) power *= 2
unfoldable pub power_loop : ℕ → ℕ → ℕ → ℕ
power_loop zero power optimal = power
power_loop (suc fuel) power optimal =
    let rest = power_loop fuel (power * 2) optimal in if ltb power optimal then rest else power

-- The number of lines that the code aims at.
unfoldable pub batch_target : Machine → ℕ
batch_target m =
    let optimal = to_int (m.l3_cache_kb * 1024) / 200 in
    let optimal' = if ltb optimal 256 then 256 else optimal in
    if ltb 16384 optimal' then 16384 else optimal'

-- `hwdetect_optimal_batch_size`: the target is below 256 * 2 ^ 6, so six rounds are enough.
unfoldable pub batch_size : Machine → ℕ
unfolding power_loop batch_target
batch_size m = power_loop 6 256 (batch_target m)

-- `mem_limited`
unfoldable pub mem_limited : Machine → ℕ
mem_limited m =
    let threads = to_int (m.measured_bandwidth_mb_sec / 100) in
    let threads' = if ltb threads 1 then 1 else threads in
    if ltb m.logical_cores threads' then m.logical_cores else threads'

-- The threads that an architecture makes use of.
unfoldable pub arch_threads : Machine → ℕ
arch_threads m =
    let p = m.physical_cores in
    if m.is_zen3 || m.is_zen4
    then p * 27 / 20
    else elim m.vendor [ amd ↦ p * 5 / 4 | intel ↦ p * 11 / 10 | arm ↦ p | unknown ↦ p ]

-- `hwdetect_autotune_threads`: the settings and the number returned.
unfoldable pub autotune_threads : Machine → Settings → Settings × ℕ
unfolding mem_limited arch_threads
autotune_threads m s =
    let limited = mem_limited m in
    let optimal = arch_threads m in
    let optimal1 = if ltb m.logical_cores optimal then m.logical_cores else optimal in
    let optimal2 = if ltb limited optimal1 then limited else optimal1 in
    let optimal3 = if ltb optimal2 1 then 1 else optimal2 in
    (record s { optimal_threads = optimal3; max_useful_threads = limited }, optimal3)

-- `hwdetect_get_optimal_threads`
unfoldable pub get_optimal_threads : Settings → ℕ
get_optimal_threads s = if ltb 0 s.optimal_threads then s.optimal_threads else s.recommended_threads

-- The settings that `hwdetect_init` derives, once the machine is detected.
unfoldable pub initial_settings : Machine → Settings
unfolding batch_size
initial_settings m =
    let bw = m.measured_bandwidth_mb_sec in
    let threads = to_int (bw / 100) in
    let threads1 = if ltb m.logical_cores threads then m.logical_cores else threads in
    let threads2 = if ltb threads1 1 then 1 else threads1 in
    let far = leb 1024 m.l2_cache_kb in
    let zen = m.is_zen3 || m.is_zen4 in
    record {
      optimal_threads = m.physical_cores;
      recommended_threads = m.physical_cores;
      max_useful_threads = if ltb 0 bw then threads2 else m.physical_cores;
      use_avx2 = m.has_avx2;
      use_gpu = if m.gpu_available then m.has_opencl else false;
      optimal_batch_size = batch_size m;
      prefetch_distance = if zen then 1 else if far then 2 else 1;
      prefetch_hint = if zen then 1 else if far then 0 else 1;
    }
