-- ===== src/Hwdetect/Tests.antt =====
-- Settings for a desktop machine.
use plumbr_c.Prelude.{◌≤◌, ◌≡◌, true, false, refl, arith}
use plumbr_c.Hwdetect.{
  Machine, amd, batch_size, autotune_threads, initial_settings, get_optimal_threads,
}
use plumbr_c.Hwdetect.Laws.{autotune_threads_lem}

-- Eight cores with two threads each, and two megabytes of shared cache.
abbrev desktop : Machine
desktop = record {
  vendor = amd;
  l2_cache_kb = 512;
  l3_cache_kb = 2048;
  physical_cores = 8;
  logical_cores = 16;
  is_zen3 = true;
  is_zen4 = false;
  has_avx2 = true;
  gpu_available = false;
  has_opencl = false;
  measured_bandwidth_mb_sec = 20000;
}

-- With two megabytes of cache the target of 10485 lines is rounded up; twice that many lines of a
-- hundred bytes are more than three megabytes.
rounded_up : batch_size desktop ≡ 16384
unfolding batch_size
rounded_up = refl

ten_threads : (autotune_threads desktop (initial_settings desktop)).1 ≡ 10
unfolding autotune_threads
ten_threads = refl

autotune_threads_lem_example :
    (1 ≤ (autotune_threads desktop (initial_settings desktop)).1)
    × ((autotune_threads desktop (initial_settings desktop)).1 ≤ 16)
    × ((autotune_threads desktop (initial_settings desktop)).1
        ≤ (autotune_threads desktop (initial_settings desktop)).0.max_useful_threads)
    × (get_optimal_threads (autotune_threads desktop (initial_settings desktop)).0
        ≡ (autotune_threads desktop (initial_settings desktop)).1)
autotune_threads_lem_example = autotune_threads_lem desktop (initial_settings desktop) (omega arith)
