-- ===== src/Process/Memory.antt =====
-- utils.go: the memory of a process, read with the library gopsutil, which is a parameter.
use browserpm.Common.{ℕ, ◌*◌, ◌%◌, ◌^◌, Bool, Option, none, some, List, ◌∷◌, if◌then◌else◌, ltb}
use browserpm.Common.Int.{ℤ}
use browserpm.Errors.{Error, Outcome, ok, err}
use browserpm.Driver.{Trace, process_opened, memory_read, maps_read}

-- NewProcess, MemoryInfo (RSS and VMS), MemoryMapsWithContext (the field Pss of each map, or nil), and
-- whether runtime.GOOS is "linux".
pub record Processes : Type 0 where
  pub new_process : ℤ → Trace → Option Error
  pub memory_info : ℤ → Trace → Outcome (ℕ × ℕ)
  pub memory_maps : ℤ → Trace → Outcome (Option (List ℕ))
  pub is_linux : Bool

pub record Usage : Type 0 where
  pub rss : ℕ
  pub vms : ℕ
  pub exclusive : ℕ

abbrev pub no_memory : Usage
no_memory = record { rss = 0; vms = 0; exclusive = 0 }

-- The basic information, on all platforms.
unfoldable pub basic_memory : Processes → ℤ → Trace → Usage
basic_memory x pid t = elim (x.memory_info pid t) [
  | ok m ↦ record { rss = m.0; vms = m.1; exclusive = m.0 }
  | err e ↦ no_memory
]

-- The exclusive memory by the first map, if that has a Pss, in bytes as a uint64.
abbrev pub pss_bytes : Outcome (Option (List ℕ)) → ℕ → ℕ
pss_bytes (ok (some (pss ∷ rest))) exclusive = if ltb 0 pss then pss * 1024 % 2 ^ 64 else exclusive
pss_bytes _ exclusive = exclusive

-- getProcessMemory.
unfoldable pub get_process_memory : Processes → ℤ → Trace → Usage × Trace
get_process_memory x pid t =
    let t1 = process_opened pid ∷ t in
    let m = basic_memory x pid t1 in
    let t2 = memory_read pid ∷ t1 in
    elim (x.new_process pid t) [
      | some e ↦ (no_memory, t1)
      | none ↦
          if x.is_linux
          then (
            record m { exclusive = pss_bytes (x.memory_maps pid t2) m.exclusive },
            maps_read pid ∷ t2,
          )
          else (m, t2)
    ]
