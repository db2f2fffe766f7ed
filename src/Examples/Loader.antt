-- ===== src/Examples/Loader.antt =====
-- The place of the kernel on a small memory map.
use gapxos.Base.{ℕ, ◌≡◌, ◌≢◌, ◌⊎◌, refl, arith, List, [], ◌∷◌, All}
use gapxos.Pmm.{MmapEntry}
use gapxos.Loader.{find_elf64_phys_origin, try_entry, place_kernel, as_int}
use gapxos.Loader.Origin.{IsRoom, IsRoomIn, find_elf64_phys_origin-IsRoomIn}

abbrev memory_map : List MmapEntry
memory_map =
    record { base_addr = 0; length = 0x9000; type = 1 }
    ∷ record { base_addr = 0x9000; length = 0x1000; type = 2 }
    ∷ record { base_addr = 0xa000; length = 0x10000; type = 1 }
    ∷ []

found : find_elf64_phys_origin 0xb800 0x3000 memory_map ≡ 0xc000
unfolding find_elf64_phys_origin try_entry place_kernel as_int
found = refl

-- A piece that is shorter than what the rounding takes from it counts as endless.
wraps :
    find_elf64_phys_origin 0x1000 0x100000
      (record { base_addr = 0x1800; length = 0x10; type = 1 } ∷ [])
    ≡ 0x2000
unfolding find_elf64_phys_origin try_entry place_kernel as_int
wraps = refl

find_elf64_phys_origin-IsRoomIn_example :
    ((find_elf64_phys_origin 0xb800 0x3000 memory_map ≡ 0)
      × All (λ entry. (a : ℕ) → ¬ IsRoom 0xb800 0x3000 a entry) memory_map)
    ⊎ ((find_elf64_phys_origin 0xb800 0x3000 memory_map ≢ 0)
        × IsRoomIn 0xb800 0x3000 (find_elf64_phys_origin 0xb800 0x3000 memory_map) memory_map)
find_elf64_phys_origin-IsRoomIn_example =
    find_elf64_phys_origin-IsRoomIn 0xb800 0x3000 memory_map (omega arith) (omega arith)
      (omega arith)
