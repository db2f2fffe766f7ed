-- ===== src/Pmm/Fill.antt =====
-- pmm_init of pmm.c puts the usable pages of the memory map on the stack.
mod Sound
mod Complete
mod Room
mod Largest
pub use Sound.{Holds}
pub use Complete.{Owned}
pub use Largest.{IsLargestEnd, max_addr-IsLargestEnd}
unfoldable pub use Room.{others}
use gapxos.Base.{
  ℕ, ◌+◌, ◌^◌, ◌≤◌, ◌<◌, ◌≡◌, ◌≢◌, refl, List, [], ◌∷◌, Option, none, some, length, arith, ◌>>=◌,
}
use gapxos.Pmm.{Pmm, MmapEntry, MemoryRange, add_entries, pmm_init}
use gapxos.Pmm.Usable.{IsLow, IsUsable}
use Sound.{add_entries-Holds}
use Complete.{add_entries-Owned}
use Room.{add_entries_returns, add_entries_overflow}

-- The state that pmm_init hands to _init_paging.
pub record IsFilled (unsafe : List MemoryRange) (mmap : List MmapEntry) (p : Pmm) : Type 0 where
  pub sound : Holds (IsUsable unsafe mmap) p
  pub complete : (a : ℕ) → a ≢ 0 → IsUsable unsafe mmap a → Owned a p

-- The loop of pmm_init over the map ends, with the stack filled.
pub add_entries-IsFilled :
    (stack : ℕ → ℕ) (mmap : List MmapEntry) (unsafe : List MemoryRange) (p : Pmm)
    → p.free_index ≡ 0
    → p.ap_low_page ≡ 0
    → p.ranges ≡ []
    → IsLow mmap
    → others mmap ≤ 32
    → (p' : Pmm) × (add_entries unsafe mmap (record p { free_pages = stack }) ≡ some p')
      × IsFilled unsafe mmap p'
add_entries-IsFilled stack mmap unsafe p empty unset blank low room =
    let p0 = record p { free_pages = stack } in
    let (p', done) = add_entries_returns unsafe mmap p0 (rw blank (omega arith)) in
    let start : Holds (IsUsable unsafe mmap) p0 = record {
      stacked = λ j less. absurd (omega arith);
      kept = λ ne. absurd (ne unset);
    } in
    (
      p',
      done,
      record {
        sound =
            add_entries-Holds (IsUsable unsafe mmap) unsafe mmap p0 p' low (λ a u. u) done start;
        complete = λ a ne usable. add_entries-Owned a unsafe mmap p0 p' low ne usable done;
      },
    )

-- With more than 32 entries that are no usable memory, pmm_init writes behind the end of _ranges,
-- whatever else the map holds.
pub pmm_init_overflow :
    (init_paging : ℕ → Pmm → Option Pmm) (stack : ℕ → ℕ) (mmap : List MmapEntry)
    (unsafe : List MemoryRange) (p : Pmm)
    → p.ranges ≡ []
    → 32 < others mmap
    → pmm_init init_paging stack mmap unsafe p ≡ none
unfolding pmm_init
pmm_init_overflow init_paging stack mmap unsafe p blank many = rw (
    add_entries_overflow unsafe mmap (record p { free_pages = stack }) (rw blank (omega arith))
      (rw blank (omega arith)))
