-- ===== src/Vfs/Cache/Slots.antt =====
-- The two searches of src/vfs/cache.c.
use simple_file_system.Base.{
  ℕ, zero, suc, ◌+◌, ◌-◌, ◌^◌, ◌<◌, ◌≤◌, ◌≡◌, ◌≢◌, refl, inl, inr, Option, none, some, arith, ltb,
  ◌==◌, Bool-cases, ==→eq,
}
use simple_file_system.Vfs.{FileDescriptor}
use simple_file_system.Vfs.Cache.{find_from, find_slot, oldest_from, find_least_recently_used_slot}

-- The first of `n` slots that holds the cluster, or that there is none.
unfoldable pub IsSlotOf : FileDescriptor → (target n : ℕ) → Option ℕ → Type 0
IsSlotOf file target n none = (j : ℕ) → j < n → file.cached_logical_indices j ≢ target
IsSlotOf file target n (some k) =
    (k < n)
    × (file.cached_logical_indices k ≡ target)
    × ((j : ℕ) → j < k → file.cached_logical_indices j ≢ target)

find_from-IsSlotOf :
    (file : FileDescriptor) (target n rounds i : ℕ)
    → rounds + i ≡ n
    → ((j : ℕ) → j < i → file.cached_logical_indices j ≢ target)
    → IsSlotOf file target n (find_from file target rounds i)
unfolding find_from IsSlotOf
find_from-IsSlotOf file target n zero i e before = λ j h. before j (omega arith)
find_from-IsSlotOf file target n (suc rounds) i e before =
    elim (Bool-cases (file.cached_logical_indices i == target)) [
      | inl here ↦ rw here (omega arith, ==→eq _ _ here, before)
      | inr other ↦ rw other (
          find_from-IsSlotOf file target n rounds (i + 1) (omega arith)
            (λ j h. ground (arith, before j)))
    ]

-- vfs_cache_find_slot finds the first valid slot that holds the cluster, and fails when no valid slot
-- holds it.
pub find_slot-IsSlotOf :
    (file : FileDescriptor) (target : ℕ)
    → IsSlotOf file target file.cache_valid_count (find_slot file target)
unfolding find_slot
find_slot-IsSlotOf file target =
    find_from-IsSlotOf file target file.cache_valid_count file.cache_valid_count 0 (omega arith)
      (λ j h. absurd (omega arith))

-- The time of a slot that is not later than that of the `n` slots, or that all are at the limit.
unfoldable pub IsOldest : FileDescriptor → (n : ℕ) → Option ℕ → Type 0
IsOldest file n none = (j : ℕ) → j < n → 2 ^ 32 - 1 ≤ file.cache_access_timestamp j
IsOldest file n (some k) =
    (k < n) × ((j : ℕ) → j < n → file.cache_access_timestamp k ≤ file.cache_access_timestamp j)

-- What the loop has found after `i` slots: `oldest` is the time of the slot.
IsTime : FileDescriptor → (i oldest : ℕ) → Option ℕ → Type 0
IsTime file i oldest none = oldest ≡ 2 ^ 32 - 1
IsTime file i oldest (some k) = (k < i) × (file.cache_access_timestamp k ≡ oldest)

IsTime-next :
    (file : FileDescriptor) (i oldest : ℕ) (best : Option ℕ)
    → IsTime file i oldest best
    → IsTime file (i + 1) oldest best
unfolding IsTime
IsTime-next file i oldest none h = h
IsTime-next file i oldest (some k) (below, e) = (omega arith, e)

IsOldest-of :
    (file : FileDescriptor) (n oldest : ℕ) (best : Option ℕ)
    → IsTime file n oldest best
    → ((j : ℕ) → j < n → oldest ≤ file.cache_access_timestamp j)
    → IsOldest file n best
unfolding IsTime IsOldest
IsOldest-of file n oldest none e least = λ j h. rw (← e) (least j h)
IsOldest-of file n oldest (some k) (below, e) least = (below, λ j h. rw e (least j h))

oldest_from-IsOldest :
    (file : FileDescriptor) (n rounds i oldest : ℕ) (best : Option ℕ)
    → rounds + i ≡ n
    → IsTime file i oldest best
    → ((j : ℕ) → j < i → oldest ≤ file.cache_access_timestamp j)
    → IsOldest file n (oldest_from file rounds i oldest best)
unfolding oldest_from IsTime
oldest_from-IsOldest file n zero i oldest best e found least =
    let q : n ≡ i = omega arith in
    IsOldest-of file n oldest best (rw q found) (λ j h. least j (omega arith))
oldest_from-IsOldest file n (suc rounds) i oldest best e found least =
    let time = file.cache_access_timestamp i in
    elim (Bool-cases (ltb time oldest)) [
      | inl older ↦ rw older (
          oldest_from-IsOldest file n rounds (i + 1) time (some i) (omega arith) (omega arith, refl)
            (λ j h. ground (arith, least j)))
      | inr newer ↦ rw newer (
          oldest_from-IsOldest file n rounds (i + 1) oldest best (omega arith)
            (IsTime-next file i oldest best found) (λ j h. ground (arith, least j)))
    ]

-- vfs_cache_find_least_recently_used_slot finds a valid slot whose time is not later than that of any
-- valid slot, and fails only when every valid slot has the time UINT32_MAX.
pub find_least_recently_used_slot-IsOldest :
    (file : FileDescriptor)
    → IsOldest file file.cache_valid_count (find_least_recently_used_slot file)
unfolding find_least_recently_used_slot IsTime
find_least_recently_used_slot-IsOldest file =
    oldest_from-IsOldest file file.cache_valid_count file.cache_valid_count 0 (2 ^ 32 - 1) none
      (omega arith) refl (λ j h. absurd (omega arith))
