-- ===== src/Memblock/Alloc/Reserve.antt =====
-- The theorem on `memblock_alloc_range_nid` of memblock/memblock.c and its lemmas.
use xlinux.Common.{
  ℕ, zero, suc, ◌+◌, ◌*◌, ◌^◌, ◌≤◌, ◌<◌, ◌≡◌, ◌⊎◌, inl, inr, false, ◌||◌, List, [], ◌∷◌, Option,
  none, some, ◌==◌, if◌then◌else◌, arith, length, refl,
}
use xlinux.Memblock.{Region, MemblockType, phys_addr_max, cap_size, add_range}
use xlinux.Memblock.Cover.{inside, covers}
use xlinux.Memblock.Merge.{IsApart}
use xlinux.Memblock.AddRange.{IsValid, Outcome, add_range-Outcome}
use xlinux.Memblock.Alloc.{
  Memblock, page_size, smp_cache_bytes, find_in_range_node, reserve, alloc_range_nid,
}
use xlinux.Memblock.Alloc.Gaps.{IsOrdered}
use xlinux.Memblock.Alloc.Found.{Placed, find_top_down-Placed}

IsApart-IsOrdered : (lo : ℕ) (rs : List Region) → IsApart (suc lo) rs → IsOrdered lo rs
IsApart-IsOrdered lo [] a = omega arith
IsApart-IsOrdered lo (r ∷ rs) a = (omega arith, a.2, IsApart-IsOrdered (r.base + r.size) rs a.3)

IsApart-IsOrdered' : (rs : List Region) → IsApart 0 rs → IsOrdered 0 rs
IsApart-IsOrdered' [] a = omega arith
IsApart-IsOrdered' (r ∷ rs) a = (a.0, a.2, IsApart-IsOrdered (r.base + r.size) rs a.3)

IsValid-IsOrdered : (t : MemblockType) → IsValid t → IsOrdered 0 t.regions
IsValid-IsOrdered t v = elim v.shape [
  | inl d ↦ rw d.regions (omega (arith, d.in_range))
  | inr live ↦ IsApart-IsOrdered' t.regions live.apart
]

-- Both region arrays are well formed, and the limit is an address.
pub record IsReady (mb : Memblock) : Type 0 where
  pub memory : IsValid mb.memory
  pub reserved : IsValid mb.reserved
  pub limit : mb.current_limit ≤ phys_addr_max
  pub running : mb.stopped ≡ false

-- The block at `addr` was free before, and is what `after` reserves in addition.
pub record Allocated (before : Memblock) (size align addr : ℕ) (after : Memblock) : Type 0 where
  pub placed :
      Placed before.memory.regions before.reserved.regions page_size before.current_limit size align
        addr
  pub ready : IsReady after
  pub same_memory : after.memory ≡ before.memory
  pub reserves :
      (x : ℕ)
      → covers after.reserved.regions x
        ≡ (inside addr (addr + size) x || covers before.reserved.regions x)

module _ (mb : Memblock) (size : ℕ) (ready : IsReady mb) (pos : 0 < size)
    (room : 2 * length mb.reserved.regions + 1 ≤ mb.reserved.max_cnt) where
  find_in_range_node-Placed :
      (k : ℕ)
      → k ≤ 64
      → (res : ℕ) × (find_in_range_node mb size (2 ^ k) ≡ some res)
        × ((res ≡ 0)
            ⊎ Placed mb.memory.regions mb.reserved.regions page_size mb.current_limit size
                (2 ^ k)
                res)
  unfolding find_in_range_node
  find_in_range_node-Placed k hk =
      find_top_down-Placed mb.memory.regions mb.reserved.regions
        (IsValid-IsOrdered mb.memory ready.memory) (IsValid-IsOrdered mb.reserved ready.reserved)
        page_size mb.current_limit size k pos hk ready.limit _ _ _ (omega arith) (omega arith)
        (omega arith)

  reserve_lem :
      (addr align : ℕ)
      → Placed mb.memory.regions mb.reserved.regions page_size mb.current_limit size align addr
      → (after : Memblock) × (reserve mb addr size ≡ some after)
        × Allocated mb size align addr after
  unfolding reserve cap_size
  reserve_lem addr align p =
      go (add_range mb.reserved addr size) refl (
        add_range-Outcome mb.reserved addr size (omega (arith, p.below, ready.limit))
          ready.reserved)
    where
      uncapped : cap_size addr size ≡ size
      uncapped = omega (arith, p.below, ready.limit)

      go :
          (o : Option MemblockType)
          → add_range mb.reserved addr size ≡ o
          → Outcome mb.reserved addr size o
          → (after : Memblock) × (reserve mb addr size ≡ some after)
            × Allocated mb size align addr after
      go none e full = absurd (omega arith)
      go (some t) e added = (
        record mb { reserved = t },
        rw (e, reserve),
        record {
          placed = p;
          ready = record {
            memory = ready.memory;
            reserved = added.valid;
            limit = ready.limit;
            running = ready.running;
          };
          same_memory = refl;
          reserves = λ x. rw uncapped at (added.cover x);
        },
      )

  -- While memblock runs, for a positive size and an alignment of `2 ^ k` (0 stands for 64), and with
  -- room for twice the reservations plus one, `memblock_alloc_range_nid` returns: either 0 and the
  -- state unchanged, or the address of an aligned block inside memory and the limits, of which no
  -- byte was reserved, and the new state reserves exactly this block in addition.
  pub alloc_range_nid-Allocated :
      (align0 k : ℕ)
      → k ≤ 64
      → (if align0 == 0 then smp_cache_bytes else align0) ≡ 2 ^ k
      → (addr : ℕ) × (after : Memblock) × (alloc_range_nid mb size align0 ≡ some (addr, after))
        × (((addr ≡ 0) × (after ≡ mb)) ⊎ Allocated mb size (2 ^ k) addr after)
  unfolding alloc_range_nid
  alloc_range_nid-Allocated align0 k hk e =
      let (res, got, which) = find_in_range_node-Placed k hk in go res got which
    where
      go :
          (res : ℕ)
          → find_in_range_node mb size (2 ^ k) ≡ some res
          → (res ≡ 0)
            ⊎ Placed mb.memory.regions mb.reserved.regions page_size mb.current_limit size
                (2 ^ k)
                res
          → (addr : ℕ) × (after : Memblock) × (alloc_range_nid mb size align0 ≡ some (addr, after))
            × (((addr ≡ 0) × (after ≡ mb)) ⊎ Allocated mb size (2 ^ k) addr after)
      go zero got which = (0, mb, simp (ready.running, e, got), inl (refl, refl))
      go (suc n) got (inl z) = absurd (omega arith)
      go (suc n) got (inr placed) =
          let (after, stored, allocated) = reserve_lem (suc n) (2 ^ k) placed in
          (suc n, after, simp (ready.running, e, got, stored), inr allocated)
