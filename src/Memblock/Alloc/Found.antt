-- ===== src/Memblock/Alloc/Found.antt =====
-- The theorem on the search from the top of memblock/memblock.c and its lemmas.
use xlinux.Common.{
  ℕ, zero, suc, ◌+◌, ◌-◌, ◌*◌, ◌%◌, ◌^◌, ◌≤◌, ◌<◌, ◌≡◌, ◌⊎◌, inl, inr, Bool, true, false, List,
  Option, none, some, ltb, leb, arith, length, refl, Bool-cases, Option-cases, ◌∙◌,
}
use xlinux.Common.Bits.{bit_and_high, pow-add_lem}
use native.Mathlib.Nat.{one-le-pow}
use xlinux.Memblock.{Region, phys_addr_max}
use xlinux.Memblock.Cover.{covers}
use xlinux.Memblock.Alloc.{
  Range, Cursor, region_at, end_of, gap_start, gap_end, GapScan, found, left, gap_scan,
  next_mem_range_rev, clamp, round_down, candidate, find_top_down,
}
use xlinux.Memblock.Alloc.Gaps.{IsOrdered, gap-free, covers-region_at}

-- Every address from `lo` up to `hi` is memory and is not reserved.
abbrev pub IsFree : List Region → List Region → ℕ → ℕ → Type 0
IsFree ms rs lo hi = (x : ℕ) → lo ≤ x → x < hi → (covers ms x ≡ true) × (covers rs x ≡ false)

abbrev GapOk : List Region → ℕ → ℕ → ℕ → GapScan → Type 0
GapOk rs m_start m_end nb (found r advance b) =
    (0 < b)
    × (b ≤ nb)
    × ((x : ℕ) → r.start ≤ x → x < r.stop → (m_start ≤ x) × (x < m_end) × (covers rs x ≡ false))
GapOk rs m_start m_end nb (left b) = b ≤ nb

GapOk-mono :
    (rs : List Region) (m_start m_end nb : ℕ) (g : GapScan)
    → GapOk rs m_start m_end nb g
    → GapOk rs m_start m_end (suc nb) g
GapOk-mono rs m_start m_end nb (found r advance b) h = (h.0, omega arith, h.2)
GapOk-mono rs m_start m_end nb (left b) h = omega arith

gap_scan-GapOk :
    (rs : List Region) (m_start m_end nb : ℕ)
    → IsOrdered 0 rs
    → nb ≤ suc (length rs)
    → GapOk rs m_start m_end nb (gap_scan rs m_start m_end nb)
unfolding gap_scan
gap_scan-GapOk rs m_start m_end zero s h = omega arith
gap_scan-GapOk rs m_start m_end (suc i) s h = elim (Bool-cases (leb (gap_end rs i) m_start)) [
  | inl past ↦ rw past (omega arith)
  | inr before ↦ rw before (elim (Bool-cases (ltb (gap_start rs i) m_end)) [
    | inl meet ↦ rw meet (
      omega arith,
      omega arith,
      λ x p q.
          (omega arith, omega arith, gap-free rs i x s (omega arith) (omega arith) (omega arith)),
    )
    | inr apart ↦
        rw apart
          (GapOk-mono rs m_start m_end i _ (gap_scan-GapOk rs m_start m_end i s (omega arith)))
  ])
]

abbrev NextOk : List Region → List Region → ℕ → ℕ → Option (Range × Cursor) → Type 0
NextOk ms rs a b none = Unit
NextOk ms rs a b (some (r, c)) =
    IsFree ms rs r.start r.stop × (c.idx_a ≤ a) × (c.idx_b ≤ b) × (c.idx_a + c.idx_b < a + b)

NextOk-mono :
    (ms rs : List Region) (i b b' : ℕ) (o : Option (Range × Cursor))
    → NextOk ms rs i b' o
    → b' ≤ b
    → NextOk ms rs (suc i) b o
NextOk-mono ms rs i b b' none h le = tt
NextOk-mono ms rs i b b' (some (r, c)) h le = (h.0, omega arith, omega arith, omega arith)

pred_mul : (p m : ℕ) → 0 < p → (p - 1) * m ≡ p * m - m
pred_mul zero m h = absurd (omega arith)
pred_mul (suc p) m h = let e : suc p - 1 ≡ p = omega arith in rw e (omega arith)

-- Rounding down to a power of two clears the low bits.
pub round_down_lem : (k x : ℕ) → k ≤ 64 → x ≤ phys_addr_max → round_down x (2 ^ k) ≡ x - x % 2 ^ k
unfolding round_down
round_down_lem k x hk hx =
    let n = 64 - k in
    let split : n + k ≡ 64 = omega arith in
    let powers : 2 ^ n * 2 ^ k ≡ 2 ^ 64 = rw (← pow-add_lem n k, split) in
    let pos : 1 ≤ 2 ^ k = one-le-pow k 2 (omega arith) in
    let mask : 2 ^ 64 - 1 - (2 ^ k - 1) ≡ (2 ^ n - 1) * 2 ^ k =
      omega (arith, powers, pred_mul (2 ^ n) (2 ^ k) (one-le-pow n 2 (omega arith))) in
    rw (mask, bit_and_high n k x (rw split (omega arith)))

low_aligned : (x y m : ℕ) → 0 < m → y ≡ x - x % m → y % m ≡ 0
low_aligned x y m h e = grind arith

-- A block that lies in the limits, is aligned, and is free.
pub record Placed (ms rs : List Region) (start end size align found : ℕ) : Type 0 where
  pub above : start ≤ found
  pub below : found + size ≤ end
  pub aligned : found % align ≡ 0
  pub free : IsFree ms rs found (found + size)

module _ (ms rs : List Region) (start end size k : ℕ) (pos : 0 < size) (hk : k ≤ 64)
    (top : end ≤ phys_addr_max) where
  candidate-Placed :
      (r : Range) {cand : ℕ}
      → IsFree ms rs r.start r.stop
      → candidate start end size (2 ^ k) r ≡ some cand
      → Placed ms rs start end size (2 ^ k) cand
  unfolding candidate
  candidate-Placed r {cand} free e =
      let ts = clamp r.start start end in
      let te = clamp r.stop start end in
      let facts : (size ≤ te) × (ts ≤ cand) × (cand ≡ round_down (te - size) (2 ^ k)) =
        ground arith in
      let low = facts.2 ∙ round_down_lem k (te - size) hk (omega arith) in
      record {
        above = omega arith;
        below = omega arith;
        aligned = low_aligned (te - size) cand (2 ^ k) (one-le-pow k 2 (omega arith)) low;
        free = λ x p q. free x (omega arith) (omega arith);
      }

module _ (ms rs : List Region) (ordered_m : IsOrdered 0 ms) (ordered_r : IsOrdered 0 rs) where
  next-NextOk :
      (a b : ℕ)
      → a ≤ length ms
      → b ≤ suc (length rs)
      → NextOk ms rs a b (next_mem_range_rev ms rs a b)
  unfolding next_mem_range_rev
  next-NextOk zero b ha hb = tt
  next-NextOk (suc i) b ha hb =
      go (gap_scan rs m.base (end_of m) b) (gap_scan-GapOk rs m.base (end_of m) b ordered_r hb)
        (λ b' le. next-NextOk i b' (omega arith) (omega arith))
    where
      m : Region
      m = region_at ms i

      free :
          (r : Range) (adv : Bool) (b' : ℕ)
          → GapOk rs m.base (end_of m) b (found r adv b')
          → IsFree ms rs r.start r.stop
      free r adv b' h x p q =
          let in_gap = h.2 x p q in
          (covers-region_at 0 ms i x ordered_m ha in_gap.0 in_gap.1, in_gap.2)

      go :
          (g : GapScan)
          → GapOk rs m.base (end_of m) b g
          → ((b' : ℕ) → b' ≤ b → NextOk ms rs i b' (next_mem_range_rev ms rs i b'))
          → NextOk ms rs (suc i) b (elim g [
            | found r true b' ↦ some (r, record { idx_a = i; idx_b = b' })
            | found r false b' ↦ some (r, record { idx_a = suc i; idx_b = b' - 1 })
            | left b' ↦ next_mem_range_rev ms rs i b'
          ])
      go (found r true b') h ih = (free r true b' h, omega arith, h.1, omega arith)
      go (found r false b') h ih = (free r false b' h, omega arith, omega arith, omega arith)
      go (left b') h ih = NextOk-mono ms rs i b b' (next_mem_range_rev ms rs i b') (ih b' h) h

  -- For a positive size, an alignment of at most `2 ^ 64` and an end in the address space, the search
  -- from the top returns from every position within the two arrays, if the fuel is above the sum of
  -- the two indices: 0, or the address of an aligned block inside the limits that lies in memory and
  -- of which no byte is reserved.
  pub find_top_down-Placed :
      (start end size k : ℕ)
      → 0 < size
      → k ≤ 64
      → end ≤ phys_addr_max
      → (fuel a b : ℕ) → a + b < fuel
      → a ≤ length ms
      → b ≤ suc (length rs)
      → (res : ℕ) × (find_top_down ms rs start end size (2 ^ k) fuel a b ≡ some res)
        × ((res ≡ 0) ⊎ Placed ms rs start end size (2 ^ k) res)
  unfolding find_top_down
  find_top_down-Placed start end size k pos hk top zero a b h ha hb = absurd (omega arith)
  find_top_down-Placed start end size k pos hk top (suc fuel) a b h ha hb =
      go (next_mem_range_rev ms rs a b) (next-NextOk a b ha hb) refl
        (λ a' b' h' ha' hb'. find_top_down-Placed start end size k pos hk top fuel a' b' h' ha' hb')
    where
      go :
          (o : Option (Range × Cursor))
          → NextOk ms rs a b o
          → next_mem_range_rev ms rs a b ≡ o
          → ((a' b' : ℕ)
              → a' + b' < fuel
              → a' ≤ length ms
              → b' ≤ suc (length rs)
              → (res : ℕ) × (find_top_down ms rs start end size (2 ^ k) fuel a' b' ≡ some res)
                × ((res ≡ 0) ⊎ Placed ms rs start end size (2 ^ k) res))
          → (res : ℕ) × (find_top_down ms rs start end size (2 ^ k) (suc fuel) a b ≡ some res)
            × ((res ≡ 0) ⊎ Placed ms rs start end size (2 ^ k) res)
      go none ok e ih = (0, rw (e, find_top_down), inl refl)
      go (some (r, c)) ok e ih = elim (Option-cases (candidate start end size (2 ^ k) r)) [
        | inl skip ↦
            let rest = ih c.idx_a c.idx_b (omega arith) (omega arith) (omega arith) in
            (rest.0, rw (e, find_top_down) (rw skip rest.1), rest.2)
        | inr (cand, hit) ↦ (
          cand,
          rw (e, find_top_down) (rw hit),
          inr (candidate-Placed ms rs start end size k pos hk top r ok.0 hit),
        )
      ]
