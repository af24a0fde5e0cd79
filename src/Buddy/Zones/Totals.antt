-- ===== src/Buddy/Zones/Totals.antt =====
-- buddy/buddy.c: the pages of the node, summed over its zones.
use mathlib.Core.Path.{subst}
use xlinux.Common.{
  ℕ, ◌+◌, ◌-◌, ◌%◌, ◌^◌, ◌≤◌, ◌<◌, ◌≡◌, min, max, false, List, [], ◌∷◌, ◌==◌, if◌then◌else◌, arith,
  refl, ap, sym, ◌∙◌,
}
use xlinux.Buddy.Zones.{
  widen, get_pfn_range_for_nid, zone_spanned_pages_in_node, real_size, calculate_node_totalpages,
  area_bounds, zone_absent_pages_in_node, zone_sizes_init, free_area_init_node,
}
use xlinux.Memblock.Alloc.{clamp}
use xlinux.Buddy.Zones.Sizing.{
  Ordered, Ordered-le, frames, overlaps, overlaps-le, overlaps_split, overlaps_whole, clamp_split,
  differences_split, clamp_mono, zone_spanned_lem, real_size_lem, last_bound, last_bound-le,
}

overlaps_empty : (lo : ℕ) (l : List (ℕ × ℕ)) → overlaps l lo lo ≡ 0
overlaps_empty lo [] = refl
overlaps_empty lo ((s, e) ∷ l) = omega (arith, overlaps_empty lo l)

sum_small : (a b t : ℕ) → a + b ≡ t → t < 2 ^ 64 → (a + b) % 2 ^ 64 ≡ t
sum_small a b t e h = omega arith

span_split :
    (ns ne lo mid hi : ℕ)
    → ns ≤ ne
    → lo ≤ mid
    → mid ≤ hi
    → (clamp ne lo mid - clamp ns lo mid) + (clamp ne mid hi - clamp ns mid hi)
      ≡ clamp ne lo hi - clamp ns lo hi
span_split ns ne lo mid hi h a b =
    differences_split (clamp ne lo mid) (clamp ne mid hi) (clamp ne lo hi) (clamp ns lo mid)
      (clamp ns mid hi) (clamp ns lo hi) mid (clamp_mono ns ne lo mid h) (clamp_mono ns ne mid hi h)
      (clamp_split ne lo mid hi a b) (clamp_split ns lo mid hi a b)

-- The zones up to a bound, and the empty one at the end, count the frames up to the bound.
module _ (ranges : List (ℕ × ℕ)) (ns ne : ℕ) (o : Ordered ns ne ranges) (less : ns < ne) where
  abbrev total : List (ℕ × ℕ) → ℕ × ℕ
  total zones = calculate_node_totalpages ranges ns ne zones

  total_lem :
      (start : ℕ) (ms : List ℕ)
      → last_bound start ms < 2 ^ 64
      → ((total (area_bounds start ms)).0
          ≡ clamp ne start (last_bound start ms) - clamp ns start (last_bound start ms))
        × ((total (area_bounds start ms)).1 ≡ overlaps ranges start (last_bound start ms))
  unfolding calculate_node_totalpages area_bounds
  total_lem start [] top = (
    ap (λ (t : ℕ). (t + 0) % 2 ^ 64) (zone_spanned_lem 0 0 ns ne (omega arith) less (omega arith))
        ∙ omega arith,
    ap (λ (t : ℕ). (t + 0) % 2 ^ 64)
          (real_size_lem ranges 0 0 ns ne o (omega arith) less (omega arith)
            ∙ overlaps_empty 0 ranges)
        ∙ sym (overlaps_empty start ranges),
  )
  total_lem start (m ∷ ms) top =
      let mid = max m start in
      let hi = last_bound mid ms in
      let up : start ≤ mid = omega arith in
      let up' : mid ≤ hi = last_bound-le mid ms in
      let (spanned, present) = total_lem mid ms top in
      let split = overlaps_split start mid hi ranges up up' ns ne o in
      let most = overlaps-le ns ne start hi ranges o in
      (
        ap (λ (t : ℕ). (t + (total (area_bounds mid ms)).0) % 2 ^ 64)
              (zone_spanned_lem start mid ns ne up less (omega arith))
            ∙ ap (λ (t : ℕ). ((clamp ne start mid - clamp ns start mid) + t) % 2 ^ 64) spanned
            ∙ sum_small (clamp ne start mid - clamp ns start mid)
                (clamp ne mid hi - clamp ns mid hi) _
                (span_split ns ne start mid hi (omega arith) up up') (omega arith),
        ap (λ (t : ℕ). (t + (total (area_bounds mid ms)).1) % 2 ^ 64)
              (real_size_lem ranges start mid ns ne o up less (omega arith))
            ∙ ap (λ (t : ℕ). (overlaps ranges start mid + t) % 2 ^ 64) present
            ∙ sum_small (overlaps ranges start mid) (overlaps ranges mid hi) _ split
                (omega (arith, most)),
      )

-- The first frame and the end of the last range.
widen-Ordered :
    (low high a : ℕ) (l : List (ℕ × ℕ))
    → a ≤ low
    → Ordered low high l
    → (b : ℕ) × (widen l a low ≡ (a, b)) × Ordered low b l × (b ≤ high) × (low ≤ b)
unfolding widen
widen-Ordered low high a [] h o = (low, refl, omega arith, o, omega arith)
widen-Ordered low high a ((s, e) ∷ l) h (p, q, o) =
    let (b, run, o', most, least) = widen-Ordered e high a l (omega arith) o in
    let first : min a s ≡ a = omega arith in
    let last : max low e ≡ e = omega arith in
    (
      b,
      ap (λ (t : ℕ). widen l t (max low e)) first ∙ ap (widen l a) last ∙ run,
      (p, q, o'),
      most,
      omega arith,
    )

node_range :
    (low high s e : ℕ) (l : List (ℕ × ℕ))
    → Ordered low high ((s, e) ∷ l)
    → high < 2 ^ 64
    → (b : ℕ) × (get_pfn_range_for_nid ((s, e) ∷ l) ≡ (s, b))
      × Ordered s b ((s, e) ∷ l)
      × (s < b)
      × (b ≤ high)
unfolding get_pfn_range_for_nid widen
node_range low high s e l (p, q, o) top =
    let (b, run, o', most, least) = widen-Ordered e high s l (omega arith) o in
    let first : min (2 ^ 64 - 1) s ≡ s = omega arith in
    let last : max 0 e ≡ e = omega arith in
    let test : (s == 2 ^ 64 - 1) ≡ false = ground arith in
    let run' : widen l (min (2 ^ 64 - 1) s) (max 0 e) ≡ (s, b) =
      ap (λ (t : ℕ). widen l t (max 0 e)) first ∙ ap (widen l s) last ∙ run in
    (
      b,
      ap (λ (r : ℕ × ℕ). (if r.0 == 2 ^ 64 - 1 then 0 else r.0, r.1)) run'
          ∙ ap (λ t. (if t then 0 else s, b)) test,
      (omega arith, q, o'),
      omega arith,
      most,
    )

no_memory :
    (start max_low : ℕ)
    → ((free_area_init_node [] (zone_sizes_init start max_low)).1 ≡ 0)
      × ((free_area_init_node [] (zone_sizes_init start max_low)).0
          ≡ (get_pfn_range_for_nid []).1 - (get_pfn_range_for_nid []).0)
unfolding free_area_init_node zone_sizes_init calculate_node_totalpages area_bounds
    zone_spanned_pages_in_node real_size zone_absent_pages_in_node get_pfn_range_for_nid widen
no_memory start max_low = (refl, refl)

-- The node with at least a range.
some_memory :
    (start max_low s e : ℕ) (l : List (ℕ × ℕ))
    → Ordered start max_low ((s, e) ∷ l)
    → max_low < 2 ^ 64
    → ((free_area_init_node ((s, e) ∷ l) (zone_sizes_init start max_low)).1 ≡ frames ((s, e) ∷ l))
      × ((free_area_init_node ((s, e) ∷ l) (zone_sizes_init start max_low)).0
          ≡ (get_pfn_range_for_nid ((s, e) ∷ l)).1 - (get_pfn_range_for_nid ((s, e) ∷ l)).0)
unfolding free_area_init_node zone_sizes_init
some_memory start max_low s e l o top =
    let ranges : List (ℕ × ℕ) = (s, e) ∷ l in
    let (b, is, o', less, most) = node_range start max_low s e l o top in
    let ms : List ℕ = min (2 ^ 20) max_low ∷ max_low ∷ [] in
    let all = Ordered-le start max_low ranges o in
    let last : last_bound start ms ≡ max_low = omega arith in
    let (spanned, present) = total_lem ranges s b o' less start ms (omega (arith, last)) in
    let whole =
      overlaps_whole s b start (last_bound start ms) ranges o' (o.0) (omega (arith, last)) in
    subst
      (λ (r : ℕ × ℕ).
        ((calculate_node_totalpages ranges r.0 r.1 (area_bounds start ms)).1 ≡ frames ranges)
        × ((calculate_node_totalpages ranges r.0 r.1 (area_bounds start ms)).0 ≡ r.1 - r.0))
      (sym is)
      (
        present ∙ whole,
        spanned ∙ inner s b (last_bound start ms) (o.0) (omega arith) (omega (arith, last)),
      )
  where
    inner : (x y hi : ℕ) → start ≤ x → x ≤ y → y ≤ hi → clamp y start hi - clamp x start hi ≡ y - x
    inner x y hi p q r = omega arith

-- At boot, for ranges of memory in order and apart, the zones of the node count every frame of them
-- once, and span the frames from the first to the last range.
pub free_area_init_node_lem :
    (start max_low : ℕ) (ranges : List (ℕ × ℕ))
    → Ordered start max_low ranges
    → max_low < 2 ^ 64
    → ((free_area_init_node ranges (zone_sizes_init start max_low)).1 ≡ frames ranges)
      × ((free_area_init_node ranges (zone_sizes_init start max_low)).0
          ≡ (get_pfn_range_for_nid ranges).1 - (get_pfn_range_for_nid ranges).0)
free_area_init_node_lem start max_low [] o top = no_memory start max_low
free_area_init_node_lem start max_low ((s, e) ∷ l) o top = some_memory start max_low s e l o top
