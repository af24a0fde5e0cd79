-- ===== src/Virtio/Ready.antt =====
-- The invariant of a queue of virtio/virtio_ring.c, and lemmas on `virtqueue_add_split`.
use xlinux.Common.{
  ℕ, ◌+◌, ◌*◌, ◌%◌, ◌^◌, ◌<◌, ◌≡◌, ◌≢◌, Bool, true, false, ◌&&◌, Option, none, some, List, [], ◌∷◌,
  ltb, ◌==◌, if◌then◌else◌, length, arith, refl, ap, Bool-cases, Option-cases, inl, inr,
}
use xlinux.Common.Counts.{count}
use xlinux.Common.Tables.{update}
use xlinux.Virtio.{Desc, Queue, Fragment, expose, indirect_table, f_indirect}

-- The `next` fields lead from the head through these descriptors.
abbrev pub Chain : (ℕ → Desc) → ℕ → List ℕ → Type 0
Chain desc head [] = Unit {0}
Chain desc head (i ∷ l) = (head ≡ i) × Chain desc ((desc i).next) l

abbrev pub is_none : {A : Type 0} → Option A → Bool
is_none none = true
is_none (some x) = false

-- The descriptor points to an indirect table of at least one entry.
abbrev pub IsIndirect : Desc → Type 0
IsIndirect d = (d.flags ≡ f_indirect) × (d.len ≢ 0) × (d.len % 16 ≡ 0)

-- `free` are the free descriptors in the order of their chain, each once, which are those without
-- a token; a descriptor with a token points to an indirect table that is recorded.
pub record Ready (free : List ℕ) (vq : Queue) : Type 0 where
  pub chain : Chain vq.desc vq.free_head free
  pub number : vq.num_free ≡ length free
  pub unheld : (i : ℕ) → count i free ≡ (if ltb i vq.num && is_none (vq.token i) then 1 else 0)
  pub held :
      (i t : ℕ)
      → vq.token i ≡ some t
      → (i < vq.num)
        × IsIndirect (vq.desc i)
        × ((table : List Desc) × (vq.indir_desc i ≡ some table))
  pub indirect : vq.indirect ≡ true

-- A change of a descriptor that is not in the chain.
pub Chain-update :
    (desc : ℕ → Desc) (h : ℕ) (d : Desc) (head : ℕ) (l : List ℕ)
    → count h l ≡ 0
    → Chain desc head l
    → Chain (update desc h d) head l
Chain-update desc h d head [] c g = tt
Chain-update desc h d head (i ∷ l) c (e, g) = elim (Bool-cases (i == h)) [
  | inl same ↦ absurd (ground arith)
  | inr other ↦ (e, rw other (Chain-update desc h d ((desc i).next) l (ground arith) g))
]

module _ (rest : List ℕ) (vq : Queue) (table : ℕ) (outs ins : List Fragment) (t : ℕ)
    (ready : Ready (vq.free_head ∷ rest) vq) (many : 1 < length outs + length ins)
    (few : (length outs + length ins) * 16 < 2 ^ 32) where
  pub free_head-unheld : (vq.free_head < vq.num) × (vq.token vq.free_head ≡ none)
  free_head-unheld =
      let c = ready.unheld vq.free_head in
      elim (Option-cases (vq.token vq.free_head)) [
        | inl empty ↦ (ground (arith, c, ap is_none empty), empty)
        | inr (k, e) ↦ absurd (ground (arith, c, ap is_none e))
      ]

  once : count vq.free_head rest ≡ 0
  once = let c = ready.unheld vq.free_head in ground (arith, c)

  expose-unheld :
      (i : ℕ)
      → count i rest
        ≡ (if ltb i vq.num && is_none ((expose table outs ins t vq).token i) then 1 else 0)
  unfolding expose
  expose-unheld i = elim (Bool-cases (i == vq.free_head)) [
    | inl same ↦
        let e : i ≡ vq.free_head = ground arith in
        rw same (ground (arith, once, ap (λ j. count j rest) e))
    | inr other ↦ rw other (ground (arith, ready.unheld i, other))
  ]

  expose-held :
      (i k : ℕ)
      → (expose table outs ins t vq).token i ≡ some k
      → (i < vq.num)
        × IsIndirect ((expose table outs ins t vq).desc i)
        × ((d : List Desc) × ((expose table outs ins t vq).indir_desc i ≡ some d))
  unfolding expose
  expose-held i k = elim (Bool-cases (i == vq.free_head)) [
    | inl same ↦
        let e : i ≡ vq.free_head = ground arith in
        rw same (λ _. (
          omega (arith, e, free_head-unheld.0),
          (refl, ground arith, omega arith),
          (indirect_table outs ins, refl),
        ))
    | inr other ↦ rw other (λ h. ready.held i k h)
  ]

  pub expose-Ready : Ready rest (expose table outs ins t vq)
  unfolding expose
  expose-Ready = record {
    chain = Chain-update vq.desc vq.free_head _ _ rest once ready.chain.1;
    number = omega (arith, ready.number);
    unheld = expose-unheld;
    held = expose-held;
    indirect = ready.indirect;
  }
