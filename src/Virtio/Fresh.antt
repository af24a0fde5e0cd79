-- ===== src/Virtio/Fresh.antt =====
-- The theorem on `__vring_new_virtqueue` of virtio/virtio_ring.c and its lemmas.
use xlinux.Common.{
  ℕ, zero, suc, ◌+◌, ◌%◌, ◌^◌, ◌≤◌, ◌≡◌, Bool, true, ◌&&◌, List, [], ◌∷◌, ltb, leb, if◌then◌else◌,
  length, arith, refl, sym, ap,
}
use xlinux.Common.Counts.{count}
use xlinux.Virtio.{Desc, done, chain_free, vring_new_virtqueue}
use xlinux.Virtio.{new_queue}
use xlinux.Virtio.Ready.{Chain, is_none, Ready}

-- The `n` numbers from `k` on.
abbrev pub upto : ℕ → ℕ → List ℕ
upto zero k = []
upto (suc n) k = k ∷ upto n (suc k)

length-upto : (n k : ℕ) → length (upto n k) ≡ n
length-upto zero k = refl
length-upto (suc n) k = ap suc (length-upto n (suc k))

count-upto : (n k i : ℕ) → count i (upto n k) ≡ (if leb k i && ltb i (k + n) then 1 else 0)
count-upto zero k i = ground arith
count-upto (suc n) k i = ground (arith, count-upto n (suc k) i)

upto-Chain :
    (num : ℕ) (blank : ℕ → Desc) (n k : ℕ)
    → k + n ≡ num
    → num ≤ 2 ^ 16
    → Chain (chain_free num blank) k (upto n k)
unfolding chain_free
upto-Chain num blank zero k e low = tt
upto-Chain num blank (suc zero) k e low = (refl, tt)
upto-Chain num blank (suc (suc n)) k e low =
    let inside : ltb (suc k) num ≡ true = ground arith in
    let small : (suc k) % 2 ^ 16 ≡ suc k = ground arith in
    (refl, rw (inside, small) (upto-Chain num blank (suc n) (suc k) (omega arith) low))

-- A new queue of at most `2 ^ 16` descriptors with indirect ones negotiated and the event index, as
-- the code demands, satisfies the invariant: all its descriptors are free, in ascending order.
pub vring_new_virtqueue-Ready :
    (num : ℕ) (callback : Bool)
    → num ≤ 2 ^ 16
    → (vring_new_virtqueue num true true callback ≡ done tt (new_queue num true callback))
      × Ready (upto num 0) (new_queue num true callback)
unfolding vring_new_virtqueue
vring_new_virtqueue-Ready num callback low = (
  refl,
  record {
    chain = upto-Chain num _ num 0 (omega arith) low;
    number = sym (length-upto num 0);
    unheld = λ i. ground (arith, count-upto num 0 i);
    held = λ i t h. absurd (ground (arith, ap is_none h));
    indirect = refl;
  },
)
