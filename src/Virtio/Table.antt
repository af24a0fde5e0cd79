-- ===== src/Virtio/Table.antt =====
-- virtio/virtio_ring.c: the indirect table that `virtqueue_add_split` fills in.
use xlinux.Common.{
  ℕ, suc, ◌+◌, ◌-◌, ◌%◌, ◌^◌, ◌<◌, ◌≤◌, ◌≡◌, refl, sym, ap, ◌∙◌, List, [], ◌∷◌, ◌++◌, length, set,
  arith, length-append, bit_or,
}
use mathlib.Core.List.{append_assoc, append-nil}
use xlinux.Virtio.{
  Desc, Fragment, f_next, f_write, Filling, alloc_indirect, desc_at, fill, end_chain,
  indirect_table,
}

abbrev pub with_flags : ℕ → List Fragment → List (Fragment × ℕ)
with_flags w [] = []
with_flags w (f ∷ sg) = (f, w) ∷ with_flags w sg

-- The fragments with the flag `VRING_DESC_F_WRITE` of those that the device writes.
abbrev pub tagged : List Fragment → List Fragment → List (Fragment × ℕ)
tagged outs ins = with_flags 0 outs ++ with_flags f_write ins

-- The entries of a table from an index on that describe fragments: every one leads to the next, and
-- the last one ends the chain.
abbrev pub described : ℕ → List (Fragment × ℕ) → List Desc
described i [] = []
described i (((a, l), w) ∷ []) =
    record { addr = a; len = l; flags = w; next = (suc i) % 2 ^ 16 } ∷ []
described i (((a, l), w) ∷ e ∷ es) =
    record { addr = a; len = l; flags = f_next + w; next = (suc i) % 2 ^ 16 }
    ∷ described (suc i) (e ∷ es)

-- The flags besides `VRING_DESC_F_NEXT` are even.
abbrev Flags : List (Fragment × ℕ) → Type 0
Flags [] = Unit {0}
Flags ((f, w) ∷ es) = (w % 2 ≡ 0) × Flags es

-- The entries before the chain is ended.
abbrev linked : ℕ → List (Fragment × ℕ) → List Desc
linked i [] = []
linked i (((a, l), w) ∷ es) =
    record { addr = a; len = l; flags = f_next + w; next = (suc i) % 2 ^ 16 } ∷ linked (suc i) es

linked-append :
    (i : ℕ) (xs ys : List (Fragment × ℕ))
    → linked i (xs ++ ys) ≡ linked i xs ++ linked (i + length xs) ys
linked-append i [] ys = ap (λ j. linked j ys) (omega arith)
linked-append i (((a, l), w) ∷ xs) ys =
    ap (λ k. record { addr = a; len = l; flags = f_next + w; next = (suc i) % 2 ^ 16 } ∷ k)
      (linked-append (suc i) xs ys ∙ ap (λ j. linked (suc i) xs ++ linked j ys) (omega arith))

desc_at-append :
    (xs : List Desc) (d : Desc) (ys : List Desc) → desc_at (xs ++ (d ∷ ys)) (length xs) ≡ d
unfolding desc_at
desc_at-append [] d ys = refl
desc_at-append (x ∷ xs) d ys = desc_at-append xs d ys

set-append :
    (xs : List Desc) (d e : Desc) (ys : List Desc)
    → set (xs ++ (d ∷ ys)) (length xs) e ≡ xs ++ (e ∷ ys)
set-append [] d e ys = refl
set-append (x ∷ xs) d e ys = ap (λ k. x ∷ k) (set-append xs d e ys)

-- The index of the last entry that a loop writes.
abbrev last_index : ℕ → List Fragment → ℕ → ℕ
last_index i [] prev = prev
last_index i (f ∷ sg) prev = last_index (suc i) sg i

last_index_lem :
    (i prev : ℕ) (sg : List Fragment) → suc prev ≡ i → suc (last_index i sg prev) ≡ i + length sg
last_index_lem i prev [] e = omega (arith, e)
last_index_lem i prev (f ∷ sg) e = omega (arith, last_index_lem (suc i) i sg refl)

module _ (w : ℕ) where
  fill_step :
      (a l i n prev : ℕ) (sg : List Fragment) (xs : List Desc)
      → length xs ≡ i
      → i < 2 ^ 16
      → fill
          (f_next + w)
          ((a, l) ∷ sg)
          (record { table = xs ++ alloc_indirect (suc n) i; i = i % 2 ^ 16; prev = prev })
        ≡ fill (f_next + w) sg (record {
          table =
              (xs
                ++ (record { addr = a; len = l; flags = f_next + w; next = (suc i) % 2 ^ 16 } ∷ []))
              ++ alloc_indirect n (suc i);
          i = (suc i) % 2 ^ 16;
          prev = i;
        })
  unfolding fill alloc_indirect
  fill_step a l i n prev sg xs e low =
      let blank : Desc = record { addr = 0; len = 0; flags = 0; next = (suc i) % 2 ^ 16 } in
      let full : Desc = record { addr = a; len = l; flags = f_next + w; next = (suc i) % 2 ^ 16 } in
      let index : i % 2 ^ 16 ≡ length xs = omega (arith, e, low) in
      let rest = alloc_indirect n (suc i) in
      let got : desc_at (xs ++ (blank ∷ rest)) (i % 2 ^ 16) ≡ blank =
        ap (desc_at (xs ++ (blank ∷ rest))) index ∙ desc_at-append xs blank rest in
      let put : set (xs ++ (blank ∷ rest)) (i % 2 ^ 16) full ≡ (xs ++ (full ∷ [])) ++ rest =
        ap (λ k. set (xs ++ (blank ∷ rest)) k full) index
        ∙ set-append xs blank full rest
        ∙ sym (append_assoc xs (full ∷ []) rest) in
      ap
        (λ (d : Desc). fill (f_next + w) sg (record {
          table =
              set (xs ++ (blank ∷ rest)) (i % 2 ^ 16)
                (record d { addr = a; len = l; flags = f_next + w });
          i = d.next;
          prev = i % 2 ^ 16;
        }))
        got
      ∙ ap
          (λ (t : List Desc).
            fill (f_next + w) sg (record { table = t; i = (suc i) % 2 ^ 16; prev = i % 2 ^ 16 }))
          put
      ∙ ap
          (λ (p : ℕ).
            fill (f_next + w) sg
              (record { table = (xs ++ (full ∷ [])) ++ rest; i = (suc i) % 2 ^ 16; prev = p }))
          (omega (arith, low))

  fill-linked :
      (sg : List Fragment) (i n prev : ℕ) (xs : List Desc)
      → length xs ≡ i
      → i + length sg ≤ 2 ^ 16
      → fill
          (f_next + w)
          sg
          (record { table = xs ++ alloc_indirect (length sg + n) i; i = i % 2 ^ 16; prev = prev })
        ≡ record {
          table = (xs ++ linked i (with_flags w sg)) ++ alloc_indirect n (i + length sg);
          i = (i + length sg) % 2 ^ 16;
          prev = last_index i sg prev;
        }
  unfolding fill
  fill-linked [] i n prev xs e fits =
      let z : 0 + n ≡ n = omega arith in
      let j : i + 0 ≡ i = omega arith in
      let with_table : List Desc → Filling =
        λ t. record { table = t ++ alloc_indirect n i; i = i % 2 ^ 16; prev = prev } in
      rw (z, j) (ap with_table (sym (append-nil xs)))
  fill-linked ((a, l) ∷ sg) i n prev xs e fits =
      let z : suc (length sg) + n ≡ suc (length sg + n) = omega arith in
      let j : i + suc (length sg) ≡ suc i + length sg = omega arith in
      let full : Desc = record { addr = a; len = l; flags = f_next + w; next = (suc i) % 2 ^ 16 } in
      let more = linked (suc i) (with_flags w sg) in
      let with_table : List Desc → Filling = λ t. record {
        table = t ++ alloc_indirect n (suc i + length sg);
        i = (suc i + length sg) % 2 ^ 16;
        prev = last_index (suc i) sg i;
      } in
      rw (z, j)
        (fill_step a l i (length sg + n) prev sg xs e (omega (arith, fits))
          ∙ fill-linked sg (suc i) n i (xs ++ (full ∷ []))
              (omega (arith, length-append xs (full ∷ []), e)) (omega (arith, fits))
          ∙ ap with_table (append_assoc xs (full ∷ []) more))

-- The chain is ended at the last of the entries.
end_linked :
    (i : ℕ) (w : ℕ) (f : Fragment) (es : List (Fragment × ℕ)) (xs : List Desc) (at : ℕ)
    → at ≡ length xs + length es
    → Flags ((f, w) ∷ es)
    → (let table = xs ++ linked i ((f, w) ∷ es) in
        set table at (record (desc_at table at) {
          flags = (desc_at table at).flags - (desc_at table at).flags % 2;
        }))
      ≡ xs ++ described i ((f, w) ∷ es)
end_linked i w (a, l) [] xs at e ok =
    let d : Desc = record { addr = a; len = l; flags = f_next + w; next = (suc i) % 2 ^ 16 } in
    let here : at ≡ length xs = omega (arith, e) in
    let cleared : f_next + w - (f_next + w) % 2 ≡ w = omega (arith, ok.0) in
    let end_at : ℕ → Desc → List Desc =
      λ k c. set (xs ++ (d ∷ [])) k (record c { flags = c.flags - c.flags % 2 }) in
    ap (λ k. end_at k (desc_at (xs ++ (d ∷ [])) k)) here
    ∙ ap (end_at (length xs)) (desc_at-append xs d [])
    ∙ set-append xs d (record d { flags = d.flags - d.flags % 2 }) []
    ∙ ap (λ (k : ℕ). xs ++ (record { addr = a; len = l; flags = k; next = (suc i) % 2 ^ 16 } ∷ []))
        cleared
end_linked i w (a, l) ((g, v) ∷ es) xs at e ok =
    let d : Desc = record { addr = a; len = l; flags = f_next + w; next = (suc i) % 2 ^ 16 } in
    let end_of : List Desc → List Desc = λ t.
      set t at
        (record (desc_at t at) { flags = (desc_at t at).flags - (desc_at t at).flags % 2 }) in
    ap end_of (sym (append_assoc xs (d ∷ []) (linked (suc i) ((g, v) ∷ es))))
    ∙ end_linked (suc i) v g es (xs ++ (d ∷ [])) at (omega (arith, e, length-append xs (d ∷ [])))
        ok.1
    ∙ append_assoc xs (d ∷ []) (described (suc i) ((g, v) ∷ es))

tagged-Flags : (outs ins : List Fragment) → Flags (tagged outs ins)
tagged-Flags [] [] = tt
tagged-Flags [] (f ∷ ins) = (refl, tagged-Flags [] ins)
tagged-Flags (f ∷ outs) ins = (refl, tagged-Flags outs ins)

length-tagged : (outs ins : List Fragment) → length (tagged outs ins) ≡ length outs + length ins
length-tagged [] [] = omega arith
length-tagged [] (f ∷ ins) = omega (arith, length-tagged [] ins)
length-tagged (f ∷ outs) ins = omega (arith, length-tagged outs ins)

length-with_flags : (w : ℕ) (l : List Fragment) → length (with_flags w l) ≡ length l
length-with_flags w [] = refl
length-with_flags w (f ∷ l) = ap suc (length-with_flags w l)

length-linked : (i : ℕ) (es : List (Fragment × ℕ)) → length (linked i es) ≡ length es
length-linked i [] = refl
length-linked i (((a, l), w) ∷ es) = ap suc (length-linked (suc i) es)

filled :
    (outs ins : List Fragment)
    → length outs + length ins ≤ 2 ^ 16
    → fill (bit_or f_next f_write) ins (
        fill f_next outs
          (record { table = alloc_indirect (length outs + length ins) 0; i = 0; prev = 0 }))
      ≡ record {
        table = linked 0 (tagged outs ins);
        i = (length outs + length ins) % 2 ^ 16;
        prev = last_index (length outs) ins (last_index 0 outs 0);
      }
unfolding alloc_indirect
filled outs ins fits =
    let n = length outs in
    let m = length ins in
    let first = linked 0 (with_flags 0 outs) in
    let second = linked n (with_flags f_write ins) in
    let last = last_index 0 outs 0 in
    let start : 0 + n ≡ n = omega arith in
    let room : length first ≡ n = length-linked 0 (with_flags 0 outs) ∙ length-with_flags 0 outs in
    let no_more : m + 0 ≡ m = omega arith in
    let with_table : List Desc → Filling =
      λ t. record { table = t; i = (n + m) % 2 ^ 16; prev = last_index n ins last } in
    let at_start : ℕ → Filling =
      λ k. record { table = first ++ alloc_indirect m k; i = k % 2 ^ 16; prev = last } in
    let at_mid : ℕ → Filling =
      λ k. record { table = first ++ alloc_indirect k n; i = n % 2 ^ 16; prev = last } in
    ap (fill (bit_or f_next f_write) ins) (
      fill-linked 0 outs 0 m 0 [] refl (omega (arith, fits))
      ∙ ap at_start start
      ∙ ap at_mid (sym no_more))
    ∙ fill-linked f_write ins n 0 last first room fits
    ∙ ap with_table (
        append-nil (first ++ second)
        ∙ ap (λ k. first ++ linked k (with_flags f_write ins))
            (sym (omega (arith, length-with_flags 0 outs)))
        ∙ sym (linked-append 0 (with_flags 0 outs) (with_flags f_write ins)))

ended :
    (es : List (Fragment × ℕ)) (i at : ℕ)
    → suc at ≡ length es
    → Flags es
    → end_chain (record { table = linked 0 es; i = i; prev = at }) ≡ described 0 es
unfolding end_chain
ended [] i at e ok = absurd (omega (arith, e))
ended ((f, w) ∷ es) i at e ok = end_linked 0 w f es [] at (omega (arith, e)) ok

last_tagged :
    (outs ins : List Fragment)
    → 0 < length outs + length ins
    → suc (last_index (length outs) ins (last_index 0 outs 0)) ≡ length outs + length ins
last_tagged [] (f ∷ ins) h = omega (arith, last_index_lem 1 0 ins refl)
last_tagged [] [] h = absurd (omega (arith, h))
last_tagged (f ∷ outs) ins h =
    last_index_lem (suc (length outs)) (last_index 1 outs 0) ins
      (omega (arith, last_index_lem 1 0 outs refl))

-- The table describes the fragments, in order.
pub indirect_table-described :
    (outs ins : List Fragment)
    → 0 < length outs + length ins
    → length outs + length ins ≤ 2 ^ 16
    → indirect_table outs ins ≡ described 0 (tagged outs ins)
unfolding indirect_table end_chain
indirect_table-described outs ins some_there fits =
    ap end_chain (filled outs ins fits)
    ∙ ended (tagged outs ins) ((length outs + length ins) % 2 ^ 16)
        (last_index (length outs) ins (last_index 0 outs 0))
        (last_tagged outs ins some_there ∙ sym (length-tagged outs ins)) (tagged-Flags outs ins)
