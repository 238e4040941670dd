-- ===== src/Arena/History.antt =====
-- Sequences of allocations from one arena: what was handed out stays apart.
use s_json.Base.{
  ℕ, ◌+◌, ◌%◌, ◌≤◌, ◌≡◌, ◌≢◌, sym, ◌⊎◌, inl, inr, List, [], ◌∷◌, Option, none, some, All, arith,
  subst,
}
use native.Mathlib.Decide.{ℕ_discrete}
use s_json.Arena.{Arena, Region, chain, arena_alloc, align_up}
use s_json.Arena.Chain.{used_at}
use s_json.Arena.Served.{IsValid, Served, Unserved, Outcome, OutcomeOf}
use s_json.Arena.Alloc.{arena_alloc-Outcome}

-- The regions handed out so far, newest first, by any calls of the allocator, failed ones included.
pub data Reach (start : Arena) : List Region → Arena → Type 0 where
  begin : Reach start [] start
  serve :
      {a a' : Arena} {rs : List Region} {r : Region}
      → Reach start rs a
      → (size : ℕ) → arena_alloc a size ≡ (some r, a')
      → Reach start (r ∷ rs) a'
  refuse :
      {a a' : Arena} {rs : List Region}
      → Reach start rs a
      → (size : ℕ) → arena_alloc a size ≡ (none, a')
      → Reach start rs a'

abbrev pub Apart : Region → Region → Type 0
Apart r s = (r.block ≢ s.block) ⊎ ((r.offset + r.size ≤ s.offset) ⊎ (s.offset + s.size ≤ r.offset))

abbrev pub Separate : List Region → Type 0
Separate [] = Unit
Separate (r ∷ rs) = All (Apart r) rs × Separate rs

-- The region lies in the part of its block that is in use, which lies in the block.
pub record Live (a : Arena) (r : Region) : Type 0 where
  pub below : r.offset + r.size ≤ used_at (chain a) r.block
  pub aligned : r.offset % 8 ≡ 0

step-Outcome :
    (a a' : Arena) (size : ℕ) (o : Option Region)
    → IsValid a
    → arena_alloc a size ≡ (o, a')
    → Outcome a (align_up size) o a'
step-Outcome a a' size o v e = subst (OutcomeOf a (align_up size)) e (arena_alloc-Outcome a size v)

Live-Served :
    (a a' : Arena) (size : ℕ) (r s : Region) → Served (chain a) a' size r → Live a s → Live a' s
Live-Served a a' size r s d l = record {
  below = go (ℕ_discrete s.block r.block);
  aligned = l.aligned;
}
  where
    go : Dec (s.block ≡ r.block) → s.offset + s.size ≤ used_at (chain a') s.block
    go (yes e) = rw e (omega (arith, d.taken, d.fresh, rw e at l.below))
    go (no ne) = omega (arith, d.others s.block ne, l.below)

Apart-Served :
    (a a' : Arena) (size : ℕ) (r s : Region) → Served (chain a) a' size r → Live a s → Apart r s
Apart-Served a a' size r s d l = elim (ℕ_discrete s.block r.block) [
  | yes e ↦ inr (inr (omega (arith, d.fresh, rw e at l.below)))
  | no ne ↦ inl (λ e. ne (sym e))
]

old_and_new_regions :
    (a a' : Arena) (size : ℕ) (r : Region) (rs : List Region)
    → Served (chain a) a' size r
    → All (Live a) rs
    → All (Live a') rs × All (Apart r) rs
old_and_new_regions a a' size r [] d h = (tt, tt)
old_and_new_regions a a' size r (s ∷ rs) d h =
    let (live, apart) = old_and_new_regions a a' size r rs d h.1 in
    ((Live-Served a a' size r s d h.0, live), (Apart-Served a a' size r s d h.0, apart))

pub record Holds (a : Arena) (rs : List Region) : Type 0 where
  pub valid : IsValid a
  pub live : All (Live a) rs
  pub separate : Separate rs

Holds-serve :
    (a a' : Arena) (size : ℕ) (r : Region) (rs : List Region)
    → Holds a rs
    → IsValid a' × Served (chain a) a' size r
    → Holds a' (r ∷ rs)
Holds-serve a a' size r rs h (v, d) =
    let (live, apart) = old_and_new_regions a a' size r rs d h.live in
    record {
      valid = v;
      live = (record { below = omega (arith, d.taken); aligned = d.aligned }, live);
      separate = (apart, h.separate);
    }

Holds-refuse : (a a' : Arena) (rs : List Region) → Holds a rs → Unserved a a' → Holds a' rs
Holds-refuse a a' rs h e =
    subst (λ (x : Arena). Holds x rs) (sym e)
      (record {
        valid = record {
          blocks = h.valid.blocks;
          counted = h.valid.counted;
          bounded = h.valid.bounded;
          block_size_le = h.valid.block_size_le;
        };
        live = live_again rs h.live;
        separate = h.separate;
      })
  where
    live_again : (l : List Region) → All (Live a) l → All (Live (record a { calls = a'.calls })) l
    live_again [] k = tt
    live_again (s ∷ l) k = (record { below = k.0.below; aligned = k.0.aligned }, live_again l k.1)

-- After any sequence of allocations, failed ones included, the arena is valid, and the regions handed
-- out are aligned, lie in used parts of the blocks, and are pairwise apart.
pub Reach-Holds :
    {start a : Arena} {rs : List Region} → IsValid start → Reach start rs a → Holds a rs
Reach-Holds v begin = record { valid = v; live = tt; separate = tt }
Reach-Holds v (serve {a} {a'} {rs} {r} h size e) =
    let before = Reach-Holds v h in
    Holds-serve a a' (align_up size) r rs before (step-Outcome a a' size (some r) before.valid e)
Reach-Holds v (refuse {a} {a'} {rs} h size e) =
    let before = Reach-Holds v h in
    Holds-refuse a a' rs before (step-Outcome a a' size none before.valid e)
