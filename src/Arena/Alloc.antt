-- ===== src/Arena/Alloc.antt =====
-- json__arena_alloc_raw on every path: the current block, a later one, a new one, and a refusal.
use s_json.Base.{
  ℕ, ◌+◌, ◌-◌, ◌%◌, ◌≤◌, ◌<◌, ◌≡◌, refl, sym, ap, ◌∙◌, inl, inr, List, [], ◌∷◌, ◌++◌, append_assoc,
  Option, none, some, Bool-cases, length, All, arith, size_max, ltb, leb, ◌==◌, ◌||◌, if-cases,
  ltb→lt, subst,
}
use native.Mathlib.Decide.{ℕ_discrete}
use s_json.Arena.{
  Block, Arena, Region, chain, room, take_from, advance, take_or_grow, alloc_aligned, arena_alloc,
  block_new, append_block, block_from, block_request, align_up,
}
use s_json.Arena.Align.{align_up-mod, block_request-fits}
use s_json.Arena.Chain.{
  BlockIsValid, used_at, total_used, total_used-append, All-append, used_at-middle, used_at-end,
  used_at-length,
}
use s_json.Arena.Served.{IsValid, Served, Unserved, OutcomeOf, take_from-TakenFrom}

-- The walk keeps the chain.
advance-chain :
    (size : ℕ) (before : List Block) (cur : Block) (after : List Block)
    → let (b, c, r) = advance size before cur after in b ++ (c ∷ r) ≡ before ++ (cur ∷ after)
unfolding advance
advance-chain size before cur [] = refl
advance-chain size before cur (x ∷ after) = elim (Bool-cases (leb size (room x))) [
  | inl fits ↦ rw fits (append_assoc before (cur ∷ []) (x ∷ after))
  | inr full ↦ rw full (
      advance-chain size (before ++ (cur ∷ [])) x after
      ∙ append_assoc before (cur ∷ []) (x ∷ after))
]

-- Where the walk ends at a block with no room, it is the last of the chain.
advance_full :
    (size : ℕ) (before : List Block) (cur : Block) (after : List Block)
    → let (b, c, r) = advance size before cur after in room c < size → r ≡ []
unfolding advance
advance_full size before cur [] k = refl
advance_full size before cur (x ∷ after) k =
    ground (arith, advance_full size (before ++ (cur ∷ [])) x after)

-- A new block behind the chain holds nothing.
used_at-grown :
    (xs : List Block) (added : Block) (j : ℕ)
    → added.used ≡ 0
    → used_at (xs ++ (added ∷ [])) j ≡ used_at xs j
used_at-grown xs added j h = elim (ℕ_discrete j (length xs)) [
  | yes e ↦ rw e (used_at-middle xs [] added ∙ h ∙ sym (used_at-length xs))
  | no ne ↦ used_at-end xs added j ne
]

Served-grown :
    (xs : List Block) (added : Block) (a' : Arena) (size : ℕ) (r : Region)
    → added.used ≡ 0
    → Served (xs ++ (added ∷ [])) a' size r
    → Served xs a' size r
Served-grown xs added a' size r z s = record {
  fresh = s.fresh ∙ used_at-grown xs added r.block z;
  taken = s.taken;
  others = λ j h. s.others j h ∙ used_at-grown xs added j z;
  aligned = s.aligned;
  sized = s.sized;
  in_block = s.in_block;
}

Served-chain :
    {old new : List Block} {a' : Arena} {size : ℕ} {r : Region}
    → old ≡ new
    → Served old a' size r
    → Served new a' size r
Served-chain {a' = a'} {size = size} {r = r} e s =
    subst (λ (l : List Block). Served l a' size r) e s

-- What json__block_new gives: a fresh block with room, or the arena with at most a call counted.
abbrev Made : Arena → ℕ → Option Block → Arena → Type 0
Made a size none a' = Unserved a a'
Made a size (some b) a' =
    (a' ≡ record a { calls = a.calls + 1 }) × BlockIsValid b × (b.used ≡ 0) × (size ≤ room b)

block_from-Made :
    (a : Arena) (size : ℕ) (request : Option ℕ)
    → a.block_size ≤ size_max
    → block_request a.block_size size ≡ request
    → Made a size (block_from a request).0 (block_from a request).1
unfolding block_from align_up
block_from-Made a size none h e = refl
block_from-Made a size (some n) h e = ground (arith, block_request-fits a.block_size size h e)

block_new-Made :
    (a : Arena) (size : ℕ)
    → a.block_size ≤ size_max
    → Made a size (block_new a size).0 (block_new a size).1
unfolding block_new
block_new-Made a size h = block_from-Made a size _ h refl

-- A block of the chain with room for the size serves it.
taken :
    (a : Arena) (size : ℕ) (before : List Block) (cur : Block) (after : List Block)
    → IsValid a
    → size % 8 ≡ 0
    → a.total_bytes + size ≤ size_max
    → before ++ (cur ∷ after) ≡ chain a
    → size ≤ room cur
    → OutcomeOf a size (take_from a size before cur after)
unfolding take_from
taken a size before cur after v w t c f =
    let (valid, served) =
      take_from-TakenFrom a size before cur after w f (subst (All BlockIsValid) (sym c) v.blocks)
        (v.counted ∙ ap total_used (sym c)) t v.block_size_le in
    (valid, Served-chain c served)

-- The outcome of the last part, where the walk ended at `cur`.
grown-Outcome :
    (a : Arena) (size : ℕ) (before : List Block) (cur : Block) (made : Option Block) (asked : Arena)
    → IsValid a
    → size % 8 ≡ 0
    → a.total_bytes + size ≤ size_max
    → before ++ (cur ∷ []) ≡ chain a
    → Made a size made asked
    → OutcomeOf a size (append_block size before cur [] made asked)
unfolding append_block take_from
grown-Outcome a size before cur none asked v w t c m = m
grown-Outcome a size before cur (some added) asked v w t c (e, b, z, f) =
    let old = before ++ (cur ∷ []) in
    let blocks : All BlockIsValid old = subst (All BlockIsValid) (sym c) v.blocks in
    let count : a.total_bytes ≡ total_used old = v.counted ∙ ap total_used (sym c) in
    let (valid, served) =
      take_from-TakenFrom asked size old added [] w f (All-append old (added ∷ []) blocks (b, tt))
        (omega (arith, ap (λ (x : Arena). x.total_bytes) e, total_used-append old (added ∷ [])))
        (omega (arith, ap (λ (x : Arena). x.total_bytes) e))
        (omega (arith, v.block_size_le, ap (λ (x : Arena). x.block_size) e)) in
    (valid, Served-chain c (Served-grown old added _ size _ z served))

take_or_grow-Outcome :
    (a : Arena) (size : ℕ) (before : List Block) (cur : Block) (after : List Block)
    → IsValid a
    → size % 8 ≡ 0
    → a.total_bytes + size ≤ size_max
    → before ++ (cur ∷ after) ≡ chain a
    → (room cur < size → after ≡ [])
    → OutcomeOf a size (take_or_grow a size before cur after)
unfolding take_or_grow
take_or_grow-Outcome a size before cur after v w t c last =
    if-cases (OutcomeOf a size) (ltb (room cur) size) _ _
      (λ full.
        let e = last (ltb→lt _ _ full) in
        subst
          (λ (l : List Block).
            OutcomeOf a size
              (append_block size before cur l (block_new a size).0 (block_new a size).1))
          (sym e)
          (grown-Outcome a size before cur _ _ v w t
            (subst (λ (l : List Block). before ++ (cur ∷ l) ≡ chain a) e c)
            (block_new-Made a size v.block_size_le)))
      (λ fits. taken a size before cur after v w t c (ground arith))

alloc_aligned-Outcome :
    (a : Arena) (size : ℕ)
    → IsValid a
    → size % 8 ≡ 0
    → a.total_bytes + size ≤ size_max
    → OutcomeOf a size (alloc_aligned a size)
unfolding alloc_aligned
alloc_aligned-Outcome a size v w t =
    if-cases (OutcomeOf a size) (leb size (room a.current)) _ _
      (λ fits. taken a size a.before a.current a.after v w t refl (ground arith))
      (λ _.
        take_or_grow-Outcome a size _ _ _ v w t (advance-chain size a.before a.current a.after)
          (advance_full size a.before a.current a.after))

-- From a valid arena, an allocation either serves the rounded size in a region that lies in one block
-- and begins at a multiple of eight where nothing was handed out before, touching no other block, and
-- the arena stays valid; or it leaves the arena as it was, but for the count of backing requests.
pub arena_alloc-Outcome :
    (a : Arena) (size : ℕ) → IsValid a → OutcomeOf a (align_up size) (arena_alloc a size)
unfolding arena_alloc
arena_alloc-Outcome a size v =
    if-cases (OutcomeOf a (align_up size))
      (size == 0 || ltb (align_up size) size || ltb (size_max - a.total_bytes) (align_up size)) _ _
      (λ _. refl)
      (λ guards. alloc_aligned-Outcome a (align_up size) v (align_up-mod size) (ground arith))
