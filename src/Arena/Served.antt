-- ===== src/Arena/Served.antt =====
-- The invariant of an arena, what an allocation that succeeds hands out, and a block that has room.
use s_json.Base.{
  ℕ, ◌+◌, ◌-◌, ◌%◌, ◌≤◌, ◌≡◌, ◌≢◌, refl, sym, ◌∙◌, List, ◌∷◌, ◌++◌, Option, none, some, length, All,
  arith, size_max, u64_mod,
}
use s_json.Arena.{Block, Arena, Region, chain, room, take_from}
use s_json.Arena.Chain.{
  BlockIsValid, used_at, cap_at, total_used, total_used-append, All-append, All-split,
  used_at-middle, used_at-other, used_at-le-cap_at,
}

-- Every block holds what is taken from it, at multiples of eight, and the byte counter is their sum.
pub record IsValid (a : Arena) : Type 0 where
  pub blocks : All BlockIsValid (chain a)
  pub counted : a.total_bytes ≡ total_used (chain a)
  pub bounded : a.total_bytes ≤ size_max
  pub block_size_le : a.block_size ≤ size_max

-- The region begins where its block ended before, and nothing else of the chain is touched.
pub record Served (old : List Block) (a' : Arena) (size : ℕ) (r : Region) : Type 0 where
  pub fresh : r.offset ≡ used_at old r.block
  pub taken : used_at (chain a') r.block ≡ r.offset + r.size
  pub others : (j : ℕ) → j ≢ r.block → used_at (chain a') j ≡ used_at old j
  pub aligned : r.offset % 8 ≡ 0
  pub sized : r.size ≡ size
  pub in_block : r.offset + r.size ≤ cap_at (chain a') r.block

-- An allocation that fails leaves the arena as it was, but for the count of backing requests.
abbrev pub Unserved : Arena → Arena → Type 0
Unserved a a' = a' ≡ record a { calls = a'.calls }

abbrev pub Outcome : Arena → ℕ → Option Region → Arena → Type 0
Outcome a size none a' = Unserved a a'
Outcome a size (some r) a' = IsValid a' × Served (chain a) a' size r

abbrev pub OutcomeOf : Arena → ℕ → Option Region × Arena → Type 0
OutcomeOf a size result = Outcome a size result.0 result.1

pub room-eq : (b : Block) → BlockIsValid b → room b ≡ b.cap - b.used
room-eq b v = omega arith

abbrev pub TakenFrom : List Block → ℕ → Option Region → Arena → Type 0
TakenFrom old size none a' = ⊥
TakenFrom old size (some r) a' = IsValid a' × Served old a' size r

taken-BlockIsValid :
    (size : ℕ) (cur : Block)
    → size % 8 ≡ 0
    → BlockIsValid cur
    → size ≤ room cur
    → BlockIsValid (record cur { used = (cur.used + size) % u64_mod })
      × ((cur.used + size) % u64_mod ≡ cur.used + size)
taken-BlockIsValid size cur w v h = omega arith

module _ (a : Arena) (size : ℕ) (before : List Block) (cur : Block) (after : List Block)
    (whole : size % 8 ≡ 0) (fits : size ≤ room cur)
    (valid : All BlockIsValid (before ++ (cur ∷ after)))
    (counts : a.total_bytes ≡ total_used (before ++ (cur ∷ after)))
    (no_wrap : a.total_bytes + size ≤ size_max) (block_size_le : a.block_size ≤ size_max) where
  abbrev cur' : Block
  cur' = record cur { used = (cur.used + size) % u64_mod }

  new-valid : All BlockIsValid (before ++ (cur' ∷ after))
  new-valid =
      let (l, r) = All-split before (cur ∷ after) valid in
      All-append before (cur' ∷ after) l ((taken-BlockIsValid size cur whole r.0 fits).0, r.1)

  new-used : cur'.used ≡ cur.used + size
  new-used = (taken-BlockIsValid size cur whole (All-split before (cur ∷ after) valid).1.0 fits).1

  pub take_from-TakenFrom :
      TakenFrom
        (before ++ (cur ∷ after))
        size
        (take_from a size before cur after).0
        (take_from a size before cur after).1
  unfolding take_from
  take_from-TakenFrom = (
    record {
      blocks = new-valid;
      counted = omega (
        arith,
        new-used,
        total_used-append before (cur ∷ after),
        total_used-append before (cur' ∷ after),
      );
      bounded = omega arith;
      block_size_le = block_size_le;
    },
    record {
      fresh = sym (used_at-middle before after cur);
      taken = used_at-middle before after cur' ∙ new-used;
      others = λ j h. used_at-other before after cur' cur j h;
      aligned = (All-split before (cur ∷ after) valid).1.0.aligned;
      sized = refl;
      in_block = omega (
        arith,
        new-used,
        used_at-middle before after cur',
        used_at-le-cap_at (before ++ (cur' ∷ after)) (length before) new-valid,
      );
    },
  )
