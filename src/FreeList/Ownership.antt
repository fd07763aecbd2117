-- ===== src/FreeList/Ownership.antt =====
-- Who owns a block: the pool or one caller.
use chatting_server.Base.{
  ℕ, zero, suc, ◌+◌, ◌≤◌, ◌<◌, ◌≡◌, refl, true, false, List, [], ◌∷◌, length, arith, ltb, ◌==◌,
  Bool-cases, inl, inr, lt→ltb, le→ltb, ltb→lt, ltb→le, sym, subst, ◌∙◌, ap,
}
use mathlib.Core.Bool.{false≢true}
use chatting_server.Base.Maps.{member, remove, member-remove}
use chatting_server.Base.Outcome.{done}
use chatting_server.FreeList.{FreeList, make_blocks, create, pop_block, alloc, free}

-- No number stands twice in the list.
abbrev pub Distinct : List ℕ → Type 0
Distinct [] = Unit {0}
Distinct (b ∷ bs) = (member b bs ≡ false) × Distinct bs

-- `held` are the blocks that callers have. Each block that was made is free or held, and not both.
pub record Owned (f : FreeList) (held : List ℕ) : Type 0 where
  pub free_distinct : Distinct f.top
  pub held_distinct : Distinct held
  pub apart : (b : ℕ) → member b f.top ≡ true → member b held ≡ false
  pub free_made : (b : ℕ) → member b f.top ≡ true → b < f.max_count
  pub held_made : (b : ℕ) → member b held ≡ true → b < f.max_count
  pub in_use : f.use_count ≡ length held
  pub made : length f.top + f.use_count ≡ f.max_count

-- What a caller may rely on after `Alloc`.
abbrev Allocated : FreeList → List ℕ → Type 0
Allocated f held =
    (f' : FreeList) × (b : ℕ) × (alloc f ≡ done (f', b))
    × (member b held ≡ false)
    × Owned f' (b ∷ held)

-- A block that was not made yet.
alloc_new :
    (f : FreeList) (held : List ℕ) → Owned f held → f.max_count < f.use_count + 1 → Allocated f held
unfolding alloc
alloc_new f held v full = (
  record f { max_count = f.max_count + 1; use_count = f.use_count + 1 },
  f.max_count,
  rw (lt→ltb f.max_count (f.use_count + 1) full),
  unheld,
  record {
    free_distinct = v.free_distinct;
    held_distinct = (unheld, v.held_distinct);
    apart = λ b h. unfold member in ground (arith, v.free_made b h, v.apart b h);
    free_made = λ b h. omega (arith, v.free_made b h);
    held_made = λ b h. unfold member in ground (arith, v.held_made b);
    in_use = omega (arith, v.in_use);
    made = omega (arith, v.made);
  },
)
  where
    unheld : member f.max_count held ≡ false
    unheld = elim (Bool-cases (member f.max_count held)) [
      | inl h ↦ absurd (omega (arith, v.held_made f.max_count h))
      | inr h ↦ h
    ]

-- The block on the top.
alloc_top :
    (b : ℕ) (bs : List ℕ) (max used : ℕ) (held : List ℕ)
    → let f : FreeList = record { top = b ∷ bs; max_count = max; use_count = used } in
      Owned f held → used + 1 ≤ max → Allocated f held
unfolding alloc
alloc_top b bs max used held v room = (
  record { top = bs; max_count = max; use_count = used + 1 },
  b,
  rw (le→ltb max (used + 1) room) (unfold pop_block in refl),
  v.apart b on_top,
  record {
    free_distinct = v.free_distinct.1;
    held_distinct = (v.apart b on_top, v.held_distinct);
    apart = λ c h. unfold member in ground (arith, v.free_distinct.0, v.apart c (under c h));
    free_made = λ c h. v.free_made c (under c h);
    held_made = λ c h. unfold member in ground (arith, v.held_made c, v.free_made b on_top);
    in_use = omega (arith, v.in_use);
    made = omega (arith, v.made);
  },
)
  where
    on_top : member b (b ∷ bs) ≡ true
    on_top = unfold member in ground arith

    under : (c : ℕ) → member c bs ≡ true → member c (b ∷ bs) ≡ true
    under c h = unfold member in ground arith

alloc_cases :
    (top : List ℕ) (max used : ℕ) (held : List ℕ)
    → let f : FreeList = record { top = top; max_count = max; use_count = used } in
      Owned f held → used + 1 ≤ max → Allocated f held
alloc_cases [] max used held v room = absurd (omega (arith, v.made))
alloc_cases (b ∷ bs) max used held v room = alloc_top b bs max used held v room

-- `Alloc` never reads through a null pointer, and the block that it returns is one that nobody held.
pub alloc-Owned :
    (f : FreeList) (held : List ℕ)
    → Owned f held
    → (f' : FreeList) × (b : ℕ) × (alloc f ≡ done (f', b))
      × (member b held ≡ false)
      × Owned f' (b ∷ held)
alloc-Owned f held v = elim (Bool-cases (ltb f.max_count (f.use_count + 1))) [
  | inl full ↦ alloc_new f held v (ltb→lt _ _ full)
  | inr room ↦ alloc_cases f.top f.max_count f.use_count held v (ltb→le _ _ room)
]

remove_absent : (b : ℕ) (bs : List ℕ) → member b bs ≡ false → length (remove b bs) ≡ length bs
unfolding member remove
remove_absent b [] h = refl
remove_absent b (c ∷ cs) h = ground (arith, remove_absent b cs)

pub length-remove :
    (b : ℕ) (bs : List ℕ) → Distinct bs → member b bs ≡ true → length (remove b bs) + 1 ≡ length bs
unfolding member remove
length-remove b [] d h = cc
length-remove b (c ∷ cs) d h = elim (Bool-cases (c == b)) [
  | inl e ↦
      let same : c ≡ b = ground arith in
      rw e (omega (arith, remove_absent b cs (subst (λ x. member x cs ≡ false) same d.0)))
  | inr e ↦ rw e (omega (arith, length-remove b cs d.1 (ground arith)))
]

pub remove-Distinct : (b : ℕ) (bs : List ℕ) → Distinct bs → Distinct (remove b bs)
unfolding remove
remove-Distinct b [] d = tt
remove-Distinct b (c ∷ cs) d = elim (Bool-cases (c == b)) [
  | inl e ↦ rw e (remove-Distinct b cs d.1)
  | inr e ↦ rw e (ground (arith, member-remove c b cs), remove-Distinct b cs d.1)
]

-- `Free` of a block that a caller holds gives it back to the pool, and every block is still owned
-- once.
pub free-Owned :
    (f : FreeList) (held : List ℕ) (b : ℕ)
    → Owned f held
    → member b held ≡ true
    → Owned (free f b) (remove b held)
unfolding free
free-Owned f held b v h = record {
  free_distinct = (not_free, v.free_distinct);
  held_distinct = remove-Distinct b held v.held_distinct;
  apart = λ c e. unfold member in ground (arith, member-remove c b held, v.apart c);
  free_made = λ c e. unfold member in ground (arith, v.free_made c, v.held_made b h);
  held_made = λ c e. v.held_made c (ground (arith, member-remove c b held));
  in_use = omega (arith, v.in_use, length-remove b held v.held_distinct h);
  made = omega (arith, v.made, v.in_use, length-remove b held v.held_distinct h);
}
  where
    not_free : member b f.top ≡ false
    not_free = elim (Bool-cases (member b f.top)) [
      | inl e ↦ absurd (false≢true (sym (v.apart b e) ∙ h))
      | inr e ↦ e
    ]

make_blocks-below : (n b : ℕ) → member b (make_blocks n) ≡ true → b < n
unfolding make_blocks member
make_blocks-below zero b h = cc
make_blocks-below (suc n) b h = ground (arith, make_blocks-below n b)

make_blocks-Distinct : (n : ℕ) → Distinct (make_blocks n)
unfolding make_blocks
make_blocks-Distinct zero = tt
make_blocks-Distinct (suc n) = (
  elim (Bool-cases (member n (make_blocks n))) [
    | inl h ↦ absurd (omega (arith, make_blocks-below n n h))
    | inr h ↦ h
  ],
  make_blocks-Distinct n,
)

length-make_blocks : (n : ℕ) → length (make_blocks n) ≡ n
unfolding make_blocks
length-make_blocks zero = refl
length-make_blocks (suc n) = ap suc (length-make_blocks n)

-- A new pool owns the blocks that it made.
pub create-Owned : (n : ℕ) → Owned (create n) []
unfolding create
create-Owned n = record {
  free_distinct = make_blocks-Distinct n;
  held_distinct = tt;
  apart = λ b h. unfold member in refl;
  free_made = λ b h. make_blocks-below n b h;
  held_made = λ b h. unfold member in cc;
  in_use = refl;
  made = omega (arith, length-make_blocks n);
}
