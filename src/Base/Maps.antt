-- ===== src/Base/Maps.antt =====
-- Maps as association lists, sets of numbers as lists, and functions changed at one place. A map has
-- one entry for a key, so `erase` drops every entry of its key.
use Prim.Native.Nat.{ℕ}
use mathlib.Core.Path.{◌≡◌, refl, ap, ◌∙◌}
use mathlib.Core.Bool.{Bool, true, false, ◌||◌}
use mathlib.Core.Option.{Option, none, some}
use mathlib.Core.List.{List, [], ◌∷◌}
use native.Mathlib.Omega.{arith}
use mathlib.Core.Logic.{inl, inr}
use chatting_server.Base.Tests.{==_refl, Bool-cases, ◌==◌, if◌then◌else◌}

-- `find`, with `none` for `end()`
unfoldable pub find : ℕ → List (ℕ × ℕ) → Option ℕ
find k [] = none
find k ((j, v) ∷ m) = if j == k then some v else find k m

unfoldable pub erase : ℕ → List (ℕ × ℕ) → List (ℕ × ℕ)
erase k [] = []
erase k ((j, v) ∷ m) = if j == k then erase k m else (j, v) ∷ erase k m

-- `map[k] = v`
unfoldable pub insert : ℕ → ℕ → List (ℕ × ℕ) → List (ℕ × ℕ)
unfolding erase
insert k v m = (k, v) ∷ erase k m

pub find-erase :
    (k j : ℕ) (m : List (ℕ × ℕ)) → find j (erase k m) ≡ (if k == j then none else find j m)
unfolding find erase
find-erase k j [] = ground arith
find-erase k j ((i, v) ∷ m) = ground (arith, find-erase k j m)

pub find-insert :
    (k v j : ℕ) (m : List (ℕ × ℕ)) → find j (insert k v m) ≡ (if k == j then some v else find j m)
unfolding find insert
find-insert k v j m = ground (arith, find-erase k j m)

unfoldable pub member : ℕ → List ℕ → Bool
member q [] = false
member q (p ∷ ps) = p == q || member q ps

-- `set.erase(p)`
unfoldable pub remove : ℕ → List ℕ → List ℕ
remove p [] = []
remove p (q ∷ qs) = if q == p then remove p qs else q ∷ remove p qs

-- `set.insert(p)`
unfoldable pub add : ℕ → List ℕ → List ℕ
unfolding member
add p ps = if member p ps then ps else p ∷ ps

pub member-remove :
    (q p : ℕ) (ps : List ℕ) → member q (remove p ps) ≡ (if p == q then false else member q ps)
unfolding member remove
member-remove q p [] = ground arith
member-remove q p (r ∷ rs) = ground (arith, member-remove q p rs)

pub member-add :
    (q p : ℕ) (ps : List ℕ) → member q (add p ps) ≡ (if p == q then true else member q ps)
unfolding member add
member-add q p ps = ground arith

-- `f` with the value `v` at `p`
abbrev pub update {ℓ} : {A : Type ℓ} → (ℕ → A) → ℕ → A → ℕ → A
update f p v q = if p == q then v else f q

pub update_hit {ℓ} : {A : Type ℓ} (f : ℕ → A) (p : ℕ) (v : A) → update f p v p ≡ v
update_hit f p v = rw (==_refl p) refl

pub remove_absent : (b : ℕ) (bs : List ℕ) → member b bs ≡ false → remove b bs ≡ bs
unfolding remove member
remove_absent b [] h = refl
remove_absent b (c ∷ cs) h = elim (Bool-cases (c == b)) [
  | inl e ↦ ground arith
  | inr e ↦ rw e (ap (λ ds. c ∷ ds) (remove_absent b cs (ground arith)))
]

-- A change that keeps what `g` sees at `p` keeps it everywhere.
pub update_keeps {ℓ κ} :
    {A : Type ℓ} {B : Type κ} (g : A → B) (f : ℕ → A) (p : ℕ) (v : A) (q : ℕ)
    → g v ≡ g (f p)
    → g (update f p v q) ≡ g (f q)
update_keeps g f p v q h = elim (Bool-cases (p == q)) [
  | inl e ↦ let same : p ≡ q = ground arith in rw e (h ∙ ap (λ r. g (f r)) same)
  | inr e ↦ rw e refl
]
