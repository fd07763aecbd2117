-- ===== src/Base/Arrays.antt =====
-- Runs of cells: what `memcpy` and `memcpy_s` copy into an array and out of it, described index by
-- index. A write past the end of the array changes nothing, and a read there gives 0; the theorems
-- about the program show that neither happens.
use Prim.Native.Nat.{ℕ, zero, suc, ◌+◌, ◌≤◌, ◌<◌}
use mathlib.Core.Path.{◌≡◌, refl, ap, ap₂, ◌∙◌}
use mathlib.Core.Logic.{◌⊎◌}
use mathlib.Core.List.{List, [], ◌∷◌, ◌++◌}
use native.Mathlib.Omega.{arith}
use chatting_server.Base.Lists.{
  length, get_or, set, take, take_all, length-set, get_or-set_self, get_or-set_ne,
}

-- `memcpy(cells + pos, bytes, length bytes)`
unfoldable pub write_bytes : List ℕ → ℕ → List ℕ → List ℕ
write_bytes cells pos [] = cells
write_bytes cells pos (b ∷ bs) = write_bytes (set cells pos b) (pos + 1) bs

-- The `n` values of `f` from 0 on.
unfoldable pub tab : (ℕ → ℕ) → ℕ → List ℕ
tab f zero = []
tab f (suc n) = f 0 ∷ tab (λ k. f (suc k)) n

-- `memcpy(dest, cells + pos, n)`: the bytes that arrive in `dest`
unfoldable pub read_bytes : List ℕ → ℕ → ℕ → List ℕ
unfolding tab
read_bytes cells pos n = tab (λ k. get_or cells (pos + k) 0) n

pub length-write_bytes :
    (cells : List ℕ) (pos : ℕ) (bs : List ℕ) → length (write_bytes cells pos bs) ≡ length cells
unfolding write_bytes
length-write_bytes cells pos [] = refl
length-write_bytes cells pos (b ∷ bs) =
    length-write_bytes (set cells pos b) (pos + 1) bs ∙ length-set cells pos b

-- Cells outside the run keep their value.
pub get_or-write_bytes_outside :
    (cells : List ℕ) (pos : ℕ) (bs : List ℕ) (j : ℕ)
    → (j < pos) ⊎ (pos + length bs ≤ j)
    → get_or (write_bytes cells pos bs) j 0 ≡ get_or cells j 0
unfolding write_bytes
get_or-write_bytes_outside cells pos [] j h = refl
get_or-write_bytes_outside cells pos (b ∷ bs) j h =
    get_or-write_bytes_outside (set cells pos b) (pos + 1) bs j (omega arith)
    ∙ get_or-set_ne cells pos j b 0 (omega arith)

-- Cells of the run hold the bytes written.
pub get_or-write_bytes_inside :
    (cells : List ℕ) (pos : ℕ) (bs : List ℕ) (k : ℕ)
    → pos + length bs ≤ length cells
    → k < length bs
    → get_or (write_bytes cells pos bs) (pos + k) 0 ≡ get_or bs k 0
unfolding write_bytes
get_or-write_bytes_inside cells pos [] k h l = absurd (omega arith)
get_or-write_bytes_inside cells pos (b ∷ bs) zero h l =
    ap (λ i. get_or (write_bytes (set cells pos b) (pos + 1) bs) i 0) (plus_zero pos)
    ∙ get_or-write_bytes_outside (set cells pos b) (pos + 1) bs pos (omega arith)
    ∙ get_or-set_self cells pos b 0 (omega arith)
  where
    plus_zero : (p : ℕ) → p + 0 ≡ p
    plus_zero p = omega arith
get_or-write_bytes_inside cells pos (b ∷ bs) (suc k) h l =
    ap (λ i. get_or (write_bytes (set cells pos b) (pos + 1) bs) i 0) (shift pos k)
    ∙ get_or-write_bytes_inside (set cells pos b) (pos + 1) bs k
        (omega (arith, length-set cells pos b)) (omega arith)
  where
    shift : (p i : ℕ) → p + suc i ≡ p + 1 + i
    shift p i = omega arith

pub length-tab : (f : ℕ → ℕ) (n : ℕ) → length (tab f n) ≡ n
unfolding tab
length-tab f zero = refl
length-tab f (suc n) = ap suc (length-tab (λ k. f (suc k)) n)

pub tab-ext : (f g : ℕ → ℕ) (n : ℕ) → ((k : ℕ) → k < n → f k ≡ g k) → tab f n ≡ tab g n
unfolding tab
tab-ext f g zero h = refl
tab-ext f g (suc n) h =
    ap₂ ◌∷◌ (h 0 (omega arith))
      (tab-ext (λ k. f (suc k)) (λ k. g (suc k)) n (λ k l. h (suc k) (omega arith)))

pub tab-append : (f : ℕ → ℕ) (m n : ℕ) → tab f (m + n) ≡ tab f m ++ tab (λ k. f (m + k)) n
unfolding tab
tab-append f zero n = rw add_zero (tab-ext f (λ k. f (0 + k)) n (λ k l. ap f (zero_add k)))
  where
    add_zero : 0 + n ≡ n
    add_zero = omega arith

    zero_add : (k : ℕ) → k ≡ 0 + k
    zero_add k = omega arith
tab-append f (suc m) n =
    rw suc_add (
      ap (◌∷◌ (f 0)) (tab-append (λ k. f (suc k)) m n ∙ ap (◌++◌ (tab (λ k. f (suc k)) m)) shifted))
  where
    suc_add : suc m + n ≡ suc (m + n)
    suc_add = omega arith

    inner : (k : ℕ) → suc (m + k) ≡ suc m + k
    inner k = omega arith

    shifted : tab (λ k. f (suc (m + k))) n ≡ tab (λ k. f (suc m + k)) n
    shifted = tab-ext (λ k. f (suc (m + k))) (λ k. f (suc m + k)) n (λ k l. ap f (inner k))

-- A list is the table of its elements.
pub tab-get_or : (xs : List ℕ) (n : ℕ) → n ≤ length xs → tab (λ k. get_or xs k 0) n ≡ take n xs
unfolding tab
tab-get_or xs zero h = refl
tab-get_or [] (suc n) h = absurd (omega arith)
tab-get_or (x ∷ xs) (suc n) h = ap (◌∷◌ x) (tab-get_or xs n (omega arith))

pub get_or-tab : (f : ℕ → ℕ) (n k : ℕ) → k < n → get_or (tab f n) k 0 ≡ f k
unfolding tab
get_or-tab f zero k h = absurd (omega arith)
get_or-tab f (suc n) zero h = refl
get_or-tab f (suc n) (suc k) h = get_or-tab (λ i. f (suc i)) n k (omega arith)

pub length-read_bytes : (cells : List ℕ) (pos n : ℕ) → length (read_bytes cells pos n) ≡ n
unfolding read_bytes
length-read_bytes cells pos n = length-tab (λ k. get_or cells (pos + k) 0) n

-- Reading a run back that was just written.
pub read_bytes-write_bytes_self :
    (cells : List ℕ) (pos : ℕ) (bs : List ℕ)
    → pos + length bs ≤ length cells
    → read_bytes (write_bytes cells pos bs) pos (length bs) ≡ bs
unfolding read_bytes
read_bytes-write_bytes_self cells pos bs h =
    tab-ext _ (λ k. get_or bs k 0) (length bs) (λ k l. get_or-write_bytes_inside cells pos bs k h l)
    ∙ tab-get_or bs (length bs) (omega arith)
    ∙ take_all (length bs) bs (omega arith)

-- Reading a run that lies apart from the one written.
pub read_bytes-write_bytes_apart :
    (cells : List ℕ) (pos : ℕ) (bs : List ℕ) (at n : ℕ)
    → (at + n ≤ pos) ⊎ (pos + length bs ≤ at)
    → read_bytes (write_bytes cells pos bs) at n ≡ read_bytes cells at n
unfolding read_bytes
read_bytes-write_bytes_apart cells pos bs at n h =
    tab-ext _ (λ k. get_or cells (at + k) 0) n
      (λ k l. get_or-write_bytes_outside cells pos bs (at + k) (omega arith))
