-- ===== src/CpuMonitor/Name.antt =====
-- The name of the program that is watched, `GetExeBaseNameFromHandle` of
-- ConsoleApplication2/CpuMonitor.cpp. The path is what the system says; 92 is the backslash and 46 the
-- dot.
use chatting_server.Base.{
  ℕ, zero, suc, ◌+◌, ◌<◌, ◌≤◌, ◌≡◌, refl, sym, ap, ◌∙◌, ◌==◌, if◌then◌else◌, not, ◌||◌, Bool, true,
  false, ltb, List, [], ◌∷◌, ◌++◌, length, length-append, get_or, take, drop-append, get_or-drop,
  Option, some, none, arith, Bool-cases, inl, inr, lt→ltb,
}
use chatting_server.Base.Maps.{member}
use chatting_server.Base.Outcome.{Outcome, done, overrun, ◌>>=◌}

-- The loop that moves `base` behind the last backslash
unfoldable pub base_name : List ℕ → List ℕ → List ℕ
base_name [] base = base
base_name (c ∷ p) base = base_name p (if c == 92 then p else base)

-- The loop that cuts the text at its last dot, from the last of the `i` characters down
unfoldable pub cut_extension : ℕ → List ℕ → List ℕ
cut_extension zero tmp = tmp
cut_extension (suc i) tmp =
    let rest = cut_extension i tmp in
    if get_or tmp i 0 == 46 then take i tmp else (if get_or tmp i 0 == 92 then tmp else rest)

-- `wcscpy_s(out, count, text)`, which ends the program when the text and a zero do not fit
abbrev pub copy_name : ℕ → List ℕ → Outcome (List ℕ)
copy_name count text = if ltb (length text) count then done text else overrun

-- `GetExeBaseNameFromHandle(hProcess, outName, outCount)`: what is in `outName` if it returns true.
-- `full` is what `QueryFullProcessImageNameW` says, and `has_name` that `outName` is not null.
unfoldable pub exe_base_name : Option (List ℕ) → Bool → ℕ → Outcome (Option (List ℕ))
unfolding base_name cut_extension
exe_base_name none has_name count = done none
exe_base_name (some full) has_name count =
    if not has_name || count == 0
    then done none
    else (let tmp = base_name full full in
        copy_name 260 tmp >>= λ t.
        copy_name count (cut_extension (length t) t) >>= λ n. done (some n))

-- Text without a backslash behind the last one
base_name-plain : (p base : List ℕ) → member 92 p ≡ false → base_name p base ≡ base
unfolding base_name member
base_name-plain [] base h = refl
base_name-plain (c ∷ p) base h = elim (Bool-cases (c == 92)) [
  | inl e ↦ absurd (grind (arith, h, e))
  | inr e ↦ rw e (base_name-plain p base (ground (arith, h, e)))
]

pub base_name-path :
    (dir file base : List ℕ) → member 92 file ≡ false → base_name (dir ++ 92 ∷ file) base ≡ file
unfolding base_name
base_name-path [] file base h = base_name-plain file file h
base_name-path (c ∷ dir) file base h =
    base_name-path dir file (if c == 92 then dir ++ 92 ∷ file else base) h

get_or-member :
    (c : ℕ) (xs : List ℕ) (j : ℕ)
    → member c xs ≡ false
    → j < length xs
    → (get_or xs j 0 == c) ≡ false
unfolding member
get_or-member c [] j h l = absurd (omega arith)
get_or-member c (x ∷ xs) zero h l = ground (arith, h)
get_or-member c (x ∷ xs) (suc j) h l = get_or-member c xs j (ground (arith, h)) (omega arith)

-- A character of what comes behind the stem and its dot.
get_or-extension :
    (stem ext : List ℕ) (j : ℕ) → get_or (stem ++ 46 ∷ ext) (length stem + 1 + j) 0 ≡ get_or ext j 0
get_or-extension stem ext j =
    ap (λ i. get_or (stem ++ 46 ∷ ext) i 0) index
    ∙ sym (get_or-drop (length stem) (stem ++ 46 ∷ ext) (suc j) 0)
    ∙ ap (λ xs. get_or xs (suc j) 0) (drop-append stem (46 ∷ ext))
  where
    index : length stem + 1 + j ≡ length stem + suc j
    index = omega arith

get_or-dot : (stem ext : List ℕ) → get_or (stem ++ 46 ∷ ext) (length stem) 0 ≡ 46
get_or-dot stem ext =
    ap (λ i. get_or (stem ++ 46 ∷ ext) i 0) index
    ∙ sym (get_or-drop (length stem) (stem ++ 46 ∷ ext) 0 0)
    ∙ ap (λ xs. get_or xs 0 0) (drop-append stem (46 ∷ ext))
  where
    index : length stem ≡ length stem + 0
    index = omega arith

take-stem : (xs ys : List ℕ) → take (length xs) (xs ++ ys) ≡ xs
take-stem [] ys = refl
take-stem (x ∷ xs) ys = ap (◌∷◌ x) (take-stem xs ys)

-- The loop on the characters up to the `j`-th behind the dot.
cut_extension-dot :
    (stem ext : List ℕ) (j : ℕ)
    → member 46 ext ≡ false
    → member 92 ext ≡ false
    → j ≤ length ext
    → cut_extension (length stem + 1 + j) (stem ++ 46 ∷ ext) ≡ stem
unfolding cut_extension
cut_extension-dot stem ext zero dot slash l =
    ap (λ i. cut_extension i (stem ++ 46 ∷ ext)) index
    ∙ rw (get_or-dot stem ext) (take-stem stem (46 ∷ ext))
  where
    index : length stem + 1 + 0 ≡ suc (length stem)
    index = omega arith
cut_extension-dot stem ext (suc j) dot slash l =
    ap (λ i. cut_extension i (stem ++ 46 ∷ ext)) index
    ∙ rw
        (
          get_or-extension stem ext j,
          get_or-member 46 ext j dot (omega arith),
          get_or-member 92 ext j slash (omega arith),
        )
        (cut_extension-dot stem ext j dot slash (omega arith))
  where
    index : length stem + 1 + suc j ≡ suc (length stem + 1 + j)
    index = omega arith

-- A path that ends in a file name with an extension, of fewer than 260 characters, gives the name
-- without the extension, and without the folders, if that and a zero fit into the buffer.
pub exe_base_name-reads :
    (dir stem ext : List ℕ) (count : ℕ)
    → member 92 (stem ++ 46 ∷ ext) ≡ false
    → member 92 ext ≡ false
    → member 46 ext ≡ false
    → length (stem ++ 46 ∷ ext) < 260
    → length stem < count
    → exe_base_name (some (dir ++ 92 ∷ (stem ++ 46 ∷ ext))) true count ≡ done (some stem)
unfolding exe_base_name
exe_base_name-reads dir stem ext count plain slash dot small room =
    rw
      (
        some_count,
        base_name-path dir (stem ++ 46 ∷ ext) (dir ++ 92 ∷ (stem ++ 46 ∷ ext)) plain,
        lt→ltb (length (stem ++ 46 ∷ ext)) 260 small,
        ap (λ i. cut_extension i (stem ++ 46 ∷ ext)) whole,
        cut_extension-dot stem ext (length ext) dot slash (omega arith),
        lt→ltb (length stem) count room,
      )
      refl
  where
    some_count : (count == 0) ≡ false
    some_count = ground arith

    whole : length (stem ++ 46 ∷ ext) ≡ length stem + 1 + length ext
    whole = omega (arith, length-append stem (46 ∷ ext))
