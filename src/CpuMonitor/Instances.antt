-- ===== src/CpuMonitor/Instances.antt =====
-- The instance of the performance counters that belongs to a process id,
-- `ResolvePdhProcessInstanceByPid` of ConsoleApplication2/CpuMonitor.cpp. What the calls of Pdh come to
-- is an argument. The instances are texts, each with a zero behind it, and one zero more; they are
-- taken apart before the loop over them, where the source does both in one.
use chatting_server.Base.{
  ℕ, ◌+◌, ◌≡◌, refl, ltb, ◌==◌, if◌then◌else◌, not, ◌||◌, Bool, true, false, List, [], ◌∷◌, ◌++◌,
  length, append-nil, append_assoc, Option, some, none, arith, Bool-cases, inl, inr, sym, ap, ◌∙◌,
}
use chatting_server.Base.Maps.{member}
use chatting_server.Base.Outcome.{
  Outcome, done, overrun, ◌>>=◌, Ensures, if_Ensures, map_Ensures, then_Ensures, both_Ensures,
}
use chatting_server.CpuMonitor.Name.{copy_name}

-- A text and those behind it; the list of instances ends at a text that is empty.
abbrev end_or : List ℕ → Outcome (List (List ℕ)) → Outcome (List (List ℕ))
end_or [] rest = done []
end_or (c ∷ text) rest = rest >>= λ ns. done ((c ∷ text) ∷ ns)

-- The walk over the instances, with the part of a text that was read; it goes on to a zero.
unfoldable pub instances : List ℕ → List ℕ → Outcome (List (List ℕ))
instances text [] = overrun
instances text (c ∷ cs) =
    let next = instances [] cs in
    let more = instances (text ++ c ∷ []) cs in if c == 0 then end_or text next else more

-- Whether `_wcsicmp` takes two texts for the same, and what the calls of Pdh come to: the text of the
-- instances if both calls of `PdhEnumObjectItemsW` succeed, `PdhOpenQueryW`, `PdhAddCounterW` for an
-- instance, and the number that its counter gives.
pub record Pdh : Type 0 where
  pub same : List ℕ → List ℕ → Bool
  pub listed : Option (List ℕ)
  pub opened : Bool
  pub added : List ℕ → Bool
  pub id_of : List ℕ → Option ℕ

-- L"_Total" and L"Idle"
abbrev pub total_name : List ℕ
total_name = 95 ∷ 84 ∷ 111 ∷ 116 ∷ 97 ∷ 108 ∷ []

abbrev pub idle_name : List ℕ
idle_name = 73 ∷ 100 ∷ 108 ∷ 101 ∷ []

module _ (h : Pdh) (pid : ℕ) where
  abbrev pub is_pid : Option ℕ → Bool
  is_pid none = false
  is_pid (some n) = n == pid

  -- The loop over the instances; the path of a counter has 21 characters beside the name.
  unfoldable pub find_instance : List (List ℕ) → Outcome (Option (List ℕ))
  find_instance [] = done none
  find_instance (n ∷ ns) =
      let rest = find_instance ns in
      if h.same n total_name || h.same n idle_name
      then rest
      else (if not (ltb (length n + 21) 512)
          then overrun
          else (if not (h.added n)
              then rest
              else (if is_pid (h.id_of n) then done (some n) else rest)))

  copied : ℕ → Option (List ℕ) → Outcome (Option (List ℕ))
  copied count none = done none
  copied count (some n) = copy_name count n >>= λ m. done (some m)

  resolve_listed : ℕ → Option (List ℕ) → Outcome (Option (List ℕ))
  unfolding instances find_instance copied
  resolve_listed count none = done none
  resolve_listed count (some text) =
      if not h.opened
      then done none
      else (instances [] text >>= λ ns. find_instance ns >>= λ found. copied count found)

  -- `ResolvePdhProcessInstanceByPid(pid, outInstance, outCount)`: what is in `outInstance` if it returns
  -- true; `has_out` is that it is not null.
  unfoldable pub resolve_instance : Bool → ℕ → Outcome (Option (List ℕ))
  unfolding resolve_listed
  resolve_instance has_out count =
      if not has_out || count == 0 then done none else resolve_listed count h.listed

  -- An instance that is found has the process id.
  abbrev pub IsFound : Option (List ℕ) → Type 0
  IsFound none = true ≡ true
  IsFound (some n) = is_pid (h.id_of n) ≡ true

  find_instance-IsFound : (ns : List (List ℕ)) → Ensures (find_instance ns) IsFound
  unfolding find_instance
  find_instance-IsFound [] = refl
  find_instance-IsFound (n ∷ ns) =
      let rest = find_instance-IsFound ns in
      if_Ensures (h.same n total_name || h.same n idle_name) _ _ IsFound (λ e. rest)
        (λ e.
          if_Ensures (not (ltb (length n + 21) 512)) _ _ IsFound (λ f. tt)
            (λ f.
              if_Ensures (not (h.added n)) _ _ IsFound (λ g. rest)
                (λ g. if_Ensures (is_pid (h.id_of n)) _ _ IsFound (λ k. k) (λ k. rest))))

  copied-IsFound : (count : ℕ) (r : Option (List ℕ)) → IsFound r → Ensures (copied count r) IsFound
  unfolding copied
  copied-IsFound count none k = refl
  copied-IsFound count (some n) k =
      map_Ensures (copy_name count n) _ (λ m. m ≡ n) IsFound
        (λ m e. ap (λ t. is_pid (h.id_of t)) e ∙ k)
        (if_Ensures (ltb (length n) count) (done n) overrun (λ m. m ≡ n) (λ e. refl) (λ e. tt))

  resolve_listed-IsFound :
      (count : ℕ) (text : Option (List ℕ)) → Ensures (resolve_listed count text) IsFound
  unfolding resolve_listed
  resolve_listed-IsFound count none = refl
  resolve_listed-IsFound count (some text) =
      if_Ensures (not h.opened) _ _ IsFound (λ e. refl)
        (λ e. then_Ensures (instances [] text) _ IsFound (λ ns.
          both_Ensures (find_instance ns) _ IsFound IsFound (copied-IsFound count)
            (find_instance-IsFound ns)))

  -- The instance that is handed out, if one is, has a counter that gives the process id.
  pub resolve_instance-IsFound :
      (has_out : Bool) (count : ℕ) → Ensures (resolve_instance has_out count) IsFound
  unfolding resolve_instance
  resolve_instance-IsFound has_out count =
      if_Ensures (not has_out || count == 0) _ _ IsFound (λ e. refl)
        (λ e. resolve_listed-IsFound count h.listed)

-- The text of a list of instances.
unfoldable pub text_of : List (List ℕ) → List ℕ
text_of [] = 0 ∷ []
text_of (n ∷ ns) = n ++ 0 ∷ text_of ns

abbrev pub Names : List (List ℕ) → Type 0
Names [] = true ≡ true
Names ([] ∷ ns) = true ≡ false
Names ((c ∷ n) ∷ ns) = (member 0 (c ∷ n) ≡ false) × Names ns

instances-text :
    (n text cs : List ℕ)
    → member 0 n ≡ false
    → instances text (n ++ 0 ∷ cs) ≡ end_or (text ++ n) (instances [] cs)
unfolding instances member
instances-text [] text cs h = ap (λ t. end_or t (instances [] cs)) (sym (append-nil text))
instances-text (c ∷ n) text cs h = elim (Bool-cases (c == 0)) [
  | inl e ↦ absurd (grind (arith, h, e))
  | inr e ↦ rw e (
      instances-text n (text ++ c ∷ []) cs (ground (arith, h, e))
      ∙ ap (λ t. end_or t (instances [] cs)) (append_assoc text (c ∷ []) n))
]

-- The walk finds the instances whose text it is given, if none is empty or has a zero in it.
pub instances-text_of : (ns : List (List ℕ)) → Names ns → instances [] (text_of ns) ≡ done ns
unfolding text_of
instances-text_of [] h = unfold instances in refl
instances-text_of ([] ∷ ns) h = absurd cc
instances-text_of ((c ∷ n) ∷ ns) h =
    instances-text (c ∷ n) [] (text_of ns) h.0 ∙ rw (instances-text_of ns h.1) refl
