-- ===== src/CpuMonitor/Tests.antt =====
-- `GetBigNumberStr` of ConsoleApplication2/CpuMonitor.cpp on concrete values.
use chatting_server.Base.Maps.{member}
use chatting_server.CpuMonitor.Instances.{
  Pdh, total_name, instances, find_instance, resolve_instance, text_of,
}
use chatting_server.CpuMonitor.Name.{exe_base_name, exe_base_name-reads}
use chatting_server.CpuMonitor.Times.{Floats, update_system, system_shares, no_shares}
use chatting_server.Base.{
  length, ◌==◌, ◌++◌, ◌*◌, ℕ, ◌≡◌, refl, true, false, List, [], ◌∷◌, some, none, arith,
}
use chatting_server.Base.Outcome.{done, overrun}
use chatting_server.CpuMonitor.{
  pos, negsuc, decimal, plain, padded, print, group, last_group, grouped, shown, get_big_number_str,
}
use chatting_server.CpuMonitor.Digits.{read_on}
use chatting_server.CpuMonitor.Groups.{without_zero_groups, get_big_number_str-reads}

-- "1,234,567"
get_big_number_str-three_groups :
    get_big_number_str (pos 1234567) true 100
    ≡ done (some (49 ∷ 44 ∷ 50 ∷ 51 ∷ 52 ∷ 44 ∷ 53 ∷ 54 ∷ 55 ∷ []))
unfolding get_big_number_str shown grouped group last_group print plain padded decimal
get_big_number_str-three_groups = refl

-- "1,000" for a thousand millions
get_big_number_str-lost :
    get_big_number_str (pos 1000000000) true 100 ≡ done (some (49 ∷ 44 ∷ 48 ∷ 48 ∷ 48 ∷ []))
unfolding get_big_number_str shown grouped group last_group print plain padded decimal
get_big_number_str-lost = refl

-- "-12"
get_big_number_str-negative :
    get_big_number_str (negsuc 11) true 100 ≡ done (some (45 ∷ 49 ∷ 50 ∷ []))
unfolding get_big_number_str shown print plain decimal
get_big_number_str-negative = refl

get_big_number_str-short : get_big_number_str (pos 1234) true 5 ≡ overrun
unfolding get_big_number_str shown grouped group last_group print plain padded decimal
get_big_number_str-short = refl

get_big_number_str-nowhere : get_big_number_str (pos 1234) false 5 ≡ done none
unfolding get_big_number_str
get_big_number_str-nowhere = refl

get_big_number_str-reads_example :
    (s : List ℕ) × (get_big_number_str (pos 5000001234) true 100 ≡ done (some s))
    × (read_on 0 s ≡ without_zero_groups 5000001234)
get_big_number_str-reads_example =
    get_big_number_str-reads 5000001234 100 (omega arith) (omega arith)

-- "a\b\c.x" gives "c".
exe_base_name-reads_example :
    exe_base_name (some ((97 ∷ 92 ∷ 98 ∷ []) ++ 92 ∷ ((99 ∷ []) ++ 46 ∷ 120 ∷ []))) true 260
    ≡ done (some (99 ∷ []))
exe_base_name-reads_example =
    exe_base_name-reads (97 ∷ 92 ∷ 98 ∷ []) (99 ∷ []) (120 ∷ []) 260 (unfold member in refl)
      (unfold member in refl) (unfold member in refl) (omega arith) (omega arith)

-- Ten units of time, four of them idle.
abbrev counted : Floats (ℕ × ℕ)
counted = record { zero_share = (0, 0); share = λ a b. (a, b); scaled = λ a n b. (a, n * b) }

update_system-ten :
    (update_system counted (some (record { idle = 4; kernel = 7; user = 3 })) (record {
      last = some (record { idle = 0; kernel = 0; user = 0 });
      shares = no_shares counted;
    })).shares.total
    ≡ (6, 10)
unfolding update_system system_shares
update_system-ten = refl

-- Of "_Total", "a" and "b" the second has the number 7.
abbrev listing : Pdh
listing = record {
  same = λ a b. length a == length b;
  listed = some (text_of (total_name ∷ (97 ∷ []) ∷ (98 ∷ []) ∷ []));
  opened = true;
  added = λ n. true;
  id_of = λ n. some 7;
}

resolve_instance-second : resolve_instance listing 7 true 260 ≡ done (some (97 ∷ []))
unfolding resolve_instance find_instance instances text_of
resolve_instance-second = refl
