-- ===== src/Children/Tests.antt =====
-- A parent whose child 7 calls sys_exit with 42 and is waited for twice, and a child that calls it too
-- early.
use ee468_pintos_project.Prelude.{ℕ, ◌≡◌, refl, Bool, true, false, List, [], ◌∷◌, none, some, arith}
use ee468_pintos_project.Children.{
  ChildStatus, Parent, tid_error, add_child, mark_exited, sys_exit, take_from_last, process_wait,
}
use ee468_pintos_project.Children.Status.{find, status_of}
use ee468_pintos_project.Children.Runs.{
  Family, IsFamily, with_bit, creates, adds, exits, dies, waits, die, stop, step,
}
use ee468_pintos_project.Children.Once.{wait-sys_exit, wait-early_exit}

abbrev tail_address : ℕ
tail_address = 0xc0100078

abbrev child : (exited has_been_waited : Bool) → (exit_status : ℕ) → ChildStatus
child exited has_been_waited exit_status = record {
  child_tid = 7;
  exited = exited;
  has_been_waited = has_been_waited;
  child_exit_status = exit_status;
  elem = 0xc0200010;
}

abbrev parent : List ChildStatus → Parent
parent children = record {
  first_waiter = tail_address;
  last_waiter = 0xc0100070;
  waiters_end = 0;
  before_head = 0;
  head = 0xc0100080;
  tail = 0xc0100088;
  children = children;
}

abbrev family : List ChildStatus → (alive : Bool) → Family
family children alive = record {
  parent = parent children;
  alive = with_bit (λ t. false) 7 alive;
  seen = with_bit (λ t. false) 7 true;
  pending = none;
}

abbrev f0 : Family
f0 = family (child false false 0 ∷ []) true

f0-IsFamily : IsFamily f0
unfolding find
f0-IsFamily = record {
  end_null = refl;
  before_null = refl;
  kernel_link = omega arith;
  known = λ u h. ground (arith, h);
  fresh = record {};
}

abbrev collected : Parent
collected = parent (child true true 42 ∷ [])

abbrev f1 : Family
f1 = record f0 { parent = sys_exit f0.parent 7 42 }

abbrev f2 : Family
f2 = record f1 { alive = with_bit f1.alive 7 false }

abbrev f3 : Family
f3 = record f2 { parent = collected }

first_wait : process_wait f2.alive f2.parent 7 ≡ some (collected, 42)
unfolding process_wait sys_exit mark_exited take_from_last
first_wait = refl

second_wait : process_wait f3.alive f3.parent 7 ≡ some (collected, tid_error)
unfolding process_wait take_from_last
second_wait = refl

found : status_of f0.parent 7 ≡ some (child false false 0)
unfolding find
found = refl

abbrev returned : ℕ
returned = 42

wait-sys_exit_example : (returned ≡ 42) × (tid_error ≡ tid_error)
wait-sys_exit_example =
    wait-sys_exit (die 7 ∷ []) [] 7 42 42 tid_error (child false false 0) f0-IsFamily found refl
      (exits f0 7 42 refl (omega arith) (omega arith))
      (step f1 f2 f2 (die 7) [] (dies f1 7) (stop f2)) (record {}, record {})
      (waits f2 7 42 collected refl first_wait) (stop f3)
      (waits f3 7 tid_error collected refl second_wait)

-- The child 9 is created, the child 7 ends, 9 calls sys_exit and ends, and is then put into the list.
abbrev e1 : Family
e1 = record f0 {
  alive = with_bit f0.alive 9 true;
  seen = with_bit f0.seen 9 true;
  pending = some 9;
}

abbrev e2 : Family
e2 = record e1 { alive = with_bit e1.alive 7 false }

abbrev e3 : Family
e3 = record e2 { parent = sys_exit e2.parent 9 42 }

abbrev e4 : Family
e4 = record e3 { alive = with_bit e3.alive 9 false }

abbrev e5 : Family
e5 = record e4 { parent = add_child e4.parent 9 0xc0300010; pending = none }

lost : process_wait e5.alive e5.parent 9 ≡ some (e5.parent, tid_error)
unfolding process_wait sys_exit mark_exited take_from_last add_child
lost = refl

wait-early_exit_example : tid_error ≡ tid_error
wait-early_exit_example =
    wait-early_exit (die 7 ∷ []) (die 9 ∷ []) [] 9 42 tid_error f0-IsFamily
      (creates f0 9 refl refl (omega arith) (omega arith))
      (step e1 e2 e2 (die 7) [] (dies e1 7) (stop e2))
      (exits e2 9 42 refl (omega arith) (omega arith))
      (step e3 e4 e4 (die 9) [] (dies e3 9) (stop e4)) (adds e4 9 0xc0300010 refl) (stop e5)
      (record {}) (waits e5 9 tid_error e5.parent refl lost)
