-- ===== src/Ring/Tests.antt =====
-- A buffer of three samples, driven round its end.
use vaani_edge.Base.{ℕ, ◌≡◌, refl, true, false, List, [], ◌∷◌, some, arith, splice, memcpy}
use vaani_edge.Ring
use vaani_edge.Ring.{RingBuffer, init}
use vaani_edge.Ring.Valid.{IsValid}
use vaani_edge.Ring.Contents.{contents}
use vaani_edge.Ring.Push.{IsPushed, push-keep_last}
use vaani_edge.Ring.Pop.{IsRead, get_last-keep_last, read-take}
use vaani_edge.Ring.Trace.{
  Call, push, get_last, read, Reply, pushed, got, step, run, window_step, window_run,
  run-window_run,
}

abbrev pub storage : List ℕ
storage = 0 ∷ 0 ∷ 0 ∷ []

-- 8, then 9, round the end of the storage.
abbrev pub wrapped : RingBuffer ℕ
wrapped = record {
  storage = 9 ∷ 7 ∷ 8 ∷ [];
  capacity = 3;
  write_pos = 1;
  filled = 2;
  read_pos = 2;
  mutex_held = false;
}

pub wrapped-IsValid : IsValid wrapped
wrapped-IsValid = ground arith

contents-wrapped : contents wrapped ≡ 8 ∷ 9 ∷ []
unfolding contents
contents-wrapped = refl

-- One push that overwrites the oldest sample, a look at the newest two, and a read.
abbrev script : List (Call ℕ)
script =
    push true (1 ∷ 2 ∷ [])
    ∷ push false (5 ∷ [])
    ∷ get_last true (0 ∷ 0 ∷ [])
    ∷ read true (0 ∷ 0 ∷ 0 ∷ 0 ∷ [])
    ∷ []

abbrev replies : List (Reply ℕ)
replies = pushed true ∷ pushed false ∷ got (1 ∷ 2 ∷ []) 2 ∷ got (9 ∷ 1 ∷ 2 ∷ 0 ∷ []) 3 ∷ []

abbrev emptied : RingBuffer ℕ
emptied = record {
  storage = 9 ∷ 1 ∷ 2 ∷ [];
  capacity = 3;
  write_pos = 0;
  filled = 0;
  read_pos = 0;
  mutex_held = false;
}

run-script : run wrapped script ≡ some (emptied, replies)
unfolding run step Ring.push Ring.get_last Ring.read Ring.push_held Ring.get_last_held
    Ring.read_held Ring.copy_in Ring.copy_out Ring.advance memcpy splice
run-script = refl

-- Five samples into a buffer of three.
push-keep_last_example :
    (r' : RingBuffer ℕ) × (Ring.push true (some (1 ∷ 2 ∷ 3 ∷ 4 ∷ 5 ∷ [])) 5 wrapped
      ≡ some (r', true))
    × IsPushed wrapped (1 ∷ 2 ∷ 3 ∷ 4 ∷ 5 ∷ []) r'
push-keep_last_example =
    push-keep_last wrapped (1 ∷ 2 ∷ 3 ∷ 4 ∷ 5 ∷ []) 5 wrapped-IsValid (omega arith) (omega arith)
      (omega arith)

get_last-keep_last_example :
    Ring.get_last true (some (0 ∷ 0 ∷ 6 ∷ [])) 2 wrapped ≡ some (wrapped, 8 ∷ 9 ∷ 6 ∷ [], 2)
unfolding contents
get_last-keep_last_example =
    get_last-keep_last wrapped (0 ∷ 0 ∷ 6 ∷ []) 2 wrapped-IsValid (omega arith) (omega arith)

read-take_example :
    (r' : RingBuffer ℕ) × (Ring.read true (some (0 ∷ 0 ∷ 6 ∷ [])) 1 wrapped
      ≡ some (r', 8 ∷ 0 ∷ 6 ∷ [], 1))
    × IsRead wrapped 1 r'
unfolding contents
read-take_example = read-take wrapped (0 ∷ 0 ∷ 6 ∷ []) 1 wrapped-IsValid (omega arith) (omega arith)

run-window_run_example :
    (r' : RingBuffer ℕ) × (run wrapped script ≡ some (r', replies))
    × IsValid r'
    × (contents r' ≡ [])
unfolding contents window_run window_step
run-window_run_example = run-window_run wrapped script wrapped-IsValid (omega arith)
