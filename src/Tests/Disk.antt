-- ===== src/Tests/Disk.antt =====
-- storage.py: two threads on a store of numbers.
use vaulttls.Prelude.{
  append-nil, take-append, drop-append, length-append, ℕ, zero, suc, ◌+◌, ◌-◌, ◌*◌, ◌/◌, ◌%◌, ◌^◌,
  ◌≤◌, ◌<◌, ◌≡◌, refl, sym, ap, ◌∙◌, subst, ◌≢◌, ◌↔◌, ◌⊎◌, inl, inr, Bool, true, false, ◌&&◌, ◌||◌,
  Option, none, some, List, [], ◌∷◌, ◌++◌, arith, ltb, leb, ◌==◌, if◌then◌else◌, Bytes, IsBytes,
  length, take, drop,
}
use vaulttls.Errors.{bad_hex, Result, ok, err, ◌>>=◌}
use vaulttls.Storage.Disk.{
  answer, Reach, answers, mutates, value_found, nothing, effect, replay, set_pc, System, Pc, Op,
  Json, set_op, get_op, idle, leaving, entering, inside, writing, call, acquire, read_only,
  open_temp, write_some, replace, release, start, later,
}
use vaulttls.Storage.{JsonStore}
use vaulttls.Storage.Released.{Released}
use vaulttls.Storage.Atomic.{reach_consistent}

-- An entry is its key behind the key's length, and its value.
dump : JsonStore ℕ → Bytes
dump [] = []
dump ((k, v) ∷ d) = length k ∷ v ∷ (k ++ dump d)

load : ℕ → Bytes → Result (JsonStore ℕ)
load fuel [] = ok []
load fuel (n ∷ []) = err bad_hex
load zero (n ∷ v ∷ bs) = err bad_hex
load (suc fuel) (n ∷ v ∷ bs) = do d ← load fuel (drop n bs); ok ((take n bs, v) ∷ d)

load-dump : (fuel : ℕ) (d : JsonStore ℕ) → length (dump d) ≤ fuel → load fuel (dump d) ≡ ok d
unfolding load dump
load-dump fuel [] h = refl
load-dump zero ((k, v) ∷ d) h = absurd (omega (arith, h))
load-dump (suc fuel) ((k, v) ∷ d) h =
    let small : length (dump d) ≤ fuel = omega (arith, h, length-append k (dump d)) in
    rw (drop-append k (dump d), take-append k (dump d), load-dump fuel d small) refl

abbrev numbers : Json ℕ
numbers = record { dump = dump; load = λ bs. load (length bs) bs }

numbers_loaded : (d : JsonStore ℕ) → numbers.load (numbers.dump d) ≡ ok d
numbers_loaded d = load-dump (length (dump d)) d (omega arith)

abbrev put_five : Op ℕ
put_five = set_op (7 ∷ []) 5

abbrev get_it : Op ℕ
get_it = get_op (7 ∷ [])

abbrev waiting : ℕ → Pc ℕ
waiting =
    set_pc 0 (inside put_five)
      (set_pc 1 (entering get_it) (set_pc 0 (entering put_five) (λ i. idle)))

abbrev five : JsonStore ℕ
five = effect put_five []

-- The first thread has written its value, and the second waits for the lock.
abbrev written : System ℕ
written = record {
  file = [] ++ dump five;
  temp = none;
  lock = some 0;
  pc =
      set_pc 0 leaving
        (set_pc 0 (writing put_five []) (set_pc 0 (writing put_five (dump five)) waiting));
  done = put_five ∷ [];
  returned = nothing ∷ [];
}

-- The second has read it.
abbrev answered : System ℕ
answered = record {
  file = [] ++ dump five;
  temp = none;
  lock = some 1;
  pc = set_pc 1 leaving (set_pc 1 (inside get_it) (set_pc 0 idle written.pc));
  done = get_it ∷ put_five ∷ [];
  returned = value_found (some 5) ∷ nothing ∷ [];
}

written-Reach : Reach numbers written
unfolding set_pc mutates load dump
written-Reach =
    later
      (later
        (later
          (later (later (later start (call 0 put_five refl)) (call 1 get_it refl))
            (acquire 0 put_five refl refl))
          (open_temp 0 put_five [] refl refl refl))
        (write_some 0 put_five (dump five) [] []
          (ap (writing put_five) (sym (append-nil (dump five)))) refl))
      (replace 0 put_five (dump five) refl refl)

answered-Reach : Reach numbers answered
unfolding set_pc mutates load dump effect answer vaulttls.Storage.set vaulttls.Dict.put
    vaulttls.Storage.get vaulttls.Dict.get vaulttls.Prelude.bytes_eq
answered-Reach =
    later (later (later written-Reach (release 0 refl)) (acquire 1 get_it refl refl))
      (read_only 1 get_it five refl refl refl)

reach_consistent_example :
    (numbers.load answered.file ≡ ok (replay answered.done))
    × (answered.returned ≡ answers answered.done)
reach_consistent_example = reach_consistent numbers numbers_loaded answered-Reach
