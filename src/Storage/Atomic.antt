-- ===== src/Storage/Atomic.antt =====
-- storage.py: whatever the threads do, and if calls of the file system raise or the process dies at
-- any point, the file is whole, and the calls take effect one after the other.
use vaulttls.Prelude.{
  append_assoc, append-nil, [], ◌∷◌, false, Bool-cases, ℕ, ◌≡◌, refl, sym, ap, ◌∙◌, ◌≢◌, ◌⊎◌, inl,
  inr, true, Option, some, List, ◌++◌, arith, ◌==◌, Bytes,
}
use vaulttls.Errors.{ok_inj, ok}
use vaulttls.Storage.Disk.{
  crash, start, later, Reach, replace, write_some, read_failed, open_failed, write_failed,
  open_temp, leaving, read_only, idle, release, inside, acquire, entering, call, Step, nothing,
  answer, effect, mutates, Answer, answers, Op, Pc, replay, holds, set_pc, System, Json, writing,
}
use vaulttls.Storage.{JsonStore}

module _ {V : Type 0} (J : Json V) where
  pub record IsConsistent (s : System V) : Type 0 where
    pub file_is : J.load s.file ≡ ok (replay s.done)
    pub returned_are : s.returned ≡ answers s.done
    pub holder : (i : ℕ) → holds (s.pc i) ≡ true → s.lock ≡ some i
    pub held : (i : ℕ) → s.lock ≡ some i → holds (s.pc i) ≡ true
    pub writes :
        (i : ℕ) (op : Op V) (rest : Bytes)
        → s.pc i ≡ writing op rest
        → (mutates op ≡ true)
          × ((w : Bytes) × (s.temp ≡ some w) × (w ++ rest ≡ J.dump (effect op (replay s.done))))

  -- A thread other than the one that moved is where it was.
  set_pc-cases :
      (i j : ℕ) (p : Pc V) (f : ℕ → Pc V)
      → ((j ≡ i) × (set_pc i p f j ≡ p)) ⊎ ((j ≢ i) × (set_pc i p f j ≡ f j))
  unfolding set_pc
  set_pc-cases i j p f = elim (Bool-cases (j == i)) [
    | inl same ↦ inl (ground (arith, same), rw same refl)
    | inr other ↦ inr ((λ e. ground (arith, other, e)), rw other refl)
  ]

  holds-writing : (op : Op V) (rest : Bytes) → holds (writing op rest) ≡ true
  unfolding holds
  holds-writing op rest = refl

  writing_inj : {a c : Op V} {b d : Bytes} → writing a b ≡ writing c d → (a ≡ c) × (b ≡ d)
  writing_inj e = (cc, cc)

  only_holder :
      {s : System V} (h : IsConsistent s) (i j : ℕ)
      → holds (s.pc i) ≡ true
      → holds (s.pc j) ≡ true
      → j ≡ i
  only_holder h i j p q = let a = h.holder i p in let b = h.holder j q in cc

  -- A step of the thread that holds the lock, which it keeps.
  under_lock :
      {s : System V} (h : IsConsistent s) (i : ℕ) (p : Pc V) {file : Bytes} {temp : Option Bytes}
      {done : List (Op V)} {returned : List (Answer V)}
      → holds (s.pc i) ≡ true
      → holds p ≡ true
      → J.load file ≡ ok (replay done)
      → returned ≡ answers done
      → ((op : Op V) (rest : Bytes)
          → p ≡ writing op rest
          → (mutates op ≡ true)
            × ((w : Bytes) × (temp ≡ some w) × (w ++ rest ≡ J.dump (effect op (replay done)))))
      → IsConsistent (record {
        file = file;
        temp = temp;
        lock = s.lock;
        pc = set_pc i p s.pc;
        done = done;
        returned = returned;
      })
  under_lock {s} h i p {temp = temp} {done = done} here still e f g = record {
    file_is = e;
    returned_are = f;
    holder = λ j q. elim (set_pc-cases i j p s.pc) [
      | inl (same, at) ↦ h.holder i here ∙ ap some (sym same)
      | inr (other, at) ↦ h.holder j (ap holds (sym at) ∙ q)
    ];
    held = λ j q. elim (set_pc-cases i j p s.pc) [
      | inl (same, at) ↦ ap holds at ∙ still
      | inr (other, at) ↦ ap holds at ∙ h.held j q
    ];
    writes = λ j op rest q. elim (set_pc-cases i j p s.pc) [
      | inl (same, at) ↦ g op rest (sym at ∙ q)
      | inr (other, at) ↦
          absurd (other (only_holder h i j here (ap holds (sym at ∙ q) ∙ holds-writing op rest)))
    ];
  }

  -- A step of a thread outside the lock, or one that takes it.
  outside_lock :
      {s : System V} (h : IsConsistent s) (i : ℕ) (p : Pc V) {lock : Option ℕ}
      → ((j : ℕ) → j ≢ i → holds (s.pc j) ≡ true → lock ≡ some j)
      → (holds p ≡ true → lock ≡ some i)
      → (lock ≡ some i → holds p ≡ true)
      → ((j : ℕ) → j ≢ i → lock ≡ some j → holds (s.pc j) ≡ true)
      → ((op : Op V) (rest : Bytes) → p ≡ writing op rest → ⊥)
      → IsConsistent (record s { lock = lock; pc = set_pc i p s.pc })
  outside_lock {s} h i p {lock} others own free stays no_write = record {
    file_is = h.file_is;
    returned_are = h.returned_are;
    holder = λ j q. elim (set_pc-cases i j p s.pc) [
      | inl (same, at) ↦ own (ap holds (sym at) ∙ q) ∙ ap some (sym same)
      | inr (other, at) ↦ others j other (ap holds (sym at) ∙ q)
    ];
    held = λ j q. elim (set_pc-cases i j p s.pc) [
      | inl (same, at) ↦ ap holds at ∙ free (q ∙ ap some same)
      | inr (other, at) ↦ ap holds at ∙ stays j other q
    ];
    writes = λ j op rest q. elim (set_pc-cases i j p s.pc) [
      | inl (same, at) ↦ absurd (no_write op rest (sym at ∙ q))
      | inr (other, at) ↦ h.writes j op rest (sym at ∙ q)
    ];
  }

  mutates-effect : (op : Op V) (d : JsonStore V) → mutates op ≡ false → effect op d ≡ d
  unfolding mutates effect
  mutates-effect op d e = ground arith

  mutates-answer : (op : Op V) (d : JsonStore V) → mutates op ≡ true → answer op d ≡ nothing
  unfolding mutates answer
  mutates-answer op d e = ground arith

  -- The package reads what it wrote.
  module _ (loads : (d : JsonStore V) → J.load (J.dump d) ≡ ok d) where
    Step-IsConsistent : {s t : System V} → IsConsistent s → Step J s t → IsConsistent t
    unfolding replay answers holds
    Step-IsConsistent {s} h (call i op e) =
        outside_lock h i (entering op) (λ j other q. h.holder j q) (λ q. cc)
          (λ q. sym (ap holds e) ∙ h.held i q) (λ j other q. h.held j q) (λ op rest q. cc)
    Step-IsConsistent {s} h (acquire i op e free) =
        outside_lock h i (inside op) (λ j other q. let taken = h.holder j q in cc) (λ q. refl)
          (λ q. refl) (λ j other q. let same : i ≡ j = cc in absurd (other (sym same)))
          (λ op rest q. cc)
    Step-IsConsistent {s} h (release i e) =
        outside_lock h i idle (λ j other q. absurd (other (only_holder h i j (ap holds e) q)))
          (λ q. cc) (λ q. cc) (λ j other q. cc) (λ op rest q. cc)
    Step-IsConsistent {s} h (read_only i op d e m l) =
        let same : d ≡ replay s.done = ok_inj (sym l ∙ h.file_is) in
        under_lock h i leaving (ap holds e) refl
          (h.file_is ∙ ap ok (sym (mutates-effect op (replay s.done) m)))
          (λ k. answer op (same k) ∷ h.returned_are k) (λ op rest q. cc)
    Step-IsConsistent {s} h (open_temp i op d e m l) =
        let same : d ≡ replay s.done = ok_inj (sym l ∙ h.file_is) in
        under_lock h i (writing op (J.dump (effect op d))) (ap holds e) refl h.file_is
          h.returned_are
          (λ op' rest q.
            let (a, b) = writing_inj q in
            (ap mutates (sym a) ∙ m, ([], refl, sym b ∙ (λ k. J.dump (effect (a k) (same k))))))
    Step-IsConsistent {s} h (read_failed i op x e l) =
        under_lock h i leaving (ap holds e) refl h.file_is h.returned_are (λ op rest q. cc)
    Step-IsConsistent {s} h (open_failed i op e) =
        under_lock h i leaving (ap holds e) refl h.file_is h.returned_are (λ op rest q. cc)
    Step-IsConsistent {s} h (write_failed i op rest e) =
        under_lock h i leaving (ap holds e) refl h.file_is h.returned_are (λ op rest q. cc)
    Step-IsConsistent {s} h (write_some i op part rest w e t) =
        let (m, (w', t', all)) = h.writes i op (part ++ rest) e in
        let same : w ≡ w' = cc in
        under_lock h i (writing op rest) (ap holds e) refl h.file_is h.returned_are (λ op' rest' q.
          let (a, b) = writing_inj q in
          (
            ap mutates (sym a) ∙ m,
            (
              w ++ part,
              refl,
              ap (λ r. (w ++ part) ++ r) (sym b)
                  ∙ append_assoc w part rest
                  ∙ ap (λ v. v ++ (part ++ rest)) same
                  ∙ all
                  ∙ ap (λ o. J.dump (effect o (replay s.done))) a,
            ),
          ))
    Step-IsConsistent {s} h (replace i op w e t) =
        let (m, (w', t', all)) = h.writes i op [] e in
        let same : w ≡ w' = cc in
        under_lock h i leaving (ap holds e) refl
          (ap J.load (same ∙ sym (append-nil w') ∙ all) ∙ loads (effect op (replay s.done)))
          (λ k. sym (mutates-answer op (replay s.done) m) k ∷ h.returned_are k) (λ op rest q. cc)
    Step-IsConsistent {s} h crash = record {
      file_is = h.file_is;
      returned_are = h.returned_are;
      holder = λ i q. cc;
      held = λ i q. cc;
      writes = λ i op rest q. cc;
    }

    pub Reach-IsConsistent : {s : System V} → Reach J s → IsConsistent s
    unfolding replay answers holds
    Reach-IsConsistent start = record {
      file_is = loads [];
      returned_are = refl;
      holder = λ i q. cc;
      held = λ i q. cc;
      writes = λ i op rest q. cc;
    }
    Reach-IsConsistent (later r t) = Step-IsConsistent (Reach-IsConsistent r) t

    -- However the threads' steps interleave, wherever the process dies and whichever calls of the file
    -- system raise, the store's file can be read, and holds what the calls that took effect make of
    -- an empty dictionary one after the other; and every call that has returned answered what it
    -- would have answered in that order. The package reads what it wrote.
    pub reach_consistent :
        {s : System V}
        → Reach J s
        → (J.load s.file ≡ ok (replay s.done)) × (s.returned ≡ answers s.done)
    unfolding replay answers
    reach_consistent r = let h = Reach-IsConsistent r in (h.file_is, h.returned_are)
