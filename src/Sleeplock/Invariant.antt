-- ===== src/Sleeplock/Invariant.antt =====
-- One process at a time has the lock, and no wake-up is lost.
use os2_project.Base.{
  ℕ, ◌≡◌, ◌≢◌, ◌⊎◌, inl, inr, refl, sym, ap, subst, ◌∙◌, Bool, true, false, Option, none, some,
  List, [], ◌∷◌, update, update_self, update-ne, ℕ_discrete, eq→==, Bool-cases,
}
use os2_project.Sleeplock.{
  Pc, outside, entering, testing, asleep, holding, leaving, freeing, Sleeplock, wake, step_at, run,
  initsleeplock, holdingsleep,
}

-- Behind the `acquire` of the spin lock.
abbrev pub in_spin : Pc → Bool
in_spin testing = true
in_spin freeing = true
in_spin q = false

-- With the sleep lock.
abbrev pub owns : Pc → Bool
owns holding = true
owns leaving = true
owns freeing = true
owns q = false

abbrev pub sleeping : Pc → Bool
sleeping asleep = true
sleeping q = false

pub record IsValid (s : Sleeplock) : Type 0 where
  pub spin : (i : ℕ) → in_spin (s.pc i) ≡ true → s.spin ≡ some i
  pub owner : (i : ℕ) → owns (s.pc i) ≡ true → (s.locked ≡ true) × (s.pid ≡ i)
  pub owned : s.locked ≡ true → owns (s.pc s.pid) ≡ true
  pub woken : (i : ℕ) → sleeping (s.pc i) ≡ true → s.locked ≡ true

-- What a move of process `i` to `q` has to keep, the others being where `pc` says.
record Moves (i : ℕ) (q : Pc) (pc : ℕ → Pc) (spin : Option ℕ) (locked : Bool) (pid : ℕ)
    : Type 0 where
  my_spin : in_spin q ≡ true → spin ≡ some i
  spins : (j : ℕ) → i ≢ j → in_spin (pc j) ≡ true → spin ≡ some j
  mine : owns q ≡ true → (locked ≡ true) × (pid ≡ i)
  owner : (j : ℕ) → i ≢ j → owns (pc j) ≡ true → (locked ≡ true) × (pid ≡ j)
  owned : locked ≡ true → ((i ≡ pid) × (owns q ≡ true)) ⊎ ((i ≢ pid) × (owns (pc pid) ≡ true))
  my_sleep : sleeping q ≡ true → locked ≡ true
  woken : (j : ℕ) → i ≢ j → sleeping (pc j) ≡ true → locked ≡ true

-- A statement about all processes, of the one that moves and of the others.
each :
    (P : ℕ → Pc → Type 0) (i : ℕ) (q : Pc) (pc : ℕ → Pc)
    → P i q
    → ((j : ℕ) → i ≢ j → P j (pc j))
    → (j : ℕ) → P j (update pc i q j)
each P i q pc here others j = elim (ℕ_discrete i j) [
  | yes e ↦ subst (λ k. P k (update pc i q k)) e (subst (P i) (sym (update_self pc i q)) here)
  | no ne ↦ subst (P j) (sym (update-ne pc i j q ne)) (others j ne)
]

Moves-IsValid :
    (i : ℕ) (q : Pc) (pc : ℕ → Pc) (spin : Option ℕ) (locked : Bool) (pid : ℕ)
    → Moves i q pc spin locked pid
    → IsValid (record { spin = spin; locked = locked; pid = pid; pc = update pc i q })
Moves-IsValid i q pc spin locked pid m = record {
  spin = each (λ j r. in_spin r ≡ true → spin ≡ some j) i q pc m.my_spin m.spins;
  owner = each (λ j r. owns r ≡ true → (locked ≡ true) × (pid ≡ j)) i q pc m.mine m.owner;
  owned = λ h. elim (m.owned h) [
    | inl (e, o) ↦ subst (λ k. owns (update pc i q k) ≡ true) e (ap owns (update_self pc i q) ∙ o)
    | inr (ne, o) ↦ ap owns (update-ne pc i pid q ne) ∙ o
  ];
  woken = each (λ j r. sleeping r ≡ true → locked ≡ true) i q pc m.my_sleep m.woken;
}

no_other : {A : Type 0} (i j : ℕ) (spin : Option ℕ) → spin ≡ some i → spin ≡ some j → i ≢ j → A
no_other i j spin a b ne = absurd (ne cc)

none-ne-some : {A : Type 0} (j : ℕ) (spin : Option ℕ) → spin ≡ none → spin ≡ some j → A
none-ne-some j spin a b = absurd cc

false-ne-true : {A : Type 0} {b : Bool} → b ≡ false → b ≡ true → A
false-ne-true a b = absurd cc

module _ (s : Sleeplock) (v : IsValid s) (i : ℕ) where
  -- A move that neither takes nor gives back the sleep lock.
  same_owner :
      (q : Pc) (spin : Option ℕ)
      → owns q ≡ owns (s.pc i)
      → (in_spin q ≡ true → spin ≡ some i)
      → ((j : ℕ) → i ≢ j → in_spin (s.pc j) ≡ true → spin ≡ some j)
      → (sleeping q ≡ true → s.locked ≡ true)
      → IsValid (record s { spin = spin; pc = update s.pc i q })
  same_owner q spin same my_spin spins my_sleep =
      Moves-IsValid i q s.pc spin s.locked s.pid (record {
        my_spin = my_spin;
        spins = spins;
        mine = λ h. v.owner i (sym same ∙ h);
        owner = λ j ne h. v.owner j h;
        owned = λ h. elim (ℕ_discrete i s.pid) [
          | yes e ↦ inl (e, same ∙ subst (λ k. owns (s.pc k) ≡ true) (sym e) (v.owned h))
          | no ne ↦ inr (ne, v.owned h)
        ];
        my_sleep = my_sleep;
        woken = λ j ne h. v.woken j h;
      })

  -- The spin lock is taken, or given back.
  takes_spin :
      (q : Pc)
      → s.spin ≡ none
      → owns q ≡ owns (s.pc i)
      → sleeping q ≡ false
      → IsValid (record s { spin = some i; pc = update s.pc i q })
  takes_spin q free same awake =
      same_owner q (some i) same (λ h. refl) (λ j ne h. none-ne-some j s.spin free (v.spin j h))
        (λ h. false-ne-true awake h)

  others_out : in_spin (s.pc i) ≡ true → (j : ℕ) → i ≢ j → in_spin (s.pc j) ≡ true → none ≡ some j
  others_out mine j ne h = no_other i j s.spin (v.spin i mine) (v.spin j h) ne

  takes_lock :
      s.pc i ≡ testing
      → s.locked ≡ false
      → IsValid (record { spin = none; locked = true; pid = i; pc = update s.pc i holding })
  takes_lock at free = Moves-IsValid i holding s.pc none true i (record {
    my_spin = λ h. false-ne-true refl h;
    spins = others_out (ap in_spin at);
    mine = λ h. (refl, refl);
    owner = λ j ne h. false-ne-true free (v.owner j h).0;
    owned = λ h. inl (refl, refl);
    my_sleep = λ h. refl;
    woken = λ j ne h. refl;
  })

  wake-in_spin : (q : Pc) → in_spin (wake q) ≡ in_spin q
  wake-in_spin outside = refl
  wake-in_spin entering = refl
  wake-in_spin testing = refl
  wake-in_spin asleep = refl
  wake-in_spin holding = refl
  wake-in_spin leaving = refl
  wake-in_spin freeing = refl

  wake-owns : (q : Pc) → owns (wake q) ≡ owns q
  wake-owns outside = refl
  wake-owns entering = refl
  wake-owns testing = refl
  wake-owns asleep = refl
  wake-owns holding = refl
  wake-owns leaving = refl
  wake-owns freeing = refl

  wake-sleeping : (q : Pc) → sleeping (wake q) ≡ false
  wake-sleeping outside = refl
  wake-sleeping entering = refl
  wake-sleeping testing = refl
  wake-sleeping asleep = refl
  wake-sleeping holding = refl
  wake-sleeping leaving = refl
  wake-sleeping freeing = refl

  gives_back :
      s.pc i ≡ freeing
      → IsValid (record {
        spin = none;
        locked = false;
        pid = 0;
        pc = update (λ j. wake (s.pc j)) i outside;
      })
  gives_back at =
      let mine : s.pid ≡ i = (v.owner i (ap owns at)).1 in
      Moves-IsValid i outside (λ j. wake (s.pc j)) none false 0
        (record {
          my_spin = λ h. false-ne-true refl h;
          spins = λ j ne h. others_out (ap in_spin at) j ne (sym (wake-in_spin (s.pc j)) ∙ h);
          mine = λ h. false-ne-true refl h;
          owner = λ j ne h. absurd (ne (sym mine ∙ (v.owner j (sym (wake-owns (s.pc j)) ∙ h)).1));
          owned = λ h. false-ne-true refl h;
          my_sleep = λ h. false-ne-true refl h;
          woken = λ j ne h. false-ne-true (wake-sleeping (s.pc j)) h;
        })

  Option-cases : (o : Option ℕ) → (o ≡ none) ⊎ ((j : ℕ) × (o ≡ some j))
  Option-cases none = inl refl
  Option-cases (some j) = inr (j, refl)

  step_at-IsValid : (q : Pc) → s.pc i ≡ q → IsValid (step_at q i s)
  unfolding step_at
  step_at-IsValid outside at =
      same_owner entering s.spin (sym (ap owns at)) (λ h. false-ne-true refl h)
        (λ j ne h. v.spin j h) (λ h. false-ne-true refl h)
  step_at-IsValid entering at = elim (Option-cases s.spin) [
    | inl free ↦ rw free (takes_spin testing free (sym (ap owns at)) refl)
    | inr (j, taken) ↦ rw taken (subst (λ o. IsValid (record s { spin = o })) taken v)
  ]
  step_at-IsValid testing at = elim (Bool-cases s.locked) [
    | inl busy ↦
        let slept =
          same_owner asleep none (sym (ap owns at)) (λ h. false-ne-true refl h)
            (others_out (ap in_spin at)) (λ h. busy) in
        rw busy (
          subst
            (λ l.
              IsValid (record { spin = none; locked = l; pid = s.pid; pc = update s.pc i asleep }))
            busy slept)
    | inr free ↦ rw free (takes_lock at free)
  ]
  step_at-IsValid asleep at = v
  step_at-IsValid holding at =
      same_owner leaving s.spin (sym (ap owns at)) (λ h. false-ne-true refl h)
        (λ j ne h. v.spin j h) (λ h. false-ne-true refl h)
  step_at-IsValid leaving at = elim (Option-cases s.spin) [
    | inl free ↦ rw free (takes_spin freeing free (sym (ap owns at)) refl)
    | inr (j, taken) ↦ rw taken (subst (λ o. IsValid (record s { spin = o })) taken v)
  ]
  step_at-IsValid freeing at = gives_back at

run-IsValid : (is : List ℕ) (s : Sleeplock) → IsValid s → IsValid (run is s)
unfolding run
run-IsValid [] s v = v
run-IsValid (i ∷ is) s v =
    run-IsValid is (step_at (s.pc i) i s) (step_at-IsValid s v i (s.pc i) refl)

initsleeplock-IsValid : IsValid initsleeplock
initsleeplock-IsValid = record {
  spin = λ i h. false-ne-true refl h;
  owner = λ i h. false-ne-true refl h;
  owned = λ h. false-ne-true refl h;
  woken = λ i h. false-ne-true refl h;
}

-- After any steps of any processes, `holdingsleep` tells a process that has the sleep lock so, and
-- no two processes have it.
pub run-exclusive :
    (is : List ℕ) (i j : ℕ)
    → owns ((run is initsleeplock).pc i) ≡ true
    → (holdingsleep i (run is initsleeplock) ≡ true)
      × (owns ((run is initsleeplock).pc j) ≡ true → i ≡ j)
run-exclusive is i j h =
    let v = run-IsValid is initsleeplock initsleeplock-IsValid in
    let (locked, mine) = v.owner i h in
    (rw (locked, eq→== (run is initsleeplock).pid i mine) refl, λ k. sym mine ∙ (v.owner j k).1)

-- After any steps of any processes, while one sleeps for the lock another has it, so that a wake-up
-- is still to come.
pub run-woken :
    (is : List ℕ) (i : ℕ)
    → (run is initsleeplock).pc i ≡ asleep
    → (j : ℕ) × (i ≢ j) × (owns ((run is initsleeplock).pc j) ≡ true)
run-woken is i at =
    let s = run is initsleeplock in
    let v = run-IsValid is initsleeplock initsleeplock-IsValid in
    let busy : owns (s.pc s.pid) ≡ true = v.owned (v.woken i (ap sleeping at)) in
    (s.pid, λ e. false-ne-true (sym (ap (λ k. owns (s.pc k)) e) ∙ ap owns at) busy, busy)
