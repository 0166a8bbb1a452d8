-- ===== src/Log/Recover/Restarts.antt =====
-- Starts one after another, each of which may fail before the log has been recovered.
use os2_project.Base.{ℕ, ◌≤◌, ◌<◌, ◌≡◌, ◌≢◌, refl, ap, ◌∙◌, arith, List, [], ◌∷◌}
use os2_project.Raid.Types.{Block}
use os2_project.Log.{Log, Outcome, done, crash, sleeps, panics, initlog, boot}
use os2_project.Log.Redo.{Ends, redo, head_n, head_block, restored, IsLogged}
use os2_project.Log.Recover.{Again, Recovered, initlog-Ends}

-- The disk that a call leaves.
abbrev pub left_by : {A : Type 0} → (ℕ → Block) → Outcome A → ℕ → Block
left_by d (done a s) = s.disk
left_by d (crash d') = d'
left_by d sleeps = d
left_by d panics = d

-- A call that cannot lose its power returns.
pub Ends-done :
    (P : (ℕ → Block) → Type 0) (Q : Log → Type 0) (o : Outcome (Unit {0}))
    → Ends P Q o
    → ((d : ℕ → Block) → ¬ P d)
    → (s : Log) × (o ≡ done tt s) × Q s
Ends-done P Q (done a s) h never = (s, refl, h)
Ends-done P Q (crash d) h never = absurd (never d h)
Ends-done P Q sleeps h never = absurd h
Ends-done P Q panics h never = absurd h

module _ (start size : ℕ) where
  -- The disk after starts with as much power as the list tells.
  unfoldable pub restarts : List ℕ → (ℕ → Block) → ℕ → Block
  restarts [] d = d
  restarts (p ∷ ps) d = restarts ps (left_by d (initlog start size (boot d p)))

  -- The disk `d'` has a log that stands for what that of `d` does.
  pub record Keeps (d d' : ℕ → Block) : Type 0 where
    pub logged : IsLogged start size d'
    pub same : (b : ℕ) → b ≢ start → restored start size d' b ≡ restored start size d b
    pub fewer : head_n start size d' ≤ head_n start size d

  Recovered-Keeps :
      (d : ℕ → Block) (g : IsLogged start size d) (p : ℕ) (s : Log)
      → Recovered start size d g p s
      → Keeps d s.disk
  Recovered-Keeps d g p s r = record {
    logged = record {
      fits = omega (arith, r.empty, g.fits);
      homes = λ k lt. absurd (omega (arith, r.empty));
    };
    same = λ b ne.
        ap (λ n. redo start size n (head_block start size s.disk) s.disk b) r.empty ∙ r.disk b ne;
    fewer = omega (arith, r.empty);
  }

  left-Keeps :
      (d : ℕ → Block) (g : IsLogged start size d) (p : ℕ) (o : Outcome (Unit {0}))
      → Ends (Again start size d g p) (Recovered start size d g p) o
      → Keeps d (left_by d o)
  left-Keeps d g p (done a s) r = Recovered-Keeps d g p s r
  left-Keeps d g p (crash d') w = record {
    logged = w.logged;
    same = λ b ne. w.same b;
    fewer = omega (arith, w.count);
  }
  left-Keeps d g p sleeps h = absurd h
  left-Keeps d g p panics h = absurd h

  pub restarts-Keeps :
      (ps : List ℕ) (d : ℕ → Block) → IsLogged start size d → Keeps d (restarts ps d)
  unfolding restarts
  restarts-Keeps [] d g = record { logged = g; same = λ b ne. refl; fewer = omega arith }
  restarts-Keeps (p ∷ ps) d g =
      let o = initlog start size (boot d p) in
      let k = left-Keeps d g p o (initlog-Ends start size d g p) in
      let l = restarts-Keeps ps (left_by d o) k.logged in
      record {
        logged = l.logged;
        same = λ b ne. l.same b ne ∙ k.same b ne;
        fewer = omega (arith, l.fewer, k.fewer);
      }

  -- After any number of starts that the power may cut short, a start on a disk with a log in order
  -- and with power for more writes than the log has entries returns: every block but the header is
  -- as the logged blocks installed make it, the log is empty, and the buffers are as the disk.
  pub initlog-restarts :
      (ps : List ℕ) (d : ℕ → Block) (p : ℕ)
      → IsLogged start size d
      → head_n start size d < p
      → (s : Log) × (initlog start size (boot (restarts ps d) p) ≡ done tt s)
        × ((b : ℕ) → b ≢ start → s.disk b ≡ restored start size d b)
        × (head_n start size s.disk ≡ 0)
        × ((b : ℕ) → s.buf b ≡ s.disk b)
  initlog-restarts ps d p g enough =
      let k = restarts-Keeps ps d g in
      let d' = restarts ps d in
      let (s, run, r) =
        Ends-done (Again start size d' k.logged p) (Recovered start size d' k.logged p)
          (initlog start size (boot d' p)) (initlog-Ends start size d' k.logged p)
          (λ e w. absurd (omega (arith, w.short, k.fewer))) in
      (s, run, λ b ne. r.disk b ne ∙ k.same b ne, r.empty, r.clean)
