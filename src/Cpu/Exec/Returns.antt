-- ===== src/Cpu/Exec/Returns.antt =====
-- What it takes for an action in two parts to return.
use ish_port_go.Prelude.{◌≡◌, refl, Result, ok, err}
use ish_port_go.Cpu.{Cpu}
use ish_port_go.Cpu.Exec.{Exec, resume}

module _ {F A B : Type 0} where
  -- An action that returns has returned from its first part.
  pub resume-inv :
      (next : A → Exec F B) (r : Result A × Cpu F) (b : B) (d : Cpu F)
      → resume next r ≡ (ok b, d)
      → (a : A) × (c : Cpu F) × (r ≡ (ok a, c)) × (next a c ≡ (ok b, d))
  unfolding resume
  resume-inv next (ok a, c) b d e = (a, c, refl, e)
  resume-inv next (err e, c) b d stop = absurd (cc)
