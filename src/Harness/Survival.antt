-- ===== src/Harness/Survival.antt =====
-- An upgrade of src/engine.rs that crashes at any boundary of the model world, and the recovery
-- after it.
use k_carrier.Base.{ℕ, String, Bool, ◌≡◌, refl, ◌⊎◌, Option, none, arith}
use k_carrier.Engine.{Timer, next_seq, recover, upgrade}
use k_carrier.Engine.Safe.{Settled}
use k_carrier.Engine.Survival.{Restored, Calm, upgrade-recover}
use k_carrier.Harness.{World, inject_crash, fake_engine}
use k_carrier.Harness.Clean.{Clean}
use k_carrier.Harness.Boundary.{view_of}
use k_carrier.Harness.Keeps.{AtOnce, fake_contract}
use k_carrier.Harness.Simulation.Stands.{inject_crash-Clean}

module _ (timer : Timer World) (self_pid : ℕ) (refuse : Bool) (now : ℕ)
    (at_once : AtOnce timer) where
  mended :
      (w : World)
      → Clean w
      → Clean (inject_crash none w)
        × (view_of (inject_crash none w) ≡ view_of w)
        × Calm (fake_contract timer self_pid refuse now at_once) (inject_crash none w)
  unfolding inject_crash fake_contract
  mended w h = (inject_crash-Clean none w h, refl, λ x b. ground (arith, b))

  -- A crash at any boundary `at` of an upgrade from a settled world at `s` to `t`, or at none:
  -- a recovery without a crash returns, and the service is settled at `s` or at `t`, with no
  -- built-in invariant violated.
  pub crash-recover :
      (s t bytes : String) (at : Option ℕ) (w : World)
      → Clean w
      → Settled s (view_of w)
      → Restored (fake_contract timer self_pid refuse now at_once) s (
          recover (fake_engine timer self_pid refuse now) (record {
            seq = 0;
            world =
                inject_crash none
                  (upgrade
                    (fake_engine timer self_pid refuse now)
                    t
                    bytes
                    (record { seq = next_seq w.journal; world = inject_crash at w })).1.world;
          }))
        ⊎ Restored (fake_contract timer self_pid refuse now at_once) t (
            recover (fake_engine timer self_pid refuse now) (record {
              seq = 0;
              world =
                  inject_crash none
                    (upgrade
                      (fake_engine timer self_pid refuse now)
                      t
                      bytes
                      (record { seq = next_seq w.journal; world = inject_crash at w })).1.world;
            }))
  unfolding inject_crash fake_contract
  crash-recover s t bytes at w h rest =
      upgrade-recover (fake_contract timer self_pid refuse now at_once) s t bytes
        (record { seq = next_seq w.journal; world = inject_crash at w }) (inject_crash-Clean at w h)
        rest refl (inject_crash none) mended 0
