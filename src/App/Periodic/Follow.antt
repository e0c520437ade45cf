-- ===== src/App/Periodic/Follow.antt =====
-- The coordinator follows a sensor that does not move while a run of the task reads it.
use pxbee_open_close.Prelude.{
  Bool, true, false, not, List, [], ◌∷◌, ◌≡◌, refl, sym, Bool-cases, inl, inr, arith,
}
use pxbee_open_close.App.Periodic.{Board, start, same}
use pxbee_open_close.App.Periodic.Pin.{Pin, gpio_get, run_task, run_steady}

-- Between two runs of the task the level of the sensor may move.
pub data Step : Board Pin → Board Pin → Type 0 where
  move : (b : Board Pin) (v : Bool) → Step b (record b { world = record b.world { rest = v } })
  task : (b : Board Pin) → Step b (run_task b)

pub data Reach (b : Board Pin) : Board Pin → Type 0 where
  here : Reach b b
  next : {c d : Board Pin} → Reach b c → Step c d → Reach b d

-- the device at the start of main, with the sensor at a level and nothing told yet
abbrev pub booted : Bool → Board Pin
booted v = start gpio_get (record { readings = []; rest = v; told = [] })

-- the newest level told, or, where none was told, the level that main showed on the LED
abbrev pub known : Bool → List Bool → Bool
known v [] = v
known v (t ∷ ts) = t

-- With the level `v` at the start of main: nothing was told and this is the level, or the newest
-- level told is the level.
abbrev pub Follows : Bool → List Bool → Bool → Type 0
Follows v [] level = level ≡ v
Follows v (t ∷ ts) level = level ≡ t

-- every level told differs from the one told before it, the first one from the level at the start
abbrev pub Alternates : Bool → List Bool → Type 0
Alternates v [] = Unit
Alternates v (t ∷ ts) = (t ≡ not (known v ts)) × Alternates v ts

pub record Inv (v : Bool) (b : Board Pin) : Type 0 where
  pub steady : b.world.readings ≡ []
  pub shows : b.led ≡ not (known v b.world.told)
  pub alternates : Alternates v b.world.told

same-true : (a b : Bool) → same a b ≡ true → a ≡ b
same-true true b h = ground arith
same-true false b h = ground arith

same-false : (a b : Bool) → same a b ≡ false → a ≡ not b
same-false true b h = ground arith
same-false false b h = ground arith

-- what a run of the task does in a state of the invariant
run_task-Inv :
    (v : Bool) (b : Board Pin)
    → Inv v b
    → Inv v (run_task b) × (known v (run_task b).world.told ≡ b.world.rest)
run_task-Inv v b i = elim (Bool-cases (same b.led b.world.rest)) [
  | inl changed ↦ rw ((run_steady b i.steady).1 (same-true b.led b.world.rest changed)) (
    record {
      steady = i.steady;
      shows = refl;
      alternates = (ground (arith, same-true b.led b.world.rest changed, i.shows), i.alternates);
    },
    refl,
  )
  | inr still ↦
      rw ((run_steady b i.steady).0 (same-false b.led b.world.rest still))
        (i, ground (arith, same-false b.led b.world.rest still, i.shows))
]

Step-Inv : {v : Bool} {b c : Board Pin} → Step b c → Inv v b → Inv v c
Step-Inv (move b u) i = record { steady = i.steady; shows = i.shows; alternates = i.alternates }
Step-Inv {v} (task b) i = (run_task-Inv v b i).0

Reach-Inv : (v : Bool) {b : Board Pin} → Reach (booted v) b → Inv v b
unfolding start gpio_get
Reach-Inv v here = record { steady = refl; shows = refl; alternates = tt }
Reach-Inv v (next r s) = Step-Inv s (Reach-Inv v r)

known-Follows : (v level : Bool) (told : List Bool) → known v told ≡ level → Follows v told level
known-Follows v level [] e = sym e
known-Follows v level (t ∷ ts) e = sym e

-- However the sensor moves between the runs of the task, and however often the task has run since
-- the start of main: after a further run the newest level that the coordinator was told is the level
-- that the sensor has, or it was told nothing at all since the start and the sensor has the level of
-- the start, which main shows on the LED and tells nobody. Every level told differs from the one
-- told before it, and the first one from the level of the start.
pub task-Follows :
    (v : Bool) {b : Board Pin}
    → Reach (booted v) b
    → Follows v (run_task b).world.told b.world.rest × Alternates v (run_task b).world.told
task-Follows v {b} r =
    let i = run_task-Inv v b (Reach-Inv v r) in
    (known-Follows v b.world.rest (run_task b).world.told i.1, i.0.alternates)
